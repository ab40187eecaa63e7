-- ===== src/Libk/Ultostr.antt =====
-- libk/ultostr.c. A C string is the list of its characters before the NUL. The digits that the loop
-- stacks in `tbuf` are the list that it copies back, last digit on top. A `long` is a word.
use ox.Base.{
  ℕ, zero, suc, ◌+◌, ◌-◌, ◌/◌, ◌%◌, ◌^◌, ◌&&◌, ◌||◌, List, [], ◌∷◌, ◌++◌, ◌==◌, leb, if◌then◌else◌,
  length, is_negative,
}

abbrev pub dec : ℕ
dec = 10

abbrev pub oct : ℕ
oct = 8

abbrev pub hex : ℕ
hex = 16

-- `(tmp >= 0xA) ? tmp - 0xA + 'A' : tmp + '0'`.
unfoldable pub digit_char : ℕ → ℕ
digit_char tmp = if leb 0xA tmp then tmp - 0xA + b'A' else tmp + b'0'

-- `while(val)`, on fuel, over what is stacked.
unfoldable pub digits_loop : ℕ → ℕ → ℕ → List ℕ → List ℕ
digits_loop zero val base tbuf = tbuf
digits_loop (suc fuel) val base tbuf =
    let rest = digits_loop fuel (val / base) base (digit_char (val % base) ∷ tbuf) in
    if val == 0 then tbuf else rest

-- The characters that the call writes before the digits.
unfoldable pub prefix : ℕ → List ℕ
prefix base = if base == oct then b'0' ∷ [] else if base == hex then b'0' ∷ b'x' ∷ [] else []

-- The text and the length that it returns, for a buffer that is given. A round divides `val`, so
-- `val` rounds are enough.
unfoldable pub ultostr : ℕ → ℕ → List ℕ × ℕ
ultostr val base0 =
    let base = if base0 == 0 then dec else base0 in
    let text = prefix base ++ (if val == 0 then b'0' ∷ [] else digits_loop val val base []) in
    (text, length text)

-- `-val` of a word.
abbrev pub negate : ℕ → ℕ
negate val = (2 ^ 32 - val) % 2 ^ 32

unfoldable pub ltostr : ℕ → ℕ → List ℕ × ℕ
ltostr val base =
    if is_negative val && (base == dec || base == 0)
    then (let (text, n) = ultostr (negate val) dec in (b'-' ∷ text, n + 1))
    else ultostr val base

unfoldable pub itoa : ℕ → List ℕ × ℕ
itoa val = ltostr val dec
