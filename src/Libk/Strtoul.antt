-- ===== src/Libk/Strtoul.antt =====
-- libk/strtoul.c. A C string is the list of its characters before the NUL; reading at its end gives
-- the NUL, which no test accepts. A `long` is a word.
use ox.Base.{
  ℕ, ◌+◌, ◌-◌, ◌*◌, ◌%◌, ◌^◌, Bool, false, ◌&&◌, ◌||◌, List, [], ◌∷◌, ◌==◌, leb, if◌then◌else◌,
}
use ox.Libk.Ctype.{isdigit, islower, isupper, isxdigit}
use ox.Libk.Ultostr.{dec, oct, hex, negate}

-- What a round of the loop does with a character: take its value, pass it, or leave the loop.
pub data Round : Type 0 where
  value : ℕ → Round
  pass : Round
  leave : Round

unfoldable pub classify : ℕ → Round
classify c =
    if isdigit c
    then value (c - b'0')
    else if islower c && (leb b'a' c && leb c b'f')
    then value (c - b'a' + 10)
    else if isupper c && (leb b'A' c && leb c b'F')
    then value (c - b'A' + 10)
    else if c == b'0' || c == b'x'
    then pass
    else leave

-- The loop: the value, and what the end pointer points at.
unfoldable pub accumulate : ℕ → ℕ → List ℕ → ℕ × List ℕ
accumulate base res [] = (res, [])
accumulate base res (c ∷ cs) = elim (classify c) [
  | value val ↦ accumulate base ((res * base + val) % 2 ^ 32) cs
  | pass ↦ accumulate base res cs
  | leave ↦ (res, c ∷ cs)
]

-- `isxdigit(*p)`.
abbrev pub starts_hex : List ℕ → Bool
starts_hex [] = false
starts_hex (c ∷ cs) = isxdigit c

-- After a leading zero of a string with no base given.
unfoldable pub after_zero : List ℕ → ℕ × List ℕ
after_zero [] = (oct, [])
after_zero (c ∷ cs) = if c == b'x' && starts_hex cs then (hex, cs) else (oct, c ∷ cs)

unfoldable pub detect : List ℕ → ℕ × List ℕ
detect [] = (dec, [])
detect (c ∷ cs) = if c == b'0' then after_zero cs else (dec, c ∷ cs)

unfoldable pub strtoul : List ℕ → ℕ → ℕ × List ℕ
strtoul charp base0 =
    let (base, start) = if base0 == 0 then detect charp else (base0, charp) in
    accumulate base 0 start

unfoldable pub strtol : List ℕ → ℕ → ℕ × List ℕ
strtol [] base = strtoul [] base
strtol (c ∷ cs) base =
    if c == b'-'
    then (let (res, end) = strtoul cs base in (negate res, end))
    else strtoul (c ∷ cs) base

-- `(int)` of a word is the word.
unfoldable pub atoi : List ℕ → ℕ
atoi charp = (strtol charp dec).0
