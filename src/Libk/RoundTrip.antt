-- ===== src/Libk/RoundTrip.antt =====
-- The conversions of libk/ultostr.c and libk/strtoul.c, one after the other.
use ox.Base.{
  ℕ, zero, suc, ◌+◌, ◌*◌, ◌/◌, ◌%◌, ◌^◌, ◌≤◌, ◌<◌, ◌≡◌, refl, ◌∙◌, ap, inl, inr, ◌⊎◌, true, false,
  List, [], ◌∷◌, arith, ◌==◌, if◌then◌else◌, Bool-cases, is_negative,
}
use native.Mathlib.Nat.{div-add-mod', mod-lt}
use ox.Libk.Ctype.{isxdigit}
use ox.Libk.Ultostr.{dec, oct, hex, digit_char, digits_loop, prefix, ultostr, negate, ltostr, itoa}
use ox.Libk.Strtoul.{value, classify, accumulate, after_zero, detect, strtoul, strtol, atoi}

classify-digit_char : (d : ℕ) → d < 16 → classify (digit_char d) ≡ value d
unfolding classify digit_char
classify-digit_char d h = ground arith

double : (q b : ℕ) → 1 < b → q * 2 ≤ q * b
double q b h = grind arith

quotient_halves : (val base : ℕ) → 1 < base → val / base * 2 ≤ val
quotient_halves val base h = omega (arith, double (val / base) base h, div-add-mod' val base)

mod_small : (val base : ℕ) → 1 < base → base < 17 → val % base < 16
mod_small val base h k = omega (arith, mod-lt val {m = base} (omega arith))

accumulate-value :
    (base res d : ℕ) (cs : List ℕ)
    → d < 16
    → accumulate base res (digit_char d ∷ cs) ≡ accumulate base ((res * base + d) % 2 ^ 32) cs
unfolding accumulate
accumulate-value base res d cs h = rw (classify-digit_char d h, accumulate)

-- The digits of a number that fits, before more text: the loop has the number when it comes to
-- that text.
accumulate-digits_loop :
    (fuel val base : ℕ) (rest : List ℕ)
    → val ≤ fuel
    → val < 2 ^ 32
    → 1 < base
    → base < 17
    → accumulate base 0 (digits_loop fuel val base rest) ≡ accumulate base val rest
unfolding digits_loop
accumulate-digits_loop zero val base rest h w b c = let e : val ≡ 0 = omega arith in rw e
accumulate-digits_loop (suc fuel) val base rest h w b c = elim (Bool-cases (val == 0)) [
  | inl done ↦ let e : val ≡ 0 = ground arith in rw e
  | inr more ↦
      let half = quotient_halves val base b in
      let pos : 0 < val = ground arith in
      let whole : (val / base * base + val % base) % 2 ^ 32 ≡ val =
        omega (arith, div-add-mod' val base) in
      rw (more, digits_loop)
        (accumulate-digits_loop fuel (val / base) base (digit_char (val % base) ∷ rest)
            (omega arith) (omega arith) b c
          ∙ accumulate-value base (val / base) (val % base) rest (mod_small val base b c)
          ∙ rw whole)
]

-- The text of a number, after its prefix.
abbrev digits : ℕ → ℕ → List ℕ
digits val base = if val == 0 then b'0' ∷ [] else digits_loop val val base []

accumulate-digits :
    (val base : ℕ)
    → val < 2 ^ 32
    → 1 < base
    → base < 17
    → accumulate base 0 (digits val base) ≡ (val, [])
unfolding digit_char accumulate
accumulate-digits val base w b c = elim (Bool-cases (val == 0)) [
  | inl nought ↦
      let e : val ≡ 0 = ground arith in
      rw e (accumulate-value base 0 0 [] (omega arith) ∙ ap (λ r. (r, [])) (omega arith))
  | inr more ↦ rw more (accumulate-digits_loop val val base [] (omega arith) w b c)
]

-- The bases that the prefix tells apart.
abbrev pub IsBase : ℕ → Type 0
IsBase base = (base ≡ dec) ⊎ (base ≡ oct) ⊎ (base ≡ hex)

-- A word that ultostr writes in base 10, 8 or 16 is read back by strtoul given that base: the
-- value is the word and the end pointer is at the end of the text.
pub strtoul-ultostr :
    (val base : ℕ) → val < 2 ^ 32 → IsBase base → strtoul (ultostr val base).0 base ≡ (val, [])
unfolding strtoul ultostr prefix accumulate classify
strtoul-ultostr val base w (inl e) = rw e (accumulate-digits val 10 w (omega arith) (omega arith))
strtoul-ultostr val base w (inr (inl e)) =
    rw e (accumulate-digits val 8 w (omega arith) (omega arith))
strtoul-ultostr val base w (inr (inr e)) =
    rw e (accumulate-digits val 16 w (omega arith) (omega arith))

-- A text that begins with the character of a digit.
abbrev Begins : (ℕ → Type 0) → List ℕ → Type 0
Begins P text = (d : ℕ) × (rest : List ℕ) × (d < 16) × P d × (text ≡ digit_char d ∷ rest)

digits_loop-Begins :
    (fuel val base : ℕ) (rest : List ℕ)
    → val ≤ fuel
    → 0 < val
    → 1 < base
    → base < 17
    → Begins (λ d. 0 < d) (digits_loop fuel val base rest)
unfolding digits_loop
digits_loop-Begins zero val base rest h pos b c = absurd (omega arith)
digits_loop-Begins (suc fuel) val base rest h pos b c =
    let more : (val == 0) ≡ false = ground arith in
    let half = quotient_halves val base b in
    elim (Bool-cases (val / base == 0)) [
      | inr deeper ↦
          rw (more, digits_loop)
            (digits_loop-Begins fuel (val / base) base (digit_char (val % base) ∷ rest)
              (omega arith) (ground arith) b c)
      | inl top ↦
          let none_left : val / base ≡ 0 = ground arith in
          (
            val % base,
            rest,
            mod_small val base b c,
            grind (arith, div-add-mod' val base),
            rw (more, none_left, digits_loop) (digits_loop_zero fuel base _),
          )
    ]
  where
    digits_loop_zero : (fuel base : ℕ) (tbuf : List ℕ) → digits_loop fuel 0 base tbuf ≡ tbuf
    digits_loop_zero zero base tbuf = refl
    digits_loop_zero (suc fuel) base tbuf = refl

digits-Begins :
    (val base : ℕ) → 1 < base → base < 17 → (val ≡ 0) ⊎ Begins (λ d. 0 < d) (digits val base)
digits-Begins val base b c = elim (Bool-cases (val == 0)) [
  | inl nought ↦ inl (ground arith)
  | inr more ↦ inr (rw more (digits_loop-Begins val val base [] (omega arith) (ground arith) b c))
]

digit_char_tests :
    (d : ℕ)
    → d < 16
    → (isxdigit (digit_char d) ≡ true)
      × ((digit_char d == b'x') ≡ false)
      × (0 < d → (digit_char d == b'0') ≡ false)
unfolding digit_char
digit_char_tests d h = (ground arith, ground arith, λ p. ground arith)

nought_left : accumulate oct 0 [] ≡ (0, [])
unfolding accumulate
nought_left = refl

nought_text : (base : ℕ) → accumulate base 0 (b'0' ∷ []) ≡ (0, [])
unfolding accumulate classify
nought_text base = ap (λ r. (r, [])) (omega arith)

-- A word that ultostr writes in base 10, 8 or 16 is read back to the end of its text by strtoul
-- given base 0, which recognises the base from the prefix.
pub strtoul_detects :
    (val base : ℕ) → val < 2 ^ 32 → IsBase base → strtoul (ultostr val base).0 0 ≡ (val, [])
unfolding strtoul ultostr prefix detect after_zero
strtoul_detects val base w (inl e) = elim (digits-Begins val 10 (omega arith) (omega arith)) [
  | inl nought ↦ rw (e, nought) nought_left
  | inr (d, rest, h, pos, text) ↦
      let other = (digit_char_tests d h).2 pos in
      let whole : accumulate 10 0 (digit_char d ∷ rest) ≡ (val, []) =
        rw (← text) (accumulate-digits val 10 w (omega arith) (omega arith)) in
      rw e (rw text (rw other whole))
]
strtoul_detects val base w (inr (inl e)) = elim (digits-Begins val 8 (omega arith) (omega arith)) [
  | inl nought ↦ rw (e, nought) (nought_text 8)
  | inr (d, rest, h, pos, text) ↦
      let whole : accumulate 8 0 (digit_char d ∷ rest) ≡ (val, []) =
        rw (← text) (accumulate-digits val 8 w (omega arith) (omega arith)) in
      rw e (rw text (rw ((digit_char_tests d h).1) whole))
]
strtoul_detects val base w (inr (inr e)) = elim (digits-Begins val 16 (omega arith) (omega arith)) [
  | inl nought ↦ rw (e, nought) (nought_text 16)
  | inr (d, rest, h, pos, text) ↦
      let whole : accumulate 16 0 (digit_char d ∷ rest) ≡ (val, []) =
        rw (← text) (accumulate-digits val 16 w (omega arith) (omega arith)) in
      rw e (rw text (rw ((digit_char_tests d h).0) whole))
]

-- The text of a number in base ten has no sign for `strtol` to take.
strtol-ultostr : (val : ℕ) → strtol (ultostr val dec).0 dec ≡ strtoul (ultostr val dec).0 dec
unfolding strtol ultostr prefix digit_char
strtol-ultostr val = elim (digits-Begins val 10 (omega arith) (omega arith)) [
  | inl nought ↦ rw nought refl
  | inr (d, rest, h, pos, text) ↦
      let unsigned : (digit_char d == b'-') ≡ false = ground arith in rw text (rw unsigned refl)
]

-- Any word that itoa writes, as the int that it stands for, is read back by atoi, the negative
-- ones with their sign.
pub atoi-itoa : (val : ℕ) → val < 2 ^ 32 → atoi (itoa val).0 ≡ val
unfolding atoi strtol itoa ltostr
atoi-itoa val w = elim (Bool-cases (is_negative val)) [
  | inl minus ↦
      let small : negate val < 2 ^ 32 = omega arith in
      let back : negate (negate val) ≡ val = ground arith in
      rw minus (rw (strtoul-ultostr (negate val) dec small (inl refl)) back)
  | inr plus ↦ rw plus (ap (λ r. r.0) (strtol-ultostr val ∙ strtoul-ultostr val dec w (inl refl)))
]
