-- ===== src/Bits.antt =====
-- Single bits of a byte: what `byte | (1 << bit)`, `byte & ~(1 << bit)` and `byte & (1 << bit)` do,
-- for the bitmaps of fs/bitmap.c and mm/page.c. A `char` is its pattern of 8 bits.
pub mod Digits
use ox.Base.{
  ℕ, zero, suc, ◌-◌, ◌/◌, ◌^◌, ◌<◌, ◌≡◌, refl, Bool, true, false, ◌&&◌, bit_and, bit_or, arith, ltb,
  ◌==◌, if◌then◌else◌,
}

-- `byte | (1 << bit)`.
abbrev pub with_bit : ℕ → ℕ → ℕ
with_bit byte bit = bit_or byte (2 ^ bit)

-- `byte & ~(1 << bit)`.
abbrev pub without_bit : ℕ → ℕ → ℕ
without_bit byte bit = bit_and byte (255 - 2 ^ bit)

-- `(byte & (1 << bit)) >> bit`.
abbrev pub bit_at : ℕ → ℕ → ℕ
bit_at byte bit = bit_and byte (2 ^ bit) / 2 ^ bit

-- A test on the numbers before a limit.
unfoldable pub each : (ℕ → Bool) → ℕ → Bool
each test zero = true
each test (suc limit) = if test limit then each test limit else false

pub each-at : (test : ℕ → Bool) (limit n : ℕ) → each test limit ≡ true → n < limit → test n ≡ true
unfolding each
each-at test zero n passed inside = absurd (omega arith)
each-at test (suc limit) n passed inside = ground (arith, each-at test limit n)

-- The facts of one byte and two bit numbers, as a test.
one_case : ℕ → ℕ → ℕ → Bool
one_case byte bit other =
    (bit_at (with_bit byte bit) other == (if other == bit then 1 else bit_at byte other))
    && (bit_at (without_bit byte bit) other == (if other == bit then 0 else bit_at byte other))
    && ltb (with_bit byte bit) 256
    && ltb (without_bit byte bit) 256
    && ltb (bit_at byte other) 2
    && ((if bit_and byte (2 ^ other) == 0 then 0 else 1) == bit_at byte other)

bit_table : each (λ byte. each (λ bit. each (one_case byte bit) 8) 8) 256 ≡ true
unfolding each one_case
bit_table = refl

one_case-true :
    (byte bit other : ℕ) → byte < 256 → bit < 8 → other < 8 → one_case byte bit other ≡ true
one_case-true byte bit other h hb ho =
    let row = each-at (λ b. each (λ c. each (one_case b c) 8) 8) 256 byte bit_table h in
    let column = each-at (λ c. each (one_case byte c) 8) 8 bit row hb in
    each-at (one_case byte bit) 8 other column ho

module _ (byte bit other : ℕ) (h : byte < 256) (hb : bit < 8) (ho : other < 8) where
  pub bit_at-with_bit :
      bit_at (with_bit byte bit) other ≡ (if other == bit then 1 else bit_at byte other)
  unfolding one_case
  bit_at-with_bit = ground (arith, one_case-true byte bit other h hb ho)

  pub bit_at-without_bit :
      bit_at (without_bit byte bit) other ≡ (if other == bit then 0 else bit_at byte other)
  unfolding one_case
  bit_at-without_bit = ground (arith, one_case-true byte bit other h hb ho)

  pub with_bit-lt : with_bit byte bit < 256
  unfolding one_case
  with_bit-lt = ground (arith, one_case-true byte bit other h hb ho)

  pub without_bit-lt : without_bit byte bit < 256
  unfolding one_case
  without_bit-lt = ground (arith, one_case-true byte bit other h hb ho)

  pub bit_at-lt : bit_at byte other < 2
  unfolding one_case
  bit_at-lt = ground (arith, one_case-true byte bit other h hb ho)

  -- `if(byte & (1 << bit))`.
  pub masked_test : (if bit_and byte (2 ^ other) == 0 then 0 else 1) ≡ bit_at byte other
  unfolding one_case
  masked_test = ground (arith, one_case-true byte bit other h hb ho)
