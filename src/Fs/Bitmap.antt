-- ===== src/Fs/Bitmap.antt =====
-- fs/bitmap.c: single bits of a stream of `char`.
use ox.Base.{ℕ, ◌/◌, ◌%◌, ◌^◌, ◌<◌, ◌≡◌, ◌∙◌, arith, bit_and, ◌==◌, if◌then◌else◌, update}
use ox.Bits.{
  with_bit, without_bit, bit_at, bit_at-with_bit, bit_at-without_bit, with_bit-lt, without_bit-lt,
  masked_test,
}

unfoldable pub bit_get : (ℕ → ℕ) → ℕ → ℕ
bit_get data' bit = if bit_and (data' (bit / 8)) (2 ^ (bit % 8)) == 0 then 0 else 1

-- A value that is neither 0 nor 1 changes nothing.
unfoldable pub bit_set : (ℕ → ℕ) → ℕ → ℕ → ℕ → ℕ
bit_set data' bit value =
    if value == 0
    then update data' (bit / 8) (without_bit (data' (bit / 8)) (bit % 8))
    else if value == 1
    then update data' (bit / 8) (with_bit (data' (bit / 8)) (bit % 8))
    else data'

abbrev pub IsBytes : (ℕ → ℕ) → Type 0
IsBytes data' = (i : ℕ) → data' i < 256

bit_get_lem :
    (data' : ℕ → ℕ) (bit : ℕ)
    → IsBytes data'
    → bit_get data' bit ≡ bit_at (data' (bit / 8)) (bit % 8)
unfolding bit_get
bit_get_lem data' bit is =
    masked_test (data' (bit / 8)) 0 (bit % 8) (is _) (omega arith) (omega arith)

pub bit_set-IsBytes :
    (data' : ℕ → ℕ) (bit value : ℕ) → IsBytes data' → IsBytes (bit_set data' bit value)
unfolding bit_set
bit_set-IsBytes data' bit value is i = ground (
  arith,
  is i,
  with_bit-lt (data' i) (bit % 8) 0 (is i) (omega arith) (omega arith),
  without_bit-lt (data' i) (bit % 8) 0 (is i) (omega arith) (omega arith),
)

bit_at-bit_set :
    (data' : ℕ → ℕ) (bit value other : ℕ)
    → IsBytes data'
    → value < 2
    → bit_at (bit_set data' bit value (other / 8)) (other % 8)
      ≡ (if other == bit then value else bit_at (data' (other / 8)) (other % 8))
unfolding bit_set
bit_at-bit_set data' bit value other is small = ground (
  arith,
  bit_at-with_bit (data' (bit / 8)) (bit % 8) (other % 8) (is _) (omega arith) (omega arith),
  bit_at-without_bit (data' (bit / 8)) (bit % 8) (other % 8) (is _) (omega arith) (omega arith),
)

-- For a stream of bytes and a value of 0 or 1: after bit_set of a bit, bit_get of that bit is the
-- value and bit_get of every other bit is what it was.
pub bit_get-bit_set :
    (data' : ℕ → ℕ) (bit value other : ℕ)
    → IsBytes data'
    → value < 2
    → bit_get (bit_set data' bit value) other
      ≡ (if other == bit then value else bit_get data' other)
bit_get-bit_set data' bit value other is small =
    bit_get_lem (bit_set data' bit value) other (bit_set-IsBytes data' bit value is)
    ∙ bit_at-bit_set data' bit value other is small
    ∙ ground (arith, bit_get_lem data' other is)

-- Only the byte of the bit counts.
pub bit_get-same :
    (data' data'' : ℕ → ℕ) (bit : ℕ)
    → data' (bit / 8) ≡ data'' (bit / 8)
    → bit_get data' bit ≡ bit_get data'' bit
unfolding bit_get
bit_get-same data' data'' bit same = ground (arith, same)
