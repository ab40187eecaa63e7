-- ===== src/Bits/Digits.antt =====
-- The binary digits of a word of any width: what `|`, `&` and a mask of one bit do, digit by digit.
use ox.Base.{
  ℕ, zero, suc, ◌+◌, ◌*◌, ◌/◌, ◌%◌, ◌^◌, ◌≤◌, ◌<◌, ◌≡◌, refl, sym, ◌∙◌, ap, ◌==◌, if◌then◌else◌,
  bit_and, bit_or, arith, inl, inr, Bool-cases,
}
use Prim.Native.Nat.{digits, min, max, bit_and-bitwise, bit_or-bitwise}

-- Digit k of a number.
unfoldable pub digit : ℕ → ℕ → ℕ
digit zero a = a % 2
digit (suc k) a = digit k (a / 2)

digits_fuel :
    (z : ℕ → ℕ) (f : ℕ → ℕ → ℕ) (n m a b : ℕ) → a ≤ n → a ≤ m → digits z f n a b ≡ digits z f m a b
digits_fuel z f zero zero zero b h k = refl
digits_fuel z f zero (suc m) zero b h k = refl
digits_fuel z f (suc n) zero zero b h k = refl
digits_fuel z f (suc n) (suc m) zero b h k = refl
digits_fuel z f zero m (suc a) b h k = absurd (omega arith)
digits_fuel z f (suc n) zero (suc a) b h k = absurd (omega arith)
digits_fuel z f (suc n) (suc m) (suc a) b h k =
    ap (λ d. d * 2 + f (suc a % 2) (b % 2))
      (digits_fuel z f n m (suc a / 2) (b / 2) (omega arith) (omega arith))

and_step : (a b : ℕ) → bit_and a b ≡ bit_and (a / 2) (b / 2) * 2 + min (a % 2) (b % 2)
and_step zero b =
    let none_left : bit_and 0 b ≡ 0 = bit_and-bitwise 0 b in
    let none_half : bit_and 0 (b / 2) ≡ 0 = bit_and-bitwise 0 (b / 2) in omega arith
and_step (suc a) b =
    bit_and-bitwise (suc a) b
    ∙ ap (λ d. d * 2 + min (suc a % 2) (b % 2))
        (digits_fuel (λ b. zero) min a (suc a / 2) (suc a / 2) (b / 2) (omega arith) (omega arith)
          ∙ sym (bit_and-bitwise (suc a / 2) (b / 2)))

or_step : (a b : ℕ) → bit_or a b ≡ bit_or (a / 2) (b / 2) * 2 + max (a % 2) (b % 2)
or_step zero b =
    let all_left : bit_or 0 b ≡ b = bit_or-bitwise 0 b in
    let all_half : bit_or 0 (b / 2) ≡ b / 2 = bit_or-bitwise 0 (b / 2) in omega arith
or_step (suc a) b =
    bit_or-bitwise (suc a) b
    ∙ ap (λ d. d * 2 + max (suc a % 2) (b % 2))
        (digits_fuel (λ b. b) max a (suc a / 2) (suc a / 2) (b / 2) (omega arith) (omega arith)
          ∙ sym (bit_or-bitwise (suc a / 2) (b / 2)))

pub digit-lt : (k a : ℕ) → digit k a < 2
unfolding digit
digit-lt zero a = omega arith
digit-lt (suc k) a = digit-lt k (a / 2)

pub digit-bit_or : (k a b : ℕ) → digit k (bit_or a b) ≡ max (digit k a) (digit k b)
unfolding digit
digit-bit_or zero a b = omega (arith, or_step a b)
digit-bit_or (suc k) a b =
    let half : bit_or a b / 2 ≡ bit_or (a / 2) (b / 2) = omega (arith, or_step a b) in
    ap (digit k) half ∙ digit-bit_or k (a / 2) (b / 2)

pub digit-bit_and : (k a b : ℕ) → digit k (bit_and a b) ≡ min (digit k a) (digit k b)
unfolding digit
digit-bit_and zero a b = omega (arith, and_step a b)
digit-bit_and (suc k) a b =
    let half : bit_and a b / 2 ≡ bit_and (a / 2) (b / 2) = omega (arith, and_step a b) in
    ap (digit k) half ∙ digit-bit_and k (a / 2) (b / 2)

power_pos : (k : ℕ) → 1 ≤ 2 ^ k
power_pos zero = omega arith
power_pos (suc k) = omega (arith, power_pos k)

pub digit-zero : (k : ℕ) → digit k 0 ≡ 0
unfolding digit
digit-zero zero = refl
digit-zero (suc k) = digit-zero k

zero-and : (b : ℕ) → bit_and 0 b ≡ 0
zero-and b = bit_and-bitwise 0 b

-- A mask of one bit.
pub mask-and : (k a : ℕ) → bit_and (2 ^ k) a ≡ digit k a * 2 ^ k
unfolding digit
mask-and zero a = omega (arith, and_step 1 a, zero-and (a / 2))
mask-and (suc k) a =
    let half : 2 ^ suc k / 2 ≡ 2 ^ k = omega arith in
    let even : 2 ^ suc k % 2 ≡ 0 = omega arith in
    and_step (2 ^ suc k) a ∙ rw (half, even) (rw (mask-and k (a / 2)) (grind arith))

and_comm_fuel : (n a b : ℕ) → a + b ≤ n → bit_and a b ≡ bit_and b a
and_comm_fuel zero a b h =
    let left : a ≡ 0 = omega arith in let right : b ≡ 0 = omega arith in rw (left, right) refl
and_comm_fuel (suc n) a b h = elim (Bool-cases (a + b == 0)) [
  | inl none_left ↦ and_comm_fuel n a b (ground arith)
  | inr some_left ↦
      omega (arith, and_step a b, and_step b a, and_comm_fuel n (a / 2) (b / 2) (ground arith))
]

pub and_comm : (a b : ℕ) → bit_and a b ≡ bit_and b a
and_comm a b = and_comm_fuel (a + b) a b (omega arith)

-- A test of one bit.
pub mask-test : (k a : ℕ) → (bit_and (2 ^ k) a == 0) ≡ (digit k a == 0)
mask-test k a = grind (arith, mask-and k a, digit-lt k a, power_pos k)

pub mask-test' : (k a : ℕ) → (bit_and a (2 ^ k) == 0) ≡ (digit k a == 0)
mask-test' k a = ap (λ x. x == 0) (and_comm a (2 ^ k)) ∙ mask-test k a

-- A shift to the left.
pub digit-shift : (k a : ℕ) → digit (suc k) (a * 2) ≡ digit k a
unfolding digit
digit-shift k a = let half : a * 2 / 2 ≡ a = omega arith in ap (digit k) half

pub digit-power : (k j : ℕ) → digit k (2 ^ j) ≡ (if k == j then 1 else 0)
unfolding digit
digit-power zero zero = refl
digit-power zero (suc j) = grind arith
digit-power (suc k) zero = digit-zero k ∙ ground arith
digit-power (suc k) (suc j) =
    let half : 2 ^ suc j / 2 ≡ 2 ^ j = omega arith in
    ap (digit k) half ∙ digit-power k j ∙ ground arith
