-- ===== src/Mm/Page/Map.antt =====
-- The bitmap of mm/page.c: a bit that is set or cleared, and the loops over a run.
use ox.Base.{
  ℕ, zero, suc, ◌+◌, ◌/◌, ◌%◌, ◌<◌, ◌≡◌, ◌∙◌, Bool, ◌&&◌, arith, ◌==◌, ltb, leb, if◌then◌else◌,
}
use ox.Bits.{bit_at-with_bit, bit_at-without_bit, with_bit-lt, without_bit-lt, bit_at-lt}
use ox.Mm.Page.{PageMap, page_bits, mem_set_bit, mem_clear_bit, mem_test_bit, set_run, clear_run}

-- Every entry is a byte.
abbrev pub IsMap : PageMap → Type 0
IsMap m = (block byte : ℕ) → m block byte < 256

-- Two pages have the same bit exactly if they are the same page.
same_bit :
    (p q : ℕ)
    → p / page_bits ≡ q / page_bits
    → p % page_bits / 8 ≡ q % page_bits / 8
    → p % page_bits % 8 ≡ q % page_bits % 8
    → p ≡ q
same_bit p q h k l = omega arith

module _ (m : PageMap) (is : IsMap m) where
  pub mem_test_bit-mem_set_bit :
      (p q : ℕ) → mem_test_bit (mem_set_bit m p) q ≡ (if q == p then 1 else mem_test_bit m q)
  unfolding mem_test_bit mem_set_bit
  mem_test_bit-mem_set_bit p q = ground (
    arith,
    bit_at-with_bit (m (p / page_bits) (p % page_bits / 8)) (p % page_bits % 8) (q % page_bits % 8)
        (is _ _) (omega arith) (omega arith),
    same_bit p q,
  )

  pub mem_test_bit-mem_clear_bit :
      (p q : ℕ) → mem_test_bit (mem_clear_bit m p) q ≡ (if q == p then 0 else mem_test_bit m q)
  unfolding mem_test_bit mem_clear_bit
  mem_test_bit-mem_clear_bit p q = ground (
    arith,
    bit_at-without_bit (m (p / page_bits) (p % page_bits / 8)) (p % page_bits % 8)
        (q % page_bits % 8) (is _ _) (omega arith) (omega arith),
    same_bit p q,
  )

  pub mem_set_bit-IsMap : (p : ℕ) → IsMap (mem_set_bit m p)
  unfolding mem_set_bit
  mem_set_bit-IsMap p b y = ground (
    arith,
    is b y,
    with_bit-lt (m b y) (p % page_bits % 8) 0 (is b y) (omega arith) (omega arith),
  )

  pub mem_clear_bit-IsMap : (p : ℕ) → IsMap (mem_clear_bit m p)
  unfolding mem_clear_bit
  mem_clear_bit-IsMap p b y = ground (
    arith,
    is b y,
    without_bit-lt (m b y) (p % page_bits % 8) 0 (is b y) (omega arith) (omega arith),
  )

  pub mem_test_bit-lt : (q : ℕ) → mem_test_bit m q < 2
  unfolding mem_test_bit
  mem_test_bit-lt q = bit_at-lt _ 0 _ (is _ _) (omega arith) (omega arith)

-- What the loops do to one page's bit.
abbrev pub in_run : ℕ → ℕ → ℕ → ℕ → Bool
in_run page run n q = leb (page + run) q && ltb q (page + run + n)

pub set_run_lem :
    (n : ℕ) (m : PageMap) (page run q : ℕ)
    → IsMap m
    → mem_test_bit (set_run n m page run) q ≡ (if in_run page run n q then 1 else mem_test_bit m q)
unfolding set_run
set_run_lem zero m page run q is = ground arith
set_run_lem (suc n) m page run q is =
    set_run_lem n (mem_set_bit m (page + run)) page (suc run) q
      (mem_set_bit-IsMap m is (page + run))
    ∙ ground (arith, mem_test_bit-mem_set_bit m is (page + run) q)

pub clear_run_lem :
    (n : ℕ) (m : PageMap) (page run q : ℕ)
    → IsMap m
    → mem_test_bit (clear_run n m page run) q
      ≡ (if in_run page run n q then 0 else mem_test_bit m q)
unfolding clear_run
clear_run_lem zero m page run q is = ground arith
clear_run_lem (suc n) m page run q is =
    clear_run_lem n (mem_clear_bit m (page + run)) page (suc run) q
      (mem_clear_bit-IsMap m is (page + run))
    ∙ ground (arith, mem_test_bit-mem_clear_bit m is (page + run) q)

pub set_run-IsMap : (n : ℕ) (m : PageMap) (page run : ℕ) → IsMap m → IsMap (set_run n m page run)
unfolding set_run
set_run-IsMap zero m page run is = is
set_run-IsMap (suc n) m page run is =
    set_run-IsMap n (mem_set_bit m (page + run)) page (suc run)
      (mem_set_bit-IsMap m is (page + run))

pub clear_run-IsMap :
    (n : ℕ) (m : PageMap) (page run : ℕ) → IsMap m → IsMap (clear_run n m page run)
unfolding clear_run
clear_run-IsMap zero m page run is = is
clear_run-IsMap (suc n) m page run is =
    clear_run-IsMap n (mem_clear_bit m (page + run)) page (suc run)
      (mem_clear_bit-IsMap m is (page + run))
