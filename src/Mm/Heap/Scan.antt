-- ===== src/Mm/Heap/Scan.antt =====
-- What the scans of mm/kmalloc.c and mm/malloc.c for a free block find.
use ox.Base.{
  ℕ, zero, suc, ◌+◌, ◌*◌, ◌<◌, ◌≤◌, ◌≡◌, inl, inr, true, ◌==◌, Option, none, some, if◌then◌else◌,
  sub32, arith, Bool-cases, Option-cases,
}
use native.Mathlib.Nat.{suc-mul}
use ox.Mm.Heap.{
  Header, Pool, Heap, Pages, header_size, find_free, block_in, scan_sizes, scan_tables, empty_slot,
  scan_empty,
}

-- A block of a pool with a free header.
abbrev pub IsFreeBlock : Pool → (ℕ → Header) → ℕ → Type 0
IsFreeBlock p headers addr =
    (k : ℕ) × (k < p.nr_blocks) × (addr ≡ p.memory + k * p.rsize) × ((headers addr).is_free ≡ true)

find_free-some :
    (n addr rsize : ℕ) (headers : ℕ → Header) (x : ℕ)
    → find_free n addr rsize headers ≡ some x
    → (k : ℕ) × (k < n) × (x ≡ addr + k * rsize) × ((headers x).is_free ≡ true)
unfolding find_free
find_free-some zero addr rsize headers x h = absurd (cc)
find_free-some (suc n) addr rsize headers x h = elim (Bool-cases (headers addr).is_free) [
  | inl free ↦
      let at : addr ≡ x = ground arith in (0, omega arith, omega (arith, at), rw (← at) free)
  | inr used ↦
      let (k, small, at, free) = find_free-some n (addr + rsize) rsize headers x (ground arith) in
      (suc k, omega (arith, small), omega (arith, at, suc-mul k rsize), free)
]

pub block_in-some :
    (p : Pool) (size : ℕ) (headers : ℕ → Header) (x : ℕ)
    → block_in p size headers ≡ some x
    → (size ≤ sub32 p.rsize header_size) × IsFreeBlock p headers x
unfolding block_in
block_in-some p size headers x h =
    (ground arith, find_free-some p.nr_blocks p.memory p.rsize headers x (ground arith))

scan_sizes-some :
    (n i : ℕ) (sizes : ℕ → Pool) (size : ℕ) (headers : ℕ → Header) (j x : ℕ)
    → scan_sizes n i sizes size headers ≡ some (j, x)
    → (i ≤ j) × (j < i + n) × (block_in (sizes j) size headers ≡ some x)
unfolding scan_sizes
scan_sizes-some zero i sizes size headers j x h = absurd (cc)
scan_sizes-some (suc n) i sizes size headers j x h =
    elim (Option-cases (block_in (sizes i) size headers)) [
      | inr (y, e) ↦ ground arith
      | inl e ↦
          let (lo, hi, at) = scan_sizes-some n (suc i) sizes size headers j x (ground arith) in
          (omega (arith, lo), omega (arith, hi), at)
    ]

scan_sizes-none :
    (n i : ℕ) (sizes : ℕ → Pool) (size : ℕ) (headers : ℕ → Header) (j : ℕ)
    → scan_sizes n i sizes size headers ≡ none
    → i ≤ j
    → j < i + n
    → block_in (sizes j) size headers ≡ none
unfolding scan_sizes
scan_sizes-none zero i sizes size headers j h lo hi = absurd (omega arith)
scan_sizes-none (suc n) i sizes size headers j h lo hi =
    elim (Option-cases (block_in (sizes i) size headers)) [
      | inr (y, e) ↦ absurd (ground arith)
      | inl e ↦ elim (Bool-cases (i == j)) [
        | inl here ↦ let at : i ≡ j = ground arith in rw (← at) e
        | inr later ↦
            scan_sizes-none n (suc i) sizes size headers j (ground arith) (ground arith)
              (omega arith)
      ]
    ]

empty_slot-some :
    (n i : ℕ) (sizes : ℕ → Pool) (k : ℕ) → empty_slot n i sizes ≡ some k → (sizes k).nr_blocks ≡ 0
unfolding empty_slot
empty_slot-some zero i sizes k e = absurd (cc)
empty_slot-some (suc n) i sizes k e = ground (arith, e, empty_slot-some n (suc i) sizes k)

module _ {D : Type 0} (nr_sizes : ℕ) (pages : Pages D) where
  pub scan_tables-some :
      (n j : ℕ) (h : Heap D) (size a l i x : ℕ)
      → scan_tables nr_sizes pages n j h size ≡ some (a, l, i, x)
      → (a < n) × (i < nr_sizes) × (block_in ((h.tables a).sizes i) size h.headers ≡ some x)
  unfolding scan_tables
  scan_tables-some zero j h size a l i x e = absurd (cc)
  scan_tables-some (suc n) j h size a l i x e =
      elim (Option-cases (scan_sizes nr_sizes 0 (h.tables n).sizes size h.headers)) [
        | inr ((k, y), e') ↦
            let r = scan_sizes-some nr_sizes 0 (h.tables n).sizes size h.headers k y e' in
            ground (arith, r.1, r.2)
        | inl e' ↦
            let r = scan_tables-some n (suc j) h size a l i x (ground arith) in
            (omega (arith, r.0), r.1, r.2)
      ]

  pub scan_tables-none :
      (n j : ℕ) (h : Heap D) (size a i : ℕ)
      → scan_tables nr_sizes pages n j h size ≡ none
      → a < n
      → i < nr_sizes
      → block_in ((h.tables a).sizes i) size h.headers ≡ none
  unfolding scan_tables
  scan_tables-none zero j h size a i e hi small = absurd (omega arith)
  scan_tables-none (suc n) j h size a i e hi small =
      elim (Option-cases (scan_sizes nr_sizes 0 (h.tables n).sizes size h.headers)) [
        | inr (y, e') ↦ absurd (ground arith)
        | inl e' ↦ elim (Bool-cases (a == n)) [
          | inl here ↦
              let at : a ≡ n = ground arith in
              rw at (
                scan_sizes-none nr_sizes 0 (h.tables n).sizes size h.headers i e' (omega arith)
                  (omega arith))
          | inr later ↦ scan_tables-none n (suc j) h size a i (ground arith) (ground arith) small
        ]
      ]

  -- The pool for a new size is one that is not in use.
  pub scan_empty-some :
      (n j : ℕ) (h : Heap D) (a l i : ℕ)
      → scan_empty nr_sizes pages n j h ≡ some (a, l, i)
      → (a < n) × (((h.tables a).sizes i).nr_blocks ≡ 0)
  unfolding scan_empty
  scan_empty-some zero j h a l i e = absurd (cc)
  scan_empty-some (suc n) j h a l i e =
      let room =
        if (h.tables n).nr_slots == nr_sizes
        then none
        else empty_slot nr_sizes 0 (h.tables n).sizes in
      elim (Option-cases room) [
        | inr (k, e') ↦
            let slot : empty_slot nr_sizes 0 (h.tables n).sizes ≡ some k = ground (arith, e') in
            let clear = empty_slot-some nr_sizes 0 (h.tables n).sizes k slot in
            let found : ◌≡◌ {A = Option (ℕ × ℕ × ℕ)} (some (n, j, k)) (some (a, l, i)) =
              rw (scan_empty, e') at e in
            let same_table : n ≡ a = cc in
            let same_pool : k ≡ i = cc in
            (omega (arith, same_table), rw (← same_table, ← same_pool) clear)
        | inl e' ↦
            let rest : scan_empty nr_sizes pages n (suc j) h ≡ some (a, l, i) =
              rw (scan_empty, e') at e in
            let r = scan_empty-some n (suc j) h a l i rest in (omega (arith, r.0), r.1)
      ]
