-- ===== src/Fs/Block/Search.antt =====
-- The scans of fs/block.c: what the search for a block and the replacement scan find.
use ox.Base.{
  ℕ, zero, suc, ◌+◌, ◌-◌, ◌≤◌, ◌<◌, ◌≡◌, refl, ◌≢◌, inl, inr, ◌⊎◌, refl, false, true, none, some,
  arith, Bool-cases, ◌==◌,
}
use ox.Fs.Block.{
  Slot, Scan, matches, find_slot, search, visit, scan_loop, scan, array_size, block_free_mark,
  max_lru,
}

module _ (slot : ℕ → Slot) (dev block : ℕ) where
  pub find_slot-some :
      (n i j : ℕ)
      → find_slot n i slot dev block ≡ some j
      → (i ≤ j) × (j < i + n) × (matches (slot j) dev block ≡ true)
  unfolding find_slot
  find_slot-some zero i j e = absurd (ground arith)
  find_slot-some (suc n) i j e = ground (arith, find_slot-some n (suc i) j)

  pub find_slot-none :
      (n i j : ℕ)
      → find_slot n i slot dev block ≡ none
      → i ≤ j
      → j < i + n
      → matches (slot j) dev block ≡ false
  unfolding find_slot
  find_slot-none zero i j e lo hi = absurd (omega arith)
  find_slot-none (suc n) i j e lo hi = elim (Bool-cases (i == j)) [
    | inl same ↦ ground arith
    | inr other ↦ ground (arith, find_slot-none n (suc i) j)
  ]

  -- What the search gives is an index of the arrays, and the slot there holds the block.
  pub search-some :
      (curr j : ℕ)
      → curr < array_size
      → search curr slot dev block ≡ some j
      → (j < array_size) × (matches (slot j) dev block ≡ true)
  unfolding search
  search-some curr j h e =
      ground (arith, find_slot-some (array_size - curr) curr j, find_slot-some curr 0 j)

  -- Where it gives none, no slot holds the block.
  pub search-none :
      (curr j : ℕ)
      → curr < array_size
      → search curr slot dev block ≡ none
      → j < array_size
      → matches (slot j) dev block ≡ false
  unfolding search
  search-none curr j h e hj =
      ground (arith, find_slot-none (array_size - curr) curr j, find_slot-none curr 0 j)

  find_slot-here :
      (n i : ℕ) → 0 < n → matches (slot i) dev block ≡ true → find_slot n i slot dev block ≡ some i
  unfolding find_slot
  find_slot-here zero i h m = absurd (omega arith)
  find_slot-here (suc n) i h m = rw m

  -- The search looks at `curr` first.
  pub search-curr :
      (curr : ℕ)
      → curr < array_size
      → matches (slot curr) dev block ≡ true
      → search curr slot dev block ≡ some curr
  unfolding search
  search-curr curr h m = rw (find_slot-here (array_size - curr) curr (omega arith) m, search)

-- What the replacement scan knows of the slots that it chose.
pub record Chosen (slot : ℕ → Slot) (a : Scan) : Type 0 where
  pub free_slot : (i : ℕ) → a.free ≡ some i → (i < array_size) × ((slot i).block ≡ block_free_mark)
  pub clean_slot :
      (i : ℕ)
      → a.clean ≡ some i
      → (i < array_size) × ((slot i).dirty ≡ false) × ((slot i).block ≢ block_free_mark)
  pub dirty_slot :
      (i : ℕ)
      → a.dirty ≡ some i
      → (i < array_size) × ((slot i).dirty ≡ true) × ((slot i).block ≢ block_free_mark)

module _ (slot : ℕ → Slot) where
  visit-Chosen :
      (i : ℕ) (a : Scan)
      → i < array_size
      → (slot i).block ≢ block_free_mark
      → Chosen slot a
      → Chosen slot (visit (slot i) i a)
  unfolding visit
  visit-Chosen i a h used c = record {
    free_slot = λ j e. ground (arith, c.free_slot j);
    clean_slot = λ j e. ground (arith, c.clean_slot j);
    dirty_slot = λ j e. ground (arith, c.dirty_slot j);
  }

  scan_loop-Chosen :
      (n i : ℕ) (a : Scan) → i + n ≡ array_size → Chosen slot a → Chosen slot (scan_loop n i slot a)
  unfolding scan_loop
  scan_loop-Chosen zero i a h c = c
  scan_loop-Chosen (suc n) i a h c = elim (Bool-cases ((slot i).block == block_free_mark)) [
    | inl free ↦ rw free (record {
      free_slot = λ j e. ground arith;
      clean_slot = c.clean_slot;
      dirty_slot = c.dirty_slot;
    })
    | inr used ↦ rw used (
        scan_loop-Chosen n (suc i) (visit (slot i) i a) (omega arith)
          (visit-Chosen i a (omega arith) (ground arith) c))
  ]

  -- The replacement scan chooses slots of the arrays: a free one, a clean one, a dirty one.
  pub scan-Chosen : (highest : ℕ) → Chosen slot (scan highest slot)
  unfolding scan
  scan-Chosen highest = scan_loop-Chosen array_size 0 _ refl (record {
    free_slot = λ i e. absurd (ground arith);
    clean_slot = λ i e. absurd (ground arith);
    dirty_slot = λ i e. absurd (ground arith);
  })

-- A slot that is free, or clean with its count below BLOCK_MAX_LRU.
abbrev pub HasRoom : (ℕ → Slot) → Type 0
HasRoom slot =
    (i : ℕ) × (i < array_size)
    × (((slot i).block ≡ block_free_mark) ⊎ (((slot i).dirty ≡ false) × ((slot i).lru < max_lru)))

-- The least count of a clean slot starts at BLOCK_MAX_LRU.
abbrev Counts : Scan → Type 0
Counts a = a.clean ≡ none → a.clean_lru ≡ max_lru

module _ (slot : ℕ → Slot) where
  visit-Counts : (i : ℕ) (a : Scan) → Counts a → Counts (visit (slot i) i a)
  unfolding visit
  visit-Counts i a c e = ground arith

  clean-visit : (i : ℕ) (a : Scan) → (visit (slot i) i a).clean ≡ none → a.clean ≡ none
  unfolding visit
  clean-visit i a e = ground arith

  visit_misses :
      (i : ℕ) (a : Scan)
      → Counts a
      → (visit (slot i) i a).clean ≡ none
      → ((slot i).dirty ≡ true) ⊎ (max_lru ≤ (slot i).lru)
  unfolding visit
  visit_misses i a c e = ground arith

  clean-scan_loop : (n i : ℕ) (a : Scan) → (scan_loop n i slot a).clean ≡ none → a.clean ≡ none
  unfolding scan_loop
  clean-scan_loop zero i a e = e
  clean-scan_loop (suc n) i a e = elim (Bool-cases ((slot i).block == block_free_mark)) [
    | inl free ↦ ground arith
    | inr used ↦ clean-visit i a (clean-scan_loop n (suc i) (visit (slot i) i a) (ground arith))
  ]

  scan_loop_misses :
      (n i j : ℕ) (a : Scan)
      → Counts a
      → (scan_loop n i slot a).free ≡ none
      → (scan_loop n i slot a).clean ≡ none
      → i ≤ j
      → j < i + n
      → ((slot j).block ≢ block_free_mark) × (((slot j).dirty ≡ true) ⊎ (max_lru ≤ (slot j).lru))
  unfolding scan_loop
  scan_loop_misses zero i j a c ef ec lo hi = absurd (omega arith)
  scan_loop_misses (suc n) i j a c ef ec lo hi =
      elim (Bool-cases ((slot i).block == block_free_mark)) [
        | inl free ↦ absurd (ground arith)
        | inr used ↦ elim (Bool-cases (i == j)) [
          | inl same ↦
              let stay : i ≡ j = ground arith in
              rw (← stay) (
                ground arith,
                visit_misses i a c (clean-scan_loop n (suc i) (visit (slot i) i a) (ground arith)),
              )
          | inr other ↦
              scan_loop_misses n (suc i) j (visit (slot i) i a) (visit-Counts i a c) (ground arith)
                (ground arith) (ground arith) (omega arith)
        ]
      ]

  -- Where there is room, the replacement scan finds a free or a clean slot.
  pub scan_finds :
      (highest : ℕ)
      → HasRoom slot
      → (scan highest slot).free ≡ none
      → (scan highest slot).clean ≢ none
  unfolding scan
  scan_finds highest (i, h, room) ef ec =
      let miss = scan_loop_misses array_size 0 i _ (λ e. refl) ef ec (omega arith) (omega arith) in
      ground arith
