-- ===== src/Mm/Heap/Free.antt =====
-- Which pool kfree of mm/kmalloc.c gives a block back to.
use ox.Base.{
  ℕ, zero, suc, ◌+◌, ◌-◌, ◌*◌, ◌/◌, ◌%◌, ◌^◌, ◌<◌, ◌≤◌, ◌≡◌, refl, ◌∙◌, ap, arith, inl, inr,
  Bool-cases, true, false, ◌==◌, if◌then◌else◌, ltb, dec32, update,
}
use ox.Mm.Heap.{Heap, Pages, header_size, release, free_loop, bfree, kfree}

module _ {D : Type 0} (pages : Pages D) where
  -- No counter is the number of a table from 1 to 15.
  free_loop_misses :
      (a j nr_table slot : ℕ) (h : Heap D)
      → 0 < nr_table
      → nr_table < 16
      → free_loop 16 pages a j nr_table slot h ≡ h
  unfolding free_loop
  free_loop_misses zero j nr_table slot h lo hi = refl
  free_loop_misses (suc a) j nr_table slot h lo hi =
      let e : (nr_table == 16 * j % 2 ^ 32) ≡ false = ground arith in
      rw e (free_loop_misses a (dec32 j) nr_table slot h lo hi)

  -- A counter that has wrapped round is the number 0 no more.
  free_loop_wrapped :
      (a j slot : ℕ) (h : Heap D)
      → j < 2 ^ 32
      → 2 ^ 32 + a ≤ j + 2 ^ 28
      → free_loop 16 pages a j 0 slot h ≡ h
  unfolding free_loop
  free_loop_wrapped zero j slot h hi lo = refl
  free_loop_wrapped (suc a) j slot h hi lo =
      let e : (0 == 16 * j % 2 ^ 32) ≡ false = ground arith in
      rw e (free_loop_wrapped a (dec32 j) slot h (omega arith) (omega arith))

  free_loop_first :
      (a slot : ℕ) (h : Heap D)
      → a < 2 ^ 28
      → free_loop 16 pages (suc a) 0 0 slot h ≡ release 16 pages h a slot
  unfolding free_loop
  free_loop_first a slot h few =
      free_loop_wrapped a (dec32 0) slot (release 16 pages h a slot) (omega arith) (omega arith)

  -- The heap with the header of an address marked as free.
  abbrev pub marked : Heap D → ℕ → Heap D
  marked h addr =
      let hdr = addr - header_size in
      record h { headers = update h.headers hdr (record (h.headers hdr) { is_free = true }) }

  -- For a header with a slot below 256 and a heap with at least one table and fewer than 2^28:
  -- kfree marks the header as free and, if the slot is below 16, gives the block back to that
  -- pool of the newest table, whichever table the block came from; from slot 16 on it changes
  -- nothing else.
  pub kfree_lem :
      (h : Heap D) (addr : ℕ)
      → (h.headers (addr - header_size)).slot < 256
      → 0 < h.count
      → h.count < 2 ^ 28
      → kfree pages h addr ≡ (
          let slot = (h.headers (addr - header_size)).slot in
          if ltb slot 16
          then release 16 pages (marked h addr) (h.count - 1) slot
          else marked h addr)
  unfolding bfree
  kfree_lem h addr small some' few =
      let slot = (h.headers (addr - header_size)).slot in
      elim (Bool-cases (ltb slot 16)) [
        | inl first ↦
            let table : slot / 16 ≡ 0 = ground arith in
            let pool : slot % 16 ≡ slot = ground arith in
            let whole : h.count ≡ suc (h.count - 1) = omega arith in
            rw (first, table, pool)
              (ap (λ n. free_loop 16 pages n 0 0 slot (marked h addr)) whole
                ∙ free_loop_first (h.count - 1) slot (marked h addr) (omega arith))
        | inr later ↦ rw later (
            free_loop_misses h.count (slot / 16) (slot / 16) (slot % 16) (marked h addr)
              (ground arith) (ground arith))
      ]
