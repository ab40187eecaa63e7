-- ===== src/Mm/Heap/Tests.antt =====
-- The heap of mm/kmalloc.c on pages that are handed out one after the other.
use ox.Base.{ℕ, ◌+◌, ◌-◌, ◌*◌, ◌≡◌, refl, arith, false, none, ltb, if◌then◌else◌}
use ox.Mm.Heap.{
  Heap, Pages, zero_mem, header_size, release, kmalloc, kfree, balloc, make_pool, make_table,
  last_block, real_size, init_headers, block_in, find_free,
}
use ox.Mm.Heap.Free.{marked, kfree_lem}

abbrev pages : Pages ℕ
pages = record { alloc = λ d n. (d, d + n * 4096); free = λ d addr n. d }

abbrev fresh : Heap ℕ
fresh = record {
  count = 0;
  tables = λ a. record { nr_slots = 0; sizes = λ i. zero_mem };
  ptr = none;
  nr_slot = 0;
  headers = λ addr. record { slot = 0; is_free = false };
  pages = 65536;
}

-- After a request of 100 bytes: 37 blocks of 108 bytes in the second page.
abbrev started : Heap ℕ
started = (kmalloc pages fresh 100).1

started_count : started.count ≡ 1
unfolding balloc last_block make_pool make_table
started_count = refl

-- The second block of the pool.
second : (kmalloc pages started 20).0 ≡ 65536 + 4096 + 108 + 8
unfolding balloc last_block make_pool make_table block_in find_free real_size init_headers
second = refl

first_slot : (started.headers (65536 + 4096 + 8 - header_size)).slot ≡ 0
unfolding balloc last_block make_pool make_table
first_slot = refl

kfree_lem_example : kfree pages started (65536 + 4096 + 8) ≡ (
    let slot = (started.headers (65536 + 4096 + 8 - header_size)).slot in
    if ltb slot 16
    then release 16 pages (marked pages started (65536 + 4096 + 8)) (started.count - 1) slot
    else marked pages started (65536 + 4096 + 8))
kfree_lem_example =
    kfree_lem pages started (65536 + 4096 + 8) (omega (arith, first_slot))
      (omega (arith, started_count)) (omega (arith, started_count))
