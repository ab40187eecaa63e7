-- ===== src/Mm/Heap/Alloc.antt =====
-- What kmalloc of mm/kmalloc.c and malloc of mm/malloc.c return.
use ox.Base.{ℕ, ◌+◌, ◌*◌, ◌<◌, ◌≤◌, ◌≡◌, ◌≢◌, ◌⊎◌, false, ◌&&◌, ◌==◌, none, inc32}
use ox.Mm.Heap.Scan.{IsFreeBlock}
use ox.Mm.Heap.Pools.{IsHeap}
use ox.Mm.Heap.{Heap, Pages, header_size, nr_blocks_of, nr_page_size, block_in}

module _ {D : Type 0} (nr_sizes : ℕ) (pages : Pages D) where
  -- A block of a pool that the heap has: it was free and is large enough, and it alone is now in use.
  pub record Reused (h : Heap D) (size : ℕ) (r : ℕ × Heap D) : Type 0 where
    pub table : ℕ
    pub pool : ℕ
    pub block : ℕ
    pub address : r.0 ≡ block + header_size
    pub room : size + header_size ≤ ((h.tables table).sizes pool).rsize
    pub free : IsFreeBlock ((h.tables table).sizes pool) h.headers block
    pub apart :
        (l y : ℕ)
        → y ≡ ((h.tables table).sizes pool).memory + l * ((h.tables table).sizes pool).rsize
        → y ≢ block
        → (block + ((h.tables table).sizes pool).rsize ≤ y)
          ⊎ (y + ((h.tables table).sizes pool).rsize ≤ block)
    pub used : (r.1.headers block).is_free ≡ false
    pub others : (x : ℕ) → x ≢ block → r.1.headers x ≡ h.headers x
    pub pool_after : (r.1.tables table).sizes pool ≡ record ((h.tables table).sizes pool) {
      nr_alloc = inc32 ((h.tables table).sizes pool).nr_alloc;
    }
    pub pages_after : r.1.pages ≡ h.pages
    pub other_pools :
        (b l : ℕ)
        → ((b == table) && (l == pool)) ≡ false
        → (r.1.tables b).sizes l ≡ (h.tables b).sizes l

  -- The place of a new pool, and the pages before it: a pool of a table that was not in use, or the
  -- first pool of a new table, for which pages are taken too.
  pub data Vacant (h : Heap D) : ℕ → ℕ → D → Type 0 where
    unused : {a i : ℕ} → a < h.count → ((h.tables a).sizes i).nr_blocks ≡ 0 → Vacant h a i h.pages
    new_table :
        Vacant h h.count 0 (pages.alloc h.pages (nr_blocks_of (8 + nr_sizes * 24) nr_page_size)).1

  -- The first block of a new pool, which is made only where no pool of the heap has a block that is
  -- free and large enough. The pool's blocks lie in the pages that it got.
  pub record Made (h : Heap D) (size : ℕ) (r : ℕ × Heap D) : Type 0 where
    pub table : ℕ
    pub pool : ℕ
    pub got_from : D
    pub address : r.0 ≡ ((r.1.tables table).sizes pool).memory + header_size
    pub room : size + header_size ≤ ((r.1.tables table).sizes pool).rsize
    pub some_block : 0 < ((r.1.tables table).sizes pool).nr_blocks
    pub inside :
        ((r.1.tables table).sizes pool).nr_blocks * ((r.1.tables table).sizes pool).rsize
        ≤ ((r.1.tables table).sizes pool).nr_pages * 4096
    pub memory :
        ((r.1.tables table).sizes pool).memory
        ≡ (pages.alloc got_from ((r.1.tables table).sizes pool).nr_pages).0
    pub used : (r.1.headers ((r.1.tables table).sizes pool).memory).is_free ≡ false
    pub vacant : Vacant h table pool got_from
    pub other_pools :
        (b l : ℕ)
        → b < h.count
        → ((b == table) && (l == pool)) ≡ false
        → (r.1.tables b).sizes l ≡ (h.tables b).sizes l
    pub other_headers :
        (x : ℕ)
        → ((k : ℕ)
            → k < ((r.1.tables table).sizes pool).nr_blocks
            → x
              ≢ ((r.1.tables table).sizes pool).memory + k * ((r.1.tables table).sizes pool).rsize)
        → r.1.headers x ≡ h.headers x
    pub pages_after : r.1.pages ≡ (pages.alloc got_from ((r.1.tables table).sizes pool).nr_pages).1
    pub none_fits :
        (a i : ℕ)
        → a < h.count
        → i < nr_sizes
        → block_in ((h.tables a).sizes i) size h.headers ≡ none

  -- How a request is served: in either way the pools stay in order.
  abbrev pub Served : Heap D → ℕ → ℕ × Heap D → Type 0
  Served h size r = (Reused h size r ⊎ Made h size r) × IsHeap r.1
