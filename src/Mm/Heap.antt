-- ===== src/Mm/Heap.antt =====
-- The heap of mm/kmalloc.c and of mm/malloc.c, which differ in the size of a table and in where the
-- pages come from. The tables are numbered in the order in which they were made, so the list from
-- `root` on is `count - 1` down to 0. A header is told by its address. Pointer arithmetic does not
-- leave the address space.
pub mod Scan
pub mod Pools
pub mod Alloc
pub mod Free
mod Tests
use ox.Base.{
  ℕ, zero, suc, ◌+◌, ◌-◌, ◌*◌, ◌/◌, ◌%◌, ◌^◌, Bool, true, false, not, ◌&&◌, ◌==◌, Option, none,
  some, if◌then◌else◌, ltb, leb, sub32, inc32, dec32, update,
}

abbrev pub nr_page_size : ℕ
nr_page_size = 4096

-- `sizeof(char *)` and `sizeof(header_t)`.
abbrev pub pointer_size : ℕ
pointer_size = 4

abbrev pub header_size : ℕ
header_size = 8

-- `header_t`, free for FREE_MEM and not for USED_MEM.
pub record Header : Type 0 where
  pub slot : ℕ
  pub is_free : Bool

-- `mem_t`.
pub record Pool : Type 0 where
  pub size : ℕ
  pub rsize : ℕ
  pub nr_blocks : ℕ
  pub nr_alloc : ℕ
  pub nr_pages : ℕ
  pub memory : ℕ

abbrev pub zero_mem : Pool
zero_mem = record { size = 0; rsize = 0; nr_blocks = 0; nr_alloc = 0; nr_pages = 0; memory = 0 }

-- `table_t`.
pub record Table : Type 0 where
  pub nr_slots : ℕ
  pub sizes : ℕ → Pool

-- The static variables, over the state D of the pages. `ptr` is a table and a pool in it.
pub record Heap (D : Type 0) : Type 0 where
  pub count : ℕ
  pub tables : ℕ → Table
  pub ptr : Option (ℕ × ℕ)
  pub nr_slot : ℕ
  pub headers : ℕ → Header
  pub pages : D

-- `block` and `block_free` over the state of the pages.
pub record Pages (D : Type 0) : Type 0 where
  pub alloc : D → ℕ → ℕ × D
  pub free : D → ℕ → ℕ → D

-- `NR_BLOCKS`, a division that rounds up.
abbrev pub nr_blocks_of : ℕ → ℕ → ℕ
nr_blocks_of size unit = size / unit + (if size % unit == 0 then 0 else 1)

pub real_size : ℕ → ℕ
real_size size = nr_blocks_of ((size + header_size) % 2 ^ 32) pointer_size * pointer_size % 2 ^ 32

-- The block with a free header, among n from an address on.
pub find_free : ℕ → ℕ → ℕ → (ℕ → Header) → Option ℕ
find_free zero addr rsize headers = none
find_free (suc n) addr rsize headers =
    let rest = find_free n (addr + rsize) rsize headers in
    if (headers addr).is_free then some addr else rest

-- "We can accommodate the request" and "this pool has at least one block available".
abbrev pub accommodates : Pool → ℕ → Bool
accommodates p size = leb size (sub32 p.rsize header_size) && ltb p.nr_alloc p.nr_blocks

pub block_in : Pool → ℕ → (ℕ → Header) → Option ℕ
block_in p size headers =
    if accommodates p size then find_free p.nr_blocks p.memory p.rsize headers else none

-- The scan of n pools of a table, from pool i on.
pub scan_sizes : ℕ → ℕ → (ℕ → Pool) → ℕ → (ℕ → Header) → Option (ℕ × ℕ)
scan_sizes zero i sizes size headers = none
scan_sizes (suc n) i sizes size headers =
    let rest = scan_sizes n (suc i) sizes size headers in
    elim (block_in (sizes i) size headers) [ some addr ↦ some (i, addr) | none ↦ rest ]

-- A pool that is not in use, among n from pool i on.
pub empty_slot : ℕ → ℕ → (ℕ → Pool) → Option ℕ
empty_slot zero i sizes = none
empty_slot (suc n) i sizes =
    let rest = empty_slot n (suc i) sizes in if (sizes i).nr_blocks == 0 then some i else rest

-- The loop that initialises n headers.
pub init_headers : ℕ → ℕ → ℕ → (ℕ → Header) → ℕ → Header
init_headers zero addr rsize headers = headers
init_headers (suc n) addr rsize headers =
    init_headers n (addr + rsize) rsize (update headers addr (record { slot = 0; is_free = true }))

-- A pool in its table.
abbrev pub set_pool : (ℕ → Table) → ℕ → ℕ → Pool → ℕ → Table
set_pool tables a i p = update tables a (record (tables a) { sizes = update (tables a).sizes i p })

module _ {D : Type 0} (nr_sizes : ℕ) (pages : Pages D) where
  -- A block of a pool that is in use.
  pub take_block : Heap D → ℕ → ℕ → ℕ → ℕ → Heap D
  take_block h a i slot addr =
      let p = (h.tables a).sizes i in
      record h {
        headers = update h.headers addr (record { slot = slot; is_free = false });
        tables = set_pool h.tables a i (record p { nr_alloc = inc32 p.nr_alloc });
        ptr = some (a, i);
        nr_slot = slot;
      }

  -- A pool for a size is made, and its first block is taken.
  pub make_pool : Heap D → ℕ → ℕ → ℕ → ℕ → ℕ × Heap D
  make_pool h a i slot size =
      let rsize = real_size size in
      let blocks = nr_blocks_of rsize nr_page_size in
      let (memory, d) = pages.alloc h.pages blocks in
      let nr_blocks = blocks * nr_page_size % 2 ^ 32 / rsize in
      let headers = init_headers nr_blocks memory rsize h.headers in
      (
        memory + header_size,
        record h {
          headers = update headers memory (record { slot = slot; is_free = false });
          tables = set_pool h.tables a i (record {
            size = size;
            rsize = rsize;
            nr_blocks = nr_blocks;
            nr_alloc = 1;
            nr_pages = blocks;
            memory = memory;
          });
          ptr = some (a, i);
          nr_slot = slot;
          pages = d;
        },
      )

  -- A new table before the others, with one slot in use.
  pub make_table : Heap D → Heap D
  make_table h =
      let (addr, d) = pages.alloc h.pages (nr_blocks_of (8 + nr_sizes * 24) nr_page_size) in
      record h {
        count = h.count + 1;
        tables = update h.tables h.count (record { nr_slots = 1; sizes = λ i. zero_mem });
        pages = d;
      }

  -- The scan of the tables below a, of which the first is the j-th of the list: the table, its j, the
  -- pool and the block.
  pub scan_tables : ℕ → ℕ → Heap D → ℕ → Option (ℕ × ℕ × ℕ × ℕ)
  scan_tables zero j h size = none
  scan_tables (suc a) j h size =
      let rest = scan_tables a (suc j) h size in
      elim (scan_sizes nr_sizes 0 (h.tables a).sizes size h.headers) [
        | some (i, addr) ↦ some (a, j, i, addr)
        | none ↦ rest
      ]

  -- The scan for a pool that is not in use: the table, its j, the pool.
  pub scan_empty : ℕ → ℕ → Heap D → Option (ℕ × ℕ × ℕ)
  scan_empty zero j h = none
  scan_empty (suc a) j h =
      let rest = scan_empty a (suc j) h in
      let room =
        if (h.tables a).nr_slots == nr_sizes
        then none
        else empty_slot nr_sizes 0 (h.tables a).sizes in
      elim room [ some i ↦ some (a, j, i) | none ↦ rest ]

  -- From the scan of the table on.
  pub alloc_any : Heap D → ℕ → ℕ × Heap D
  alloc_any h size = elim (scan_tables h.count 0 h size) [
    | some (a, j, i, addr) ↦ (addr + header_size, take_block h a i (nr_sizes * j + i) addr)
    | none ↦ elim (scan_empty h.count 0 h) [
      | some (a, j, i) ↦
          let t = record (h.tables a) { nr_slots = inc32 (h.tables a).nr_slots } in
          make_pool (record h { tables = update h.tables a t }) a i (nr_sizes * j + i) size
      | none ↦ make_pool (make_table h) h.count 0 (nr_sizes * h.count) size
    ]
  ]

  -- The block of the pool of the last call that can serve the request.
  pub last_block : Heap D → ℕ → Option (ℕ × ℕ × ℕ)
  last_block h size = elim h.ptr [
    | none ↦ none
    | some (a, i) ↦ elim (block_in ((h.tables a).sizes i) size h.headers) [
      | some addr ↦ some (a, i, addr)
      | none ↦ none
    ]
  ]

  pub balloc : Heap D → ℕ → ℕ × Heap D
  balloc h size = elim (last_block h size) [
    | some (a, i, addr) ↦ (addr + header_size, take_block h a i h.nr_slot addr)
    | none ↦ if h.count == 0 then make_pool (make_table h) 0 0 0 size else alloc_any h size
  ]

  -- The body of the loop of kfree, for the table a.
  pub release : Heap D → ℕ → ℕ → Heap D
  release h a slot =
      let t = h.tables a in
      let p = t.sizes slot in
      let nr_alloc = dec32 p.nr_alloc in
      let q = record p { nr_alloc = nr_alloc } in
      let none_left = nr_alloc == 0 in
      record h {
        tables = update h.tables a (record t {
          nr_slots = dec32 t.nr_slots;
          sizes = update t.sizes slot (
              if none_left then record q { memory = 0; nr_blocks = 0; size = 0; rsize = 0 } else q);
        });
        pages = if none_left then pages.free h.pages p.memory p.nr_pages else h.pages;
      }

  -- The loop over the tables below a; `j` counts down from the number of the table.
  pub free_loop : ℕ → ℕ → ℕ → ℕ → Heap D → Heap D
  free_loop zero j nr_table slot h = h
  free_loop (suc a) j nr_table slot h =
      free_loop a (dec32 j) nr_table slot
        (if nr_table == nr_sizes * j % 2 ^ 32 then release h a slot else h)

  pub bfree : Heap D → ℕ → Heap D
  bfree h addr =
      let hdr = addr - header_size in
      let slot = (h.headers hdr).slot in
      let nr_table = slot / nr_sizes in
      free_loop h.count nr_table nr_table (slot % nr_sizes)
        (record h { headers = update h.headers hdr (record (h.headers hdr) { is_free = true }) })

-- mm/kmalloc.c, on the pages of the kernel.
abbrev pub kmalloc : {D : Type 0} → Pages D → Heap D → ℕ → ℕ × Heap D
kmalloc pages h size = balloc 16 pages h size

abbrev pub kfree : {D : Type 0} → Pages D → Heap D → ℕ → Heap D
kfree pages h addr = bfree 16 pages h addr

-- mm/malloc.c, on the pages of the user.
abbrev pub malloc : {D : Type 0} → Pages D → Heap D → ℕ → ℕ × Heap D
malloc pages h size = balloc (2 ^ 16) pages h size

abbrev pub free : {D : Type 0} → Pages D → Heap D → ℕ → Heap D
free pages h addr = bfree (2 ^ 16) pages h addr
