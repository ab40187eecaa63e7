-- ===== src/Mm/Page.antt =====
-- The page allocators of mm/page.c: a bitmap with one bit for a page, and first fit from the page
-- of the last call. The static variables are a record; `unsigned` and `int` are words of 32 bits.
-- `none` is a panic, from which the kernel does not return.
pub mod Map
pub mod Find
pub mod Alloc
pub mod Free
mod Tests
use ox.Base.{
  ℕ, zero, suc, ◌+◌, ◌-◌, ◌*◌, ◌/◌, ◌%◌, ◌^◌, Bool, true, false, ◌||◌, Option, none, some, ◌==◌,
  ltb, leb, if◌then◌else◌, update, is_negative,
}
use ox.Bits.{with_bit, without_bit, bit_at}

abbrev pub page_size : ℕ
page_size = 4096

-- PAGE_BITS, the pages that one `mem_map_t` stands for.
abbrev pub page_bits : ℕ
page_bits = 32768

-- `mem_map[block].page[byte]`.
abbrev pub PageMap : Type 0
PageMap = ℕ → ℕ → ℕ

pub mem_set_bit : PageMap → ℕ → PageMap
mem_set_bit m page =
    let block = page / page_bits in
    let byte = page % page_bits / 8 in
    update m block (update (m block) byte (with_bit (m block byte) (page % page_bits % 8)))

pub mem_clear_bit : PageMap → ℕ → PageMap
mem_clear_bit m page =
    let block = page / page_bits in
    let byte = page % page_bits / 8 in
    update m block (update (m block) byte (without_bit (m block byte) (page % page_bits % 8)))

pub mem_test_bit : PageMap → ℕ → ℕ
mem_test_bit m page = bit_at (m (page / page_bits) (page % page_bits / 8)) (page % page_bits % 8)

-- The loop that looks for the first page in use of a run, with the rounds left.
pub run_length : ℕ → PageMap → ℕ → ℕ → ℕ
run_length zero m page run = run
run_length (suc n) m page run =
    if mem_test_bit m (page + run) == 1 then run else run_length n m page (suc run)

-- The loops that mark a run, and that free one.
pub set_run : ℕ → PageMap → ℕ → ℕ → PageMap
set_run zero m page run = m
set_run (suc n) m page run = set_run n (mem_set_bit m (page + run)) page (suc run)

pub clear_run : ℕ → PageMap → ℕ → ℕ → PageMap
clear_run zero m page run = m
clear_run (suc n) m page run = clear_run n (mem_clear_bit m (page + run)) page (suc run)

-- The scan for a run of `nr_pages` that begins below `limit`, on fuel: a page in use is passed, and
-- so is all of a run that is too short, with the page that ends it.
pub find_run : ℕ → PageMap → ℕ → ℕ → ℕ → Option ℕ
find_run zero m nr_pages limit page = none
find_run (suc fuel) m nr_pages limit page = elim (ltb page limit) [
  | false ↦ none
  | true ↦ elim (mem_test_bit m page == 0) [
    | false ↦ find_run fuel m nr_pages limit (page + 1)
    | true ↦
        let run = run_length nr_pages m page 0 in
        let rest = find_run fuel m nr_pages limit (page + run + 1) in
        if run == nr_pages then some page else rest
  ]
]

-- The fuel is the pages in sight: each round goes on to a later page.
abbrev pub find_from : PageMap → ℕ → ℕ → ℕ → Option ℕ
find_from m nr_pages limit page = find_run (limit - page) m nr_pages limit page

pub record Memory : Type 0 where
  pub map : PageMap
  pub alloc_pages : ℕ
  pub kalloc_pages : ℕ
  pub nr_pages : ℕ
  pub nr_kpages : ℕ
  pub klast_page : ℕ
  pub ulast_page : ℕ
  pub start_kmem : ℕ
  pub start_umem : ℕ
  pub kbytes_free : ℕ
  pub ubytes_free : ℕ

-- A run that was found: it is marked, and the next scan begins past it. The address is a word.
pub take_user : Memory → ℕ → ℕ → ℕ × Memory
take_user s nr_pages page = (
  page * page_size % 2 ^ 32,
  record s {
    map = set_run nr_pages s.map page 0;
    ulast_page = page + nr_pages + 1;
    alloc_pages = (s.alloc_pages + nr_pages) % 2 ^ 32;
  },
)

-- 0 is the null pointer.
pub page_alloc : Memory → ℕ → ℕ × Memory
page_alloc s nr_pages =
    if leb s.ubytes_free (s.alloc_pages * page_size % 2 ^ 32)
    then (0, s)
    else (let last = if s.ulast_page == 0 then s.start_umem / page_size else s.ulast_page in
        let t = record s { ulast_page = last } in
        elim (find_from s.map nr_pages s.nr_pages last) [
          | some page ↦ take_user t nr_pages page
          | none ↦ elim (find_from s.map nr_pages last (s.start_umem / page_size)) [
            | some page ↦ take_user t nr_pages page
            | none ↦ (0, t)
          ]
        ])

pub page_free : Memory → ℕ → ℕ → Option Memory
page_free s addr nr_pages =
    let page = addr / page_size in
    let left = (s.alloc_pages + 2 ^ 32 - nr_pages) % 2 ^ 32 in
    if ltb page s.nr_kpages || ltb s.nr_pages page
    then none
    else if is_negative left
    then none
    else some
        (record s { map = clear_run nr_pages s.map page 0; ulast_page = page; alloc_pages = left })

pub take_kernel : Memory → ℕ → ℕ → ℕ × Memory
take_kernel s nr_pages page = (
  page * page_size % 2 ^ 32,
  record s {
    map = set_run nr_pages s.map page 0;
    klast_page = page + nr_pages + 1;
    kalloc_pages = (s.kalloc_pages + nr_pages) % 2 ^ 32;
  },
)

pub kpage_alloc : Memory → ℕ → ℕ × Memory
kpage_alloc s nr_pages =
    if leb s.kbytes_free (s.kalloc_pages * page_size % 2 ^ 32)
    then (0, s)
    else (let last = if s.klast_page == 0 then s.start_kmem / page_size else s.klast_page in
        let t = record s { klast_page = last } in
        elim (find_from s.map nr_pages s.nr_kpages last) [
          | some page ↦ take_kernel t nr_pages page
          | none ↦ elim (find_from s.map nr_pages last (s.start_kmem / page_size)) [
            | some page ↦ take_kernel t nr_pages page
            | none ↦ (0, t)
          ]
        ])

pub kpage_free : Memory → ℕ → ℕ → Option Memory
kpage_free s addr nr_pages =
    let page = addr / page_size in
    let left = (s.kalloc_pages + 2 ^ 32 - nr_pages) % 2 ^ 32 in
    if ltb s.nr_kpages page
    then none
    else if is_negative left
    then none
    else some
        (record s { map = clear_run nr_pages s.map page 0; klast_page = page; kalloc_pages = left })

-- `unsigned` arithmetic on the bytes that are left.
pub get_user_bytes_free : Memory → ℕ
get_user_bytes_free s = (s.ubytes_free + 2 ^ 32 - s.alloc_pages * page_size % 2 ^ 32) % 2 ^ 32

pub get_kernel_bytes_free : Memory → ℕ
get_kernel_bytes_free s = (s.kbytes_free + 2 ^ 32 - s.kalloc_pages * page_size % 2 ^ 32) % 2 ^ 32
