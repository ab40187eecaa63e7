-- ===== src/Mm/Page/Alloc.antt =====
-- page_alloc and kpage_alloc of mm/page.c.
use ox.Base.{ℕ, ◌+◌, ◌*◌, ◌/◌, ◌%◌, ◌^◌, ◌≤◌, ◌≡◌, Option, none, some, ◌⊎◌, ◌==◌, if◌then◌else◌}
use ox.Mm.Page.{PageMap, Memory, page_size, mem_test_bit}
use ox.Mm.Page.Map.{IsMap, in_run}
use ox.Mm.Page.Find.{IsFree, Fits}

-- Between the maps, the pages from `page` on, `n` of them, were taken: they were free, are now in
-- use, and no other page changed.
pub record Taken (before after : PageMap) (page n : ℕ) : Type 0 where
  pub was_free : IsFree before page n
  pub marks :
      (q : ℕ) → mem_test_bit after q ≡ (if in_run page 0 n q then 1 else mem_test_bit before q)
  pub is_map : IsMap after

-- The place of a run that a call took: the first from `last` up to `limit`, or, where none fits
-- there, the first from `first` up to `last`.
abbrev pub Place : PageMap → ℕ → ℕ → ℕ → ℕ → ℕ → Type 0
Place m n limit last first page =
    Fits m n limit last (some page) ⊎ (Fits m n limit last none × Fits m n last first (some page))

abbrev pub last_user : Memory → ℕ
last_user s = if s.ulast_page == 0 then s.start_umem / page_size else s.ulast_page

-- What page_alloc does, by its result: null where the count says that memory is spent, null where
-- no run fits in either scan, or the address of the run that it took, in a map where that run alone
-- changed.
pub data UserResult (s : Memory) (n : ℕ) : ℕ × Memory → Type 0 where
  spent : s.ubytes_free ≤ s.alloc_pages * page_size % 2 ^ 32 → UserResult s n (0, s)
  full :
      Fits s.map n s.nr_pages (last_user s) none
      → Fits s.map n (last_user s) (s.start_umem / page_size) none
      → UserResult s n (0, record s { ulast_page = last_user s })
  taken :
      (page : ℕ) (after : PageMap)
      → Place s.map n s.nr_pages (last_user s) (s.start_umem / page_size) page
      → Taken s.map after page n
      → UserResult s n (
        page * page_size % 2 ^ 32,
        record s {
          map = after;
          ulast_page = page + n + 1;
          alloc_pages = (s.alloc_pages + n) % 2 ^ 32;
        },
      )

abbrev pub last_kernel : Memory → ℕ
last_kernel s = if s.klast_page == 0 then s.start_kmem / page_size else s.klast_page

-- The same for kpage_alloc.
pub data KernelResult (s : Memory) (n : ℕ) : ℕ × Memory → Type 0 where
  spent : s.kbytes_free ≤ s.kalloc_pages * page_size % 2 ^ 32 → KernelResult s n (0, s)
  full :
      Fits s.map n s.nr_kpages (last_kernel s) none
      → Fits s.map n (last_kernel s) (s.start_kmem / page_size) none
      → KernelResult s n (0, record s { klast_page = last_kernel s })
  taken :
      (page : ℕ) (after : PageMap)
      → Place s.map n s.nr_kpages (last_kernel s) (s.start_kmem / page_size) page
      → Taken s.map after page n
      → KernelResult s n (
        page * page_size % 2 ^ 32,
        record s {
          map = after;
          klast_page = page + n + 1;
          kalloc_pages = (s.kalloc_pages + n) % 2 ^ 32;
        },
      )

-- Both calls scan twice.
data TwoScans (m : PageMap) (n limit last first : ℕ) : Option ℕ → Option ℕ → Type 0 where
  early :
      (page : ℕ) {o : Option ℕ}
      → Fits m n limit last (some page)
      → TwoScans m n limit last first (some page) o
  late :
      (page : ℕ)
      → Fits m n limit last none
      → Fits m n last first (some page)
      → TwoScans m n limit last first none (some page)
  nowhere :
      Fits m n limit last none → Fits m n last first none → TwoScans m n limit last first none none
