-- ===== src/Mm/Page/Free.antt =====
-- page_free and kpage_free of mm/page.c after the call that allocated, and a run at the end.
use ox.Base.{
  ℕ, ◌+◌, ◌*◌, ◌/◌, ◌%◌, ◌^◌, ◌<◌, ◌≤◌, ◌≡◌, refl, ◌∙◌, true, false, none, some, inl, inr, arith,
  leb, Option-cases,
}
use ox.Mm.Page.{
  PageMap, Memory, page_size, mem_test_bit, set_run, clear_run, find_from, take_user, take_kernel,
  page_alloc, page_free, kpage_free,
}
use ox.Mm.Page.Map.{IsMap, in_run, set_run_lem, clear_run_lem, set_run-IsMap}
use ox.Mm.Page.Find.{IsFree, Fits, find_from-Fits}
use ox.Mm.Page.Alloc.{Taken, last_user}

-- Clearing a run that was free before it was set gives every page its bit back.
clear-set_run :
    (m : PageMap) (page n q : ℕ)
    → IsMap m
    → IsFree m page n
    → mem_test_bit (clear_run n (set_run n m page 0) page 0) q ≡ mem_test_bit m q
clear-set_run m page n q is free =
    clear_run_lem n (set_run n m page 0) page 0 q (set_run-IsMap n m page 0 is)
    ∙ ground (arith, set_run_lem n m page 0 q is, free q)

-- The same of any map in which the run alone was set.
clear_taken :
    (m after : PageMap) (page n q : ℕ)
    → Taken m after page n
    → mem_test_bit (clear_run n after page 0) q ≡ mem_test_bit m q
clear_taken m after page n q t =
    clear_run_lem n after page 0 q t.is_map ∙ ground (arith, t.marks q, t.was_free q)

module _ (s : Memory) (n page : ℕ) (after : PageMap) (t : Taken s.map after page n)
    (word : page * page_size < 2 ^ 32) (count : s.alloc_pages + n < 2 ^ 31)
    (low : s.nr_kpages ≤ page) (high : page ≤ s.nr_pages) where
  -- The run that page_alloc took is given back: no panic, the old count and the old bitmap.
  pub page_free-Taken :
      let r = record s {
        map = after;
        ulast_page = page + n + 1;
        alloc_pages = (s.alloc_pages + n) % 2 ^ 32;
      } in
      (u : Memory) × (page_free r (page * page_size % 2 ^ 32) n ≡ some u)
      × (u.alloc_pages ≡ s.alloc_pages)
      × (u.ulast_page ≡ page)
      × ((q : ℕ) → mem_test_bit u.map q ≡ mem_test_bit s.map q)
  unfolding page_free
  page_free-Taken =
      let back : page * page_size % 2 ^ 32 / page_size ≡ page = omega arith in
      (
        record s { map = clear_run n after page 0; ulast_page = page; alloc_pages = s.alloc_pages },
        ground arith,
        refl,
        refl,
        λ q. clear_taken s.map after page n q t,
      )

module _ (s : Memory) (n page : ℕ) (is : IsMap s.map) (free : IsFree s.map page n)
    (word : page * page_size < 2 ^ 32) (count : s.kalloc_pages + n < 2 ^ 31)
    (high : page ≤ s.nr_kpages) where
  -- The same for the kernel's run.
  pub kpage_free-take_kernel :
      let r = take_kernel s n page in
      (t : Memory) × (kpage_free r.1 r.0 n ≡ some t)
      × (t.kalloc_pages ≡ s.kalloc_pages)
      × (t.klast_page ≡ page)
      × ((q : ℕ) → mem_test_bit t.map q ≡ mem_test_bit s.map q)
  unfolding kpage_free take_kernel
  kpage_free-take_kernel =
      let back : page * page_size % 2 ^ 32 / page_size ≡ page = omega arith in
      (
        record s {
          map = clear_run n (set_run n s.map page 0) page 0;
          klast_page = page;
          kalloc_pages = s.kalloc_pages;
        },
        ground arith,
        refl,
        refl,
        λ q. clear-set_run s.map page n q is free,
      )

-- The user part of memory as mem_init lays it out, with the next scan inside it.
pub record IsUserPart (s : Memory) : Type 0 where
  pub is_map : IsMap s.map
  pub words : s.nr_pages * page_size < 2 ^ 32
  pub above_kernel : s.nr_kpages ≤ s.start_umem / page_size
  pub not_below : s.start_umem / page_size ≤ last_user s
  pub not_above : last_user s ≤ s.nr_pages

-- What freeing an allocation gives back.
abbrev pub Restored : Memory → ℕ → ℕ × Memory → Type 0
Restored s n r =
    (t : Memory) × (page_free r.1 r.0 n ≡ some t)
    × (t.alloc_pages ≡ s.alloc_pages)
    × ((q : ℕ) → mem_test_bit t.map q ≡ mem_test_bit s.map q)

module _ (s : Memory) (n : ℕ) (is : IsMap s.map) (several : 1 < n)
    (left : s.alloc_pages * page_size % 2 ^ 32 < s.ubytes_free) (pos : 0 < s.ulast_page)
    (last : s.ulast_page + 1 ≡ s.nr_pages) (word : s.nr_pages * page_size < 2 ^ 32)
    (free : IsFree s.map s.ulast_page n) where
  at_end : page_alloc s n ≡ take_user s n s.ulast_page
  unfolding page_alloc take_user
  at_end =
      let here : last_user s ≡ s.ulast_page = ground arith in
      let enough : leb s.ubytes_free (s.alloc_pages * page_size % 2 ^ 32) ≡ false = ground arith in
      let f = find_from-Fits s.map is n s.nr_pages (omega arith) (last_user s) in
      elim (Option-cases (find_from s.map n s.nr_pages (last_user s))) [
        | inl e ↦
            let miss : Fits s.map n s.nr_pages (last_user s) none = rw e at f in
            absurd (miss s.ulast_page (omega arith) (omega arith) free)
        | inr (page, e) ↦
            let hit : Fits s.map n s.nr_pages (last_user s) (some page) = rw e at f in
            let stay : page ≡ s.ulast_page = omega (arith, hit.0, hit.1) in
            rw (enough, e, stay, page_alloc)
      ]

  -- page_alloc of two pages or more on a map of byte entries, with bytes left, in a memory whose
  -- addresses fit a word, when the scan starts at the last page and the bits of that page and of
  -- the map behind it are clear: it returns a run that starts inside memory and ends past it, and
  -- the bits it sets past the end of memory are set.
  pub page_alloc_past_end :
      ((page_alloc s n).0 / page_size < s.nr_pages)
      × (s.nr_pages < (page_alloc s n).0 / page_size + n)
      × ((q : ℕ)
          → s.nr_pages ≤ q
          → q < (page_alloc s n).0 / page_size + n
          → mem_test_bit (page_alloc s n).1.map q ≡ 1)
  unfolding take_user
  page_alloc_past_end = rw at_end (
    omega arith,
    omega arith,
    λ q lo hi.
        set_run_lem n s.map s.ulast_page 0 q is
        ∙ (let mine : in_run s.ulast_page 0 n q ≡ true = ground arith in rw mine),
  )
