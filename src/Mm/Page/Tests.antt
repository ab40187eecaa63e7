-- ===== src/Mm/Page/Tests.antt =====
-- The allocators of mm/page.c on a machine of 16 pages, 8 of them the user's.
use ox.Base.{Bool-cases, ℕ, ◌+◌, ◌*◌, ◌/◌, ◌<◌, ◌≤◌, ◌≡◌, refl, inl, inr, arith, ◌==◌}
use ox.Mm.Page.{
  PageMap, Memory, page_size, mem_set_bit, mem_test_bit, run_length, set_run, find_run, take_user,
  take_kernel, page_alloc, kpage_alloc,
}
use ox.Mm.Page.Map.{IsMap}
use ox.Mm.Page.Find.{IsFree}
use ox.Mm.Page.Free.{page_alloc_past_end}

abbrev clear : PageMap
clear block byte = 0

abbrev machine : Memory
machine = record {
  map = clear;
  alloc_pages = 0;
  kalloc_pages = 0;
  nr_pages = 16;
  nr_kpages = 8;
  klast_page = 0;
  ulast_page = 0;
  start_kmem = 2 * 4096;
  start_umem = 8 * 4096;
  kbytes_free = 6 * 4096;
  ubytes_free = 8 * 4096;
}

clear-IsMap : IsMap clear
clear-IsMap block byte = omega arith

first_two : (page_alloc machine 2).0 ≡ 8 * 4096
unfolding page_alloc take_user find_run run_length mem_test_bit
first_two = refl

then_three : (kpage_alloc (kpage_alloc machine 2).1 3).0 ≡ 5 * 4096
unfolding kpage_alloc take_kernel find_run run_length mem_test_bit set_run mem_set_bit
then_three = refl

clear-IsFree : IsFree clear 15 2
unfolding mem_test_bit
clear-IsFree q lo hi = elim (Bool-cases (q == 15)) [
  | inl e ↦ let e' : q ≡ 15 = ground arith in rw e'
  | inr e ↦ let e' : q ≡ 16 = ground arith in rw e'
]

page_alloc_past_end_example :
    let s = record machine { ulast_page = 15 } in
    ((page_alloc s 2).0 / page_size < 16)
    × (16 < (page_alloc s 2).0 / page_size + 2)
    × ((q : ℕ)
        → 16 ≤ q
        → q < (page_alloc s 2).0 / page_size + 2
        → mem_test_bit (page_alloc s 2).1.map q ≡ 1)
page_alloc_past_end_example =
    page_alloc_past_end (record machine { ulast_page = 15 }) 2 clear-IsMap (omega arith)
      (omega arith) (omega arith) refl (omega arith) clear-IsFree
