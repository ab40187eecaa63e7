-- ===== src/Mm/Page/Find.antt =====
-- The scan of mm/page.c for a run of free pages.
use ox.Base.{
  ℕ, zero, suc, ◌+◌, ◌-◌, ◌<◌, ◌≤◌, ◌≡◌, Option, none, some, inl, inr, arith, ◌==◌, ltb, Bool-cases,
}
use ox.Mm.Page.{PageMap, mem_test_bit, run_length, find_run, find_from}
use ox.Mm.Page.Map.{IsMap, mem_test_bit-lt}

-- The pages from `page` on, `n` of them, are free.
abbrev pub IsFree : PageMap → ℕ → ℕ → Type 0
IsFree m page n = (q : ℕ) → page ≤ q → q < page + n → mem_test_bit m q ≡ 0

module _ (m : PageMap) (is : IsMap m) where
  -- The loop over a run stops at the first page in use, or at its end.
  pub run_length_lem :
      (n page run : ℕ)
      → (run ≤ run_length n m page run)
        × (run_length n m page run ≤ run + n)
        × ((q : ℕ) → page + run ≤ q → q < page + run_length n m page run → mem_test_bit m q ≡ 0)
        × (run_length n m page run < run + n → mem_test_bit m (page + run_length n m page run) ≡ 1)
  unfolding run_length
  run_length_lem zero page run =
      (omega arith, omega arith, λ q lo hi. absurd (omega arith), λ h. absurd (omega arith))
  run_length_lem (suc n) page run = elim (Bool-cases (mem_test_bit m (page + run) == 1)) [
    | inl used ↦
        rw used (omega arith, omega arith, λ q lo hi. absurd (omega arith), λ h. ground arith)
    | inr free ↦
        let l = run_length_lem n page (suc run) in
        let b = mem_test_bit-lt m is (page + run) in
        rw free (
          omega (arith, l.0),
          omega (arith, l.1),
          λ q lo hi. elim (Bool-cases (q == page + run)) [
            | inl here ↦ let e : q ≡ page + run = ground arith in rw e (ground arith)
            | inr later ↦ l.2 q (ground arith) hi
          ],
          λ h. l.3 (omega arith),
        )
  ]

-- What a scan from `page` up to `limit` tells: the first place where the run fits, or that there is
-- none.
abbrev pub Fits : PageMap → ℕ → ℕ → ℕ → Option ℕ → Type 0
Fits m n limit page none = (r : ℕ) → page ≤ r → r < limit → ¬ IsFree m r n
Fits m n limit page (some p) =
    (page ≤ p) × (p < limit) × IsFree m p n × ((r : ℕ) → page ≤ r → r < p → ¬ IsFree m r n)

module _ (m : PageMap) (is : IsMap m) (n limit : ℕ) (some_pages : 0 < n) where
  -- A page in use ends every run that it lies in.
  blocked : (u r : ℕ) → mem_test_bit m u ≡ 1 → r ≤ u → u < r + n → ¬ IsFree m r n
  blocked u r e lo hi free = absurd (ground (arith, free u lo hi))

  -- Where no run fits at the pages passed, a scan from a later page tells as much.
  Fits-later :
      (page next : ℕ) (o : Option ℕ)
      → page ≤ next
      → ((r : ℕ) → page ≤ r → r < next → ¬ IsFree m r n)
      → Fits m n limit next o
      → Fits m n limit page o
  Fits-later page next none h passed f = λ r lo hi free. elim (Bool-cases (ltb r next)) [
    | inl before ↦ passed r lo (ground arith) free
    | inr after ↦ f r (ground arith) hi free
  ]
  Fits-later page next (some p) h passed f = (
    omega (arith, f.0),
    f.1,
    f.2,
    λ r lo hi free. elim (Bool-cases (ltb r next)) [
      | inl before ↦ passed r lo (ground arith) free
      | inr after ↦ f.3 r (ground arith) hi free
    ],
  )

  pub find_run-Fits :
      (fuel page : ℕ) → limit ≤ page + fuel → Fits m n limit page (find_run fuel m n limit page)
  unfolding find_run
  find_run-Fits zero page h = λ r lo hi free. absurd (omega arith)
  find_run-Fits (suc fuel) page h = elim (Bool-cases (ltb page limit)) [
    | inr done ↦ rw (done, find_run) (λ r lo hi free. absurd (ground arith))
    | inl more ↦ elim (Bool-cases (mem_test_bit m page == 0)) [
      | inr used ↦
          rw (more, used, find_run)
            (Fits-later page (page + 1) _ (omega arith)
              (λ r lo hi.
                blocked page r (ground (arith, mem_test_bit-lt m is page)) (omega arith)
                  (omega arith))
              (find_run-Fits fuel (page + 1) (omega arith)))
      | inl free ↦
          let l = run_length_lem m is n page 0 in
          let run = run_length n m page 0 in
          elim (Bool-cases (run == n)) [
            | inl fit ↦
                rw (more, free, fit, find_run)
                  (
                    omega arith,
                    ground arith,
                    λ q lo hi. l.2 q (omega arith) (ground arith),
                    λ r lo hi. absurd (omega arith),
                  )
            | inr short ↦
                rw (more, free, short, find_run)
                  (Fits-later page (page + run + 1) _ (omega arith)
                    (λ r lo hi.
                      blocked (page + run) r (l.3 (ground arith)) (omega arith)
                        (ground (arith, l.1)))
                    (find_run-Fits fuel (page + run + 1) (omega arith)))
          ]
    ]
  ]

  pub find_from-Fits : (page : ℕ) → Fits m n limit page (find_from m n limit page)
  find_from-Fits page = find_run-Fits (limit - page) page (omega arith)
