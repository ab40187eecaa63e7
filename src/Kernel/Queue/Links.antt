-- ===== src/Kernel/Queue/Links.antt =====
-- The links of a ring of kernel/process_queue.c without one of its processes.
use ox.Base.{
  ℕ, ◌+◌, ◌≡◌, ◌≢◌, refl, ◌∙◌, inl, inr, true, false, List, [], ◌∷◌, ◌==◌, if◌then◌else◌, update,
  arith, length, Bool-cases,
}
use ox.Kernel.Process.{mem, distinct}
use ox.Kernel.Queue.Ring.{Linked, Linked-mem, Linked-same}

-- The list without the process.
unfoldable pub without : ℕ → List ℕ → List ℕ
without q [] = []
without q (a ∷ rest) = if a == q then rest else a ∷ without q rest

module _ (next prev : ℕ → ℕ) where
  pub Linked-forth :
      (a : ℕ) (list : List ℕ) (z q : ℕ)
      → Linked next prev a list z
      → mem q list ≡ true
      → next (prev q) ≡ q
  unfolding Linked mem
  Linked-forth a [] z q l m = absurd (ground arith)
  Linked-forth a (b ∷ rest) z q (e, f, l) m = ground (arith, Linked-forth b rest z q l)

  pub Linked-back :
      (a : ℕ) (list : List ℕ) (z q : ℕ)
      → Linked next prev a list z
      → mem q (a ∷ list) ≡ true
      → q ≢ z
      → prev (next q) ≡ q
  unfolding Linked mem
  Linked-back a [] z q e m far = absurd (ground arith)
  Linked-back a (b ∷ rest) z q (e, f, l) m far = ground (arith, Linked-back b rest z q l)

  -- The writes that take q off.
  abbrev pub next_off : ℕ → ℕ → ℕ
  next_off q = update (update next (prev q) (next q)) q 0

  abbrev pub prev_off : ℕ → ℕ → ℕ
  prev_off q = update (update prev (next q) (prev q)) q 0

  pub Linked-without :
      (a : ℕ) (list : List ℕ) (z q : ℕ)
      → Linked next prev a list z
      → distinct (a ∷ list) ≡ true
      → mem q list ≡ true
      → next (prev q) ≡ q
      → prev (next q) ≡ q
      → Linked (next_off q) (prev_off q) a (without q list) (if q == z then prev q else z)
  unfolding Linked mem distinct without
  Linked-without a [] z q l one m forth back = absurd (ground arith)
  Linked-without a (b ∷ []) z q (e, f, g) one m forth back =
      let it : b ≡ q = ground arith in
      let here : (b == q) ≡ true = ground arith in
      let last : (q == z) ≡ true = ground arith in rw (here, last) (ground arith)
  Linked-without a (b ∷ c ∷ rest) z q (e, f, l) one m forth back = elim (Bool-cases (b == q)) [
    | inl here ↦
        let inside = Linked-mem next prev c rest z (l.2) in
        let not_last : (q == z) ≡ false = ground arith in
        rw (here, not_last)
          (
            ground (arith, l.0),
            ground (arith, l.0),
            Linked-same next prev (next_off q) (prev_off q) c rest z (ground arith)
                (λ x m' far. ground arith) (λ x m'. ground (arith, l.0)) l.2,
          )
    | inr further ↦ rw further (
      ground arith,
      ground arith,
      Linked-without b (c ∷ rest) z q l (ground arith) (ground arith) forth back,
    )
  ]

pub mem-without : (x q : ℕ) (list : List ℕ) → mem x list ≡ false → mem x (without q list) ≡ false
unfolding mem without
mem-without x q [] h = refl
mem-without x q (a ∷ rest) h = ground (arith, mem-without x q rest)

pub distinct-without :
    (q : ℕ) (list : List ℕ) → distinct list ≡ true → distinct (without q list) ≡ true
unfolding distinct mem without
distinct-without q [] one = refl
distinct-without q (a ∷ rest) one = ground (arith, distinct-without q rest, mem-without a q rest)

pub length-without :
    (q : ℕ) (list : List ℕ) → mem q list ≡ true → length (without q list) + 1 ≡ length list
unfolding mem without
length-without q [] m = absurd (ground arith)
length-without q (a ∷ rest) m = ground (arith, length-without q rest)

pub Linked-same_all :
    (next prev next' prev' : ℕ → ℕ) (a : ℕ) (list : List ℕ) (z : ℕ)
    → ((x : ℕ) → next' x ≡ next x)
    → ((x : ℕ) → prev' x ≡ prev x)
    → Linked next prev a list z
    → Linked next' prev' a list z
unfolding Linked
Linked-same_all next prev next' prev' a [] z n p e = e
Linked-same_all next prev next' prev' a (b ∷ rest) z n p (e, f, l) =
    (n a ∙ e, p b ∙ f, Linked-same_all next prev next' prev' b rest z n p l)

pub prev_apart :
    (next prev : ℕ → ℕ) (a : ℕ) (list : List ℕ) (z q : ℕ)
    → Linked next prev a list z
    → distinct (a ∷ list) ≡ true
    → mem q list ≡ true
    → prev q ≢ q
unfolding Linked mem distinct
prev_apart next prev a [] z q l one m = absurd (ground arith)
prev_apart next prev a (b ∷ rest) z q (e, f, l) one m =
    ground (arith, prev_apart next prev b rest z q l)
