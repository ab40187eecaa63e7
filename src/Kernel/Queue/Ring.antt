-- ===== src/Kernel/Queue/Ring.antt =====
-- When the pointers of kernel/process_queue.c hold a sequence of processes.
use ox.Base.{ℕ, ◌≡◌, ◌≢◌, refl, ◌∙◌, true, false, List, [], ◌∷◌, ◌++◌, arith, length}
use ox.Kernel.Process.{mem, distinct}
use ox.Kernel.Queue.{Store}

-- From a along the list to z, each points at the next and the next back at it.
unfoldable pub Linked : (ℕ → ℕ) → (ℕ → ℕ) → ℕ → List ℕ → ℕ → Type 0
Linked next prev a [] z = a ≡ z
Linked next prev a (b ∷ rest) z = (next a ≡ b) × (prev b ≡ a) × Linked next prev b rest z

-- Queue p is the ring of the list, from its head. An empty queue is a NULL head.
unfoldable pub Holds : Store → ℕ → List ℕ → Type 0
Holds s p [] = (s.tab p ≡ 0) × (s.size p ≡ 0)
Holds s p (a ∷ rest) =
    (z : ℕ) × Linked s.next s.prev a rest z
    × (s.next z ≡ a)
    × (s.prev a ≡ z)
    × (s.tab p ≡ a)
    × (s.size p ≡ length (a ∷ rest))
    × (mem 0 (a ∷ rest) ≡ false)
    × (distinct (a ∷ rest) ≡ true)

pub Linked-mem :
    (next prev : ℕ → ℕ) (a : ℕ) (list : List ℕ) (z : ℕ)
    → Linked next prev a list z
    → mem z (a ∷ list) ≡ true
unfolding Linked mem
Linked-mem next prev a [] z e = ground arith
Linked-mem next prev a (b ∷ rest) z (e, f, l) =
    let m = Linked-mem next prev b rest z l in ground arith

-- Writes at other places, at the last `next` and at the first `prev` leave the links.
pub Linked-same :
    (next prev next' prev' : ℕ → ℕ) (a : ℕ) (list : List ℕ) (z : ℕ)
    → distinct (a ∷ list) ≡ true
    → ((x : ℕ) → mem x (a ∷ list) ≡ true → x ≢ z → next' x ≡ next x)
    → ((x : ℕ) → mem x list ≡ true → prev' x ≡ prev x)
    → Linked next prev a list z
    → Linked next' prev' a list z
unfolding Linked mem distinct
Linked-same next prev next' prev' a [] z one same_next same_prev e = e
Linked-same next prev next' prev' a (b ∷ rest) z one same_next same_prev (e, f, l) =
    let inside = Linked-mem next prev b rest z l in
    let apart : a ≢ z = λ same. ground arith in
    (
      same_next a (ground arith) apart ∙ e,
      same_prev b (ground arith) ∙ f,
      Linked-same next prev next' prev' b rest z (ground arith)
          (λ x m far. same_next x (ground arith) far) (λ x m. same_prev x (ground arith)) l,
    )

pub Linked-snoc :
    (next prev : ℕ → ℕ) (a : ℕ) (list : List ℕ) (z q : ℕ)
    → Linked next prev a list z
    → next z ≡ q
    → prev q ≡ z
    → Linked next prev a (list ++ q ∷ []) q
unfolding Linked
Linked-snoc next prev a [] z q e forth back = (rw e forth, rw e back, refl)
Linked-snoc next prev a (b ∷ rest) z q (e, f, l) forth back =
    (e, f, Linked-snoc next prev b rest z q l forth back)
