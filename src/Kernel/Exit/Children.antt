-- ===== src/Kernel/Exit/Children.antt =====
-- What the traversal of kwaitpid in kernel/exit.c finds among the children.
use ox.Base.{
  ℕ, ◌≡◌, inl, inr, ◌⊎◌, Bool, true, false, ◌||◌, ◌&&◌, not, List, [], ◌∷◌, ◌==◌, arith, Bool-cases,
  bit_and,
}
use ox.Kernel.Process.{Kernel, table, mem, p_zombie, p_stopped}
use ox.Kernel.Exit.{waits_for, Wait, stopped, reaped, finished, wait_loop}

module _ (k : Kernel) (pid options : ℕ) where
  -- A process that ends the traversal.
  abbrev pub ends : ℕ → Bool
  ends a =
      waits_for k pid a
      && (((k.proc a).state == p_zombie)
          || (((k.proc a).state == p_stopped) && not (bit_and options 2 == 0)))

  -- A process that has the caller wait: a child that has not ended and not stopped.
  abbrev pub goes_on : ℕ → Bool
  goes_on a =
      waits_for k pid a && not ((k.proc a).state == p_zombie) && not ((k.proc a).state == p_stopped)

  -- What the traversal found.
  pub Found : List ℕ → Bool → Wait → Type 0
  Found list fixup (stopped a) =
      (mem a list ≡ true) × (ends a ≡ true) × ((k.proc a).state ≡ p_stopped)
  Found list fixup (reaped a) =
      (mem a list ≡ true) × (ends a ≡ true) × ((k.proc a).state ≡ p_zombie)
  Found list fixup (finished flag) =
      ((a : ℕ) → mem a list ≡ true → ends a ≡ false)
      × ((flag ≡ true) → (fixup ≡ true) ⊎ ((a : ℕ) × (mem a list ≡ true) × (goes_on a ≡ true)))
      × ((flag ≡ false) → (fixup ≡ false) × ((a : ℕ) → mem a list ≡ true → goes_on a ≡ false))

  later :
      (b : ℕ) (list : List ℕ) (fixup fixup' : Bool) (w : Wait)
      → ends b ≡ false
      → fixup' ≡ (fixup || goes_on b)
      → Found list fixup' w
      → Found (b ∷ list) fixup w
  unfolding Found mem
  later b list fixup fixup' (stopped a) h f (m, e, s) = (ground arith, e, s)
  later b list fixup fixup' (reaped a) h f (m, e, s) = (ground arith, e, s)
  later b list fixup fixup' (finished flag) h f (none_ends, on_case, off_case) = (
    λ a m. ground (arith, none_ends a),
    λ on. elim (on_case on) [
      | inr (a, m, g) ↦ inr (a, ground arith, g)
      | inl on' ↦ elim (Bool-cases fixup) [
        | inl was ↦ inl was
        | inr off ↦ inr (b, ground arith, ground arith)
      ]
    ],
    λ off. (
      ground (arith, (off_case off).0),
      λ a m. ground (arith, (off_case off).0, (off_case off).1 a),
    ),
  )

  wait_loop-Found :
      (list : List ℕ) (fixup : Bool) → Found list fixup (wait_loop k pid options list fixup)
  unfolding wait_loop Found mem
  wait_loop-Found [] fixup = (λ a m. ground arith, λ on. inl on, λ off. (off, λ a m. ground arith))
  wait_loop-Found (b ∷ rest) fixup =
      let skip = wait_loop-Found rest fixup in
      let child = wait_loop-Found rest true in
      elim (Bool-cases (waits_for k pid b)) [
        | inr other ↦
            rw (other, wait_loop) (later b rest fixup fixup _ (ground arith) (ground arith) skip)
        | inl mine ↦ elim (Bool-cases ((k.proc b).state == p_stopped)) [
          | inl still ↦ elim (Bool-cases (bit_and options 2 == 0)) [
            | inl unasked ↦
                rw (mine, still, unasked, wait_loop)
                  (later b rest fixup fixup _ (ground arith) (ground arith) skip)
            | inr asked ↦
                rw (mine, still, asked, wait_loop) (ground arith, ground arith, ground arith)
          ]
          | inr moving ↦ elim (Bool-cases ((k.proc b).state == p_zombie)) [
            | inl dead ↦
                rw (mine, moving, dead, wait_loop) (ground arith, ground arith, ground arith)
            | inr alive ↦
                rw (mine, moving, alive, wait_loop)
                  (later b rest fixup true _ (ground arith) (ground arith) child)
          ]
        ]
      ]

-- The traversal of kwaitpid on any kernel: it ends at a stopped child or a zombie only if that is
-- a process of the table that the call waits for, a stopped one if the options ask for it; if it
-- reaches the end, no process of the table that the call waits for is a zombie or a stopped one
-- that is asked for, and the flag is set exactly if some process that the call waits for is
-- neither stopped nor a zombie.
pub wait_loop_lem :
    (k : Kernel) (pid options : ℕ)
    → Found k pid options (table k) false (wait_loop k pid options (table k) false)
wait_loop_lem k pid options = wait_loop-Found k pid options (table k) false
