-- ===== src/Kernel/Scheduler/Pick.antt =====
-- The choice of the next process in `schedule` of kernel/scheduler.c.
use ox.Base.{
  ℕ, ◌≡◌, refl, inl, inr, ◌⊎◌, true, List, [], ◌∷◌, if◌then◌else◌, arith, Bool-cases, dec32,
}
use ox.Kernel.Process.{Process, Kernel, table, walk, walk_lem, mem, distinct, signed_lt, signed_le}
use ox.Kernel.Scheduler.{attend, wake, ring_alarm, tick, pick, after_walks}

-- The choice is the process that it began with or one of the list, and none of them has more.
pub record Best (proc : ℕ → Process) (best : ℕ) (list : List ℕ) (chosen : ℕ) : Type 0 where
  pub among : (chosen ≡ best) ⊎ (mem chosen list ≡ true)
  pub above : signed_le (proc best).counter (proc chosen).counter ≡ true
  pub most : (a : ℕ) → mem a list ≡ true → signed_le (proc a).counter (proc chosen).counter ≡ true

pub pick-Best :
    (proc : ℕ → Process) (best : ℕ) (list : List ℕ) → Best proc best list (pick proc best list)
unfolding pick mem
pick-Best proc best [] = record {
  among = inl refl;
  above = ground arith;
  most = λ a h. ground arith;
}
pick-Best proc best (b ∷ rest) =
    elim (Bool-cases (signed_lt (proc best).counter (proc b).counter)) [
      | inl more ↦
          let r = pick-Best proc b rest in
          rw (more, pick)
            (record {
              among = ground (arith, r.among);
              above = ground (arith, r.above);
              most = λ a h. ground (arith, r.above, r.most a);
            })
      | inr less ↦
          let r = pick-Best proc best rest in
          rw (less, pick)
            (record {
              among = ground (arith, r.among);
              above = ground (arith, r.above);
              most = λ a h. ground (arith, r.above, r.most a);
            })
    ]

-- The choice looks at the counters only.
pub pick_counters :
    (proc other : ℕ → Process) (list : List ℕ) (best : ℕ)
    → ((a : ℕ) → (proc a).counter ≡ (other a).counter)
    → pick proc best list ≡ pick other best list
unfolding pick
pick_counters proc other [] best same = refl
pick_counters proc other (a ∷ rest) best same =
    let e = same best in let f = same a in rw (e, f) (pick_counters proc other rest _ same)

attend-counter : (now : ℕ → ℕ) (a : ℕ) (p : Process) → (attend now a p).counter ≡ p.counter
unfolding attend wake ring_alarm
attend-counter now a p = ground arith

pub after_walks-counter :
    (now : ℕ → ℕ) (k : Kernel) (a : ℕ)
    → distinct (table k) ≡ true
    → (after_walks now k a).counter
      ≡ (if mem a (table k) then dec32 (k.proc a).counter else (k.proc a).counter)
unfolding after_walks tick
after_walks-counter now k a one =
    let first = walk_lem (attend now) (table k) k.proc a one in
    let second = walk_lem tick (table k) (walk (attend now) (table k) k.proc) a one in
    ground (arith, attend-counter now a (k.proc a))
