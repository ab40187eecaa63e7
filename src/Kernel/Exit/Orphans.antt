-- ===== src/Kernel/Exit/Orphans.antt =====
-- What kexit of kernel/exit.c does to the children, and to the states of the processes.
use ox.Base.{
  ℕ, ◌≡◌, refl, inl, inr, ◌⊎◌, true, ◌&&◌, List, [], ◌∷◌, ◌==◌, some, if◌then◌else◌, update, arith,
  Option-cases,
}
use ox.Kernel.Process.{Process, Kernel, table, walk_lem, mem, distinct, p_running}
use ox.Kernel.Scheduler.{find_init, find_in}
use ox.Kernel.Scheduler.Elect.{schedule-state, schedule-parent}
use ox.Kernel.Exit.{
  with_signal, dispatch_signal, adopt, adopt_loop, hang_up, terminate_session, signal_parent,
  prepared, kexit,
}

adopt-pid : (caller euid : ℕ) (p : Process) → (adopt caller euid p).pid ≡ p.pid
unfolding adopt dispatch_signal
adopt-pid caller euid p = ground arith

adopt-parent :
    (caller euid : ℕ) (p : Process)
    → (adopt caller euid p).parent ≡ (if p.parent == caller then 1 else p.parent)
unfolding adopt dispatch_signal
adopt-parent caller euid p = ground arith

adopt-state : (caller euid : ℕ) (p : Process) → (adopt caller euid p).state ≡ p.state
unfolding adopt dispatch_signal
adopt-state caller euid p = ground arith

-- The loop of the adoption gives each child of the caller to init.
adopt_loop-parent :
    (current : ℕ) (list : List ℕ) (proc : ℕ → Process) (a : ℕ)
    → distinct list ≡ true
    → ((adopt_loop current list proc a).parent
        ≡ (if mem a list && ((proc a).parent == (proc current).pid) then 1 else (proc a).parent))
      × ((adopt_loop current list proc a).state ≡ (proc a).state)
      × ((adopt_loop current list proc a).pid ≡ (proc a).pid)
unfolding adopt_loop mem distinct
adopt_loop-parent current [] proc a one = (refl, refl, refl)
adopt_loop-parent current (b ∷ rest) proc a one =
    let caller = (proc current).pid in
    let euid = (proc current).euid in
    let next = update proc b (adopt caller euid (proc b)) in
    let loop = adopt_loop-parent current rest next a (ground arith) in
    let pid = adopt-pid caller euid (proc b) in
    let parent = adopt-parent caller euid (proc b) in
    let state = adopt-state caller euid (proc b) in
    (
      ground (arith, loop.0, pid, parent),
      ground (arith, loop.1, state),
      ground (arith, loop.2, pid),
    )

-- The fields that the exit leaves alone from here on.
record SameLife (p q : Process) : Type 0 where
  parent : p.parent ≡ q.parent
  state : p.state ≡ q.state

module _ (code : ℕ) (k : Kernel) (one : distinct (table k) ≡ true) where
  terminate_session-SameLife : (a : ℕ) → SameLife (terminate_session k a) (k.proc a)
  unfolding terminate_session hang_up
  terminate_session-SameLife a =
      let e = walk_lem (hang_up (k.proc k.current).session) (table k) k.proc a one in
      record { parent = ground (arith, e); state = ground (arith, e) }

module _ (now : ℕ → ℕ) (kstart code : ℕ) (k : Kernel) (one : distinct (table k) ≡ true) where
  prepared_lem :
      (a : ℕ)
      → (((prepared code k).proc a).parent ≡ (
          if mem a (table k) && ((k.proc a).parent == (k.proc k.current).pid)
          then 1
          else (k.proc a).parent))
        × (((prepared code k).proc a).state ≡ (k.proc a).state)
  unfolding prepared
  prepared_lem a =
      let u = record k { proc = adopt_loop k.current (table k) k.proc } in
      let adopted = adopt_loop-parent k.current (table k) k.proc a one in
      let hung = terminate_session-SameLife code u one a in
      (ground (arith, adopted, hung.parent), ground (arith, adopted, hung.state))

  -- kexit on a table without repeats in which init is found: whether or not a parent is found,
  -- and wherever the scheduler goes on, exactly the processes of the table whose parent was the
  -- caller have process 1 for a parent, and every other process the parent it had.
  pub kexit-parent :
      (init : ℕ)
      → find_init k ≡ some init
      → (a : ℕ)
      → (((kexit now kstart code k).1.proc a).parent ≡ (
          if mem a (table k) && ((k.proc a).parent == (k.proc k.current).pid)
          then 1
          else (k.proc a).parent))
  unfolding kexit signal_parent prepared
  kexit-parent init found a =
      let u = prepared code k in
      let e = (prepared_lem a).0 in
      elim (Option-cases (find_in u.proc (u.proc u.current).parent (table u))) [
        | inl alone ↦ ground (arith, found, alone, e)
        | inr (b, parent) ↦
            let v = record u { proc = update u.proc b (with_signal 17 (u.proc b)) } in
            ground (arith, found, parent, e, schedule-parent now kstart v one a)
      ]

  -- kexit on a table without repeats: every process, the caller included, is then running or in
  -- the state it was in, so that none becomes a zombie.
  pub kexit-state :
      (a : ℕ)
      → (((kexit now kstart code k).1.proc a).state ≡ p_running)
        ⊎ (((kexit now kstart code k).1.proc a).state ≡ (k.proc a).state)
  unfolding kexit signal_parent prepared
  kexit-state a =
      let u = prepared code k in
      let e = (prepared_lem a).1 in
      elim (Option-cases (find_init k)) [
        | inl none_found ↦ ground (arith, none_found)
        | inr (init, found) ↦
            elim (Option-cases (find_in u.proc (u.proc u.current).parent (table u))) [
              | inl alone ↦ ground (arith, found, alone, e)
              | inr (b, parent) ↦
                  let v = record u { proc = update u.proc b (with_signal 17 (u.proc b)) } in
                  ground (arith, found, parent, e, schedule-state now kstart v one a)
            ]
      ]
