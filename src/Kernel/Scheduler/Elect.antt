-- ===== src/Kernel/Scheduler/Elect.antt =====
-- Which process `schedule` of kernel/scheduler.c switches to, and which ones it wakes.
use ox.Base.{
  ℕ, ◌≡◌, ◌≢◌, refl, ◌∙◌, sym, inl, inr, ◌⊎◌, true, false, ◌||◌, ◌&&◌, not, ◌==◌, some,
  if◌then◌else◌, arith, Bool-cases,
}
use ox.Kernel.Process.{
  Process, Kernel, table, walk, walk_lem, mem, distinct, signed_lt, signed_le, p_running,
  p_interruptible,
}
use ox.Kernel.Scheduler.{
  attend, wake, ring_alarm, tick, pick, Switch, switches, after_walks, begin, schedule, deliverable,
}
use ox.Kernel.Scheduler.Pick.{pick-Best, pick_counters, after_walks-counter}

-- The fields that the traversals leave alone.
record SameStart (p q : Process) : Type 0 where
  first_exec : p.first_exec ≡ q.first_exec
  eip : p.eip ≡ q.eip
  tss_seg : p.tss_seg ≡ q.tss_seg

attend-SameStart : (now : ℕ → ℕ) (a : ℕ) (p : Process) → SameStart (attend now a p) p
unfolding attend wake ring_alarm
attend-SameStart now a p = record {
  first_exec = ground arith;
  eip = ground arith;
  tss_seg = ground arith;
}

module _ (now : ℕ → ℕ) (kstart : ℕ) (k : Kernel) (one : distinct (table k) ≡ true) where
  after_walks_lem :
      (a : ℕ)
      → after_walks now k a
        ≡ (if mem a (table k) then tick a (attend now a (k.proc a)) else k.proc a)
  unfolding after_walks tick
  after_walks_lem a =
      let first = walk_lem (attend now) (table k) k.proc a one in
      let second = walk_lem tick (table k) (walk (attend now) (table k) k.proc) a one in
      ground (arith, first, second)

  after_walks-SameStart : (a : ℕ) → SameStart (after_walks now k a) (k.proc a)
  unfolding tick
  after_walks-SameStart a =
      let s = attend-SameStart now a (k.proc a) in
      let e = after_walks_lem a in
      elim (Bool-cases (mem a (table k))) [
        | inl inside ↦
            rw e
              (rw inside (record { first_exec = s.first_exec; eip = s.eip; tss_seg = s.tss_seg }))
        | inr outside ↦ rw e (rw outside (record { first_exec = refl; eip = refl; tss_seg = refl }))
      ]

  -- A process that has somewhere to begin.
  abbrev pub CanRun : Type 0
  CanRun = (a : ℕ) → mem a (table k) ≡ true → ((k.proc a).first_exec ≡ 1) ⊎ ((k.proc a).eip ≢ 0)

  -- The outcome of a switch to `to`.
  pub record Elected (to : ℕ) (r : Switch × Kernel) : Type 0 where
    pub queued : mem to (table k) ≡ true
    pub other : to ≢ k.current
    pub outcome :
        r.0
        ≡ switches
            (some k.current)
            to
            (if (k.proc to).first_exec == 0 || (k.proc to).first_exec == 1 then 1 else 0)
    pub runs : r.1.current ≡ to
    pub most :
        (a : ℕ)
        → mem a (table k) ≡ true
        → signed_le (after_walks now k a).counter (after_walks now k to).counter ≡ true

  -- schedule, not on its first call, on a table without repeats, from a process with a task
  -- segment, when the entry of a new process is not NULL, every process of the table is new to
  -- user code or has an instruction pointer other than 0, and some process of the table has a
  -- larger counter than the caller after the traversals: it switches from the caller to another
  -- process of the table, whatever the state of that process, so also to one that is not running,
  -- against the comment in the code; in the mode of one that begins where it has not run, that
  -- process is the current one, and no process of the table has a larger counter.
  pub schedule-Elected :
      (b : ℕ)
      → k.first_time ≡ false
      → (k.proc k.current).tss_seg ≢ 0
      → kstart ≢ 0
      → CanRun
      → mem b (table k) ≡ true
      → signed_lt (after_walks now k k.current).counter (after_walks now k b).counter ≡ true
      → (to : ℕ) × Elected to (schedule now kstart k)
  unfolding schedule begin tick
  schedule-Elected b later segment start can inside more =
      let to = pick (after_walks now k) k.current (table k) in
      let best = pick-Best (after_walks now k) k.current (table k) in
      let most_b = best.most b inside in
      let other : to ≢ k.current = λ e. ground (arith, most_b) in
      let queued : mem to (table k) ≡ true = ground (arith, best.among, other) in
      let same = after_walks-SameStart to in
      let elsewhere : (to == k.current) ≡ false = ground (arith, other) in
      let placed = (after_walks-SameStart k.current).tss_seg in
      (
        to,
        record {
          queued = queued;
          other = other;
          outcome =
              ground (arith, same.first_exec, same.eip, can to queued, other, elsewhere, placed);
          runs = ground (arith, same.first_exec, same.eip, can to queued, other, elsewhere, placed);
          most = best.most;
        },
      )

  -- The state of a process after the traversals, alarms included.
  abbrev pub woken : ℕ → ℕ
  woken a =
      let p = ring_alarm (now a) (k.proc a) in
      if mem a (table k)
        && (p.state == p_interruptible)
        && not (deliverable p.signal p.blocked == 0)
      then p_running
      else (k.proc a).state

  after_walks-state : (a : ℕ) → (after_walks now k a).state ≡ woken a
  unfolding tick attend wake ring_alarm
  after_walks-state a = ground (arith, after_walks_lem a)

  -- schedule on a table without repeats: a process of the table that sleeps interruptibly with a
  -- signal pending that is not held back, the alarm it sets itself included, is running after the
  -- call, and every other process is in the state it was in.
  pub schedule-state : (a : ℕ) → ((schedule now kstart k).1.proc a).state ≡ woken a
  unfolding schedule begin tick
  schedule-state a = ground (arith, after_walks-state a)

  pub schedule-parent : (a : ℕ) → ((schedule now kstart k).1.proc a).parent ≡ (k.proc a).parent
  unfolding schedule begin tick attend wake ring_alarm
  schedule-parent a = ground (arith, after_walks_lem a)

-- The same processes with other states.
abbrev pub with_states : Kernel → (ℕ → ℕ) → Kernel
with_states k states = record k { proc = λ a. record (k.proc a) { state = states a } }

-- schedule on a table without repeats decides the same for any states of the processes: it takes
-- a sleeping, stopped or dead process as it takes a running one.
pub schedule_ignores_state :
    (now : ℕ → ℕ) (kstart : ℕ) (k : Kernel) (states : ℕ → ℕ)
    → distinct (table k) ≡ true
    → (schedule now kstart (with_states k states)).0 ≡ (schedule now kstart k).0
unfolding schedule begin tick
schedule_ignores_state now kstart k states one =
    let other = with_states k states in
    let counters =
      λ (a : ℕ). after_walks-counter now other a one ∙ sym (after_walks-counter now k a one) in
    let chosen : pick (after_walks now other) other.current (table other)
        ≡ pick (after_walks now k) k.current (table k) =
      pick_counters (after_walks now other) (after_walks now k) (table k) k.current counters in
    let to = pick (after_walks now k) k.current (table k) in
    let here = after_walks-SameStart now kstart k one to in
    let there = after_walks-SameStart now kstart other one to in
    let here' = after_walks-SameStart now kstart k one k.current in
    let there' = after_walks-SameStart now kstart other one k.current in
    ground (
      arith, chosen, here.first_exec, there.first_exec, here.eip, there.eip, here.tss_seg,
      there.tss_seg, here'.tss_seg, there'.tss_seg,
    )
