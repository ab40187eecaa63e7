-- ===== src/Kernel/Scheduler.antt =====
-- kernel/scheduler.c. The clock that `ktime(0)` reads is a parameter, by the process for which it is
-- read. The switch of the task segment is the result of `schedule`.
mod Pick
pub mod Elect
use ox.Base.{
  ℕ, zero, suc, ◌+◌, ◌-◌, ◌^◌, ◌%◌, Bool, true, false, ◌||◌, ◌&&◌, not, List, [], ◌∷◌, ◌==◌, Option,
  none, some, if◌then◌else◌, update, bit_and, bit_or, dec32, minus_one,
}
use ox.Kernel.Process.{
  Process, Kernel, table, walk, signed_lt, signed_le, p_running, p_interruptible,
}

unfoldable pub find_in : (ℕ → Process) → ℕ → List ℕ → Option ℕ
find_in proc pid [] = none
find_in proc pid (a ∷ rest) = if (proc a).pid == pid then some a else find_in proc pid rest

unfoldable pub find_process : Kernel → ℕ → Option ℕ
find_process k pid = find_in k.proc pid (table k)

abbrev pub find_init : Kernel → Option ℕ
find_init k = find_process k 1

-- `1 << SIGALRM`.
abbrev pub alarm_bit : ℕ
alarm_bit = 2 ^ 14

-- `~((1 << SIGKILL) | (1 << SIGSTOP))`.
abbrev pub can_block : ℕ
can_block = 2 ^ 32 - 1 - bit_or (2 ^ 9) (2 ^ 19)

-- The signals that are pending and not held back.
abbrev pub deliverable : ℕ → ℕ → ℕ
deliverable signal blocked = bit_and signal (2 ^ 32 - 1 - bit_and can_block blocked)

unfoldable pub ring_alarm : ℕ → Process → Process
ring_alarm now p =
    if not (p.alarm == 0) && signed_le now ((p.alarm + p.start_time) % 2 ^ 32)
    then record p { signal = bit_or p.signal alarm_bit; alarm = 0 }
    else p

unfoldable pub wake : Process → Process
wake p =
    if not (deliverable p.signal p.blocked == 0) && (p.state == p_interruptible)
    then record p { state = p_running }
    else p

-- The body of the first traversal, and of the second.
unfoldable pub attend : (ℕ → ℕ) → ℕ → Process → Process
attend now a p = wake (ring_alarm (now a) p)

unfoldable pub tick : ℕ → Process → Process
tick a p = record p { counter = dec32 p.counter }

-- The third traversal.
pub pick : (ℕ → Process) → ℕ → List ℕ → ℕ
pick proc best [] = best
pick proc best (a ∷ rest) =
    pick proc (if signed_lt (proc best).counter (proc a).counter then a else best) rest

-- What schedule ends in: it goes on with the process it was called from, it stops the kernel, or it
-- switches, from a process unless it is the first time, to a process in a mode.
pub data Switch : Type 0 where
  stays : Switch
  panics : Switch
  switches : Option ℕ → ℕ → ℕ → Switch

unfoldable pub after_walks : (ℕ → ℕ) → Kernel → ℕ → Process
after_walks now k = walk tick (table k) (walk (attend now) (table k) k.proc)

-- The process that is switched to, `kstart` being its address.
unfoldable pub begin : ℕ → Process → Process
begin kstart p = record p { eip = if p.first_exec == 1 then kstart else p.eip; first_exec = 2 }

unfoldable pub schedule : (ℕ → ℕ) → ℕ → Kernel → Switch × Kernel
schedule now kstart k =
    let walked = after_walks now k in
    let chosen = pick walked k.current (table k) in
    let proc = update walked k.current (tick k.current (walked k.current)) in
    if k.first_time || (not (chosen == k.current) && not ((proc k.current).tss_seg == 0))
    then (let next = begin kstart (proc chosen) in
        let mode =
          if (proc chosen).first_exec == 0 || (proc chosen).first_exec == 1 then 1 else 0 in
        let u = record k { proc = update proc chosen next; current = chosen } in
        if next.eip == 0
        then (panics, u)
        else if k.first_time
        then (switches none chosen mode, record u { first_time = false })
        else (switches (some k.current) chosen mode, u))
    else (stays, record k { proc = proc })

pub kpause : (ℕ → ℕ) → ℕ → Kernel → Switch × Kernel
kpause now kstart k =
    let p = record (k.proc k.current) { state = p_interruptible } in
    schedule now kstart (record k { proc = update k.proc k.current p })

pub knice : ℕ → Kernel → ℕ × Kernel
knice value k =
    let left = ((k.proc k.current).counter + 2 ^ 32 - value) % 2 ^ 32 in
    if signed_lt 0 left
    then (
      0,
      record k { proc = update k.proc k.current (record (k.proc k.current) { counter = left }) },
    )
    else (0, k)

pub kgetpgid : ℕ → Kernel → ℕ
kgetpgid pid k =
    if pid == 0
    then (k.proc k.current).gid
    else elim (find_process k pid) [ some a ↦ (k.proc a).gid | none ↦ minus_one ]
