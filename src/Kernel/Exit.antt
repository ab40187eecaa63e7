-- ===== src/Kernel/Exit.antt =====
-- kernel/exit.c: sending signals, exit, and a pass of the wait. Of the caller, `dispatch_signal` reads
-- the effective user only.
pub mod Kill
pub mod Orphans
pub mod Children
use ox.Base.{
  ℕ, zero, suc, ◌+◌, ◌-◌, ◌^◌, ◌%◌, Bool, true, false, ◌||◌, ◌&&◌, not, List, [], ◌∷◌, ◌==◌, Option,
  none, some, if◌then◌else◌, update, bit_and, bit_or, minus_one, is_negative, ltb,
}
use ox.Kernel.Process.{
  Process, Kernel, table, walk, signed_lt, p_interruptible, p_zombie, p_stopped,
}
use ox.Kernel.Scheduler.{find_in, find_init, Switch, schedule}

abbrev pub eperm : ℕ
eperm = 1

abbrev pub einval : ℕ
einval = 22

-- `signal < SIGHUP || signal > SIGTTOU`.
abbrev pub out_of_range : ℕ → Bool
out_of_range signal = is_negative signal || ltb signal 1 || ltb 22 signal

abbrev pub with_signal : ℕ → Process → Process
with_signal signal p = record p { signal = bit_or p.signal (2 ^ signal) }

pub dispatch_signal : ℕ → Bool → ℕ → Process → ℕ × Process
dispatch_signal signal is_root euid p =
    if out_of_range signal
    then (einval, p)
    else if is_root || (euid == p.euid) || (euid == 0)
    then (0, with_signal signal p)
    else (eperm, p)

-- `-pid` of a word.
abbrev pub minus : ℕ → ℕ
minus pid = (2 ^ 32 - pid) % 2 ^ 32

-- Whether a process is dispatched to, and whether as by root, for a caller's own process id.
pub aimed_at : ℕ → ℕ → Process → Option Bool
aimed_at pid caller p =
    if pid == 0 && (p.pgrp == caller)
    then some true
    else if signed_lt 0 pid && (p.pid == pid)
    then some false
    else if pid == minus_one
    then some false
    else if p.pgrp == minus pid
    then some false
    else none

pub kill_step : ℕ → ℕ → ℕ → ℕ × (ℕ → Process) → ℕ → ℕ × (ℕ → Process)
kill_step current pid signal (rtvl, proc) a = elim (aimed_at pid (proc current).pid (proc a)) [
  | none ↦ (rtvl, proc)
  | some is_root ↦
      let (error, p) = dispatch_signal signal is_root (proc current).euid (proc a) in
      (if error == 0 then rtvl else error, update proc a p)
]

pub kill_loop : ℕ → ℕ → ℕ → List ℕ → ℕ × (ℕ → Process) → ℕ × (ℕ → Process)
kill_loop current pid signal [] r = r
kill_loop current pid signal (a ∷ rest) r =
    kill_loop current pid signal rest (kill_step current pid signal r a)

pub kkill : ℕ → ℕ → Kernel → ℕ × Kernel
kkill pid signal k =
    let (rtvl, proc) = kill_loop k.current pid signal (table k) (0, k.proc) in
    (rtvl, record k { proc = proc })

-- The first loop of kexit. The call for a zombie passes the pointer to init where `dispatch_signal`
-- wants the flag of root, and the zombie as the receiver.
pub adopt : ℕ → ℕ → Process → Process
adopt caller euid p =
    if p.parent == caller
    then (let q = record p { parent = 1 } in
        if q.state == p_zombie then (dispatch_signal 17 true euid q).1 else q)
    else p

pub adopt_loop : ℕ → List ℕ → (ℕ → Process) → ℕ → Process
adopt_loop current [] proc = proc
adopt_loop current (a ∷ rest) proc =
    adopt_loop current rest (update proc a (adopt (proc current).pid (proc current).euid (proc a)))

-- `1 << SIGHUP` to the session.
pub hang_up : ℕ → ℕ → Process → Process
hang_up session a p = if p.session == session then with_signal 1 p else p

pub terminate_session : Kernel → ℕ → Process
terminate_session k = walk (hang_up (k.proc k.current).session) (table k) k.proc

-- `none` is the panic.
pub signal_parent : ℕ → Kernel → Option Kernel
signal_parent pid k = elim (find_in k.proc pid (table k)) [
  | some a ↦ some (record k { proc = update k.proc a (with_signal 17 (k.proc a)) })
  | none ↦ none
]

pub data Exit : Type 0 where
  no_init : Exit
  no_parent : Exit
  left : Switch → Exit

-- The state that kexit hands to `signal_parent`.
pub prepared : ℕ → Kernel → Kernel
prepared code k =
    let u = record k { proc = adopt_loop k.current (table k) k.proc } in
    let hung = if (u.proc u.current).leader == 0 then u.proc else terminate_session u in
    record u { proc = update hung u.current (record (hung u.current) { exit_code = code }) }

pub kexit : (ℕ → ℕ) → ℕ → ℕ → Kernel → Exit × Kernel
kexit now kstart code k = elim (find_init k) [
  | none ↦ (no_init, k)
  | some init ↦
      let u = prepared code k in
      elim (signal_parent (u.proc u.current).parent u) [
        | none ↦ (no_parent, u)
        | some v ↦ let (switch, w) = schedule now kstart v in (left switch, w)
      ]
]

-- The tests that skip a process in kwaitpid.
pub waits_for : Kernel → ℕ → ℕ → Bool
waits_for k pid a =
    let p = k.proc a in
    let c = k.proc k.current in
    not (a == k.current)
    && (p.parent == c.pid)
    && (if signed_lt 0 pid
        then p.pid == pid
        else if pid == 0
        then p.pgrp == c.pgrp
        else if pid == minus_one
        then true
        else p.pgrp == minus pid)

-- How the traversal of kwaitpid ends: a stopped child, a zombie, or the end with `fixup`.
pub data Wait : Type 0 where
  stopped : ℕ → Wait
  reaped : ℕ → Wait
  finished : Bool → Wait

pub wait_loop : Kernel → ℕ → ℕ → List ℕ → Bool → Wait
wait_loop k pid options [] fixup = finished fixup
wait_loop k pid options (a ∷ rest) fixup =
    let skip = wait_loop k pid options rest fixup in
    let child = wait_loop k pid options rest true in
    if waits_for k pid a
    then (if (k.proc a).state == p_stopped
        then (if bit_and options 2 == 0 then skip else stopped a)
        else if (k.proc a).state == p_zombie
        then reaped a
        else child)
    else skip

-- The end of a pass of kwaitpid: a value with a status where it writes one, the call of `schedule`
-- after which it tries again, or the end of the function with no `return`.
pub data WaitEnd : Type 0 where
  returns : ℕ → Option ℕ → WaitEnd
  blocks : WaitEnd
  no_value : WaitEnd

-- A pass of kwaitpid, without the `free_process` of the child that it returns.
pub wait_pass : ℕ → ℕ → Kernel → WaitEnd × Kernel
wait_pass pid options k = elim (wait_loop k pid options (table k) false) [
  | stopped a ↦ (returns (k.proc a).pid (some 0x7F), k)
  | reaped a ↦ (
    returns (k.proc a).pid (some (k.proc a).exit_code),
    record k {
      proc = update k.proc k.current (record (k.proc k.current) {
        cutime = ((k.proc k.current).cutime + (k.proc a).utime) % 2 ^ 32;
        cstime = ((k.proc k.current).cstime + (k.proc a).stime) % 2 ^ 32;
      });
    },
  )
  | finished fixup ↦
      if not fixup
      then (no_value, k)
      else if not (bit_and options 1 == 0)
      then (returns 0 none, k)
      else (
        blocks,
        record k {
          proc = update k.proc k.current (record (k.proc k.current) { state = p_interruptible });
        },
      )
]
