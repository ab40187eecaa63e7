-- ===== src/Kernel/Signal.antt =====
-- kernel/signal.c: the handlers of the signals and their delivery. The user stack that signal_exec
-- writes the number to is not modelled.
pub mod Whichbit
pub mod Handlers
use ox.Base.{
  ℕ, zero, suc, ◌+◌, ◌-◌, ◌^◌, ◌%◌, Bool, true, false, ◌||◌, ◌&&◌, not, ◌==◌, Option, none, some,
  if◌then◌else◌, update, bit_and, bit_or, minus_one, is_negative, ltb,
}
use ox.Kernel.Process.{Process, Kernel, Sigaction}
use ox.Kernel.Exit.{Exit, no_init, no_parent, left, kexit, out_of_range}
use ox.Kernel.Scheduler.{Switch, stays, panics, switches}

abbrev pub sigkill : ℕ
sigkill = 9

abbrev pub sigchld : ℕ
sigchld = 17

abbrev pub sa_oneshot : ℕ
sa_oneshot = 2 ^ 30

abbrev pub sa_nomask : ℕ
sa_nomask = 2 ^ 31

abbrev pub sig_dfl : ℕ
sig_dfl = 0

abbrev pub sig_ign : ℕ
sig_ign = 1

abbrev pub set_action : Kernel → ℕ → Sigaction → Kernel
set_action k signal action =
    let p = k.proc k.current in
    record k {
      proc = update k.proc k.current (record p { sigaction = update p.sigaction signal action });
    }

pub ksignal : ℕ → ℕ → Kernel → ℕ × Kernel
ksignal signal handler k =
    if out_of_range signal || (signal == sigkill) || (handler == 0) then (minus_one, k) else (
      ((k.proc k.current).sigaction signal).handler,
      set_action k signal
          (record { handler = handler; mask = bit_or sa_oneshot sa_nomask; flags = 0 }),
    )

-- What ksigaction writes to `old`, where it writes it. `none` is a null pointer.
pub ksigaction : ℕ → Option Sigaction → Bool → Kernel → ℕ × Option Sigaction × Kernel
ksigaction signal action has_old k = elim action [
  | none ↦ (minus_one, none, k)
  | some new ↦
      if out_of_range signal || (signal == sigkill) || not has_old then (minus_one, none, k) else (
        0,
        some ((k.proc k.current).sigaction signal),
        set_action k signal (record new {
          mask = if bit_and new.flags sa_nomask == 0 then bit_or new.mask (2 ^ signal) else 0;
        }),
      )
]

-- The loop of whichbit over the numbers that are left. It tests the number i, not the bit i.
pub bit_loop : ℕ → ℕ → ℕ → ℕ
bit_loop zero i bits = minus_one
bit_loop (suc n) i bits =
    let next = bit_loop n (suc i) bits in if bit_and bits i == 0 then next else i

pub whichbit : ℕ → ℕ
whichbit bits = bit_loop 32 0 bits

-- The end of signal_exec: a value, or the exit of the process where that does not come back.
pub data Delivery : Type 0 where
  gives : ℕ → Delivery
  exits : Exit → Delivery

-- kexit comes back where init is missing, and where the scheduler stays with the caller.
pub comes_back : Exit → Bool
comes_back no_init = true
comes_back no_parent = false
comes_back (left stays) = true
comes_back (left panics) = false
comes_back (left (switches from to mode)) = false

-- The end of signal_exec, from the test of SA_ONESHOT on.
pub hand_over : ℕ → ℕ → Kernel → Delivery × Option ℕ × Kernel
hand_over signal handler k =
    let p = k.proc k.current in
    let sig = p.sigaction signal in
    let kept = if bit_and sig.flags sa_oneshot == 0 then sig else record sig { handler = 0 } in
    (
      gives 0,
      some handler,
      record k {
        proc = update k.proc k.current (record p {
          sigaction = update p.sigaction signal kept;
          blocked = bit_or p.blocked sig.mask;
        });
      },
    )

-- `ctx->eip` is the instruction pointer that comes with the call, `none` where `ctx` is NULL.
pub signal_exec : (ℕ → ℕ) → ℕ → ℕ → Option ℕ → Kernel → Delivery × Option ℕ × Kernel
signal_exec now kstart oldmask ctx k =
    let p = k.proc k.current in
    let signal = whichbit (bit_and p.signal (2 ^ 32 - 1 - oldmask)) in
    if signal == 0
    then (gives 0, ctx, k)
    else if out_of_range signal
    then (gives minus_one, ctx, k)
    else elim ctx [
      | none ↦ (gives minus_one, none, k)
      | some eip ↦
          let handler = (p.sigaction signal).handler in
          if handler == sig_ign
          then (gives 0, some eip, k)
          else if handler == sig_dfl
          then (if signal == sigchld
              then (gives 0, some eip, k)
              else (let (end, u) = kexit now kstart (2 ^ signal) k in
                  if comes_back end then hand_over signal handler u else (exits end, some eip, u)))
          else hand_over signal handler k
    ]
