-- ===== src/Kernel/Exit/Kill.antt =====
-- Which processes kkill of kernel/exit.c signals, and what it returns.
use ox.Base.{
  ℕ, ◌≡◌, Bool, true, false, ◌||◌, ◌&&◌, not, List, [], ◌∷◌, ◌==◌, if◌then◌else◌, minus_one,
}
use ox.Kernel.Process.{Process, Kernel, table, mem, signed_lt}
use ox.Kernel.Exit.{eperm, with_signal, out_of_range, minus}

-- The processes that a call is for: a group of one's own or group 0, one process, all, or a group.
abbrev pub is_target : ℕ → ℕ → Process → Bool
is_target pid caller p =
    if pid == 0
    then (p.pgrp == caller) || (p.pgrp == 0)
    else if pid == minus_one
    then true
    else if signed_lt 0 pid
    then (p.pid == pid) || (p.pgrp == minus pid)
    else p.pgrp == minus pid

-- A caller may signal its own group by 0, its own processes, and as root all.
abbrev pub is_allowed : ℕ → ℕ → ℕ → Process → Bool
is_allowed pid caller euid p = (pid == 0 && (p.pgrp == caller)) || (euid == p.euid) || (euid == 0)

-- Some target in the list is not allowed.
pub any_denied : ℕ → ℕ → ℕ → (ℕ → Process) → List ℕ → Bool
any_denied pid caller euid proc [] = false
any_denied pid caller euid proc (a ∷ rest) =
    (is_target pid caller (proc a) && not (is_allowed pid caller euid (proc a)))
    || any_denied pid caller euid proc rest

abbrev struck : ℕ → ℕ → ℕ → ℕ → Process → Process
struck pid signal caller euid p =
    if is_target pid caller p && is_allowed pid caller euid p then with_signal signal p else p

module _ (current pid signal : ℕ) (valid : out_of_range signal ≡ false) where
  -- The loop from any point, for a list whose processes are distinct.
  abbrev Struck : ℕ → List ℕ → (ℕ → Process) → ℕ × (ℕ → Process) → Type 0
  Struck rtvl list proc r =
      let caller = (proc current).pid in
      let euid = (proc current).euid in
      (r.0 ≡ (if any_denied pid caller euid proc list then eperm else rtvl))
      × ((a : ℕ) → r.1 a ≡ (if mem a list then struck pid signal caller euid (proc a) else proc a))

-- What a call with a signal in range does.
pub record Killed (pid signal : ℕ) (k : Kernel) (r : ℕ × Kernel) : Type 0 where
  pub error : r.0 ≡ (
      if any_denied pid (k.proc k.current).pid (k.proc k.current).euid k.proc (table k)
      then eperm
      else 0)
  pub sent :
      (a : ℕ)
      → r.1.proc a ≡ (
          if mem a (table k)
            && is_target pid (k.proc k.current).pid (k.proc a)
            && is_allowed pid (k.proc k.current).pid (k.proc k.current).euid (k.proc a)
          then with_signal signal (k.proc a)
          else k.proc a)
