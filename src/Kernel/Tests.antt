-- ===== src/Kernel/Tests.antt =====
-- kernel/ on a table with init, a shell and its child on the first queue, in which the shell runs.
use ox.Base.{
  ℕ, ◌^◌, ◌≡◌, refl, true, false, ◌&&◌, ◌==◌, [], ◌∷◌, some, if◌then◌else◌, arith, inr, minus_one,
}
use ox.Kernel.Process.{
  Process, Kernel, Sigaction, table, queues, mem, distinct, walk, p_running, p_zombie,
}
use ox.Kernel.Scheduler.{
  schedule, find_in, find_process, find_init, after_walks, tick, attend, wake, ring_alarm,
}
use ox.Kernel.Scheduler.Elect.{Elected, schedule-Elected}
use ox.Kernel.Mktime.{Tm, kmktime}
use ox.Kernel.Mktime.Calendar.{seconds, kmktime-seconds}
use ox.Kernel.Exit.{kexit}
use ox.Kernel.Exit.Orphans.{kexit-parent}
use ox.Kernel.Signal.{gives, signal_exec}
use ox.Kernel.Signal.Whichbit.{signal_exec_lost}
use ox.Kernel.Signal.Handlers.{run, sigaction, signal, run_kill}

abbrev idle : Sigaction
idle = record { handler = 0; mask = 0; flags = 0 }

-- Processes 1, 2 and 3 at those addresses; 3 is a zombie child of 2 with a kill pending.
abbrev process : ℕ → Process
process a = record {
  state = if a == 3 then p_zombie else p_running;
  counter = if a == 2 then 50 else 100;
  signal = if a == 2 then 2 ^ 9 else 0;
  blocked = 0;
  exit_code = 7;
  tss_seg = 64;
  pid = a;
  parent = if a == 3 then 2 else 1;
  pgrp = 2;
  session = 1;
  leader = 0;
  euid = 0;
  gid = 0;
  alarm = 0;
  start_time = 0;
  utime = 5;
  stime = 6;
  cutime = 0;
  cstime = 0;
  first_exec = 2;
  sigaction = λ n. idle;
  eip = 4096;
}

abbrev machine : Kernel
machine = record {
  tab = λ i. if i == 0 then 1 ∷ 2 ∷ 3 ∷ [] else [];
  proc = process;
  current = 2;
  first_time = false;
}

abbrev clock : ℕ → ℕ
clock a = 1000

table-distinct : distinct (table machine) ≡ true
unfolding queues distinct mem
table-distinct = refl

init_found : find_init machine ≡ some 1
unfolding find_in find_process queues
init_found = refl

mem-table : mem 3 (table machine) ≡ true
unfolding queues mem
mem-table = refl

schedule-Elected_example :
    (to : ℕ) × Elected clock 8192 machine table-distinct to (schedule clock 8192 machine)
unfolding queues after_walks tick attend wake ring_alarm walk
schedule-Elected_example =
    schedule-Elected clock 8192 machine table-distinct 3 refl (omega arith) (omega arith)
      (λ a h. inr (omega arith)) mem-table refl

kexit-parent_example :
    ((kexit clock 8192 3 machine).1.proc 3).parent
    ≡ (if mem 3 (table machine) && ((process 3).parent == 2) then 1 else (process 3).parent)
kexit-parent_example = kexit-parent clock 8192 3 machine table-distinct 1 init_found 3

signal_exec_lost_example :
    signal_exec clock 8192 0 (some 12) machine ≡ (gives minus_one, some 12, machine)
signal_exec_lost_example =
    signal_exec_lost clock 8192 0 9 (some 12) machine (omega arith) (omega arith) refl

run_kill_example :
    ((run (signal 9 77 ∷ sigaction 9 (some idle) true ∷ []) machine).proc 2).sigaction 9 ≡ idle
run_kill_example = run_kill (signal 9 77 ∷ sigaction 9 (some idle) true ∷ []) machine 2

-- Noon on 29 February 1996.
abbrev leap_day : Tm
leap_day = record { tm_sec = 0; tm_min = 0; tm_hour = 12; tm_mday = 29; tm_mon = 1; tm_year = 96 }

kmktime-seconds_example : kmktime leap_day ≡ some (seconds 26 leap_day)
kmktime-seconds_example =
    kmktime-seconds 26 leap_day (omega arith) refl (omega arith) (omega arith, omega arith)
      (omega arith) (omega arith) (omega arith)
