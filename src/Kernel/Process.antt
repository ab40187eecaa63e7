-- ===== src/Kernel/Process.antt =====
-- include/ox/process.h and the traversals of the process table. A process is an entry of a store by
-- its address; `process_tab[i]` is the ring of queue i as the list of addresses from its head along
-- `p_next`, empty where it is NULL. A `long` is a word.
use ox.Base.{
  ℕ, zero, suc, ◌+◌, ◌^◌, ◌%◌, ◌≡◌, refl, Bool, true, false, ◌||◌, ◌&&◌, not, List, [], ◌∷◌, ◌++◌,
  arith, ◌==◌, ltb, leb, if◌then◌else◌, update,
}

pub record Sigaction : Type 0 where
  pub handler : ℕ
  pub mask : ℕ
  pub flags : ℕ

-- `enum process_state`.
abbrev pub p_running : ℕ
p_running = 1

abbrev pub p_interruptible : ℕ
p_interruptible = 2

abbrev pub p_zombie : ℕ
p_zombie = 4

abbrev pub p_stopped : ℕ
p_stopped = 5

-- The fields that the scheduler, the signals and the exit use.
pub record Process : Type 0 where
  pub state : ℕ
  pub counter : ℕ
  pub signal : ℕ
  pub blocked : ℕ
  pub exit_code : ℕ
  pub tss_seg : ℕ
  pub pid : ℕ
  pub parent : ℕ
  pub pgrp : ℕ
  pub session : ℕ
  pub leader : ℕ
  pub euid : ℕ
  pub gid : ℕ
  pub alarm : ℕ
  pub start_time : ℕ
  pub utime : ℕ
  pub stime : ℕ
  pub cutime : ℕ
  pub cstime : ℕ
  pub first_exec : ℕ
  pub sigaction : ℕ → Sigaction
  pub eip : ℕ

pub record Kernel : Type 0 where
  pub tab : ℕ → List ℕ
  pub proc : ℕ → Process
  pub current : ℕ
  pub first_time : Bool

abbrev pub nr_priority : ℕ
nr_priority = 32

-- The order in which `for(i = 0; i < Nr_PRIORITY; ++i)` over the rings visits the processes.
unfoldable pub queues : ℕ → ℕ → (ℕ → List ℕ) → List ℕ
queues zero i tab = []
queues (suc n) i tab = tab i ++ queues n (suc i) tab

abbrev pub table : Kernel → List ℕ
table k = queues nr_priority 0 k.tab

-- A loop whose body changes the process that it visits.
unfoldable pub walk : (ℕ → Process → Process) → List ℕ → (ℕ → Process) → ℕ → Process
walk body [] proc = proc
walk body (a ∷ rest) proc = walk body rest (update proc a (body a (proc a)))

unfoldable pub mem : ℕ → List ℕ → Bool
mem a [] = false
mem a (b ∷ rest) = (a == b) || mem a rest

-- Each process is on one queue, and once.
unfoldable pub distinct : List ℕ → Bool
distinct [] = true
distinct (a ∷ rest) = not (mem a rest) && distinct rest

-- `a < b` and `a <= b` of a `long`.
abbrev pub signed_lt : ℕ → ℕ → Bool
signed_lt a b = ltb ((a + 2 ^ 31) % 2 ^ 32) ((b + 2 ^ 31) % 2 ^ 32)

abbrev pub signed_le : ℕ → ℕ → Bool
signed_le a b = leb ((a + 2 ^ 31) % 2 ^ 32) ((b + 2 ^ 31) % 2 ^ 32)

-- A loop changes every process that it visits, once, and no other.
pub walk_lem :
    (body : ℕ → Process → Process) (list : List ℕ) (proc : ℕ → Process) (a : ℕ)
    → distinct list ≡ true
    → walk body list proc a ≡ (if mem a list then body a (proc a) else proc a)
unfolding walk mem distinct
walk_lem body [] proc a h = refl
walk_lem body (b ∷ rest) proc a h =
    ground (arith, walk_lem body rest (update proc b (body b (proc b))) a)
