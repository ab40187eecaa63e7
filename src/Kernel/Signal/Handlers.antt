-- ===== src/Kernel/Signal/Handlers.antt =====
-- The calls of kernel/signal.c that set handlers.
use ox.Base.{
  ℕ, ◌^◌, ◌≡◌, ◌≢◌, refl, Bool, true, false, ◌==◌, Option, none, some, if◌then◌else◌, arith,
  bit_and, bit_or, List, [], ◌∷◌, ◌∙◌,
}
use ox.Kernel.Process.{Kernel, Sigaction}
use ox.Kernel.Exit.{out_of_range}
use ox.Kernel.Signal.{sigkill, sa_nomask, ksignal, ksigaction}

-- A call of a program about its handlers.
pub data Call : Type 0 where
  signal : ℕ → ℕ → Call
  sigaction : ℕ → Option Sigaction → Bool → Call

pub run : List Call → Kernel → Kernel
run [] k = k
run (signal n handler ∷ rest) k = run rest (ksignal n handler k).1
run (sigaction n action has_old ∷ rest) k = run rest (ksigaction n action has_old k).2

ksignal_kill :
    (n handler : ℕ) (k : Kernel) (a : ℕ)
    → (((ksignal n handler k).1.proc a).sigaction sigkill ≡ (k.proc a).sigaction sigkill)
unfolding ksignal
ksignal_kill n handler k a = ground arith

ksigaction_kill :
    (n : ℕ) (action : Option Sigaction) (has_old : Bool) (k : Kernel) (a : ℕ)
    → (((ksigaction n action has_old k).2.proc a).sigaction sigkill ≡ (k.proc a).sigaction sigkill)
unfolding ksigaction
ksigaction_kill n none has_old k a = refl
ksigaction_kill n (some new) has_old k a = ground arith

-- No sequence of calls of ksignal and ksigaction, with any arguments, changes the action of any
-- process for SIGKILL.
pub run_kill :
    (calls : List Call) (k : Kernel) (a : ℕ)
    → ((run calls k).proc a).sigaction sigkill ≡ (k.proc a).sigaction sigkill
unfolding run
run_kill [] k a = refl
run_kill (signal n handler ∷ rest) k a =
    run_kill rest (ksignal n handler k).1 a ∙ ksignal_kill n handler k a
run_kill (sigaction n action has_old ∷ rest) k a =
    run_kill rest (ksigaction n action has_old k).2 a ∙ ksigaction_kill n action has_old k a

-- ksigaction for a signal in range other than SIGKILL, with both pointers given: it gives the
-- action before, and a second call for the signal succeeds and gives the action of the first,
-- with the signal itself in its mask, or with an empty mask where its flags have SA_NOMASK.
pub ksigaction-ksigaction :
    (n : ℕ) (new other : Sigaction) (k : Kernel)
    → out_of_range n ≡ false
    → n ≢ sigkill
    → let k' = (ksigaction n (some new) true k).2 in
      ((ksigaction n (some new) true k).1 ≡ some ((k.proc k.current).sigaction n))
      × ((ksigaction n (some other) true k').0 ≡ 0)
      × ((ksigaction n (some other) true k').1
          ≡ some (record new {
            mask = if bit_and new.flags sa_nomask == 0 then bit_or new.mask (2 ^ n) else 0;
          }))
unfolding ksigaction
ksigaction-ksigaction n new other k valid plain = (ground arith, ground arith, ground arith)
