-- ===== src/Kernel/Signal/Whichbit.antt =====
-- The search for the first pending signal in kernel/signal.c.
use ox.Base.{
  ℕ, ◌^◌, ◌<◌, ◌≡◌, refl, arith, ◌==◌, bit_and, minus_one, true, if◌then◌else◌, Bool, Option, ◌-◌,
  leb,
}
use ox.Bits.{each, each-at}
use ox.Kernel.Process.{Kernel}
use ox.Kernel.Signal.{bit_loop, whichbit, signal_exec, gives}

one_signal : ℕ → Bool
one_signal signal = (whichbit (2 ^ signal) == (if leb signal 4 then 2 ^ signal else minus_one))

signal_table : each one_signal 32 ≡ true
unfolding each one_signal whichbit bit_loop
signal_table = refl

pub whichbit_single :
    (signal : ℕ)
    → signal < 32
    → whichbit (2 ^ signal) ≡ (if leb signal 4 then 2 ^ signal else minus_one)
unfolding one_signal
whichbit_single signal small = ground (arith, each-at one_signal 32 signal signal_table small)

-- signal_exec when exactly one signal above 4 is pending and not masked: it fails with -1 and
-- changes nothing, whatever action is set for the signal.
pub signal_exec_lost :
    (now : ℕ → ℕ) (kstart oldmask signal : ℕ) (ctx : Option ℕ) (k : Kernel)
    → 4 < signal
    → signal < 32
    → bit_and (k.proc k.current).signal (2 ^ 32 - 1 - oldmask) ≡ 2 ^ signal
    → signal_exec now kstart oldmask ctx k ≡ (gives minus_one, ctx, k)
unfolding signal_exec
signal_exec_lost now kstart oldmask signal ctx k high small only =
    let lost : whichbit (2 ^ signal) ≡ minus_one = ground (arith, whichbit_single signal small) in
    rw (only, lost, signal_exec) refl
