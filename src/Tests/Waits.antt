-- ===== src/Tests/Waits.antt =====
-- A receiver of 16 experts from two ranks: the source of expert 3 has sent 5 tokens, the one of expert 9
-- is given up.
use ep_demo.Prelude.{ℕ, zero, suc, ◌<◌, ◌≤◌, ◌≡◌, ◌≢◌, ◌⊎◌, inr, refl, true, false, arith}
use ep_demo.Kernel.Waits.{
  Receiver, Waits, WaitRun, WaitStep, no_step, then_step, peer_signals, reads_none, reads_signal,
  over_time, breaks, polling, late_or_not, decided, finished, put_at, start, dispatch_receiver,
  combine_receiver,
}
use ep_demo.Kernel.{Config}
use ep_demo.Kernel.Receive.{signal_value}
use ep_demo.Kernel.Waits.Reuse.{combine_reuses_signals}
use ep_demo.Kernel.Waits.Numbers.{dispatch_numbers}
use ep_demo.Kernel.Waits.Ends.{wait_ends, own_steps, Finished, CanMove}
use ep_demo.Tests.Kernel.{config, config-IsConfig}

abbrev receiver : Receiver
receiver = dispatch_receiver config (λ k l. 5) true

abbrev both : ℕ → ℕ
both k = 1

-- Expert 9 has read no signal, and the one of expert 3 has come.
abbrev given_up_state : Waits
given_up_state = record {
  signals = put_at (λ i. 0) 6 (receiver.written 0 3);
  active_ranks = put_at both 1 0;
  wait = put_at (put_at (λ e. polling) 9 late_or_not) 9 decided;
}

abbrev after : Waits
after = record given_up_state {
  wait = put_at (put_at given_up_state.wait 9 (finished 0)) 3 (finished 5);
}

first_steps : WaitRun receiver (start both) given_up_state
first_steps =
    then_step
      (then_step (then_step no_step (reads_none 9 (omega arith) refl refl))
        (peer_signals 0 3 (omega arith) (omega arith) refl))
      (over_time 9 refl refl)

-- Both threads leave their loops.
last_steps : WaitRun receiver given_up_state after
last_steps =
    then_step (then_step no_step (breaks 9 refl refl))
      (reads_signal 3 (omega arith) refl (λ h. ground (arith, h)))

whole_run : WaitRun receiver (start both) after
whole_run =
    then_step (then_step first_steps (breaks 9 refl refl))
      (reads_signal 3 (omega arith) refl (λ h. ground (arith, h)))

dispatch_numbers_example :
    let n : ℕ = 5 in
    ((n ≡ 5) ⊎ ((n ≡ 0) × (after.active_ranks 0 ≡ 0))) × (true ≡ false → both 0 ≢ 0 → n ≡ 5)
dispatch_numbers_example =
    dispatch_numbers config (λ k l. 5) both true after 3 5 config-IsConfig (omega arith)
      (λ k l. omega arith) whole_run refl

wait_ends_example :
    (own_steps 9 last_steps ≤ 3)
    × (own_steps 9 last_steps ≡ 3 → Finished receiver 9 after)
    × (Finished receiver 9 after ⊎ CanMove receiver 9 after)
wait_ends_example =
    wait_ends receiver 9 last_steps (omega arith) (λ k l h. ground (arith, h)) (inr refl)

-- Two ranks with an expert each, which both get their signal.
abbrev small_config : Config
small_config = record {
  num_experts = 2;
  num_ranks = 2;
  num_max_dispatch_tokens_per_rank = 128;
  hidden = 2048;
  use_fp8 = false;
}

abbrev small_receiver : Receiver
small_receiver = dispatch_receiver small_config (λ k l. 5) false

abbrev all_signalled : Waits
all_signalled = record {
  signals = put_at (put_at (λ i. 0) 0 (small_receiver.written 0 0)) 1 (small_receiver.written 1 0);
  active_ranks = both;
  wait = put_at (put_at (λ e. polling) 0 (finished 5)) 1 (finished 5);
}

all_run : WaitRun small_receiver (start both) all_signalled
all_run =
    then_step
      (then_step
        (then_step (then_step no_step (peer_signals 0 0 (omega arith) (omega arith) refl))
          (peer_signals 1 0 (omega arith) (omega arith) refl))
        (reads_signal 0 (omega arith) refl (λ h. ground (arith, h))))
      (reads_signal 1 (omega arith) refl (λ h. ground (arith, h)))

all_finished : (e : ℕ) → e < 2 → (n : ℕ) × (all_signalled.wait e ≡ finished n)
all_finished zero lt = (5, refl)
all_finished (suc zero) lt = (5, refl)
all_finished (suc (suc e)) lt = absurd (omega (arith, lt))

combine_reuses_signals_example :
    (all_signalled.signals 1 ≢ 0)
    × (t : Waits) × WaitStep
        (combine_receiver small_config false)
        (record all_signalled { wait = λ _. polling })
        t
    × (t.wait 1 ≡ finished (signal_value (all_signalled.signals 1)))
combine_reuses_signals_example =
    combine_reuses_signals small_config (λ k l. 5) both all_signalled 1 (omega arith)
      (λ k l. omega arith) (λ k h. ground (arith, h)) all_run all_finished (omega arith)
