-- ===== src/Tests/Clean.antt =====
-- A launch of `combine` for one expert, up to its last step.
use ep_demo.Prelude.{arith, refl, true, ℕ, ◌<◌, ◌≡◌, ◌≢◌}
use ep_demo.Kernel.Clean.{
  CleanReach, Flags, advance_stage, all_sent, clean_buffer, count_off, counted_off, launched,
  sending, signal_receiver, signalled_on, then_step, waits,
}
use ep_demo.Kernel.Clean.Safe.{clean_flag_safe}

abbrev ended_flags : Flags
ended_flags = record {
  atomic_clean_flag = 0;
  cleaned = true;
  stage =
      advance_stage (advance_stage (advance_stage (λ _. sending) 0 waits) 0 signalled_on) 0
        counted_off;
}

ended_flags-Reach : CleanReach 1 ended_flags
ended_flags-Reach =
    then_step
      (then_step
        (then_step (then_step launched (all_sent 0 (omega arith) refl)) (clean_buffer refl))
        (signal_receiver 0 refl (omega arith)))
      (count_off 0 refl)

clean_flag_safe_example :
    ((i : ℕ) → ended_flags.stage i ≡ signalled_on → ended_flags.cleaned ≡ true)
    × ((i : ℕ)
        → ended_flags.cleaned ≡ true
        → ended_flags.stage i ≡ waits
        → ended_flags.atomic_clean_flag ≢ 0)
    × (ended_flags.cleaned ≡ true
        → ((i : ℕ) → i < 1 → ended_flags.stage i ≡ counted_off)
        → ended_flags.atomic_clean_flag ≡ 0)
clean_flag_safe_example = clean_flag_safe {n = 1} (omega arith) ended_flags-Reach
