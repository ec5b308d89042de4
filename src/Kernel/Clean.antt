-- ===== src/Kernel/Clean.antt =====
-- src/ep_kernel.cu, `combine`: `atomic_clean_flag`, which tells the warps that signal their receivers
-- that the other round's signal buffer is clean.
pub mod Safe
use ep_demo.Prelude.{
  ℕ, Bool, [], add32, false, if◌then◌else◌, refl, sub32, true, ℕ, ◌<◌, ◌==◌, ◌≡◌, ◌≢◌,
}

-- Where the warp that signals for an expert stands: its messages are not all sent; it waits for the flag;
-- it has signalled; it has taken 1 from the flag.
pub data Stage : Type 0 where
  sending waits signalled_on counted_off : Stage

abbrev pub advance_stage : (ℕ → Stage) → ℕ → Stage → ℕ → Stage
advance_stage f i p j = if i == j then p else f j

pub record Flags : Type 0 where
  pub atomic_clean_flag : ℕ
  pub cleaned : Bool  -- the first warp has cleaned the buffer and added num_experts
  pub stage : ℕ → Stage

abbrev pub at_launch : Flags
at_launch = record { atomic_clean_flag = 0; cleaned = false; stage = λ _. sending }

pub data CleanStep (num_experts : ℕ) (s : Flags) : Flags → Type 0 where
  clean_buffer :
      s.cleaned ≡ false
      → CleanStep num_experts s
          (record s { cleaned = true; atomic_clean_flag = add32 s.atomic_clean_flag num_experts })
  all_sent :
      (i : ℕ)
      → i < num_experts
      → s.stage i ≡ sending
      → CleanStep num_experts s (record s { stage = advance_stage s.stage i waits })
  signal_receiver :
      (i : ℕ)
      → s.stage i ≡ waits
      → s.atomic_clean_flag ≢ 0
      → CleanStep num_experts s (record s { stage = advance_stage s.stage i signalled_on })
  count_off :
      (i : ℕ)
      → s.stage i ≡ signalled_on
      → CleanStep num_experts s (record s {
        stage = advance_stage s.stage i counted_off;
        atomic_clean_flag = sub32 s.atomic_clean_flag 1;
      })

pub data CleanReach (num_experts : ℕ) : Flags → Type 0 where
  launched : CleanReach num_experts at_launch
  then_step :
      {s t : Flags}
      → CleanReach num_experts s
      → CleanStep num_experts s t
      → CleanReach num_experts t
