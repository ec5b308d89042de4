-- ===== src/Tests/Launch.antt =====
-- Launches for 16 experts on 2 ranks, 8 experts a token and rows of 2048.
use ep_demo.Prelude.{[], false, refl, true, ℕ, ◌*◌, ◌+◌, ◌<◌, ◌↔◌, ◌∷◌, ◌≡◌, ◌≤◌}
use ep_demo.Kernel.{Config}
use ep_demo.Launch.{
  Launch, combine_asserts, dispatch_asserts, num_warp_groups, num_workspace_bytes,
  responsible_expert_idx,
}
use ep_demo.Launch.Checks.{combine_launch-asserts, dispatch_launch-asserts}

abbrev shape : Config
shape = record {
  num_experts = 16;
  num_ranks = 2;
  num_max_dispatch_tokens_per_rank = 128;
  hidden = 2048;
  use_fp8 = true;
}

abbrev dispatched : Launch
dispatched = record {
  num_sms = 2;
  num_threads = 1024;
  cooperative = true;
  hidden = 2048;
  use_fp8 = true;
  counters = 4096 ∷ 4160 ∷ [];
}

abbrev combined : Launch
combined = record {
  num_sms = 2;
  num_threads = 1024;
  cooperative = false;
  hidden = 2048;
  use_fp8 = false;
  counters = 4096 ∷ [];
}

dispatch_launch-asserts_example :
    (dispatched.counters ≡ 4096 ∷ (4096 + 16 * 4) ∷ [])
    × (4096 + 16 * 4 + 16 * 4 ≤ 4096 + num_workspace_bytes)
    × ((e : ℕ)
        → e < 16
        → (sm : ℕ) × (g : ℕ) × (sm < dispatched.num_sms)
          × (g < num_warp_groups)
          × (responsible_expert_idx sm g ≡ e))
    × ((dispatch_asserts dispatched shape ≡ true) ↔ (8 < 16))
dispatch_launch-asserts_example = dispatch_launch-asserts shape 8 4096 dispatched refl

combine_launch-asserts_example :
    (combine_asserts combined 8 ≡ true)
    × ((e : ℕ)
        → e < 16
        → (sm : ℕ) × (g : ℕ) × (sm < combined.num_sms)
          × (g < num_warp_groups)
          × (responsible_expert_idx sm g ≡ e))
    × (combined.cooperative ≡ false)
combine_launch-asserts_example = combine_launch-asserts 8 16 2048 4096 combined refl
