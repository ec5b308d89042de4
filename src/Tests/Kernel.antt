-- ===== src/Tests/Kernel.antt =====
-- The kernels' addresses for 16 experts on 2 ranks, 128 tokens a rank and rows of 2048.
use ep_demo.Prelude.{ℕ, ◌≡◌, ◌<◌, ◌*◌, false, arith}
use ep_demo.Kernel.{Config}
use ep_demo.Kernel.Scales.{scale_index, scale_index-apart}
use ep_demo.Kernel.Slots.{IsConfig}

abbrev pub config : Config
config = record {
  num_experts = 16;
  num_ranks = 2;
  num_max_dispatch_tokens_per_rank = 128;
  hidden = 2048;
  use_fp8 = false;
}

pub config-IsConfig : IsConfig config
config-IsConfig = omega arith

scale_index-apart_example :
    (scale_index config 3 7 5 ≡ scale_index config 3 8 5
      → (◌≡◌ {A = ℕ} 3 3) × (◌≡◌ {A = ℕ} 7 8) × (◌≡◌ {A = ℕ} 5 5))
    × (scale_index config 3 7 5 < 16 * 128 * 16)
scale_index-apart_example =
    scale_index-apart config 3 7 5 3 8 5 config-IsConfig (omega arith) (omega arith) (omega arith)
