-- ===== src/Launch.antt =====
-- src/ep_kernel.cu: the host functions `dispatch` and `combine`, which check their arguments, lay out
-- the workspace and launch the kernel for a row length.
pub mod Checks
use ep_demo.Prelude.{
  ℕ, ◌+◌, ◌-◌, ◌*◌, ◌/◌, ◌%◌, ◌==◌, Bool, true, false, not, ◌&&◌, ◌||◌, if◌then◌else◌, Option, none,
  some, List, [], ◌∷◌, leb, ltb,
}
use ep_demo.Kernel.{Config, num_bytes_per_msg}

-- `cell_div` of include/ep_utils.cuh.
abbrev pub cell_div : ℕ → ℕ → ℕ
cell_div a b = (a + b - 1) / b

abbrev pub num_warp_groups : ℕ
num_warp_groups = 8

abbrev pub num_warps_per_group : ℕ
num_warps_per_group = 4

abbrev pub num_max_topk : ℕ
num_max_topk = 11

abbrev pub num_workspace_bytes : ℕ
num_workspace_bytes = 32 * 1024 * 1024

-- The cases of both switches.
abbrev pub hidden_cases : List ℕ
hidden_cases = 2048 ∷ 2560 ∷ 3072 ∷ 4096 ∷ 5120 ∷ 6144 ∷ 7168 ∷ 8192 ∷ []

abbrev pub in_cases : ℕ → List ℕ → Bool
in_cases h [] = false
in_cases h (x ∷ xs) = if h == x then true else in_cases h xs

-- What `cudaLaunchKernelEx` is called with.
pub record Launch : Type 0 where
  pub num_sms : ℕ
  pub num_threads : ℕ
  pub cooperative : Bool
  pub hidden : ℕ
  pub use_fp8 : Bool
  pub counters : List ℕ  -- the addresses of the kernel's counters in the workspace

-- none stands for a failed `EP_HOST_ASSERT`.
abbrev pub dispatch_launch : ℕ → ℕ → ℕ → Bool → ℕ → Option Launch
dispatch_launch num_topk num_experts hidden use_fp8 workspace =
    if not (leb num_topk num_max_topk)
    then none
    else if not (leb (num_experts * 4 * 2) num_workspace_bytes)
    then none
    else if in_cases hidden hidden_cases
    then some (record {
      num_sms = cell_div num_experts num_warp_groups;
      num_threads = num_warp_groups * num_warps_per_group * 32;
      cooperative = true;
      hidden = hidden;
      use_fp8 = use_fp8;
      counters = workspace ∷ (workspace + num_experts * 4) ∷ [];
    })
    else none

abbrev pub combine_launch : ℕ → ℕ → ℕ → ℕ → Option Launch
combine_launch num_topk num_experts hidden workspace =
    if not (leb num_topk num_max_topk)
    then none
    else if in_cases hidden hidden_cases
    then some (record {
      num_sms = cell_div num_experts num_warp_groups;
      num_threads = num_warp_groups * num_warps_per_group * 32;
      cooperative = false;
      hidden = hidden;
      use_fp8 = false;
      counters = workspace ∷ [];
    })
    else none

-- The `EP_DEVICE_ASSERT`s of the kernel `dispatch`.
abbrev pub dispatch_asserts : Launch → Config → Bool
dispatch_asserts l c =
    (num_bytes_per_msg c % 16 == 0)
    && (l.hidden % 8 == 0)
    && ltb 1 l.num_sms
    && leb (l.hidden / 128) 64

-- Those of the kernel `combine`, for its receive phase.
abbrev pub combine_asserts : Launch → ℕ → Bool
combine_asserts l num_topk = leb num_topk 32 && leb (l.hidden / 8) l.num_threads

-- The SM and the warp group of it that are responsible for an expert.
abbrev pub responsible_expert_idx : ℕ → ℕ → ℕ
responsible_expert_idx sm_id warp_group_id = sm_id * num_warp_groups + warp_group_id
