-- ===== src/Kernel.antt =====
-- src/ep_kernel.cu: the shape of a launch and the addresses that `dispatch` and `combine` compute.
-- `int` arguments are not negative here; products of `int`s and sums of pointers wrap as in C.
mod Areas
pub mod Slots
pub mod Rows
pub mod Finish
pub mod Clean
pub mod Receive
pub mod Memory
pub mod Flow
pub mod Scales
pub mod Stage
pub mod Waits
pub mod Combined
use ep_demo.Prelude.{
  ℕ, ◌+◌, ◌*◌, ◌/◌, ◌%◌, ◌-◌, Bool, true, false, if◌then◌else◌, add_size, mul_size, mul32, add32,
  size_of_int,
}

-- The scalar arguments that both kernels take, with the template's `kHidden`.
pub record Config : Type 0 where
  pub num_experts : ℕ
  pub num_ranks : ℕ
  pub num_max_dispatch_tokens_per_rank : ℕ
  pub hidden : ℕ
  pub use_fp8 : Bool

-- `MAX_QP_COUNT` of include/ep_ibgda/mlx5gda.h.
abbrev pub max_qp_count : ℕ
max_qp_count = 256

module _ (c : Config) where
  abbrev pub num_local_experts : ℕ
  num_local_experts = c.num_experts / c.num_ranks

  abbrev pub num_qp_per_rank : ℕ
  num_qp_per_rank = max_qp_count / c.num_ranks

  -- The rank that owns an expert, and the expert's index there.
  abbrev pub owner : ℕ → ℕ
  owner expert_idx = expert_idx / num_local_experts

  abbrev pub local_index : ℕ → ℕ
  local_index expert_idx = expert_idx % num_local_experts

  -- `rank * num_local_experts + local_expert_idx` of `combine`.
  pub global_expert_idx : ℕ → ℕ → ℕ
  global_expert_idx rank local_expert_idx = add32 (mul32 rank num_local_experts) local_expert_idx

  -- A dispatch message: 16 bytes that start with the token's index, then the row, and with FP8 a
  -- 4-byte scale for every 128 elements.
  unfoldable pub num_bytes_per_msg : ℕ
  num_bytes_per_msg =
      add_size 16 (if c.use_fp8 then c.hidden + c.hidden / 128 * 4 else c.hidden * 2)

  -- A combine row: `kHidden * sizeof(nv_bfloat16)`.
  unfoldable pub num_bytes_per_slot : ℕ
  num_bytes_per_slot = mul_size c.hidden 2

  -- `local * num_ranks * num_max * bytes`, where the first two products are of `int`s.
  local_base : ℕ → ℕ → ℕ
  local_base local_idx bytes =
      mul_size
        (size_of_int (mul32 (mul32 local_idx c.num_ranks) c.num_max_dispatch_tokens_per_rank)) bytes

  rank_base : ℕ → ℕ → ℕ
  rank_base rank bytes =
      mul_size (size_of_int (mul32 rank c.num_max_dispatch_tokens_per_rank)) bytes

  -- `dst_ptr` of `dispatch`: where the owner of an expert gets the message with number `slot_idx`
  -- from `rank`.
  pub dispatch_dst_ptr : ℕ → ℕ → ℕ → ℕ → ℕ
  unfolding local_base rank_base
  dispatch_dst_ptr rdma_recv_data_buffer dst_expert_local_idx rank slot_idx =
      add_size
        (add_size
          (add_size rdma_recv_data_buffer (local_base dst_expert_local_idx num_bytes_per_msg))
          (rank_base rank num_bytes_per_msg))
        (mul_size (size_of_int slot_idx) num_bytes_per_msg)

  -- `src_src_idx` of `dispatch`: where the receiver reads message `i` of `src_rank`.
  pub dispatch_src_ptr : ℕ → ℕ → ℕ → ℕ → ℕ
  unfolding local_base rank_base
  dispatch_src_ptr rdma_recv_data_buffer local_expert_idx src_rank i =
      let rdma_recv_x_uint8 =
        add_size (add_size rdma_recv_data_buffer (local_base local_expert_idx num_bytes_per_msg))
          (rank_base src_rank num_bytes_per_msg) in
      add_size rdma_recv_x_uint8 (mul_size (size_of_int i) num_bytes_per_msg)

  -- `dst_ptr` of `combine`: where the token's rank gets the row of an expert.
  pub combine_dst_ptr : ℕ → ℕ → ℕ → ℕ
  combine_dst_ptr rdma_recv_data_buffer expert_idx src_idx = add_size rdma_recv_data_buffer (
      mul_size (size_of_int (add32 (mul32 expert_idx c.num_max_dispatch_tokens_per_rank) src_idx))
        num_bytes_per_slot)

  -- `rdma_buffer_type` of `combine`: the row that is summed up for an entry of `topk_idx`.
  pub combine_src_ptr : ℕ → ℕ → ℕ → ℕ
  combine_src_ptr rdma_recv_data_buffer topk_idx token_idx = add_size rdma_recv_data_buffer (
      mul_size (size_of_int (add32 (mul32 topk_idx c.num_max_dispatch_tokens_per_rank) token_idx))
        num_bytes_per_slot)

  -- The signal word that `dispatch` writes for an expert, and reads for a source.
  pub dispatch_signal_ptr : ℕ → ℕ → ℕ → ℕ
  dispatch_signal_ptr signal_buffer local_idx rank =
      add_size signal_buffer (mul_size 4 (size_of_int (add32 (mul32 local_idx c.num_ranks) rank)))

  pub combine_signal_ptr : ℕ → ℕ → ℕ
  combine_signal_ptr signal_buffer expert_idx =
      add_size signal_buffer (mul_size 4 (size_of_int expert_idx))

  -- The index of the queue pair that carries an expert's messages.
  unfoldable pub qp_index : ℕ → ℕ → ℕ
  qp_index dst_rank local_idx = dst_rank * num_qp_per_rank + local_idx % num_qp_per_rank
