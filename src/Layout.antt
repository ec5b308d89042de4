-- ===== src/Layout.antt =====
-- include/ep_buffer.h: how `BufferPair` lays two sets of buffers out in the registered memory.
-- Pointers are byte addresses below 2 ^ 64; an `int` argument is its bit pattern, below 2 ^ 32.
pub mod Regions
use ep_demo.Prelude.{ℕ, ◌+◌, ◌*◌, add_size, mul_size, mul32, size_of_int}

-- `struct BufferLayout`
pub record BufferLayout : Type 0 where
  pub rdma_send_signal_buffer : ℕ
  pub rdma_recv_signal_buffer : ℕ
  pub rdma_send_data_buffer : ℕ
  pub rdma_recv_data_buffer : ℕ

-- `struct BufferPair`; the array `buffers[2]` is two fields.
pub record BufferPair : Type 0 where
  pub total_bytes : ℕ
  pub buffer0 : BufferLayout
  pub buffer1 : BufferLayout

-- `advance`: the count of bytes is added to the pointer.
abbrev pub advance : ℕ → ℕ → ℕ
advance ptr count = add_size ptr count

-- `num_experts * sizeof(int)`
pub signaling_buffer_bytes : ℕ → ℕ
signaling_buffer_bytes num_experts = mul_size (size_of_int num_experts) 4

-- `num_experts * num_max_dispatch_tokens_per_rank` is a product of `int`s; `sizeof(int4)` is 16 and
-- `sizeof(nv_bfloat16)` is 2.
pub send_recv_buffer_bytes : ℕ → ℕ → ℕ → ℕ
send_recv_buffer_bytes num_max_dispatch_tokens_per_rank hidden num_experts =
    mul_size (size_of_int (mul32 num_experts num_max_dispatch_tokens_per_rank))
      (add_size (2 * 16) (mul_size (size_of_int hidden) 2))

-- The body of the loop over `i`, where `total_bytes` is still 0.
pub layout_at : ℕ → ℕ → ℕ → ℕ → BufferLayout
layout_at i rdma_buffer signaling send_recv =
    let rdma_base_offset = add_size (mul_size (2 * i) signaling) (mul_size (2 * i) send_recv) in
    record {
      rdma_send_signal_buffer = advance rdma_buffer rdma_base_offset;
      rdma_recv_signal_buffer = advance rdma_buffer (add_size rdma_base_offset signaling);
      rdma_send_data_buffer =
          advance rdma_buffer (add_size rdma_base_offset (mul_size 2 signaling));
      rdma_recv_data_buffer =
          advance rdma_buffer
            (add_size (add_size rdma_base_offset (mul_size 2 signaling)) send_recv);
    }

-- The constructor. `num_ranks` is not used.
pub buffer_pair : ℕ → ℕ → ℕ → ℕ → ℕ → BufferPair
unfolding signaling_buffer_bytes send_recv_buffer_bytes
buffer_pair rdma_buffer num_max_dispatch_tokens_per_rank hidden num_ranks num_experts =
    let signaling = signaling_buffer_bytes num_experts in
    let send_recv = send_recv_buffer_bytes num_max_dispatch_tokens_per_rank hidden num_experts in
    record {
      total_bytes = add_size (mul_size 4 signaling) (mul_size 4 send_recv);
      buffer0 = layout_at 0 rdma_buffer signaling send_recv;
      buffer1 = layout_at 1 rdma_buffer signaling send_recv;
    }

pub get_ep_buffer_size_hint : ℕ → ℕ → ℕ → ℕ → ℕ
unfolding buffer_pair
get_ep_buffer_size_hint num_max_dispatch_tokens_per_rank hidden num_ranks num_experts =
    (buffer_pair 0 num_max_dispatch_tokens_per_rank hidden num_ranks num_experts).total_bytes
