-- ===== src/Kernel/Receive.antt =====
-- src/ep_kernel.cu, the receive phase of `dispatch`: the signal's value, reserving rows of the packed
-- output, and the word of `packed_recv_layout_range` that `combine` reads back. An `int` is the
-- number of its bit pattern.
pub mod Ranges
use ep_demo.Prelude.{List, [], add32, sub32, ℕ, ◌%◌, ◌*◌, ◌+◌, ◌/◌, ◌^◌, ◌∷◌}

-- `-num_tokens_sent - 1`, which the sender writes; the receiver takes the number back the same way.
abbrev pub signal_value : ℕ → ℕ
signal_value num_tokens_sent = sub32 (sub32 0 num_tokens_sent) 1

-- `pack2` and `unpack2` of include/ep_utils.cuh, at two `int`s in an `int64_t`, on a little-endian
-- device.
abbrev pub pack2 : ℕ → ℕ → ℕ
pack2 x y = x + y * 2 ^ 32

abbrev pub unpack2 : ℕ → ℕ × ℕ
unpack2 packed = (packed % 2 ^ 32, packed / 2 ^ 32)

-- The warps of the sources reserve rows of one local expert in any order: the list has the numbers of
-- tokens in that order, and `packed_recv_count` is what the counter holds before. The result has the
-- word for each of them, and the counter after the last.
abbrev pub reserve_rows : ℕ → List ℕ → List ℕ × ℕ
reserve_rows packed_recv_count [] = ([], packed_recv_count)
reserve_rows packed_recv_count (num_recv_tokens ∷ rest) =
    let later = reserve_rows (add32 packed_recv_count num_recv_tokens) rest in
    (pack2 num_recv_tokens packed_recv_count ∷ later.0, later.1)
