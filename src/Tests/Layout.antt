-- ===== src/Tests/Layout.antt =====
-- The layout for 128 tokens a rank, rows of 2048 and 16 experts on 2 ranks.
use ep_demo.Prelude.{◌+◌, ◌*◌, ◌/◌, ◌%◌, ◌≡◌, ◌↔◌, refl, arith}
use ep_demo.Layout.{buffer_pair}
use ep_demo.Layout.Regions.{IsSized, IsLaidOut, data_bytes, buffer_pair-IsLaidOut, data_aligned}

sized : IsSized 4096 128 2048 16
sized = omega arith

buffer_pair-IsLaidOut_example :
    let p = buffer_pair 4096 128 2048 2 16 in
    let half = p.total_bytes / 2 in
    IsLaidOut 4096 (4096 + half) (16 * 4) (data_bytes 128 2048 16) p.buffer0
    × IsLaidOut (4096 + half) (4096 + p.total_bytes) (16 * 4) (data_bytes 128 2048 16) p.buffer1
buffer_pair-IsLaidOut_example = buffer_pair-IsLaidOut 4096 128 2048 2 16 sized

data_aligned_example :
    let b = (buffer_pair 4096 128 2048 2 16).buffer0 in
    ((b.rdma_send_data_buffer % 16 ≡ 0) ↔ (16 % 2 ≡ 0))
    × ((b.rdma_recv_data_buffer % 16 ≡ 0) ↔ (16 % 2 ≡ 0))
data_aligned_example = data_aligned 4096 128 2048 2 16 sized refl refl
