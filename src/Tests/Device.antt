-- ===== src/Tests/Device.antt =====
-- The device's queue functions at a queue of 4 entries whose 16-bit head is about to wrap around.
use ep_demo.Prelude.{[], add16, arith, bit_xor, refl, ℕ, ◌%◌, ◌*◌, ◌+◌, ◌^◌, ◌∷◌, ◌≡◌}
use ep_demo.Device.Bytes.{byteswap32}
use ep_demo.Device.Mutex
use ep_demo.Device.Mutex.{mutual_exclusion, inside, move, spinning, outside}
use ep_demo.Device.Queue.{DevCtx, Mlx5dv, Post, Wqebb, data_seg, issue, rdma_atomic_add, rdma_write}
use ep_demo.Device.Queue.Ring.{IsRing, IsEntry, ctrl_of, issue-doorbell, issues, issues-kept}

abbrev dv : Mlx5dv
dv = record {
  ctrl_cq_update = 8;
  opcode_rdma_write = 8;
  opcode_atomic_masked_fa = 20;
  first_qword = λ a b. a + b * 2 ^ 32;
}

abbrev no_segment : Wqebb
no_segment = record {
  ctrl = record { opmod_idx_opcode = 0; qpn_ds = 0; fm_ce_se = 0 };
  raddr = record { raddr = 0; rkey = 0; reserved = 0 };
  third = data_seg 0 0 0;
  fourth = data_seg 0 0 0;
}

abbrev ctx : DevCtx
ctx = record {
  qpn = 77;
  wqeid_mask = 3;
  wq = λ _. no_segment;
  dbr_send_counter = 0;
  bf = [];
  bf_offset = 256;
  wq_head = 65535;
  wq_tail = 0;
}

ctx-IsRing : IsRing 2 ctx
ctx-IsRing = record { size = omega arith; mask = refl; head = omega arith }

abbrev message : Post
message = rdma_write 4096 1 8192 2 4112

abbrev signal : Post
signal = rdma_atomic_add 7 64 1 128 2

issue-doorbell_example :
    let ctrl = ctrl_of dv 77 65535 message in
    ((issue dv message ctx).bf ≡ (256, dv.first_qword ctrl.opmod_idx_opcode ctrl.qpn_ds) ∷ [])
    × ((issue dv message ctx).dbr_send_counter ≡ byteswap32 (add16 65535 1))
    × (((issue dv message ctx).wq (65535 % 2 ^ 2)).ctrl ≡ ctrl)
    × ((issue dv message ctx).bf_offset ≡ bit_xor 256 256)
issue-doorbell_example = issue-doorbell dv 2 message ctx ctx-IsRing

issues-kept_example :
    IsEntry dv 77
      ((65535 + 1) % 2 ^ 16)
      signal
      ((issues dv (message ∷ signal ∷ []) ctx).wq ((65535 + 1) % 2 ^ 2))
issues-kept_example =
    issues-kept dv 2 (message ∷ signal ∷ []) ctx 1 signal ctx-IsRing (omega arith) refl

abbrev two : ℕ
two = 2

abbrev held : Mutex.Shared
held = record { mutex = 1; pc = move (move (λ _. outside) 2 spinning) 2 inside }

held-Reach : Mutex.Reach held
held-Reach =
    Mutex.next (Mutex.next Mutex.here (Mutex.enter 2 refl)) (Mutex.exchange_free 2 refl refl)

mutual_exclusion_example : (two ≡ 2) × (held.mutex ≡ 1)
mutual_exclusion_example = mutual_exclusion held-Reach two 2 refl refl
