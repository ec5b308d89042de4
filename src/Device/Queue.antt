-- ===== src/Device/Queue.antt =====
-- src/ep_kernel.cu: `__mlx5gda_device_write_rdma_write_wqe`, `__mlx5gda_device_write_rdma_atomic_add_wqe`
-- and `__mlx5gda_device_post_send_db`, on the `mlx5gda_qp_devctx` of include/ep_ibgda/mlx5gda.h.
pub mod Ring
use ep_demo.Prelude.{
  ℕ, ◌+◌, ◌*◌, ◌==◌, if◌then◌else◌, List, ◌∷◌, bit_and, bit_or, bit_xor, add16, mul32, sub32,
}
use ep_demo.Device.Bytes.{byteswap32, byteswap64}

-- What the code takes from infiniband/mlx5dv.h: three constants, and the first 8 bytes of a control
-- segment as they lie in memory.
pub record Mlx5dv : Type 0 where
  pub ctrl_cq_update : ℕ
  pub opcode_rdma_write : ℕ
  pub opcode_atomic_masked_fa : ℕ
  pub first_qword : ℕ → ℕ → ℕ  -- of opmod_idx_opcode and qpn_ds

-- The other fields of `mlx5_wqe_ctrl_seg` are 0.
pub record CtrlSeg : Type 0 where
  pub opmod_idx_opcode : ℕ
  pub qpn_ds : ℕ
  pub fm_ce_se : ℕ

pub record RaddrSeg : Type 0 where
  pub raddr : ℕ
  pub rkey : ℕ
  pub reserved : ℕ

pub data Seg : Type 0 where
  data_seg : ℕ → ℕ → ℕ → Seg  -- byte_count, lkey, addr
  atomic_add_32_seg : ℕ → ℕ → ℕ → Seg  -- add_data, field_boundary, compare

-- A `mlx5gda_wqebb`: 64 bytes, four segments.
pub record Wqebb : Type 0 where
  pub ctrl : CtrlSeg
  pub raddr : RaddrSeg
  pub third : Seg
  pub fourth : Seg

pub record DevCtx : Type 0 where
  pub qpn : ℕ
  pub wqeid_mask : ℕ
  pub wq : ℕ → Wqebb
  pub dbr_send_counter : ℕ
  pub bf : List (ℕ × ℕ)  -- the stores to the doorbell register, the last one first: offset and value
  pub bf_offset : ℕ
  pub wq_head : ℕ
  pub wq_tail : ℕ

abbrev pub bf_size : ℕ
bf_size = 256

abbrev pub store : (ℕ → Wqebb) → ℕ → Wqebb → ℕ → Wqebb
store wq i w j = if i == j then w else wq j

-- What a warp does between lock and unlock: a message or a signal, then the doorbell.
pub data Post : Type 0 where
  rdma_write : (laddr lkey raddr rkey bytes : ℕ) → Post
  rdma_atomic_add : (value laddr lkey raddr rkey : ℕ) → Post

module _ (m : Mlx5dv) where
  abbrev pub rdma_write_ctrl : ℕ → ℕ → CtrlSeg
  rdma_write_ctrl qpn head = record {
    qpn_ds = byteswap32 (bit_or (mul32 qpn 256) 3);
    fm_ce_se = m.ctrl_cq_update;
    opmod_idx_opcode = byteswap32 (bit_or (mul32 head 256) m.opcode_rdma_write);
  }

  abbrev pub rdma_atomic_ctrl : ℕ → ℕ → CtrlSeg
  rdma_atomic_ctrl qpn head = record {
    qpn_ds = byteswap32 (bit_or (mul32 qpn 256) 4);
    fm_ce_se = m.ctrl_cq_update;
    opmod_idx_opcode =
        byteswap32 (bit_or (bit_or m.opcode_atomic_masked_fa (mul32 head 256)) 0x08000000);
  }

  abbrev pub write_rdma_write_wqe : DevCtx → ℕ → ℕ → ℕ → ℕ → ℕ → DevCtx
  write_rdma_write_wqe ctx laddr lkey raddr rkey bytes =
      let i = bit_and ctx.wq_head ctx.wqeid_mask in
      let wqe = record (ctx.wq i) {
        ctrl = rdma_write_ctrl ctx.qpn ctx.wq_head;
        raddr = record { raddr = byteswap64 raddr; rkey = rkey; reserved = 0 };
        third = data_seg (byteswap32 bytes) lkey (byteswap64 laddr);
      } in
      record ctx { wq = store ctx.wq i wqe; wq_head = add16 ctx.wq_head 1 }

  abbrev pub write_rdma_atomic_add_wqe : DevCtx → ℕ → ℕ → ℕ → ℕ → ℕ → DevCtx
  write_rdma_atomic_add_wqe ctx value laddr lkey raddr rkey =
      let i = bit_and ctx.wq_head ctx.wqeid_mask in
      let wqe : Wqebb = record {
        ctrl = rdma_atomic_ctrl ctx.qpn ctx.wq_head;
        raddr = record { raddr = byteswap64 raddr; rkey = rkey; reserved = 0 };
        third = atomic_add_32_seg (byteswap32 value) 0 0;
        fourth = data_seg (byteswap32 4) lkey (byteswap64 laddr);
      } in
      record ctx { wq = store ctx.wq i wqe; wq_head = add16 ctx.wq_head 1 }

  abbrev pub post_send_db : DevCtx → DevCtx
  post_send_db ctx =
      let last_wqe = ctx.wq (bit_and (sub32 ctx.wq_head 1) ctx.wqeid_mask) in
      record ctx {
        dbr_send_counter = byteswap32 ctx.wq_head;
        bf =
            (ctx.bf_offset, m.first_qword last_wqe.ctrl.opmod_idx_opcode last_wqe.ctrl.qpn_ds)
            ∷ ctx.bf;
        bf_offset = bit_xor ctx.bf_offset bf_size;
      }

  abbrev pub write_wqe : Post → DevCtx → DevCtx
  write_wqe (rdma_write laddr lkey raddr rkey bytes) ctx =
      write_rdma_write_wqe ctx laddr lkey raddr rkey bytes
  write_wqe (rdma_atomic_add value laddr lkey raddr rkey) ctx =
      write_rdma_atomic_add_wqe ctx value laddr lkey raddr rkey

  abbrev pub issue : Post → DevCtx → DevCtx
  issue p ctx = post_send_db (write_wqe p ctx)
