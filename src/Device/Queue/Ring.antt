-- ===== src/Device/Queue/Ring.antt =====
-- src/ep_kernel.cu: a queue pair's send queue as a ring of 2 ^ k entries, and its doorbells.
use ep_demo.Prelude.{
  ℕ, zero, suc, ◌+◌, ◌-◌, ◌%◌, ◌^◌, ◌<◌, ◌≤◌, ◌≡◌, ◌≢◌, refl, List, [], ◌∷◌, bit_and, bit_or,
  bit_xor, mul32, ◌==◌, true, and_mask, mod_pow_mod, sym, ap, ◌∙◌, sub32, add16, length, get_elem?,
  some, arith,
}
use ep_demo.Prelude.{Bool-cases, ltb, ltb→lt, inl, inr}
use native.Mathlib.Nat.{mod-lt, mod-add-mod, mod-eq_of_lt, mod-eq-sub-mod}
use mathlib.Core.Path.{subst}
use ep_demo.Device.Bytes.{byteswap32, byteswap64}
use ep_demo.Device.Queue.{
  Mlx5dv, CtrlSeg, Wqebb, data_seg, atomic_add_32_seg, DevCtx, Post, rdma_write, rdma_atomic_add,
  issue, rdma_write_ctrl, rdma_atomic_ctrl,
}

-- A queue of 2 ^ k entries whose number of posts fits the 16-bit head.
pub record IsRing (k : ℕ) (s : DevCtx) : Type 0 where
  pub size : k ≤ 16
  pub mask : s.wqeid_mask ≡ 2 ^ k - 1
  pub head : s.wq_head < 2 ^ 16

module _ (m : Mlx5dv) where
  abbrev pub ctrl_of : ℕ → ℕ → Post → CtrlSeg
  ctrl_of qpn head (rdma_write laddr lkey raddr rkey bytes) = rdma_write_ctrl m qpn head
  ctrl_of qpn head (rdma_atomic_add value laddr lkey raddr rkey) = rdma_atomic_ctrl m qpn head

  abbrev pub issues : List (Post) → DevCtx → DevCtx
  issues [] s = s
  issues (p ∷ ps) s = issues ps (issue m p s)

slot_lem : (k : ℕ) (s : DevCtx) → IsRing k s → (n : ℕ) → bit_and n s.wqeid_mask ≡ n % 2 ^ k
slot_lem k s r n = ap (λ t. bit_and n t) r.mask ∙ and_mask k n

-- The slot of the head one post back, as `post_send_db` computes it in 32 bits.
last_slot : (k h : ℕ) → k ≤ 16 → h < 2 ^ 16 → sub32 (add16 h 1) 1 % 2 ^ k ≡ h % 2 ^ k
last_slot k h kh hh =
    sym (mod_pow_mod k 16 (sub32 (add16 h 1) 1) kh) ∙ ap (λ t. t % 2 ^ k) (last_head h hh)
  where
    last_head : (h : ℕ) → h < 2 ^ 16 → sub32 (add16 h 1) 1 % 2 ^ 16 ≡ h
    last_head h hh = omega arith

next_slot : (k h i : ℕ) → k ≤ 16 → (add16 h 1 + i) % 2 ^ k ≡ (h + suc i) % 2 ^ k
next_slot k h i kh =
    sym (mod_pow_mod k 16 (add16 h 1 + i) kh)
    ∙ ap (λ t. t % 2 ^ k) (omega arith)
    ∙ mod_pow_mod k 16 (h + suc i) kh

slot_ne : (n h d : ℕ) → 0 < d → d < n → h % n ≢ (h + d) % n
slot_ne n h d pos lt e =
    ring_ne n (h % n) d pos lt (mod-lt h (omega (arith, lt))) (e ∙ sym (mod-add-mod h n d))
  where
    ring_ne : (n r d : ℕ) → 0 < d → d < n → r < n → r ≢ (r + d) % n
    ring_ne n r d pos lt rlt e = elim (Bool-cases (ltb (r + d) n)) [
      | inl below ↦ absurd (omega (arith, e ∙ mod-eq_of_lt (ltb→lt (r + d) n below)))
      | inr above ↦
          let g : n ≤ r + d = ground (arith, above) in
          let f : r + d - n < n = omega (arith, rlt, lt) in
          absurd (omega (arith, e ∙ mod-eq-sub-mod g ∙ mod-eq_of_lt f, pos, lt, rlt, g))
    ]

-- What the entry of a post is to be, for queue pair `qpn` and head `head`. A message leaves the fourth segment
-- of the entry as it is.
abbrev pub IsEntry : Mlx5dv → ℕ → ℕ → Post → Wqebb → Type 0
IsEntry m qpn head (rdma_write laddr lkey raddr rkey bytes) w =
    (w.ctrl ≡ record {
      qpn_ds = byteswap32 (bit_or (mul32 qpn 256) 3);
      fm_ce_se = m.ctrl_cq_update;
      opmod_idx_opcode = byteswap32 (bit_or (mul32 head 256) m.opcode_rdma_write);
    })
    × (w.raddr ≡ record { raddr = byteswap64 raddr; rkey = rkey; reserved = 0 })
    × (w.third ≡ data_seg (byteswap32 bytes) lkey (byteswap64 laddr))
IsEntry m qpn head (rdma_atomic_add value laddr lkey raddr rkey) w =
    (w.ctrl ≡ record {
      qpn_ds = byteswap32 (bit_or (mul32 qpn 256) 4);
      fm_ce_se = m.ctrl_cq_update;
      opmod_idx_opcode =
          byteswap32 (bit_or (bit_or m.opcode_atomic_masked_fa (mul32 head 256)) 0x08000000);
    })
    × (w.raddr ≡ record { raddr = byteswap64 raddr; rkey = rkey; reserved = 0 })
    × (w.third ≡ atomic_add_32_seg (byteswap32 value) 0 0)
    × (w.fourth ≡ data_seg (byteswap32 4) lkey (byteswap64 laddr))

module _ (m : Mlx5dv) (k : ℕ) where
  issue-IsRing : (p : Post) (s : DevCtx) → IsRing k s → IsRing k (issue m p s)
  issue-IsRing (rdma_write a b c d e) s r = record {
    size = r.size;
    mask = r.mask;
    head = omega arith;
  }
  issue-IsRing (rdma_atomic_add a b c d e) s r = record {
    size = r.size;
    mask = r.mask;
    head = omega arith;
  }

  issue-head : (p : Post) (s : DevCtx) → (issue m p s).wq_head ≡ add16 s.wq_head 1
  issue-head (rdma_write a b c d e) s = refl
  issue-head (rdma_atomic_add a b c d e) s = refl

  issue-qpn : (p : Post) (s : DevCtx) → (issue m p s).qpn ≡ s.qpn
  issue-qpn (rdma_write a b c d e) s = refl
  issue-qpn (rdma_atomic_add a b c d e) s = refl

  issue-own :
      (p : Post) (s : DevCtx) (i : ℕ)
      → i ≡ bit_and s.wq_head s.wqeid_mask
      → ((issue m p s).wq i).ctrl ≡ ctrl_of m s.qpn s.wq_head p
  issue-own (rdma_write a b c d e) s i h = ground arith
  issue-own (rdma_atomic_add a b c d e) s i h = ground arith

  issue-IsEntry :
      (p : Post) (s : DevCtx) (i : ℕ)
      → i ≡ bit_and s.wq_head s.wqeid_mask
      → IsEntry m s.qpn s.wq_head p ((issue m p s).wq i)
  issue-IsEntry (rdma_write a b c d e) s i h =
      let here : (bit_and s.wq_head s.wqeid_mask == i) ≡ true = ground (arith, h) in
      rw here (refl, refl, refl)
  issue-IsEntry (rdma_atomic_add a b c d e) s i h =
      let here : (bit_and s.wq_head s.wqeid_mask == i) ≡ true = ground (arith, h) in
      rw here (refl, refl, refl, refl)

  issue-other :
      (p : Post) (s : DevCtx) (i : ℕ)
      → i ≢ bit_and s.wq_head s.wqeid_mask
      → ((issue m p s).wq i) ≡ s.wq i
  issue-other (rdma_write a b c d e) s i h = ground arith
  issue-other (rdma_atomic_add a b c d e) s i h = ground arith

  issue-stores :
      (p : Post) (s : DevCtx)
      → let ctrl = ((issue m p s).wq (bit_and (sub32 (add16 s.wq_head 1) 1) s.wqeid_mask)).ctrl in
        ((issue m p s).bf ≡ (s.bf_offset, m.first_qword ctrl.opmod_idx_opcode ctrl.qpn_ds) ∷ s.bf)
        × ((issue m p s).dbr_send_counter ≡ byteswap32 (add16 s.wq_head 1))
        × ((issue m p s).bf_offset ≡ bit_xor s.bf_offset 256)
  issue-stores (rdma_write a b c d e) s = (refl, refl, refl)
  issue-stores (rdma_atomic_add a b c d e) s = (refl, refl, refl)

  -- The store to the doorbell register after a post carries the control segment that the post wrote,
  -- at the offset that the last post did not use, also when the 16-bit head wraps around; the doorbell
  -- record gets the new head in big-endian order.
  pub issue-doorbell :
      (p : Post) (s : DevCtx)
      → IsRing k s
      → let ctrl = ctrl_of m s.qpn s.wq_head p in
        ((issue m p s).bf ≡ (s.bf_offset, m.first_qword ctrl.opmod_idx_opcode ctrl.qpn_ds) ∷ s.bf)
        × ((issue m p s).dbr_send_counter ≡ byteswap32 (add16 s.wq_head 1))
        × (((issue m p s).wq (s.wq_head % 2 ^ k)).ctrl ≡ ctrl)
        × ((issue m p s).bf_offset ≡ bit_xor s.bf_offset 256)
  issue-doorbell p s r =
      let own = issue-own p s (bit_and (sub32 (add16 s.wq_head 1) 1) s.wqeid_mask) (
        slot_lem k s r (sub32 (add16 s.wq_head 1) 1)
        ∙ last_slot k s.wq_head r.size r.head
        ∙ sym (slot_lem k s r s.wq_head)) in
      (
        (issue-stores p s).0
            ∙ ap (λ c. (s.bf_offset, m.first_qword c.opmod_idx_opcode c.qpn_ds) ∷ s.bf) own,
        (issue-stores p s).1,
        issue-own p s (s.wq_head % 2 ^ k) (sym (slot_lem k s r s.wq_head)),
        (issue-stores p s).2,
      )

  issues-other :
      (ps : List Post) (s : DevCtx) (i : ℕ)
      → IsRing k s
      → ((j : ℕ) → j < length ps → i ≢ (s.wq_head + j) % 2 ^ k)
      → ((issues m ps s).wq i) ≡ s.wq i
  issues-other [] s i r h = refl
  issues-other (p ∷ ps) s i r h =
      issues-other ps (issue m p s) i (issue-IsRing p s r) (λ j g. λ e.
        h (suc j) (omega (arith, g))
          (e ∙ ap (λ t. (t + j) % 2 ^ k) (issue-head p s) ∙ next_slot k s.wq_head j r.size))
      ∙ issue-other p s i (λ e.
        h 0 (omega arith) (e ∙ slot_lem k s r s.wq_head ∙ ap (λ t. t % 2 ^ k) (omega arith)))

  issues-first :
      (p : Post) (ps : List Post) (s : DevCtx)
      → IsRing k s
      → suc (length ps) ≤ 2 ^ k
      → IsEntry m s.qpn s.wq_head p ((issues m ps (issue m p s)).wq (s.wq_head % 2 ^ k))
  issues-first p ps s r l =
      let kept = issues-other ps (issue m p s) (s.wq_head % 2 ^ k) (issue-IsRing p s r) (λ j g. λ e.
        slot_ne (2 ^ k) s.wq_head (suc j) (omega arith) (omega (arith, l, g))
          (e ∙ ap (λ t. (t + j) % 2 ^ k) (issue-head p s) ∙ next_slot k s.wq_head j r.size)) in
      subst (IsEntry m s.qpn s.wq_head p) (sym kept)
        (issue-IsEntry p s (s.wq_head % 2 ^ k) (sym (slot_lem k s r s.wq_head)))

  -- As long as no more posts are made than the queue has entries, each entry still holds what its own post
  -- wrote: post `i` is in the entry of the head at that time, with its control segment, the remote address
  -- in big-endian order and the remote key, and its data or atomic segments.
  pub issues-kept :
      (ps : List Post) (s : DevCtx) (i : ℕ) (p : Post)
      → IsRing k s
      → length ps ≤ 2 ^ k
      → get_elem? ps i ≡ some p
      → IsEntry m s.qpn ((s.wq_head + i) % 2 ^ 16) p ((issues m ps s).wq ((s.wq_head + i) % 2 ^ k))
  issues-kept [] s i p r l g = absurd (ground arith)
  issues-kept (q ∷ ps) s zero p r l g =
      let e : q ≡ p = ground (arith, g) in
      let head : s.wq_head ≡ (s.wq_head + 0) % 2 ^ 16 = omega (arith, r.head) in
      let slot : s.wq_head % 2 ^ k ≡ (s.wq_head + 0) % 2 ^ k = ap (λ t. t % 2 ^ k) (omega arith) in
      subst (λ h. IsEntry m s.qpn h p ((issues m (q ∷ ps) s).wq ((s.wq_head + 0) % 2 ^ k))) head
        (subst (λ j. IsEntry m s.qpn s.wq_head p ((issues m (q ∷ ps) s).wq j)) slot
          (subst (λ t. IsEntry m s.qpn s.wq_head t ((issues m (q ∷ ps) s).wq (s.wq_head % 2 ^ k))) e
            (issues-first q ps s r l)))
  issues-kept (q ∷ ps) s (suc i) p r l g =
      let t = issue m q s in
      let slot : (t.wq_head + i) % 2 ^ k ≡ (s.wq_head + suc i) % 2 ^ k =
        ap (λ h. (h + i) % 2 ^ k) (issue-head q s) ∙ next_slot k s.wq_head i r.size in
      let head : (t.wq_head + i) % 2 ^ 16 ≡ (s.wq_head + suc i) % 2 ^ 16 =
        omega (arith, issue-head q s) in
      subst
        (λ n.
          IsEntry m n ((s.wq_head + suc i) % 2 ^ 16) p
            ((issues m ps t).wq ((s.wq_head + suc i) % 2 ^ k)))
        (issue-qpn q s)
        (subst (λ h. IsEntry m t.qpn h p ((issues m ps t).wq ((s.wq_head + suc i) % 2 ^ k))) head
          (subst (λ j. IsEntry m t.qpn ((t.wq_head + i) % 2 ^ 16) p ((issues m ps t).wq j)) slot
            (issues-kept ps t i p (issue-IsRing q s r) (omega (arith, l)) g)))
