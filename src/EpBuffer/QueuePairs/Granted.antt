-- ===== src/EpBuffer/QueuePairs/Granted.antt =====
-- A queue pair is created, in the next four blocks of the heap, when the system does what it is asked and
-- the heap has room.
use ep_demo.Prelude.{ℕ, ◌+◌, ◌≡◌, refl, false, ◌==◌, some, ap, ◌∙◌}
use ep_demo.Memheap.{no_offset}
use ep_demo.Mlx5gda.{World, Cq, CqAnswers, create_cq}
use ep_demo.Mlx5gda.Qp.{Qp, QpAnswers, create_rc_qp, create_qp_cq, create_qp_uar}
use ep_demo.EpBuffer.QueuePairs.Blocks.{
  IsGood, IsGoodCq, offsets, ring, dbr, heap2, heap4, offsets_in, HasRoom,
}

module _ (umem_id : ℕ) where
  create_cq-HasRoom :
      (a : CqAnswers) (w : World)
      → IsGoodCq a
      → ((ring w.heap).0 == no_offset) ≡ false
      → ((dbr (ring w.heap).1).0 == no_offset) ≡ false
      → (cq : Cq) × (t : World) × (create_cq a w umem_id 16384 ≡ some (some cq, t))
        × (cq.cq_offset ≡ (ring w.heap).0)
        × (cq.dbr_offset ≡ (dbr (ring w.heap).1).0)
        × (t.heap ≡ heap2 w.heap)
  create_cq-HasRoom a w g first second =
      let made = g.made (record {
        cq_umem_id = umem_id;
        cq_umem_offset = (ring w.heap).0;
        log_cq_size = a.ctz 16384;
        uar_page = g.uar.0;
        c_eqn = g.eqn.0;
        dbr_addr = (dbr (ring w.heap).1).0;
      }) in
      (
        record {
          cqn = made.0;
          cqe = 16384;
          cq_offset = (ring w.heap).0;
          dbr_offset = (dbr (ring w.heap).1).0;
        },
        record w {
          heap = heap2 w.heap;
          mallocs = w.mallocs + 1;
          uars = w.uars + 1;
          objects = w.objects + 1;
        },
        rw (first, g.memset, second, g.malloc, g.eqn.1, g.uar.1, g.sync, made.1) refl,
        refl,
        refl,
        refl,
      )

  create_qp_uar-HasRoom :
      (a : QpAnswers) (w : World) (cq : Cq)
      → IsGood a
      → ((ring w.heap).0 == no_offset) ≡ false
      → ((dbr (ring w.heap).1).0 == no_offset) ≡ false
      → (qp : Qp) × (t : World) × (create_qp_uar a w umem_id 16384 cq ≡ (some qp, t))
        × (qp.send_cq ≡ cq)
        × (qp.wq_offset ≡ (ring w.heap).0)
        × (qp.dbr_offset ≡ (dbr (ring w.heap).1).0)
        × (t.heap ≡ heap2 w.heap)
  create_qp_uar-HasRoom a w cq g first second =
      let made = g.made (record {
        wq_umem_id = umem_id;
        wq_umem_offset = (ring w.heap).0;
        uar_page = g.uar.0;
        cqn_snd = cq.cqn;
        log_sq_size = a.ilog2 16384;
        dbr_addr = (dbr (ring w.heap).1).0;
      }) in
      (
        record {
          send_cq = cq;
          qpn = made.0;
          num_wqebb = 16384;
          wq_offset = (ring w.heap).0;
          dbr_offset = (dbr (ring w.heap).1).0;
        },
        record w {
          heap = heap2 w.heap;
          uars = w.uars + 1;
          registered = w.registered + 1;
          objects = w.objects + 1;
        },
        rw (g.uar.1, g.register, first, second, g.memset, g.sync, made.1) refl,
        refl,
        refl,
        refl,
        refl,
      )

  create_qp_cq-HasRoom :
      (a : QpAnswers) (w t : World) (cq : Cq) (wqe : ℕ)
      → IsGood a
      → HasRoom w.heap
      → create_cq a.cq w umem_id wqe ≡ some (some cq, t)
      → cq.cq_offset ≡ (ring w.heap).0
      → cq.dbr_offset ≡ (dbr (ring w.heap).1).0
      → t.heap ≡ heap2 w.heap
      → (qp : Qp) × (u : World) × (create_qp_cq a w umem_id wqe 16384 ≡ some (some qp, u))
        × (offsets qp ≡ offsets_in w.heap)
        × (u.heap ≡ heap4 w.heap)
  create_qp_cq-HasRoom a w t cq wqe g room same q q' same_heap =
      finish (create_qp_uar-HasRoom a t cq g (rw same_heap room.wq) (rw same_heap room.wq_dbr))
    where
      finish :
          (qp : Qp) × (u : World) × (create_qp_uar a t umem_id 16384 cq ≡ (some qp, u))
            × (qp.send_cq ≡ cq)
            × (qp.wq_offset ≡ (ring t.heap).0)
            × (qp.dbr_offset ≡ (dbr (ring t.heap).1).0)
            × (u.heap ≡ heap2 t.heap)
          → (qp : Qp) × (u : World) × (create_qp_cq a w umem_id wqe 16384 ≡ some (some qp, u))
            × (offsets qp ≡ offsets_in w.heap)
            × (u.heap ≡ heap4 w.heap)
      finish (qp, u, same', own, p, p', same_heap') = (
        qp,
        u,
        rw (same, create_qp_cq) (ap some same'),
        rw (own, q, q', p, p', same_heap) refl,
        same_heap' ∙ ap heap2 same_heap,
      )

  -- A queue pair is created, in the blocks that the heap has for it.
  pub create_rc_qp-HasRoom :
      (a : QpAnswers) (w : World)
      → IsGood a
      → HasRoom w.heap
      → (qp : Qp) × (t : World) × (create_rc_qp a w umem_id 16384 ≡ some (some qp, t))
        × (offsets qp ≡ offsets_in w.heap)
        × (t.heap ≡ heap4 w.heap)
  create_rc_qp-HasRoom a w g room =
      let w1 : World = record w { mallocs = w.mallocs + 1 } in
      let (cq, t, same, q, q', same_heap) = create_cq-HasRoom a.cq w1 g.cq room.cq room.cq_dbr in
      let (qp, u, same', at, same_heap') =
        create_qp_cq-HasRoom a w1 t cq 16384 g room same q q' same_heap in
      (qp, u, rw (g.calloc, g.query_port, g.cqe_version) same', at, same_heap')
