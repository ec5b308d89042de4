-- ===== src/EpBuffer/Contexts.antt =====
-- src/ep_buffer.cpp, `init_ibgda` and `update_local_qpns`: the context of a queue pair that is copied to
-- the device, as the kernels find it.
use ep_demo.Prelude.{
  ℕ, ◌≡◌, refl, Option, none, some, List, [], ◌∷◌, ◌++◌, arith, sub32, All, All-append, All-map,
  Bool-cases, inl, inr,
}
use ep_demo.Mlx5gda.{World}
use ep_demo.Mlx5gda.Qp.{Qp, create_rc_qp}
use ep_demo.Mlx5gda.CreateQp.{create_rc_qp-HoldsQp}
use ep_demo.Mlx5gda.Size.{create_rc_qp-HasSize}
use ep_demo.Device.Queue.{DevCtx, Wqebb}
use ep_demo.Device.Queue.Ring.{IsRing}
use ep_demo.EpBuffer.QueuePairs.{Round, Init, created, failed, thrown, looping, init_qps, num_wqe}

-- The fields that the initializer of `qp_devctx` does not name are 0; `wq` is what the work queue's
-- memory holds, and `send_counter` what the doorbell record does.
abbrev pub device_context : (ℕ → Wqebb) → ℕ → Qp → DevCtx
device_context wq send_counter qp = record {
  qpn = qp.qpn;
  wqeid_mask = sub32 qp.num_wqebb 1;
  wq = wq;
  dbr_send_counter = send_counter;
  bf = [];
  bf_offset = 0;
  wq_head = 0;
  wq_tail = 0;
}

-- What holds of the queue pairs if they could all be created.
abbrev pub AllCreated : (Qp → Type 0) → Init → Type 0
AllCreated P (created qps w) = All P qps
AllCreated P (failed qps w) = All P qps
AllCreated P (thrown qps w) = All P qps
AllCreated P looping = ⊥

init_qps-AllCreated :
    (umem_id : ℕ) (rounds : List Round) (w : World) (qps : List Qp)
    → All (λ qp. qp.num_wqebb ≡ 16384) qps
    → AllCreated (λ qp. qp.num_wqebb ≡ 16384) (init_qps umem_id rounds w qps)
init_qps-AllCreated umem_id [] w qps h = h
init_qps-AllCreated umem_id (a ∷ rounds) w qps h =
    let (r, same, held) = create_rc_qp-HoldsQp a.answers w umem_id num_wqe (omega arith) in
    next r same (λ w' qps' h'. init_qps-AllCreated umem_id rounds w' qps' h')
  where
    next :
        (r : Option Qp × World)
        → create_rc_qp a.answers w umem_id num_wqe ≡ some r
        → ((w' : World) (qps' : List Qp)
            → All (λ qp. qp.num_wqebb ≡ 16384) qps'
            → AllCreated (λ qp. qp.num_wqebb ≡ 16384) (init_qps umem_id rounds w' qps'))
        → AllCreated (λ qp. qp.num_wqebb ≡ 16384) (init_qps umem_id (a ∷ rounds) w qps)
    next (none, t) same later = rw (same, init_qps) h
    next (some qp, t) same later = elim (Bool-cases a.rst2init_ok) [
      | inr e ↦ rw (same, e, init_qps) h
      | inl e ↦ elim (Bool-cases a.sync_ok) [
        | inr f ↦ rw (same, e, f, init_qps) h
        | inl f ↦
            rw (same, e, f, init_qps)
              (later t (qps ++ qp ∷ []) (
                All-append (λ q. q.num_wqebb ≡ 16384) qps (qp ∷ []) h
                  (create_rc_qp-HasSize a.answers w umem_id (some qp, t) same, tt)))
      ]
    ]

-- Every queue pair that `init_ibgda` keeps reaches the kernels with a context whose send queue is empty
-- and is a ring of 2 ^ 14 entries: its mask is that of the entries' indices.
pub init_qps-IsRing :
    (umem_id : ℕ) (rounds : List Round) (w : World) (wq : ℕ → Wqebb) (counter : ℕ)
    → AllCreated
        (λ qp.
          IsRing 14 (device_context wq counter qp) × ((device_context wq counter qp).wq_head ≡ 0))
        (init_qps umem_id rounds w [])
init_qps-IsRing umem_id rounds w wq counter =
    ring (init_qps umem_id rounds w []) (init_qps-AllCreated umem_id rounds w [] tt)
  where
    context :
        (qp : Qp)
        → qp.num_wqebb ≡ 16384
        → IsRing 14 (device_context wq counter qp) × ((device_context wq counter qp).wq_head ≡ 0)
    context qp e =
        (record { size = omega arith; mask = omega (arith, e); head = omega arith }, refl)

    ring :
        (i : Init)
        → AllCreated (λ qp. qp.num_wqebb ≡ 16384) i
        → AllCreated
            (λ qp.
              IsRing 14 (device_context wq counter qp)
              × ((device_context wq counter qp).wq_head ≡ 0))
            i
    ring (created qps t) h = All-map _ _ context qps h
    ring (failed qps t) h = All-map _ _ context qps h
    ring (thrown qps t) h = All-map _ _ context qps h
    ring looping h = h
