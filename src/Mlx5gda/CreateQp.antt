-- ===== src/Mlx5gda/CreateQp.antt =====
-- What `mlx5gda_create_rc_qp` holds after a failure and after success, and that `mlx5gda_destroy_qp`
-- gives it back.
use ep_demo.Prelude.{
  ℕ, ◌+◌, ◌*◌, ◌^◌, ◌≡◌, ◌<◌, ◌≤◌, ◌==◌, if◌then◌else◌, refl, Bool, true, false, not, Bool-cases,
  inl, inr, Option, none, some, arith,
}
use ep_demo.Memheap.{no_offset, aligned_alloc, alloc}
use ep_demo.Mlx5gda.Pow2.{round_up_pow2-least}
use ep_demo.Mlx5gda.{World, Cq, create_cq, adapter_page, not_positive}
use ep_demo.Mlx5gda.Create.{Holds, HoldsCq, create_cq-HoldsCq}
use ep_demo.Mlx5gda.Qp.{
  Qp, QpAnswers, fail_qp, create_qp_object, create_qp_blocks, create_qp_uar, create_qp_cq,
  create_qp_host, create_rc_qp, create_uar,
}

-- A refused creation leaves nothing behind, but a page that could not be unregistered.
abbrev pub HoldsQp : Bool → World → Option Qp × World → Type 0
HoldsQp unregister_ok s (none, t) =
    (left : ℕ) × Holds s t 0 left 0 0 × (left ≤ 1) × (unregister_ok ≡ true → left ≡ 0)
HoldsQp unregister_ok s (some qp, t) = Holds s t 2 1 2 2

nothing_left : (u : Bool) (s t : World) → Holds s t 0 0 0 0 → HoldsQp u s (none, t)
nothing_left u s t h = (0, h, omega arith, λ e. refl)

HoldsQp-if :
    (u : Bool) (s : World) (b : Bool) (x y : Option Qp × World)
    → HoldsQp u s x
    → HoldsQp u s y
    → HoldsQp u s (if b then x else y)
HoldsQp-if u s true x y hx hy = hx
HoldsQp-if u s false x y hx hy = hy

fail_qp-HoldsQp :
    (u : Bool) (s w : World) (cq : Cq) (wq_offset dbr_offset : ℕ)
    → Holds s w 2 1 1 2
    → HoldsQp u s (fail_qp u w (some cq) true true wq_offset dbr_offset)
fail_qp-HoldsQp true s w cq wq_offset dbr_offset h =
    (0, omega (arith, h.uars, h.registered, h.objects, h.mallocs), omega arith, λ e. refl)
fail_qp-HoldsQp false s w cq wq_offset dbr_offset h =
    (1, omega (arith, h.uars, h.registered, h.objects, h.mallocs), omega arith, λ e. cc e)

create_qp_object-HoldsQp :
    (a : QpAnswers) (s w : World) (umem_id num_wqebb : ℕ) (cq : Cq) (page wq_offset dbr_offset : ℕ)
    → Holds s w 2 1 1 2
    → HoldsQp a.unregister_ok s
        (create_qp_object a w umem_id num_wqebb cq page wq_offset dbr_offset)
create_qp_object-HoldsQp a s w umem_id num_wqebb cq page wq_offset dbr_offset h =
    HoldsQp-if a.unregister_ok s a.sync_ok _ _
      (go (
        a.obj_create record {
          wq_umem_id = umem_id;
          wq_umem_offset = wq_offset;
          uar_page = page;
          cqn_snd = cq.cqn;
          log_sq_size = a.ilog2 num_wqebb;
          dbr_addr = dbr_offset;
        }))
      (fail_qp-HoldsQp a.unregister_ok s w cq wq_offset dbr_offset h)
  where
    go :
        (o : Option ℕ)
        → HoldsQp a.unregister_ok s (elim o [
          | none ↦ fail_qp a.unregister_ok w (some cq) true true wq_offset dbr_offset
          | some qpn ↦ (
            some (record {
              send_cq = cq;
              qpn = qpn;
              num_wqebb = num_wqebb;
              wq_offset = wq_offset;
              dbr_offset = dbr_offset;
            }),
            record w { objects = w.objects + 1 },
          )
        ])
    go none = fail_qp-HoldsQp a.unregister_ok s w cq wq_offset dbr_offset h
    go (some qpn) = omega (arith, h.uars, h.registered, h.objects, h.mallocs)

create_qp_blocks-HoldsQp :
    (a : QpAnswers) (s w : World) (umem_id num_wqebb : ℕ) (cq : Cq) (page : ℕ)
    → Holds s w 2 1 1 2
    → HoldsQp a.unregister_ok s (create_qp_blocks a w umem_id num_wqebb cq page)
create_qp_blocks-HoldsQp a s w umem_id num_wqebb cq page h =
    let first = aligned_alloc w.heap (num_wqebb * 64) adapter_page in
    let second = alloc first.1 8 in
    let w1 = record w { heap = first.1 } in
    let w2 = record w { heap = second.1 } in
    let moved1 : Holds s w1 2 1 1 2 = omega (arith, h.uars, h.registered, h.objects, h.mallocs) in
    let moved2 : Holds s w2 2 1 1 2 = omega (arith, h.uars, h.registered, h.objects, h.mallocs) in
    HoldsQp-if a.unregister_ok s (first.0 == no_offset) _ _
      (fail_qp-HoldsQp a.unregister_ok s w1 cq no_offset no_offset moved1)
      (HoldsQp-if a.unregister_ok s (second.0 == no_offset) _ _
        (fail_qp-HoldsQp a.unregister_ok s w2 cq first.0 no_offset moved2)
        (HoldsQp-if a.unregister_ok s (not a.memset_ok) _ _
          (fail_qp-HoldsQp a.unregister_ok s w2 cq first.0 second.0 moved2)
          (create_qp_object-HoldsQp a s w2 umem_id num_wqebb cq page first.0 second.0 moved2)))

create_qp_uar-HoldsQp :
    (a : QpAnswers) (s w : World) (umem_id num_wqebb : ℕ) (cq : Cq)
    → Holds s w 1 0 1 2
    → HoldsQp a.unregister_ok s (create_qp_uar a w umem_id num_wqebb cq)
create_qp_uar-HoldsQp a s w umem_id num_wqebb cq h = go a.uar a.register_ok
  where
    go :
        (u : Option ℕ) (r : Bool)
        → HoldsQp a.unregister_ok s (elim (create_uar u r w).0 [
          | none ↦
              fail_qp a.unregister_ok (create_uar u r w).1 (some cq) false true no_offset no_offset
          | some page ↦ create_qp_blocks a (create_uar u r w).1 umem_id num_wqebb cq page
        ])
    go none r =
        nothing_left a.unregister_ok s _ (omega (arith, h.uars, h.registered, h.objects, h.mallocs))
    go (some page) false =
        nothing_left a.unregister_ok s _ (omega (arith, h.uars, h.registered, h.objects, h.mallocs))
    go (some page) true =
        create_qp_blocks-HoldsQp a s _ umem_id num_wqebb cq page
          (omega (arith, h.uars, h.registered, h.objects, h.mallocs))

-- A result that is there, and holds what it should.
abbrev pub Returns : Bool → World → Option (Option Qp × World) → Type 0
Returns u s o = (r : Option Qp × World) × (o ≡ some r) × HoldsQp u s r

create_qp_cq-Returns :
    (a : QpAnswers) (s w : World) (umem_id wqe num_wqebb : ℕ)
    → wqe < 2 ^ 32
    → Holds s w 0 0 0 1
    → Returns a.unregister_ok s (create_qp_cq a w umem_id wqe num_wqebb)
create_qp_cq-Returns a s w umem_id wqe num_wqebb small h =
    let (r, eq, held) = create_cq-HoldsCq a.cq w umem_id wqe small in go r eq held
  where
    go :
        (r : Option Cq × World)
        → create_cq a.cq w umem_id wqe ≡ some r
        → HoldsCq w r
        → Returns a.unregister_ok s (create_qp_cq a w umem_id wqe num_wqebb)
    go (none, t) eq held = (
      fail_qp a.unregister_ok t none false true no_offset no_offset,
      rw (eq, create_qp_cq) refl,
      nothing_left a.unregister_ok s _ (
          omega (
            arith, h.uars, h.registered, h.objects, h.mallocs, held.uars, held.registered,
            held.objects, held.mallocs,
          )),
    )
    go (some cq, t) eq held = (
      create_qp_uar a t umem_id num_wqebb cq,
      rw (eq, create_qp_cq) refl,
      create_qp_uar-HoldsQp a s t umem_id num_wqebb cq (
          omega (
            arith, h.uars, h.registered, h.objects, h.mallocs, held.uars, held.registered,
            held.objects, held.mallocs,
          )),
    )

Returns-if :
    (u : Bool) (s : World) (b : Bool) (x y : Option (Option Qp × World))
    → Returns u s x
    → Returns u s y
    → Returns u s (if b then x else y)
Returns-if u s true x y hx hy = hx
Returns-if u s false x y hx hy = hy

create_qp_host-Returns :
    (a : QpAnswers) (w : World) (umem_id wqe num_wqebb : ℕ)
    → wqe < 2 ^ 32
    → Returns a.unregister_ok w (create_qp_host a w umem_id wqe num_wqebb)
create_qp_host-Returns a w umem_id wqe num_wqebb small =
    Returns-if a.unregister_ok w (not a.calloc_ok) _ _
      (
        fail_qp a.unregister_ok w none false false no_offset no_offset,
        refl,
        nothing_left a.unregister_ok w _ (omega arith),
      )
      (Returns-if a.unregister_ok w (not a.query_port_ok) _ _ refused (version a.cqe_version))
  where
    refused : Returns a.unregister_ok w (
        some (
          fail_qp a.unregister_ok
            (record w { mallocs = w.mallocs + 1 })
            none
            false
            true
            no_offset
            no_offset))
    refused = (
      fail_qp a.unregister_ok (record w { mallocs = w.mallocs + 1 }) none false true no_offset
          no_offset,
      refl,
      nothing_left a.unregister_ok w _ (omega arith),
    )

    version :
        (v : Option ℕ)
        → Returns a.unregister_ok w (elim v [
          | none ↦ some (
              fail_qp a.unregister_ok
                (record w { mallocs = w.mallocs + 1 })
                none
                false
                true
                no_offset
                no_offset)
          | some n ↦
              if n == 1
              then create_qp_cq a (record w { mallocs = w.mallocs + 1 }) umem_id wqe num_wqebb
              else some (
                  fail_qp a.unregister_ok
                    (record w { mallocs = w.mallocs + 1 })
                    none
                    false
                    true
                    no_offset
                    no_offset)
        ])
    version none = refused
    version (some n) =
        Returns-if a.unregister_ok w (n == 1) _ _
          (create_qp_cq-Returns a w (record w { mallocs = w.mallocs + 1 }) umem_id wqe num_wqebb
            small (omega arith))
          refused

-- `mlx5gda_create_rc_qp` returns for every size below 2 ^ 32 and whatever the driver answers. If it refuses,
-- it holds no UAR, object or host block more than before, and no registered page more but perhaps one that
-- `cudaHostUnregister` has failed to unregister; if it returns a queue pair, it holds two UARs, one of them
-- registered, two objects and two host blocks more.
pub create_rc_qp-HoldsQp :
    (a : QpAnswers) (w : World) (umem_id wqe : ℕ)
    → wqe < 2 ^ 32
    → (r : Option Qp × World) × (create_rc_qp a w umem_id wqe ≡ some r)
      × HoldsQp a.unregister_ok w r
create_rc_qp-HoldsQp a w umem_id wqe small = elim (Bool-cases (not_positive wqe)) [
  | inl e ↦ ((none, w), rw e refl, nothing_left a.unregister_ok w w (omega arith))
  | inr e ↦
      let (j, eq, above, near, fits) = round_up_pow2-least wqe (ground arith) (ground arith) in
      let (r, same, held) = create_qp_host-Returns a w umem_id wqe (2 ^ j) small in
      (r, rw (e, eq) same, held)
]
