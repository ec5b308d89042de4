-- ===== src/Mlx5gda/Size.antt =====
-- How many entries a queue pair has that `mlx5gda_create_rc_qp` creates.
use mathlib.Core.Path.{subst}
use ep_demo.Prelude.{
  ℕ, ◌*◌, ◌+◌, ◌≡◌, refl, Bool, true, false, not, if◌then◌else◌, Option, none, some, ◌==◌,
}
use ep_demo.Memheap.{aligned_alloc, alloc, no_offset}
use ep_demo.Mlx5gda.{World, Cq, adapter_page, create_cq}
use ep_demo.Mlx5gda.Qp.{
  Qp, QpAnswers, create_rc_qp, create_qp_host, create_qp_cq, create_qp_uar, create_qp_blocks,
  create_qp_object, fail_qp, create_uar,
}

-- A queue pair that is created has `n` entries.
abbrev pub HasSize : ℕ → Option Qp × World → Type 0
HasSize n (none, w) = Unit
HasSize n (some qp, w) = qp.num_wqebb ≡ n

HasSize-if :
    (n : ℕ) (b : Bool) (x y : Option Qp × World)
    → HasSize n x
    → HasSize n y
    → HasSize n (if b then x else y)
HasSize-if n true x y p q = p
HasSize-if n false x y p q = q

module _ (a : QpAnswers) (umem_id n : ℕ) where
  create_qp_object-HasSize :
      (w : World) (cq : Cq) (page wq_offset dbr_offset : ℕ)
      → HasSize n (create_qp_object a w umem_id n cq page wq_offset dbr_offset)
  create_qp_object-HasSize w cq page wq_offset dbr_offset =
      HasSize-if n a.sync_ok _ _ (answered (a.obj_create _)) tt
    where
      answered :
          (o : Option ℕ)
          → HasSize n (elim o [
            | none ↦ fail_qp a.unregister_ok w (some cq) true true wq_offset dbr_offset
            | some qpn ↦ (
              some (record {
                send_cq = cq;
                qpn = qpn;
                num_wqebb = n;
                wq_offset = wq_offset;
                dbr_offset = dbr_offset;
              }),
              record w { objects = w.objects + 1 },
            )
          ])
      answered none = tt
      answered (some qpn) = refl

  create_qp_blocks-HasSize :
      (w : World) (cq : Cq) (page : ℕ) → HasSize n (create_qp_blocks a w umem_id n cq page)
  create_qp_blocks-HasSize w cq page =
      let first = aligned_alloc w.heap (n * 64) adapter_page in
      let second = alloc first.1 8 in
      HasSize-if n (first.0 == no_offset) _ _ tt (
        HasSize-if n (second.0 == no_offset) _ _ tt (
          HasSize-if n (not a.memset_ok) _ _ tt
            (create_qp_object-HasSize (record w { heap = second.1 }) cq page first.0 second.0)))

  create_qp_uar-HasSize : (w : World) (cq : Cq) → HasSize n (create_qp_uar a w umem_id n cq)
  create_qp_uar-HasSize w cq = taken (create_uar a.uar a.register_ok w)
    where
      taken :
          (u : Option ℕ × World)
          → HasSize n (elim u.0 [
            | none ↦ fail_qp a.unregister_ok u.1 (some cq) false true no_offset no_offset
            | some page ↦ create_qp_blocks a u.1 umem_id n cq page
          ])
      taken (none, w1) = tt
      taken (some page, w1) = create_qp_blocks-HasSize w1 cq page

  abbrev HasSizes : Option (Option Qp × World) → Type 0
  HasSizes none = Unit
  HasSizes (some r) = HasSize n r

  HasSizes-if :
      (b : Bool) (x y : Option (Option Qp × World))
      → HasSizes x
      → HasSizes y
      → HasSizes (if b then x else y)
  HasSizes-if true x y p q = p
  HasSizes-if false x y p q = q

  create_qp_cq-HasSize : (w : World) (wqe : ℕ) → HasSizes (create_qp_cq a w umem_id wqe n)
  create_qp_cq-HasSize w wqe = with_cq (create_cq a.cq w umem_id wqe)
    where
      with_cq :
          (o : Option (Option Cq × World))
          → HasSizes (elim o [
            | none ↦ none
            | some r ↦ elim r.0 [
              | none ↦ some (fail_qp a.unregister_ok r.1 none false true no_offset no_offset)
              | some cq ↦ some (create_qp_uar a r.1 umem_id n cq)
            ]
          ])
      with_cq none = tt
      with_cq (some (none, w1)) = tt
      with_cq (some (some cq, w1)) = create_qp_uar-HasSize w1 cq

  create_qp_host-HasSize : (w : World) (wqe : ℕ) → HasSizes (create_qp_host a w umem_id wqe n)
  create_qp_host-HasSize w wqe =
      HasSizes-if (not a.calloc_ok) _ _ tt
        (HasSizes-if (not a.query_port_ok) _ _ tt (versions a.cqe_version))
    where
      versions :
          (o : Option ℕ)
          → HasSizes (elim o [
            | none ↦ some (
                fail_qp a.unregister_ok
                  (record w { mallocs = w.mallocs + 1 })
                  none
                  false
                  true
                  no_offset
                  no_offset)
            | some v ↦
                if v == 1
                then create_qp_cq a (record w { mallocs = w.mallocs + 1 }) umem_id wqe n
                else some (
                    fail_qp a.unregister_ok
                      (record w { mallocs = w.mallocs + 1 })
                      none
                      false
                      true
                      no_offset
                      no_offset)
          ])
      versions none = tt
      versions (some v) = HasSizes-if (v == 1) _ _ (create_qp_cq-HasSize _ wqe) tt

-- Asked for 2 ^ 14 entries, a queue pair has that many.
pub create_rc_qp-HasSize :
    (a : QpAnswers) (w : World) (umem_id : ℕ) (r : Option Qp × World)
    → create_rc_qp a w umem_id 16384 ≡ some r
    → HasSize 16384 r
create_rc_qp-HasSize a w umem_id r e =
    subst (HasSizes a umem_id 16384) e (create_qp_host-HasSize a umem_id 16384 w 16384)
