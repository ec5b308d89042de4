-- ===== src/Mlx5gda/Create.antt =====
-- What `mlx5gda_create_cq` and `mlx5gda_create_rc_qp` hold after a failure, and after success.
use ep_demo.Prelude.{
  ℕ, ◌+◌, ◌*◌, ◌^◌, ◌≡◌, ◌<◌, ◌==◌, if◌then◌else◌, refl, Bool, true, false, not, Bool-cases, inl,
  inr, Option, none, some, arith,
}
use ep_demo.Memheap.{no_offset, aligned_alloc, alloc}
use ep_demo.Mlx5gda.Pow2.{round_up_pow2-least}
use ep_demo.Mlx5gda.{
  World, Cq, CqAnswers, create_cq_object, create_cq_host, create_cq_blocks, create_cq, adapter_page,
  not_positive,
}

-- `t` holds `u` UARs, `r` registered pages, `o` objects and `m` host blocks more than `s`.
pub record Holds (s t : World) (u r o m : ℕ) : Type 0 where
  pub uars : t.uars ≡ s.uars + u
  pub registered : t.registered ≡ s.registered + r
  pub objects : t.objects ≡ s.objects + o
  pub mallocs : t.mallocs ≡ s.mallocs + m

abbrev pub HoldsCq : World → Option Cq × World → Type 0
HoldsCq s (none, t) = Holds s t 0 0 0 0
HoldsCq s (some cq, t) = Holds s t 1 0 1 1

HoldsCq-if :
    (s : World) (b : Bool) (x y : Option Cq × World)
    → HoldsCq s x
    → HoldsCq s y
    → HoldsCq s (if b then x else y)
HoldsCq-if s true x y hx hy = hx
HoldsCq-if s false x y hx hy = hy

create_cq_object-HoldsCq :
    (a : CqAnswers) (s w : World) (umem_id num_cqe cq_offset dbr_offset eqn page : ℕ)
    → Holds s w 1 0 0 1
    → HoldsCq s (create_cq_object a w umem_id num_cqe cq_offset dbr_offset eqn page)
create_cq_object-HoldsCq a s w umem_id num_cqe cq_offset dbr_offset eqn page h = ground arith

create_cq_host-HoldsCq :
    (a : CqAnswers) (s w : World) (umem_id num_cqe cq_offset dbr_offset : ℕ)
    → Holds s w 0 0 0 0
    → HoldsCq s (create_cq_host a w umem_id num_cqe cq_offset dbr_offset)
create_cq_host-HoldsCq a s w umem_id num_cqe cq_offset dbr_offset h = elim a.malloc_ok [
  | false ↦ ground arith
  | true ↦ ground arith
]

create_cq_blocks-HoldsCq :
    (a : CqAnswers) (w : World) (umem_id num_cqe : ℕ)
    → HoldsCq w (create_cq_blocks a w umem_id num_cqe)
create_cq_blocks-HoldsCq a w umem_id num_cqe =
    let first = aligned_alloc w.heap (num_cqe * 64) adapter_page in
    let second = alloc first.1 8 in
    HoldsCq-if w (first.0 == no_offset) (none, record w { heap = first.1 }) _ (omega arith)
      (HoldsCq-if w (not a.memset_ok) (none, record w { heap = first.1 }) _ (omega arith)
        (HoldsCq-if w (second.0 == no_offset) (none, record w { heap = second.1 }) _ (omega arith)
          (create_cq_host-HoldsCq a w (record w { heap = second.1 }) umem_id num_cqe first.0
            second.0 (omega arith))))

-- `mlx5gda_create_cq` returns for every size. If it refuses, it holds no UAR, registered page, object or
-- host block more than before; if it returns a queue, it holds one UAR, one object and one host block more.
pub create_cq-HoldsCq :
    (a : CqAnswers) (w : World) (umem_id cqe : ℕ)
    → cqe < 2 ^ 32
    → (r : Option Cq × World) × (create_cq a w umem_id cqe ≡ some r) × HoldsCq w r
create_cq-HoldsCq a w umem_id cqe h = elim (Bool-cases (not_positive cqe)) [
  | inl e ↦ ((none, w), rw e refl, omega arith)
  | inr e ↦
      let (j, eq, above, near, fits) = round_up_pow2-least cqe (ground arith) (ground arith) in
      (
        create_cq_blocks a w umem_id (2 ^ j),
        rw (e, eq) refl,
        create_cq_blocks-HoldsCq a w umem_id (2 ^ j),
      )
]
