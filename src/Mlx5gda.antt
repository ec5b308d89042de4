-- ===== src/Mlx5gda.antt =====
-- src/ep_ibgda/mlx5gda.cpp: completion queues and queue pairs in the control buffer. What the driver,
-- CUDA and the C library answer is an argument: a record of answers for each call.
pub mod Pow2
pub mod Qp
pub mod Create
pub mod CreateQp
pub mod Size
use ep_demo.Prelude.{
  ℕ, ◌+◌, ◌-◌, ◌*◌, ◌^◌, ◌==◌, Bool, true, false, not, ◌||◌, Option, none, some, if◌then◌else◌, leb,
}
use ep_demo.Memheap.{Memheap, no_offset, aligned_alloc, alloc, free}
use ep_demo.Mlx5gda.Pow2.{round_up_pow2}

-- The control buffer's heap, and how many UARs, registered UAR pages, device objects and host blocks
-- are held.
pub record World : Type 0 where
  pub heap : Memheap
  pub uars : ℕ
  pub registered : ℕ
  pub objects : ℕ
  pub mallocs : ℕ

-- `1 << MLX5_ADAPTER_PAGE_SHIFT`
abbrev pub adapter_page : ℕ
adapter_page = 2 ^ 12

pub record CqCommand : Type 0 where
  pub cq_umem_id : ℕ
  pub cq_umem_offset : ℕ
  pub log_cq_size : ℕ
  pub uar_page : ℕ
  pub c_eqn : ℕ
  pub dbr_addr : ℕ

pub record Cq : Type 0 where
  pub cqn : ℕ
  pub cqe : ℕ
  pub cq_offset : ℕ
  pub dbr_offset : ℕ

pub record CqAnswers : Type 0 where
  pub memset_ok : Bool
  pub malloc_ok : Bool
  pub eqn : Option ℕ
  pub uar : Option ℕ  -- its page
  pub sync_ok : Bool
  pub ctz : ℕ → ℕ
  pub obj_create : CqCommand → Option ℕ  -- the new queue's number

-- The label `fail`: what of the two is there is given back.
abbrev pub fail_cq : World → Bool → Bool → Option Cq × World
fail_cq w has_uar has_cq = (
  none,
  record w {
    uars = if has_uar then w.uars - 1 else w.uars;
    mallocs = if has_cq then w.mallocs - 1 else w.mallocs;
  },
)

-- From the command on.
abbrev pub create_cq_object : CqAnswers → World → ℕ → ℕ → ℕ → ℕ → ℕ → ℕ → Option Cq × World
create_cq_object a w umem_id num_cqe cq_offset dbr_offset eqn page =
    let cmd : CqCommand = record {
      cq_umem_id = umem_id;
      cq_umem_offset = cq_offset;
      log_cq_size = a.ctz num_cqe;
      uar_page = page;
      c_eqn = eqn;
      dbr_addr = dbr_offset;
    } in
    if a.sync_ok
    then elim (a.obj_create cmd) [
      | none ↦ fail_cq w true true
      | some cqn ↦ (
        some (record { cqn = cqn; cqe = num_cqe; cq_offset = cq_offset; dbr_offset = dbr_offset }),
        record w { objects = w.objects + 1 },
      )
    ]
    else fail_cq w true true

-- From `malloc` on.
abbrev pub create_cq_host : CqAnswers → World → ℕ → ℕ → ℕ → ℕ → Option Cq × World
create_cq_host a w umem_id num_cqe cq_offset dbr_offset =
    if not a.malloc_ok
    then fail_cq w false false
    else let w' = record w { mallocs = w.mallocs + 1 } in
      elim a.eqn [
        | none ↦ fail_cq w' false true
        | some eqn ↦ elim a.uar [
          | none ↦ fail_cq w' false true
          | some page ↦
              create_cq_object a (record w' { uars = w'.uars + 1 }) umem_id num_cqe cq_offset
                dbr_offset eqn page
        ]
      ]

abbrev pub create_cq_blocks : CqAnswers → World → ℕ → ℕ → Option Cq × World
create_cq_blocks a w umem_id num_cqe =
    let (cq_offset, h, _) = aligned_alloc w.heap (num_cqe * 64) adapter_page in
    let w1 = record w { heap = h } in
    if cq_offset == no_offset
    then fail_cq w1 false false
    else if not a.memset_ok
    then fail_cq w1 false false
    else let (dbr_offset, h', _) = alloc h 8 in
      let w2 = record w { heap = h' } in
      if dbr_offset == no_offset
      then fail_cq w2 false false
      else create_cq_host a w2 umem_id num_cqe cq_offset dbr_offset

-- An `int` that is not positive.
abbrev pub not_positive : ℕ → Bool
not_positive n = (n == 0) || leb (2 ^ 31) n

-- The result is none only if `round_up_pow2` does not end.
abbrev pub create_cq : CqAnswers → World → ℕ → ℕ → Option (Option Cq × World)
create_cq a w umem_id cqe =
    if not_positive cqe then some (none, w) else elim (round_up_pow2 33 cqe) [
      | none ↦ none
      | some num_cqe ↦ some (create_cq_blocks a w umem_id num_cqe)
    ]

abbrev pub destroy_cq : World → Cq → World
destroy_cq w cq = record w {
  objects = w.objects - 1;
  uars = w.uars - 1;
  heap = free (free w.heap cq.cq_offset) cq.dbr_offset;
  mallocs = w.mallocs - 1;
}
