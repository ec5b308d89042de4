-- ===== src/Mlx5gda/Qp.antt =====
-- src/ep_ibgda/mlx5gda.cpp: `mlx5gda_create_rc_qp` and `mlx5gda_destroy_qp`.
use ep_demo.Prelude.{
  Bool, Option, false, if◌then◌else◌, none, not, some, true, ℕ, ◌*◌, ◌+◌, ◌-◌, ◌==◌,
}
use ep_demo.Memheap.{Memheap, no_offset, aligned_alloc, alloc, free}
use ep_demo.Mlx5gda.Pow2.{round_up_pow2}
use ep_demo.Mlx5gda.{Cq, CqAnswers, World, adapter_page, create_cq, destroy_cq, not_positive}

-- `create_uar`: a UAR whose page the GPU can write to. It is given back when it cannot be registered.
abbrev pub create_uar : Option ℕ → Bool → World → Option ℕ × World
create_uar none register_ok w = (none, w)
create_uar (some page) true w =
    (some page, record w { uars = w.uars + 1; registered = w.registered + 1 })
create_uar (some page) false w = (none, w)

-- `unregister_ok` is the answer of `cudaHostUnregister`, whose failure is only reported: the page stays
-- registered, and the UAR is freed all the same.
abbrev pub destroy_uar : Bool → World → World
destroy_uar unregister_ok w = record w {
  registered = if unregister_ok then w.registered - 1 else w.registered;
  uars = w.uars - 1;
}

pub record QpCommand : Type 0 where
  pub wq_umem_id : ℕ
  pub wq_umem_offset : ℕ
  pub uar_page : ℕ
  pub cqn_snd : ℕ
  pub log_sq_size : ℕ
  pub dbr_addr : ℕ

pub record Qp : Type 0 where
  pub send_cq : Cq
  pub qpn : ℕ
  pub num_wqebb : ℕ
  pub wq_offset : ℕ
  pub dbr_offset : ℕ

pub record QpAnswers : Type 0 where
  pub calloc_ok : Bool
  pub query_port_ok : Bool
  pub cqe_version : Option ℕ  -- none: the capability query fails
  pub cq : CqAnswers
  pub uar : Option ℕ
  pub register_ok : Bool
  pub unregister_ok : Bool
  pub memset_ok : Bool
  pub sync_ok : Bool
  pub ilog2 : ℕ → ℕ  -- `ceil(log2(n))` in double
  pub obj_create : QpCommand → Option ℕ

abbrev free_block : Memheap → ℕ → Memheap
free_block h offset = if offset == no_offset then h else free h offset

-- The label `fail`, for what is held: the completion queue, the UAR, the host block, the offsets.
abbrev pub fail_qp : Bool → World → Option Cq → Bool → Bool → ℕ → ℕ → Option Qp × World
fail_qp unregister_ok w send_cq has_uar has_qp wq_offset dbr_offset =
    let w1 = if has_uar then destroy_uar unregister_ok w else w in
    let w2 : World = elim send_cq [ none ↦ w1 | some cq ↦ destroy_cq w1 cq ] in
    let w3 = if has_qp then record w2 { mallocs = w2.mallocs - 1 } else w2 in
    (none, record w3 { heap = free_block (free_block w3.heap wq_offset) dbr_offset })

-- From the command on.
abbrev pub create_qp_object : QpAnswers → World → ℕ → ℕ → Cq → ℕ → ℕ → ℕ → Option Qp × World
create_qp_object a w umem_id num_wqebb send_cq page wq_offset dbr_offset =
    let cmd : QpCommand = record {
      wq_umem_id = umem_id;
      wq_umem_offset = wq_offset;
      uar_page = page;
      cqn_snd = send_cq.cqn;
      log_sq_size = a.ilog2 num_wqebb;
      dbr_addr = dbr_offset;
    } in
    if a.sync_ok
    then elim (a.obj_create cmd) [
      | none ↦ fail_qp a.unregister_ok w (some send_cq) true true wq_offset dbr_offset
      | some qpn ↦ (
        some (record {
          send_cq = send_cq;
          qpn = qpn;
          num_wqebb = num_wqebb;
          wq_offset = wq_offset;
          dbr_offset = dbr_offset;
        }),
        record w { objects = w.objects + 1 },
      )
    ]
    else fail_qp a.unregister_ok w (some send_cq) true true wq_offset dbr_offset

-- From the work queue's block on.
abbrev pub create_qp_blocks : QpAnswers → World → ℕ → ℕ → Cq → ℕ → Option Qp × World
create_qp_blocks a w umem_id num_wqebb send_cq page =
    let (wq_offset, h, _) = aligned_alloc w.heap (num_wqebb * 64) adapter_page in
    let w1 = record w { heap = h } in
    if wq_offset == no_offset
    then fail_qp a.unregister_ok w1 (some send_cq) true true no_offset no_offset
    else let (dbr_offset, h', _) = alloc h 8 in
      let w2 = record w { heap = h' } in
      if dbr_offset == no_offset
      then fail_qp a.unregister_ok w2 (some send_cq) true true wq_offset no_offset
      else if not a.memset_ok
      then fail_qp a.unregister_ok w2 (some send_cq) true true wq_offset dbr_offset
      else create_qp_object a w2 umem_id num_wqebb send_cq page wq_offset dbr_offset

-- From `create_uar` on.
abbrev pub create_qp_uar : QpAnswers → World → ℕ → ℕ → Cq → Option Qp × World
create_qp_uar a w umem_id num_wqebb send_cq =
    let (uar, w1) = create_uar a.uar a.register_ok w in
    elim uar [
      | none ↦ fail_qp a.unregister_ok w1 (some send_cq) false true no_offset no_offset
      | some page ↦ create_qp_blocks a w1 umem_id num_wqebb send_cq page
    ]

-- From the completion queue on, and the checks before it.
abbrev pub create_qp_cq : QpAnswers → World → ℕ → ℕ → ℕ → Option (Option Qp × World)
create_qp_cq a w umem_id wqe num_wqebb = elim (create_cq a.cq w umem_id wqe) [
  | none ↦ none
  | some r ↦ elim r.0 [
    | none ↦ some (fail_qp a.unregister_ok r.1 none false true no_offset no_offset)
    | some cq ↦ some (create_qp_uar a r.1 umem_id num_wqebb cq)
  ]
]

abbrev pub create_qp_host : QpAnswers → World → ℕ → ℕ → ℕ → Option (Option Qp × World)
create_qp_host a w umem_id wqe num_wqebb =
    if not a.calloc_ok
    then some (fail_qp a.unregister_ok w none false false no_offset no_offset)
    else let w1 = record w { mallocs = w.mallocs + 1 } in
      let refused = some (fail_qp a.unregister_ok w1 none false true no_offset no_offset) in
      if not a.query_port_ok then refused else elim a.cqe_version [
        | none ↦ refused
        | some v ↦ if v == 1 then create_qp_cq a w1 umem_id wqe num_wqebb else refused
      ]

abbrev pub create_rc_qp : QpAnswers → World → ℕ → ℕ → Option (Option Qp × World)
create_rc_qp a w umem_id wqe =
    if not_positive wqe then some (none, w) else elim (round_up_pow2 33 wqe) [
      | none ↦ none
      | some num_wqebb ↦ create_qp_host a w umem_id wqe num_wqebb
    ]

abbrev pub destroy_qp : Bool → World → Qp → World
destroy_qp unregister_ok w qp =
    let w1 =
      destroy_cq (destroy_uar unregister_ok (record w { objects = w.objects - 1 })) qp.send_cq in
    record w1 {
      heap = free_block (free_block w1.heap qp.wq_offset) qp.dbr_offset;
      mallocs = w1.mallocs - 1;
    }
