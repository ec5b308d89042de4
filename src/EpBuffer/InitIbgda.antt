-- ===== src/EpBuffer/InitIbgda.antt =====
-- src/ep_buffer.cpp: `init_ibgda`, by what it takes and what it leaves. The answers of CUDA and of the
-- verbs library are arguments; an exception is a result.
pub mod Held
use ep_demo.Prelude.{
  ℕ, Bool, true, false, not, if◌then◌else◌, Option, none, some, List, [], ◌∷◌, ◌*◌, zero, suc,
}
use ep_demo.Memheap.{create}
use ep_demo.Mlx5gda.{World}
use ep_demo.Mlx5gda.Qp.{Qp}
use ep_demo.EpBuffer.{GidEntry, find_best_gid_index}
use ep_demo.EpBuffer.QueuePairs.{Round, Init, created, failed, thrown, looping, init_qps}

-- What `init_ibgda` takes.
pub record Ibgda : Type 0 where
  pub device_list : Bool
  pub context : Bool
  pub pd : Bool
  pub mpd : Bool
  pub mr : Bool
  pub ctrl_buf : Bool
  pub ctrl_buf_umem : Bool
  pub ctrl_buf_heap : Bool
  pub qps : List Qp
  pub world : World

-- `CTRL_BUF_SIZE`
abbrev pub ctrl_buf_size : ℕ
ctrl_buf_size = 1024 * 1024 * 1024

pub record IbgdaAnswers : Type 0 where
  pub names_match : List Bool  -- `name && device_name == name` for each device
  pub open_ok : Bool
  pub query_port_ok : Bool
  pub gids : List (Option GidEntry)
  pub query_gid_ok : Bool
  pub pd_ok : Bool
  pub init_obj_ok : Bool
  pub mr_ok : Bool
  pub ctrl_buf_ok : Bool
  pub umem : Option ℕ  -- its id
  pub heap_ok : Bool
  pub rounds : List Round

-- `ready` is the result 0 of `init_ibgda`, `refused` is -1.
pub data IbgdaResult : Type 0 where
  ready : Ibgda → IbgdaResult
  refused : Ibgda → IbgdaResult
  threw : Ibgda → IbgdaResult
  endless : IbgdaResult

-- The index of the first device with the name, -1 if there is none.
abbrev pub find_nic : ℕ → List Bool → Option ℕ
find_nic i [] = none
find_nic i (m ∷ rest) = let later = find_nic (suc i) rest in if m then some i else later

abbrev pub with_qps : Ibgda → Init → IbgdaResult
with_qps s (created qps w) = ready (record s { qps = qps; world = w })
with_qps s (failed qps w) = refused (record s { qps = qps; world = w })
with_qps s (thrown qps w) = threw (record s { qps = qps; world = w })
with_qps s looping = endless

-- From the control buffer on.
abbrev pub init_ctrl_buf : IbgdaAnswers → Ibgda → IbgdaResult
init_ctrl_buf a s =
    if not a.ctrl_buf_ok
    then threw s
    else let s1 : Ibgda = record s { ctrl_buf = true } in
      elim a.umem [
        | none ↦ refused (record s1 { mr = false })
        | some umem_id ↦
            let s2 : Ibgda = record s1 { ctrl_buf_umem = true } in
            if not a.heap_ok
            then refused s2
            else let w = record s2.world { heap = create ctrl_buf_size } in
              with_qps (record s2 { ctrl_buf_heap = true }) (init_qps umem_id a.rounds w s2.qps)
      ]

-- From the protection domain on; a failure of `mlx5dv_init_obj` or of `ibv_reg_mr` is only reported.
abbrev pub init_pd : IbgdaAnswers → Ibgda → IbgdaResult
init_pd a s =
    if not a.pd_ok
    then refused s
    else init_ctrl_buf a (record s { pd = true; mpd = a.init_obj_ok; mr = a.mr_ok })

-- From `ibv_open_device` on.
abbrev pub init_device : IbgdaAnswers → Ibgda → IbgdaResult
init_device a s =
    if not a.open_ok
    then refused s
    else let s1 : Ibgda = record s { context = true } in
      if not a.query_port_ok then refused s1 else elim (find_best_gid_index a.gids) [
        | none ↦ refused s1
        | some gid_index ↦
            if not a.query_gid_ok then refused s1 else init_pd a (record s1 { device_list = false })
      ]

abbrev pub init_ibgda : IbgdaAnswers → Ibgda → IbgdaResult
init_ibgda a s =
    let s1 : Ibgda = record s { device_list = true } in
    elim (find_nic 0 a.names_match) [ none ↦ threw s1 | some nic_id ↦ init_device a s1 ]
