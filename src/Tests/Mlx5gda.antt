-- ===== src/Tests/Mlx5gda.antt =====
-- Queue pairs of 16384 entries in a control buffer of 1 GiB.
use ep_demo.Prelude.{false, none, length, Option, [], arith, refl, some, true, ℕ, ◌^◌, ◌∷◌, ◌≡◌}
use ep_demo.Memheap.{
  Allocation, create, align_up, aligned_alloc, alloc, alloc_align, bump, push, reuse,
}
use ep_demo.Mlx5gda.{CqAnswers, World}
use ep_demo.Mlx5gda.Qp.{Qp, QpAnswers, create_rc_qp}
use ep_demo.EpBuffer.QueuePairs.{Round}
use ep_demo.Device.Queue.{Wqebb, data_seg}
use ep_demo.Device.Queue.Ring.{IsRing}
use ep_demo.EpBuffer.{ib}
use ep_demo.EpBuffer.QueuePairs.{init_qps}
use ep_demo.EpBuffer.Contexts.{AllCreated, device_context, init_qps-IsRing}
use ep_demo.EpBuffer.InitIbgda.{Ibgda, IbgdaAnswers}
use ep_demo.EpBuffer.InitIbgda.Held.{IsFresh}
use ep_demo.EpBuffer.Object.{HostAnswers, Host, construct, object, destroy, no_buffers}
use ep_demo.EpBuffer.Object.Held.{all_buffers, destroy-construct}
use ep_demo.Mlx5gda.CreateQp.{HoldsQp, create_rc_qp-HoldsQp}

abbrev pub cq_answers : CqAnswers
cq_answers = record {
  memset_ok = true;
  malloc_ok = true;
  eqn = some 5;
  uar = some 9;
  sync_ok = true;
  ctz = λ n. 14;
  obj_create = λ c. some 11;
}

abbrev pub qp_answers : QpAnswers
qp_answers = record {
  calloc_ok = true;
  query_port_ok = true;
  cqe_version = some 1;
  cq = cq_answers;
  uar = some 10;
  register_ok = true;
  unregister_ok = true;
  memset_ok = true;
  sync_ok = true;
  ilog2 = λ n. 14;
  obj_create = λ c. some 77;
}

abbrev pub idle : World
idle = record {
  heap = record { size = 2 ^ 30; allocated = 0; allocs = [] };
  uars = 0;
  registered = 0;
  objects = 0;
  mallocs = 0;
}

create_rc_qp-HoldsQp_example :
    (r : Option Qp × World) × (create_rc_qp qp_answers idle 3 16384 ≡ some r) × HoldsQp true idle r
create_rc_qp-HoldsQp_example = create_rc_qp-HoldsQp qp_answers idle 3 16384 (omega arith)

abbrev pub made : Qp
made = record {
  send_cq = record { cqn = 11; cqe = 16384; cq_offset = 0; dbr_offset = 1048576 };
  qpn = 77;
  num_wqebb = 16384;
  wq_offset = 1052672;
  dbr_offset = 2101248;
}

abbrev pub block : ℕ → ℕ → Allocation
block offset size = record { offset = offset; size = size; used = true }

abbrev pub after : World
after = record {
  heap = record {
    size = 2 ^ 30;
    allocated = 2101256;
    allocs = block 0 1048576 ∷ block 1048576 8 ∷ block 1052672 1048576 ∷ block 2101248 8 ∷ [];
  };
  uars = 2;
  registered = 1;
  objects = 2;
  mallocs = 2;
}

made_after : create_rc_qp qp_answers idle 3 16384 ≡ some (some made, after)
unfolding aligned_alloc alloc alloc_align reuse bump align_up push
made_after = refl

abbrev pub round : Round
round = record { answers = qp_answers; rst2init_ok = true; sync_ok = true }

abbrev queue : ℕ → Wqebb
queue i = record {
  ctrl = record { opmod_idx_opcode = 0; qpn_ds = 0; fm_ce_se = 0 };
  raddr = record { raddr = 0; rkey = 0; reserved = 0 };
  third = data_seg 0 0 0;
  fourth = data_seg 0 0 0;
}

init_qps-IsRing_example :
    AllCreated
      (λ qp. IsRing 14 (device_context queue 0 qp) × ((device_context queue 0 qp).wq_head ≡ 0))
      (init_qps 3 (round ∷ []) idle [])
init_qps-IsRing_example = init_qps-IsRing 3 (round ∷ []) idle queue 0

abbrev fresh : Ibgda
fresh = record {
  device_list = false;
  context = false;
  pd = false;
  mpd = false;
  mr = false;
  ctrl_buf = false;
  ctrl_buf_umem = false;
  ctrl_buf_heap = false;
  qps = [];
  world = idle;
}

fresh-IsFresh : IsFresh fresh
fresh-IsFresh = record { mr = refl; ctrl_buf = refl; ctrl_buf_umem = refl; qps = refl }

-- The second device has the name, and its second GID is of InfiniBand.
abbrev ibgda_answers : IbgdaAnswers
ibgda_answers = record {
  names_match = false ∷ true ∷ [];
  open_ok = true;
  query_port_ok = true;
  gids =
      none
      ∷ some (record { raw = record { word0 = 0; word1 = 0; word2 = 0; word3 = 1 }; gid_type = ib })
      ∷ [];
  query_gid_ok = true;
  pd_ok = true;
  init_obj_ok = true;
  mr_ok = true;
  ctrl_buf_ok = true;
  umem = some 3;
  heap_ok = true;
  rounds = round ∷ [];
}

abbrev host_answers : HostAnswers
host_answers = record {
  get_device_ok = true;
  get_attribute_ok = true;
  nvlink_ipc_off = true;
  devices = some (true ∷ []);
  fabric = record {
    device_get = true;
    granularity = some 4096;
    create_ok = true;
    reserve_ok = true;
    map_ok = true;
    set_access_ok = true;
  };
  malloc_ok = true;
  tables = record {
    raddrs_ok = true;
    rkeys_ok = true;
    qp_devctxs_ok = true;
    nvlink_ok = true;
    clear_nvlink_ok = true;
    ptrs_host_ok = true;
    ptrs_ok = true;
    clear_ptrs_ok = true;
    stream_ok = true;
  };
  ibgda_answers = ibgda_answers;
  workspace_ok = true;
  clear_workspace_ok = true;
}

abbrev host : Host
host = record {
  use_fabric_mem = true;
  ibgda_disabled = false;
  buffers = all_buffers true;
  ibgda = record {
    device_list = false;
    context = true;
    pd = true;
    mpd = true;
    mr = true;
    ctrl_buf = true;
    ctrl_buf_umem = true;
    ctrl_buf_heap = true;
    qps = made ∷ [];
    world = after;
  };
}

host-made : construct host_answers 100000 fresh ≡ object host
unfolding create aligned_alloc alloc alloc_align reuse bump align_up push
host-made = refl

destroy-construct_example :
    ((destroy host).buffers ≡ no_buffers)
    × ((destroy host).ibgda ≡ host.ibgda)
    × (host.ibgda_disabled ≡ false
        → (length (destroy host).ibgda.qps ≡ 1) × ((destroy host).ibgda.ctrl_buf_umem ≡ true))
destroy-construct_example =
    destroy-construct host_answers 100000 fresh host fresh-IsFresh (omega arith) host-made
