-- ===== src/EpBuffer/Object.antt =====
-- src/ep_buffer.cpp: the constructor and the destructor of `EpBuffer`, by what they hold.
-- The answers of CUDA and of the verbs library are arguments; an exception is a result.
pub mod Held
use ep_demo.Prelude.{
  ℕ, Bool, true, false, not, if◌then◌else◌, Option, none, some, List, [], ◌∷◌, ◌^◌, zero, suc,
}
use ep_demo.EpBuffer.{fabric_alloc_size, support_fabric_mem}
use ep_demo.EpBuffer.InitIbgda.{
  Ibgda, IbgdaAnswers, IbgdaResult, ready, refused, threw, endless, init_ibgda,
}

-- What the constructor allocates itself.
pub record Buffers : Type 0 where
  pub fabric_handle : Bool
  pub fabric_range : Bool
  pub fabric_mapping : Bool
  pub gdr_buffer : Bool  -- by cudaMalloc
  pub raddrs : Bool
  pub rkeys : Bool
  pub qp_devctxs : Bool
  pub nvlink_available : Bool
  pub ipc_peer_ptrs_host : Bool
  pub ipc_peer_ptrs : Bool
  pub comm_stream : Bool
  pub workspace : Bool

abbrev pub no_buffers : Buffers
no_buffers = record {
  fabric_handle = false;
  fabric_range = false;
  fabric_mapping = false;
  gdr_buffer = false;
  raddrs = false;
  rkeys = false;
  qp_devctxs = false;
  nvlink_available = false;
  ipc_peer_ptrs_host = false;
  ipc_peer_ptrs = false;
  comm_stream = false;
  workspace = false;
}

pub record FabricAnswers : Type 0 where
  pub device_get : Bool
  pub granularity : Option ℕ
  pub create_ok : Bool
  pub reserve_ok : Bool
  pub map_ok : Bool
  pub set_access_ok : Bool

-- From the granularity on: whether it succeeds, what is held then, and `fabric_alloc_size_`.
abbrev pub create_fabric : FabricAnswers → ℕ → ℕ → Buffers → Bool × Buffers × ℕ
create_fabric a num_ep_buffer_bytes granularity b =
    let size = fabric_alloc_size num_ep_buffer_bytes granularity in
    let b1 : Buffers = record b { fabric_handle = true } in
    let b2 : Buffers = record b1 { fabric_range = true } in
    let b3 : Buffers = record b2 { fabric_mapping = true } in
    if not a.create_ok
    then (false, b, size)
    else if not a.reserve_ok
    then (false, record b1 { fabric_handle = false }, size)
    else if not a.map_ok
    then (false, record b2 { fabric_range = false; fabric_handle = false }, size)
    else if not a.set_access_ok
    then (
      false,
      record b3 { fabric_mapping = false; fabric_range = false; fabric_handle = false },
      size,
    )
    else (true, b3, size)

abbrev pub alloc_fabric : FabricAnswers → ℕ → Buffers → Bool × Buffers × ℕ
alloc_fabric a num_ep_buffer_bytes b =
    if not a.device_get then (false, b, 0) else elim a.granularity [
      | none ↦ (false, b, 0)
      | some g ↦ create_fabric a num_ep_buffer_bytes g b
    ]

-- `CUDA_CHECK`s one after the other: a call that fails throws, one that succeeds has its effect.
abbrev pub cuda_checks : List (Bool × (Buffers → Buffers)) → Buffers → Bool × Buffers
cuda_checks [] b = (true, b)
cuda_checks ((ok, effect) ∷ rest) b =
    let later = cuda_checks rest (effect b) in if ok then later else (false, b)

pub record TableAnswers : Type 0 where
  pub raddrs_ok : Bool
  pub rkeys_ok : Bool
  pub qp_devctxs_ok : Bool
  pub nvlink_ok : Bool
  pub clear_nvlink_ok : Bool
  pub ptrs_host_ok : Bool
  pub ptrs_ok : Bool
  pub clear_ptrs_ok : Bool
  pub stream_ok : Bool

-- The allocations between the buffer and `init_ibgda`.
abbrev pub table_checks : TableAnswers → List (Bool × (Buffers → Buffers))
table_checks a =
    (a.raddrs_ok, λ b. record b { raddrs = true })
    ∷ (a.rkeys_ok, λ b. record b { rkeys = true })
    ∷ (a.qp_devctxs_ok, λ b. record b { qp_devctxs = true })
    ∷ (a.nvlink_ok, λ b. record b { nvlink_available = true })
    ∷ (a.clear_nvlink_ok, λ b. b)
    ∷ (a.ptrs_host_ok, λ b. record b { ipc_peer_ptrs_host = true })
    ∷ (a.ptrs_ok, λ b. record b { ipc_peer_ptrs = true })
    ∷ (a.clear_ptrs_ok, λ b. b)
    ∷ (a.stream_ok, λ b. record b { comm_stream = true })
    ∷ []

pub record Host : Type 0 where
  pub use_fabric_mem : Bool
  pub ibgda_disabled : Bool
  pub buffers : Buffers
  pub ibgda : Ibgda

-- The constructor's end. No destructor runs on an object whose constructor throws.
pub data Constructed : Type 0 where
  object : Host → Constructed
  thrown : Host → Constructed
  never : Constructed

pub record HostAnswers : Type 0 where
  pub get_device_ok : Bool
  pub get_attribute_ok : Bool
  pub nvlink_ipc_off : Bool  -- the first argument of `support_fabric_mem`
  pub devices : Option (List Bool)
  pub fabric : FabricAnswers
  pub malloc_ok : Bool
  pub tables : TableAnswers
  pub ibgda_answers : IbgdaAnswers
  pub workspace_ok : Bool
  pub clear_workspace_ok : Bool

-- After `init_ibgda`.
abbrev pub construct_workspace : HostAnswers → Host → Constructed
construct_workspace a h =
    if not a.workspace_ok
    then thrown h
    else let h1 : Host = record h { buffers = record h.buffers { workspace = true } } in
      if a.clear_workspace_ok then object h1 else thrown h1

abbrev pub after_init : HostAnswers → Host → IbgdaResult → Constructed
after_init a h (ready s) = construct_workspace a (record h { ibgda = s })
after_init a h (refused s) = construct_workspace a (record h { ibgda = s; ibgda_disabled = true })
after_init a h (threw s) = thrown (record h { ibgda = s })
after_init a h endless = never

-- After the allocation of the buffer.
abbrev pub construct_tables : HostAnswers → Host → Constructed
construct_tables a h =
    let tables = cuda_checks (table_checks a.tables) h.buffers in
    let h1 : Host = record h { buffers = tables.1 } in
    if tables.0 then after_init a h1 (init_ibgda a.ibgda_answers h1.ibgda) else thrown h1

abbrev pub construct_fabric : HostAnswers → ℕ → Host → Constructed
construct_fabric a num_ep_buffer_bytes h =
    let fabric = alloc_fabric a.fabric num_ep_buffer_bytes h.buffers in
    let h1 : Host = record h { buffers = fabric.1 } in
    if fabric.0 then construct_tables a h1 else thrown h1

abbrev pub construct_malloc : HostAnswers → Host → Constructed
construct_malloc a h =
    if a.malloc_ok
    then construct_tables a (record h { buffers = record h.buffers { gdr_buffer = true } })
    else thrown h

abbrev pub construct : HostAnswers → ℕ → Ibgda → Constructed
construct a num_ep_buffer_bytes none_yet =
    let h : Host = record {
      use_fabric_mem = false;
      ibgda_disabled = false;
      buffers = no_buffers;
      ibgda = none_yet;
    } in
    if not a.get_device_ok
    then thrown h
    else if not a.get_attribute_ok
    then thrown h
    else if support_fabric_mem a.nvlink_ipc_off a.devices
    then construct_fabric a num_ep_buffer_bytes (record h { use_fabric_mem = true })
    else construct_malloc a h

-- `~EpBuffer`
abbrev pub destroy : Host → Host
destroy h =
    let b : Buffers =
      if h.use_fabric_mem
      then record h.buffers { fabric_mapping = false; fabric_range = false; fabric_handle = false }
      else record h.buffers { gdr_buffer = false } in
    record h {
      buffers = record b {
        raddrs = false;
        rkeys = false;
        qp_devctxs = false;
        nvlink_available = false;
        ipc_peer_ptrs = false;
        ipc_peer_ptrs_host = false;
        workspace = false;
        comm_stream = false;
      };
    }

-- `use_fast_path`
abbrev pub use_fast_path : Bool → Bool → Bool
use_fast_path ibgda_disabled p2p_ipc_all_enabled =
    if not ibgda_disabled then true else p2p_ipc_all_enabled
