-- ===== src/EpBuffer/Connect.antt =====
-- src/ep_buffer.cpp: `sync_ib` and `sync_roce`, with the commands of `mlx5gda_modify_rc_qp_init2rtr` and
-- `mlx5gda_modify_rc_qp_rtr2rts` of src/ep_ibgda/mlx5gda.cpp. The device accepts a command or not: that
-- is an argument. The queue pairs are there, so the functions' guards against null are not taken. The vectors are functions of the index; their callers pass them long enough.
pub mod Done
pub mod Life
pub mod Mesh
use ep_demo.Prelude.{
  ℕ, zero, suc, ◌+◌, ◌%◌, ◌^◌, ◌==◌, Bool, true, false, if◌then◌else◌, Option, none, some, List, [],
  ◌∷◌, ◌++◌, bit_or,
}
use ep_demo.EpBuffer.{use_qp_count, peer_rank}

pub data LinkLayer : Type 0 where
  infiniband ethernet unspecified : LinkLayer

-- The parts of `ibv_ah_attr` that are set.
pub record AhAttr : Type 0 where
  pub dlid : ℕ
  pub sl : ℕ
  pub dgid : ℕ × ℕ  -- subnet_prefix and interface_id
  pub sgid_index : ℕ

-- What the address path of the command says, by link layer: sl and rlid; or hop_limit, src_addr_index,
-- udp_sport and the remote MAC and GID of the address handle.
pub data AddressPath : Type 0 where
  ib_path : (sl rlid : ℕ) → AddressPath
  eth_path : (hop_limit src_addr_index udp_sport rmac rgid : ℕ) → AddressPath
  no_path : AddressPath

-- The values of the fields that the three commands set.
pub data Command : Type 0 where
  rst2init :
      (qpn rwe rre rae atomic_mode vhca_port_num : ℕ) (pkey_index : Option ℕ) (pm_state : ℕ)
      → Command
  init2rtr :
      (qpn mtu log_msg_max remote_qpn min_rnr_nak log_rra_max : ℕ) (path : AddressPath) → Command
  rtr2rts :
      (qpn log_ack_req_freq log_sra_max next_send_psn retry_count rnr_retry ack_timeout : ℕ)
      → Command

-- `create_ah` is `ibv_create_ah` with the fields of the handle that are copied; `accepts` says whether
-- `mlx5dv_devx_obj_modify` returns 0 for queue pair `i`.
pub record Verbs : Type 0 where
  pub create_ah : AhAttr → Option (ℕ × ℕ)
  pub accepts : ℕ → Command → Bool
  pub mtu_4096 : ℕ
  pub pm_state_migrated : ℕ

pub record QpInfo : Type 0 where
  pub qpn : ℕ
  pub port_num : ℕ
  pub lid : ℕ
  pub link_layer : LinkLayer

module _ (v : Verbs) where
  abbrev pub address_path : LinkLayer → AhAttr → Option AddressPath
  address_path infiniband ah = some (ib_path ah.sl ah.dlid)
  address_path ethernet ah = elim (v.create_ah ah) [
    | none ↦ none
    | some handle ↦ some (eth_path 255 ah.sgid_index ah.dlid handle.0 handle.1)
  ]
  address_path unspecified ah = some no_path

  -- Only InfiniBand has partition keys.
  abbrev pub rst2init_command : QpInfo → ℕ → Command
  rst2init_command qp pkey_index =
      let pkey : LinkLayer → Option ℕ = λ l. elim l [ infiniband ↦ some pkey_index | _ ↦ none ] in
      rst2init qp.qpn 1 1 1 3 qp.port_num (pkey qp.link_layer) v.pm_state_migrated

  -- The command, or none if no address handle can be made.
  abbrev pub init2rtr_command : QpInfo → AhAttr → ℕ → Option Command
  init2rtr_command qp ah remote_qpn = elim (address_path qp.link_layer ah) [
    | none ↦ none
    | some path ↦ some (init2rtr qp.qpn v.mtu_4096 30 remote_qpn 7 1 path)
  ]

  abbrev pub rtr2rts_command : QpInfo → Command
  rtr2rts_command qp = rtr2rts qp.qpn 0 1 0 7 7 20

  -- The two calls for one queue pair, and the commands that the device took; none is `exit(1)`.
  abbrev pub connect : ℕ → QpInfo → AhAttr → ℕ → Option (List (ℕ × Command))
  connect i qp ah remote_qpn = elim (init2rtr_command qp ah remote_qpn) [
    | none ↦ none
    | some cmd ↦
        if v.accepts i cmd
        then if v.accepts i (rtr2rts_command qp)
          then some ((i, cmd) ∷ (i, rtr2rts_command qp) ∷ [])
          else none
        else none
  ]

-- The vectors' entries, as bit patterns.
pub record Remote : Type 0 where
  pub remote_addrs : ℕ → ℕ
  pub remote_keys : ℕ → ℕ
  pub remote_qpns : ℕ → ℕ
  pub remote_lids : ℕ → ℕ
  pub subnet_prefixes : ℕ → ℕ
  pub interface_ids : ℕ → ℕ
  pub active_ranks_mask : ℕ → ℕ

abbrev pub ib_attr : Remote → ℕ → AhAttr
ib_attr r i = record { dlid = r.remote_lids i % 2 ^ 16; sl = 0; dgid = (0, 0); sgid_index = 0 }

abbrev pub roce_attr : ℕ → Remote → QpInfo → ℕ → AhAttr
roce_attr gid_index r qp peer = record {
  dlid = bit_or qp.lid 0xC000;
  sl = 0;
  dgid = (r.subnet_prefixes peer, r.interface_ids peer);
  sgid_index = gid_index;
}

-- `mlx5gda_modify_rc_qp_rst2init` for `n` queue pairs from `i` on, as the loops of `init_ibgda` and
-- `update_local_qpns` call it; none stands for the return at the first one that fails.
abbrev pub rst2init_from : Verbs → (ℕ → QpInfo) → ℕ → ℕ → Option (List (ℕ × Command))
rst2init_from v qps i zero = some []
rst2init_from v qps i (suc n) =
    let rest = rst2init_from v qps (suc i) n in
    let cmd = rst2init_command v (qps i) 0 in
    if v.accepts i cmd then elim rest [ none ↦ none | some log ↦ some ((i, cmd) ∷ log) ] else none

module _ (v : Verbs) (num_ranks : ℕ) (qps : ℕ → QpInfo) (r : Remote) (attr : ℕ → AhAttr) where
  -- The first loop, `n` rounds from queue pair `i` on.
  abbrev pub connect_from : ℕ → ℕ → Option (List (ℕ × Command))
  connect_from i zero = some []
  connect_from i (suc n) =
      let rest = connect_from (suc i) n in
      if r.active_ranks_mask (peer_rank num_ranks i) == 0
      then rest
      else elim (connect v i (qps i) (attr i) (r.remote_qpns i)) [
        | none ↦ none
        | some cmds ↦ elim rest [ none ↦ none | some log ↦ some (cmds ++ log) ]
      ]

-- The memory region, and the device's tables that the second loop fills for the active ranks.
pub record Mr : Type 0 where
  pub addr : ℕ
  pub lkey : ℕ

pub record Tables : Type 0 where
  pub raddrs : ℕ → ℕ
  pub rkeys : ℕ → ℕ

abbrev pub put : (ℕ → ℕ) → ℕ → ℕ → ℕ → ℕ
put f i x j = if i == j then x else f j

abbrev pub fill_from : Mr → ℕ → Remote → ℕ → ℕ → Tables → Tables
fill_from mr rank r i zero t = t
fill_from mr rank r i (suc n) t =
    let filled : Tables = record {
      raddrs = put t.raddrs i (if i == rank then mr.addr else r.remote_addrs i);
      rkeys = put t.rkeys i (if i == rank then mr.lkey else r.remote_keys i % 2 ^ 32);
    } in
    fill_from mr rank r (suc i) n (if r.active_ranks_mask i == 0 then t else filled)

abbrev pub sync_ib :
    Verbs → Mr → ℕ → ℕ → (ℕ → QpInfo) → Remote → Tables → Option (List (ℕ × Command) × Tables)
sync_ib v mr rank num_ranks qps r t =
    elim (connect_from v num_ranks qps r (ib_attr r) 0 (use_qp_count num_ranks)) [
      | none ↦ none
      | some log ↦ some (log, fill_from mr rank r 0 num_ranks t)
    ]

abbrev pub sync_roce :
    Verbs → Mr → ℕ → ℕ → ℕ → (ℕ → QpInfo) → Remote → Tables → Option (List (ℕ × Command) × Tables)
sync_roce v mr gid_index rank num_ranks qps r t =
    elim (connect_from v num_ranks qps r
      (λ i. roce_attr gid_index r (qps i) (peer_rank num_ranks i)) 0 (use_qp_count num_ranks)) [
        | none ↦ none
        | some log ↦ some (log, fill_from mr rank r 0 num_ranks t)
      ]
