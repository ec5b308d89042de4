-- ===== src/Tests/EpBuffer.antt =====
-- Two ranks with 256 queue pairs each, on one node with two devices.
use ep_demo.Prelude.{
  List, Option, [], arith, false, get_elem?, get_or, if◌then◌else◌, length, none, refl, replicate,
  some, true, ℕ, ◌*◌, ◌+◌, ◌-◌, ◌/◌, ◌<◌, ◌==◌, ◌∷◌, ◌≡◌, ◌≢◌, ◌≤◌, ◌++◌, for_each,
}
use ep_demo.Kernel.{Config, qp_index}
use ep_demo.EpBuffer.{
  GidEntry, In6Addr, find_best_gid_index, peer_rank, roce_v1, roce_v2, use_qp_count,
}
use ep_demo.EpBuffer.Pairs.{IsRanks, peer_rank-qp_index}
use ep_demo.EpBuffer.Connect.{
  Command, Mr, QpInfo, Remote, Tables, Verbs, eth_path, ethernet, fill_from, ib_path, infiniband,
  init2rtr, rst2init, rtr2rts,
}
use ep_demo.EpBuffer.Connect.Done.{commands_of}
use ep_demo.EpBuffer.Connect.Life.{Hca, state_after, sync_ib-state}
use ep_demo.EpBuffer.Handles.{handle_of, num_int32s}
use ep_demo.EpBuffer.Nvlink.{Entry, Ipc, sync_nvlink_ipc_handles}
use ep_demo.EpBuffer.P2p.{IsPeer, all_enabled-reachable, sync-peer}
use ep_demo.EpBuffer.Gid.{find_best_gid_index_lem, suits?}

abbrev two_ranks : Config
two_ranks = record {
  num_experts = 16;
  num_ranks = 2;
  num_max_dispatch_tokens_per_rank = 128;
  hidden = 2048;
  use_fp8 = false;
}

two-IsRanks : IsRanks 2
two-IsRanks = omega arith

peer_rank-qp_index_example :
    (peer_rank 2 (qp_index two_ranks 1 5) ≡ 1) × (qp_index two_ranks 1 5 < use_qp_count 2)
peer_rank-qp_index_example = peer_rank-qp_index two_ranks 1 5 two-IsRanks (omega arith)

-- Queue pair `j` of rank `r` has the number 1000 r + j.
abbrev pub numbers : ℕ → ℕ → ℕ
numbers r j = 1000 * r + j

abbrev pub verbs : Verbs
verbs = record {
  create_ah = λ a. some (1, 2);
  accepts = λ i c. true;
  mtu_4096 = 5;
  pm_state_migrated = 3;
}

abbrev pub infos : ℕ → QpInfo
infos i = record { qpn = i; port_num = 1; lid = 7; link_layer = infiniband }

abbrev eth_infos : ℕ → QpInfo
eth_infos i = record { qpn = i; port_num = 1; lid = 0; link_layer = ethernet }

-- Of 256 ranks, rank 255 is the only one that is active.
abbrev pub remote : Remote
remote = record {
  remote_addrs = λ i. 4096;
  remote_keys = λ i. 3;
  remote_qpns = λ i. 1000 + i;
  remote_lids = λ i. 9;
  subnet_prefixes = λ i. 1;
  interface_ids = λ i. 2;
  active_ranks_mask = λ i. if i == 255 then 1 else 0;
}

abbrev pub tables : Tables
tables = record { raddrs = λ i. 0; rkeys = λ i. 0 }

abbrev pub region : Mr
region = record { addr = 8192; lkey = 4 }

abbrev filled : Tables
filled = fill_from region 0 remote 0 256 tables

abbrev ib_log : List (ℕ × Command)
ib_log = (255, init2rtr 255 5 30 1255 7 1 (ib_path 0 9)) ∷ (255, rtr2rts 255 0 1 0 7 7 20) ∷ []

abbrev roce_log : List (ℕ × Command)
roce_log =
    (255, init2rtr 255 5 30 1255 7 1 (eth_path 255 3 0xC000 1 2))
    ∷ (255, rtr2rts 255 0 1 0 7 7 20)
    ∷ []

abbrev pub handle : List ℕ
handle = replicate 16 1

abbrev pub node : Ipc
node = record {
  rank = 0;
  num_ranks = 2;
  device_count = 2;
  gdr_buffer = 4096;
  can_access_peer = λ d. true;
  peer_enabled = λ d. true;
  open_handle = λ h. some 65536;
  remote_handles = handle ∷ handle ∷ [];
  active_ranks_mask = λ i. 1;
}

abbrev pub no_entry : ℕ → Entry
no_entry i = record { nvlink = 0; ptr = 0 }

all_enabled-reachable_example :
    let s = (sync_nvlink_ipc_handles node false no_entry).0 in
    ((s 1).nvlink ≢ 0) × ((s 1).ptr ≢ 0) × (1 < 2 → 0 / 2 ≡ (2 - 1) / 2)
all_enabled-reachable_example =
    all_enabled-reachable node no_entry 1 refl (omega arith) (omega arith)

node-IsPeer : IsPeer node 1
node-IsPeer = record {
  not_below = omega arith;
  not_above = omega arith;
  active = omega arith;
  other = omega arith;
  accessible = refl;
  enabled = refl;
}

sync-peer_example :
    let s = (sync_nvlink_ipc_handles node false no_entry).0 in
    (get_elem? node.remote_handles 1 ≡ none → ((s 1).nvlink ≡ 1) × ((s 1).ptr ≡ (no_entry 1).ptr))
    × ((ints : List ℕ)
        → get_elem? node.remote_handles 1 ≡ some ints
        → length ints < num_int32s
        → ((s 1).nvlink ≡ 1) × ((s 1).ptr ≡ (no_entry 1).ptr))
    × ((ints : List ℕ)
        → get_elem? node.remote_handles 1 ≡ some ints
        → num_int32s ≤ length ints
        → (node.open_handle (handle_of ints) ≡ none → (s 1).nvlink ≡ 0)
          × ((ptr : ℕ)
              → node.open_handle (handle_of ints) ≡ some ptr
              → ((s 1).nvlink ≡ 1) × ((s 1).ptr ≡ ptr)))
sync-peer_example = sync-peer node no_entry 1 node-IsPeer

abbrev mapped : In6Addr
mapped = record { word0 = 0; word1 = 0; word2 = 0xFFFF0000; word3 = 1 }

abbrev gids : List (Option GidEntry)
gids =
    none
    ∷ some (record { raw = mapped; gid_type = roce_v1 })
    ∷ some (record { raw = mapped; gid_type = roce_v2 })
    ∷ []

find_best_gid_index_lem_example :
    ((k : ℕ)
      → find_best_gid_index gids ≡ some k
      → (suits? (get_or gids k none) ≡ true)
        × ((j : ℕ) → j < k → suits? (get_or gids j none) ≡ false))
    × (find_best_gid_index gids ≡ none → (j : ℕ) → suits? (get_or gids j none) ≡ false)
find_best_gid_index_lem_example = find_best_gid_index_lem gids

-- A device that counts the commands it has taken in their order.
abbrev counting : Hca
counting = record {
  State = ℕ;
  reset = 0;
  init = 1;
  ready_to_receive = 2;
  ready_to_send = 3;
  after = λ s c. s + 1;
  from_reset = λ a b c d e f g h. refl;
  from_init = λ a b c d e f g. refl;
  from_ready_to_receive = λ a b c d e f g. refl;
}

-- All queue pairs of the 256 ranks from creation on.
abbrev created_log : List (ℕ × Command)
created_log = for_each 256 (λ i. (i, rst2init i 1 1 1 3 1 (some 0) 3) ∷ [])

sync_ib-state_example :
    (remote.active_ranks_mask (peer_rank 256 255) ≢ 0
      → state_after counting 0 (commands_of 255 (created_log ++ ib_log)) ≡ 3)
    × (remote.active_ranks_mask (peer_rank 256 255) ≡ 0
        → state_after counting 0 (commands_of 255 (created_log ++ ib_log)) ≡ 1)
sync_ib-state_example =
    sync_ib-state counting verbs infos region 256 0 remote tables filled created_log ib_log 255 refl
      refl (omega arith)
