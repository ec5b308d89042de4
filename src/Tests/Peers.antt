-- ===== src/Tests/Peers.antt =====
-- A peer on the same node publishes a handle of 64 bytes.
use mathlib.Core.List.{Memᴰ}
use ep_demo.Prelude.{ℕ, ◌≡◌, ◌≢◌, refl, false, List, [], ◌∷◌, replicate, arith}
use ep_demo.EpBuffer.Handles.{get_ipc_handle, closed_handles}
use ep_demo.EpBuffer.Nvlink.{Ipc, sync_nvlink_ipc_handles}
use ep_demo.EpBuffer.P2p.{IsPeer}
use ep_demo.EpBuffer.Peers.{sync-published}
use ep_demo.Tests.EpBuffer.{node, no_entry}

abbrev raw : List ℕ
raw = replicate 64 7

abbrev publishing : Ipc
publishing = record node {
  remote_handles = get_ipc_handle false raw ∷ get_ipc_handle false raw ∷ [];
}

publishing-IsPeer : IsPeer publishing 1
publishing-IsPeer = record {
  not_below = omega arith;
  not_above = omega arith;
  active = omega arith;
  other = omega arith;
  accessible = refl;
  enabled = refl;
}

sync-published_example :
    let s = (sync_nvlink_ipc_handles publishing false no_entry).0 in
    let closed = closed_handles 2 4096 (λ i. (s i).ptr) in
    ((s 1).nvlink ≡ 1)
    × ((s 1).ptr ≡ 65536)
    × (◌≢◌ {A = ℕ} 65536 0 → ◌≢◌ {A = ℕ} 65536 4096 → Memᴰ 65536 closed)
    × ((p : ℕ) → Memᴰ p closed → (p ≢ 0) × (p ≢ 4096))
sync-published_example =
    sync-published publishing no_entry 1 65536 raw publishing-IsPeer refl refl (omega arith) refl
