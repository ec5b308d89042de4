-- ===== src/EpBuffer/Peers.antt =====
-- src/ep_buffer.cpp: the buffer of a peer, from the handle that the peer publishes to the pointer that the
-- destructor closes.
use mathlib.Core.List.{Memᴰ}
use mathlib.Core.List.Memᴰ
use ep_demo.Prelude.{
  ℕ, ◌<◌, ◌≤◌, ◌≡◌, ◌≢◌, refl, ap, ◌∙◌, false, if◌then◌else◌, ◌==◌, ◌||◌, inl, inr, some, List, [],
  ◌∷◌, length, get_elem?, All, Bool-cases, for_each-find, for_each-Mem, arith,
}
use ep_demo.EpBuffer.Handles.{
  get_ipc_handle, handle_of, handle_of-get_ipc_handle, handle_size, num_int32s, closed_handles,
  length-for_each, word_at,
}
use ep_demo.EpBuffer.Nvlink.{Entry, Ipc, sync_nvlink_ipc_handles}
use ep_demo.EpBuffer.P2p.{IsPeer, sync-peer}

-- What the destructor does with the pointer of a rank.
abbrev closes : ℕ → ℕ → List ℕ
closes gdr_buffer ptr = if (ptr == 0) || (ptr == gdr_buffer) then [] else ptr ∷ []

closes-Mem : (gdr_buffer ptr : ℕ) → ptr ≢ 0 → ptr ≢ gdr_buffer → Memᴰ ptr (closes gdr_buffer ptr)
closes-Mem gdr_buffer ptr some_ptr other =
    let keeps : ((ptr == 0) || (ptr == gdr_buffer)) ≡ false = ground (arith, some_ptr, other) in
    rw keeps (Memᴰ.head refl)

closes-find :
    (gdr_buffer ptr p : ℕ) → Memᴰ p (closes gdr_buffer ptr) → (p ≡ ptr) × (p ≢ 0) × (p ≢ gdr_buffer)
closes-find gdr_buffer ptr p m = elim (Bool-cases ((ptr == 0) || (ptr == gdr_buffer))) [
  | inl e ↦ absurd (Memᴰ.not-nil (rw e at m))
  | inr e ↦
      let same : p ≡ ptr = Memᴰ.eq_of_singleton (rw e at m) in
      rw same (refl, λ z. ground (arith, z, e), λ z. ground (arith, z, e))
]

-- A peer that publishes the handle of its buffer: this rank opens that very handle, marks the peer as
-- reachable and keeps the pointer, and the destructor closes it, unless it is null or this rank's own
-- buffer, which are never closed.
pub sync-published :
    (c : Ipc) (before : ℕ → Entry) (j ptr : ℕ) (handle : List ℕ)
    → IsPeer c j
    → get_elem? c.remote_handles j ≡ some (get_ipc_handle false handle)
    → length handle ≡ handle_size
    → All (λ b. b < 256) handle
    → c.open_handle handle ≡ some ptr
    → let s = (sync_nvlink_ipc_handles c false before).0 in
      let closed = closed_handles c.num_ranks c.gdr_buffer (λ i. (s i).ptr) in
      ((s j).nvlink ≡ 1)
      × ((s j).ptr ≡ ptr)
      × (ptr ≢ 0 → ptr ≢ c.gdr_buffer → Memᴰ ptr closed)
      × ((p : ℕ) → Memᴰ p closed → (p ≢ 0) × (p ≢ c.gdr_buffer))
sync-published c before j ptr handle peer published size bytes opened =
    let s = (sync_nvlink_ipc_handles c false before).0 in
    let long : num_int32s ≤ length (get_ipc_handle false handle) =
      omega (arith, length-for_each 16 (word_at handle)) in
    let back : c.open_handle (handle_of (get_ipc_handle false handle)) ≡ some ptr =
      ap c.open_handle (handle_of-get_ipc_handle handle size bytes) ∙ opened in
    let at =
      ((sync-peer c before j peer).2 (get_ipc_handle false handle) published long).1 ptr back in
    (
      at.0,
      at.1,
      λ some_ptr other.
          for_each-Mem c.num_ranks (λ i. closes c.gdr_buffer (s i).ptr) j
            (omega (arith, peer.not_above)) (rw at.1 (closes-Mem c.gdr_buffer ptr some_ptr other)),
      λ p m.
          let found = for_each-find c.num_ranks (λ i. closes c.gdr_buffer (s i).ptr) m in
          let parts = closes-find c.gdr_buffer (s found.0).ptr p found.2 in (parts.1, parts.2),
    )
