-- ===== src/EpBuffer/Nvlink.antt =====
-- src/ep_buffer.cpp: `sync_nvlink_ipc_handles`. Round `dst_rank` of its loop changes only the entries of
-- that rank, so a round is a function of the entry.
use ep_demo.Prelude.{
  ℕ, zero, suc, ◌+◌, ◌-◌, ◌*◌, ◌/◌, ◌%◌, ◌==◌, min, Bool, true, false, not, ◌&&◌, ◌||◌,
  if◌then◌else◌, Option, none, some, List, length, get_elem?, ltb,
}
use ep_demo.EpBuffer.Handles.{handle_of, num_int32s}

-- `nvlink_array[i]` and `ipc_peer_ptrs_host[i]`; 0 is the null pointer.
pub record Entry : Type 0 where
  pub nvlink : ℕ
  pub ptr : ℕ

-- What the call depends on: the rank, and CUDA's answers for its device. `open_handle` is
-- `cudaIpcOpenMemHandle` of a handle's bytes.
pub record Ipc : Type 0 where
  pub rank : ℕ
  pub num_ranks : ℕ
  pub device_count : ℕ
  pub gdr_buffer : ℕ
  pub can_access_peer : ℕ → Bool  -- asked successfully, and answered so
  pub peer_enabled : ℕ → Bool  -- enabled now or before
  pub open_handle : List ℕ → Option ℕ
  pub remote_handles : List (List ℕ)
  pub active_ranks_mask : ℕ → ℕ

abbrev pub put_entry : (ℕ → Entry) → ℕ → Entry → ℕ → Entry
put_entry f i x j = if i == j then x else f j

module _ (c : Ipc) where
  -- `nvlink_array` starts at zero but for this rank; the pointers are those of before.
  abbrev pub fresh : (ℕ → Entry) → ℕ → Entry
  fresh before i = record (before i) { nvlink = if i == c.rank then 1 else 0 }

  -- What is done with the peer's handle, once the peer is accessible.
  abbrev pub open_peer : ℕ → Entry → Entry
  open_peer dst_rank e = elim (get_elem? c.remote_handles dst_rank) [
    | none ↦ record e { nvlink = 1 }
    | some handle_ints ↦
        if ltb (length handle_ints) num_int32s
        then record e { nvlink = 1 }
        else elim (c.open_handle (handle_of handle_ints)) [
          | none ↦ record e { nvlink = 0 }
          | some peer_ptr ↦ record { nvlink = 1; ptr = peer_ptr }
        ]
  ]

  -- One round of the loop.
  abbrev pub visit : ℕ → Entry → Entry
  visit dst_rank e =
      if c.active_ranks_mask dst_rank == 0
      then e
      else if dst_rank == c.rank
      then record e { ptr = c.gdr_buffer }
      else if c.can_access_peer (dst_rank % c.device_count)
          && c.peer_enabled (dst_rank % c.device_count)
      then open_peer dst_rank e
      else e

  -- `n` rounds from `dst_rank` on.
  abbrev pub visits : ℕ → ℕ → (ℕ → Entry) → ℕ → Entry
  visits zero dst_rank s = s
  visits (suc n) dst_rank s =
      visits n (suc dst_rank) (put_entry s dst_rank (visit dst_rank (s dst_rank)))

  abbrev pub group_start : ℕ
  group_start = c.rank / c.device_count * c.device_count

  abbrev pub group_end : ℕ
  group_end = min (group_start + c.device_count) c.num_ranks

  abbrev pub sync_group : (ℕ → Entry) → ℕ → Entry
  sync_group before = visits (group_end - group_start) group_start (fresh before)

  -- The loop that looks for an active rank with no pointer, from rank `i` on.
  abbrev pub all_mapped : ℕ → ℕ → (ℕ → Entry) → Bool
  all_mapped zero i s = true
  all_mapped (suc n) i s =
      let rest = all_mapped n (suc i) s in
      if c.active_ranks_mask i == 0
      then rest
      else if ((s i).nvlink == 0) || ((s i).ptr == 0)
      then false
      else rest

  abbrev pub all_enabled : (ℕ → Entry) → Bool
  all_enabled s =
      if all_mapped c.num_ranks 0 s && ltb 1 c.num_ranks
      then if 0 / c.device_count == (c.num_ranks - 1) / c.device_count then true else false
      else all_mapped c.num_ranks 0 s

  -- With fabric memory, every active rank counts as reachable and only this rank has a pointer.
  abbrev pub sync_fabric : (ℕ → Entry) → ℕ → Entry
  sync_fabric before i =
      if ltb i c.num_ranks && not (c.active_ranks_mask i == 0)
      then record { nvlink = 1; ptr = if i == c.rank then c.gdr_buffer else 0 }
      else fresh before i

  -- The entries that the kernels get, and `p2p_ipc_all_enabled_`.
  abbrev pub sync_nvlink_ipc_handles : Bool → (ℕ → Entry) → (ℕ → Entry) × Bool
  sync_nvlink_ipc_handles use_fabric_mem before =
      if use_fabric_mem
      then (sync_fabric before, true)
      else (sync_group before, all_enabled (sync_group before))
