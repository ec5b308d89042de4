-- ===== src/EpBuffer.antt =====
-- src/ep_buffer.cpp: the host's side of a rank. This file has what the constructor computes: the choice
-- of the GID, the fabric allocation's size, and the number of queue pairs.
pub mod Connect
pub mod Pairs
pub mod Handles
pub mod Nvlink
pub mod P2p
pub mod Fabric
pub mod QueuePairs
pub mod Gid
pub mod Peers
pub mod InitIbgda
pub mod Object
pub mod Contexts
pub mod Getters
use ep_demo.Prelude.{
  ℕ, zero, suc, ◌+◌, ◌-◌, ◌*◌, ◌/◌, ◌%◌, ◌^◌, ◌==◌, Bool, true, false, not, ◌&&◌, ◌||◌,
  if◌then◌else◌, Option, none, some, List, [], ◌∷◌, bit_or, bit_and, add_size, sub_size, ltb, leb,
}

-- `MAX_QP_COUNT / num_ranks * num_ranks`
abbrev pub use_qp_count : ℕ → ℕ
use_qp_count num_ranks = 256 / num_ranks * num_ranks

-- The rank that queue pair `i` of this rank is connected to.
abbrev pub peer_rank : ℕ → ℕ → ℕ
peer_rank num_ranks i = i * num_ranks / use_qp_count num_ranks

-- `supportFabricMem`: `nvlink_ipc` says whether MC_USE_NVLINK_IPC is "0"; the devices, if they can be
-- counted, say whether they support fabric handles.
abbrev pub all_supported : List Bool → Bool
all_supported [] = true
all_supported (s ∷ rest) = if not s then false else all_supported rest

abbrev pub support_fabric_mem : Bool → Option (List Bool) → Bool
support_fabric_mem nvlink_ipc_off devices =
    if not nvlink_ipc_off
    then false
    else elim devices [ none ↦ false | some [] ↦ false | some (d ∷ ds) ↦ all_supported (d ∷ ds) ]

-- The 16 bytes of an address as four 32-bit words; `htonl(0x0000ffff)` on a little-endian host.
pub record In6Addr : Type 0 where
  pub word0 : ℕ
  pub word1 : ℕ
  pub word2 : ℕ
  pub word3 : ℕ

abbrev pub ipv6_addr_v4mapped : In6Addr → Bool
ipv6_addr_v4mapped a = (bit_or a.word0 a.word1 == 0) && (a.word2 == 0xFFFF0000)

pub data GidType : Type 0 where
  ib roce_v1 roce_v2 : GidType

abbrev pub is_ib : GidType → Bool
is_ib ib = true
is_ib _ = false

abbrev pub is_roce_v2 : GidType → Bool
is_roce_v2 roce_v2 = true
is_roce_v2 _ = false

pub record GidEntry : Type 0 where
  pub raw : In6Addr
  pub gid_type : GidType

abbrev pub suits : GidEntry → Bool
suits e = (ipv6_addr_v4mapped e.raw && is_roce_v2 e.gid_type) || is_ib e.gid_type

-- The loop from index `i` on, over what the queries of the table answer; none is a failed query. The
-- result none stands for -1.
abbrev pub find_gid_from : ℕ → List (Option GidEntry) → Option ℕ
find_gid_from i [] = none
find_gid_from i (none ∷ rest) = find_gid_from (suc i) rest
find_gid_from i (some e ∷ rest) =
    let later = find_gid_from (suc i) rest in if suits e then some i else later

abbrev pub find_best_gid_index : List (Option GidEntry) → Option ℕ
find_best_gid_index = find_gid_from 0

-- `fabric_alloc_size_`: rounded up to the granularity, at least one unit of it.
abbrev pub fabric_alloc_size : ℕ → ℕ → ℕ
fabric_alloc_size num_ep_buffer_bytes granularity =
    let size =
      bit_and (sub_size (add_size num_ep_buffer_bytes granularity) 1)
        (2 ^ 64 - 1 - sub_size granularity 1) in
    if size == 0 then granularity else size
