-- ===== src/Kernel/Flow.antt =====
-- src/ep_kernel.cu, `dispatch` and `combine`: how a token's row goes from its rank to the owner of an
-- expert and back. The atomic claims of slots come in any order, as do the writes and the reservations.
pub mod Assign
pub mod Place
pub mod Entries
pub mod Count
pub mod Gather
pub mod Combine
pub mod Trip
use ep_demo.Prelude.{
  Bool, List, Option, [], add_size, false, for_each, if◌then◌else◌, none, refl, some, sub_size,
  true, ℕ, ◌&&◌, ◌+◌, ◌==◌, ◌∷◌,
}
use ep_demo.Kernel.{
  Config, owner, local_index, num_bytes_per_msg, num_bytes_per_slot, dispatch_dst_ptr,
  dispatch_src_ptr, combine_dst_ptr, combine_src_ptr, global_expert_idx,
}
use ep_demo.Kernel.Memory.{Write, Memory, writes}
use ep_demo.Kernel.Receive.{pack2, unpack2}

-- Where the ranks' buffers lie: `mxa_buffer` of each, and the offset of `rdma_recv_data_buffer` in it.
pub record Fleet : Type 0 where
  pub mxa_buffer : ℕ → ℕ
  pub data_offset : ℕ

abbrev pub rdma_recv_data_buffer : Fleet → ℕ → ℕ
rdma_recv_data_buffer f rank = add_size (f.mxa_buffer rank) f.data_offset

-- The address at `dst_rank` that a write goes to: `dst_ptr` itself if the rank is its own destination,
-- else the peer's pointer, or its `raddr`, plus the offset of `dst_ptr` in the own buffer.
abbrev pub target_ptr : Fleet → ℕ → ℕ → ℕ → ℕ
target_ptr f rank dst_rank dst_ptr =
    if dst_rank == rank
    then dst_ptr
    else add_size (f.mxa_buffer dst_rank) (sub_size dst_ptr (f.mxa_buffer rank))

-- A warp's work: a token of its rank and an expert of the token.
pub record Claim : Type 0 where
  pub rank : ℕ
  pub token_idx : ℕ
  pub expert_idx : ℕ

pub record Slotted : Type 0 where
  pub claim : Claim
  pub slot_idx : ℕ

abbrev pub is_pair : ℕ → ℕ → Claim → Bool
is_pair rank expert_idx k = (k.rank == rank) && (k.expert_idx == expert_idx)

-- `atomicAdd(atomic_counter_per_expert + dst_expert_idx, 1)` of the claim's rank.
abbrev pub atomic_add_counter : (ℕ → ℕ → ℕ) → Claim → ℕ → ℕ → ℕ
atomic_add_counter counter k rank expert_idx =
    if is_pair rank expert_idx k then counter rank expert_idx + 1 else counter rank expert_idx

-- The slots that the claims get, in the order of the atomic additions.
abbrev pub assign : (ℕ → ℕ → ℕ) → List Claim → List Slotted
assign counter [] = []
assign counter (k ∷ ks) =
    record { claim = k; slot_idx = counter k.rank k.expert_idx }
    ∷ assign (atomic_add_counter counter k) ks

-- The tokens of a rank that claim a slot of an expert, in the order of their claims.
abbrev pub tokens_of : ℕ → ℕ → List Claim → List ℕ
tokens_of rank expert_idx [] = []
tokens_of rank expert_idx (k ∷ ks) =
    if is_pair rank expert_idx k
    then k.token_idx ∷ tokens_of rank expert_idx ks
    else tokens_of rank expert_idx ks

-- A message: the index of the token, and its row as it stands behind it.
pub record Message (A : Type 0) : Type 0 where
  pub src_idx : ℕ
  pub row : A

module _ {A : Type 0} (c : Config) (f : Fleet) (x : ℕ → ℕ → A) where
  -- The write of a message: `x rank token` is the row that the rank has staged for the token.
  abbrev pub message_write : Slotted → Write (Message A)
  message_write s = record {
    rank = owner c s.claim.expert_idx;
    address = target_ptr f s.claim.rank (owner c s.claim.expert_idx) (
        dispatch_dst_ptr c (rdma_recv_data_buffer f s.claim.rank) (local_index c s.claim.expert_idx)
          s.claim.rank s.slot_idx);
    value = record { src_idx = s.claim.token_idx; row = x s.claim.rank s.claim.token_idx };
  }

-- The ranks' `topk_idx`, in which an entry below 0 is none, and their numbers of tokens.
pub record Topk : Type 0 where
  pub topk_idx : ℕ → ℕ → ℕ → Option ℕ
  pub num_tokens : ℕ → ℕ
  pub num_topk : ℕ

-- `if (dst_expert_idx >= 0)`.
abbrev pub claim_of : ℕ → ℕ → Option ℕ → List Claim
claim_of rank token_idx none = []
claim_of rank token_idx (some e) =
    record { rank = rank; token_idx = token_idx; expert_idx = e } ∷ []

-- The work of all warps: a warp has one entry of a token, and claims a slot if the entry is not below 0.
module _ (k : Topk) where
  abbrev pub claims_of_entry : ℕ → ℕ → ℕ → List Claim
  claims_of_entry rank token_idx i = claim_of rank token_idx (k.topk_idx rank token_idx i)

  abbrev pub claims_of_token : ℕ → ℕ → List Claim
  claims_of_token rank token_idx = for_each k.num_topk (claims_of_entry rank token_idx)

  abbrev pub claims_of_rank : ℕ → List Claim
  claims_of_rank rank = for_each (k.num_tokens rank) (claims_of_token rank)

  abbrev pub all_claims : ℕ → List Claim
  all_claims num_ranks = for_each num_ranks claims_of_rank
