-- ===== src/Kernel/Flow/Place.antt =====
-- Where the writes of `dispatch` and `combine` land: at the address that the receiving rank computes.
use mathlib.Core.List.{Memᴰ, Permᴰ}
use mathlib.Core.List.Permᴰ
use native.Mathlib.Nat.{div-add-mod', zero-add}
use ep_demo.Prelude.{
  ℕ, ◌+◌, ◌^◌, ◌<◌, ◌≤◌, ◌≡◌, ◌⊎◌, inl, inr, sym, ap, ◌∙◌, ◌==◌, List, map, arith, some, get_elem?,
  tally, Bool-cases, ==_iff, map-Mem, map-find, Perm-Mem,
}
use ep_demo.Kernel.{
  Config, owner, local_index, num_local_experts, num_bytes_per_msg, dispatch_dst_ptr,
  dispatch_src_ptr,
}
use ep_demo.Kernel.Slots.{
  IsConfig, InRange, dispatch_dst_lem, message_offset-le, dispatch_apart, dispatch_src-eq-dst,
  num_bytes_per_msg_pos,
}
use ep_demo.Kernel.Rows.{local_index-lt}
use ep_demo.Kernel.Memory.{Write, Memory, writes, writes-lem, Agrees}
use ep_demo.Kernel.Flow.{
  Fleet, rdma_recv_data_buffer, target_ptr, Claim, Slotted, is_pair, assign, tokens_of, Message,
  message_write,
}
use ep_demo.Kernel.Flow.Assign.{assign-claim, assign-range, assign_unique, assign-at}

-- Every buffer lies in the lower half of the address space.
pub record IsFleet (f : Fleet) : Type 0 where
  pub buffers : (rank : ℕ) → f.mxa_buffer rank < 2 ^ 61
  pub offset : f.data_offset < 2 ^ 61

module _ (f : Fleet) (ok : IsFleet f) where
  pub data_buffer_low : (rank : ℕ) → rdma_recv_data_buffer f rank < 2 ^ 62
  data_buffer_low rank = omega (arith, ok.buffers rank, ok.offset)

  -- A write goes to the same place of the destination's region as it has in the own.
  pub target_ptr_lem :
      (rank dst_rank z : ℕ)
      → z ≤ 2 ^ 53
      → target_ptr f rank dst_rank (rdma_recv_data_buffer f rank + z)
        ≡ rdma_recv_data_buffer f dst_rank + z
  target_ptr_lem rank dst_rank z small = elim (Bool-cases (dst_rank == rank)) [
    | inl e ↦ rw e (ap (λ r. rdma_recv_data_buffer f r + z) (sym ((==_iff dst_rank rank).0 e)))
    | inr e ↦ rw e (omega (arith, ok.buffers rank, ok.buffers dst_rank, ok.offset, small))
  ]

-- What is known of the claims of all ranks.
pub record IsClaims (c : Config) (ks : List Claim) : Type 0 where
  pub ranks : (k : Claim) → Memᴰ k ks → k.rank < c.num_ranks
  pub experts : (k : Claim) → Memᴰ k ks → k.expert_idx < c.num_experts
  pub few :
      (rank expert_idx : ℕ)
      → tally (is_pair rank expert_idx) ks ≤ c.num_max_dispatch_tokens_per_rank

-- Three numbers are equal to three others, or not all are.
triple_cases :
    (a b c a' b' c' : ℕ) → ((a ≡ a') × (b ≡ b') × (c ≡ c')) ⊎ (¬ ((a ≡ a') × (b ≡ b') × (c ≡ c')))
triple_cases a b c a' b' c' = ground arith

module _ (c : Config) (ok : IsConfig c) where
  same_expert : (e e' : ℕ) → owner c e ≡ owner c e' → local_index c e ≡ local_index c e' → e ≡ e'
  same_expert e e' o l =
      sym (div-add-mod' e (num_local_experts c)) ∙ rw (o, l) (div-add-mod' e' (num_local_experts c))

module _ (c : Config) (ok : IsConfig c) (f : Fleet) (placed : IsFleet f) {A : Type 0}
    (x : ℕ → ℕ → A) (ks : List Claim) (good : IsClaims c ks) where
  -- The place of each message that a claim gives.
  in_range :
      (s : Slotted)
      → Memᴰ s (assign (λ _ _. 0) ks)
      → InRange c (local_index c s.claim.expert_idx) s.claim.rank s.slot_idx
  in_range s m =
      let k = assign-claim (λ _ _. 0) ks s m in
      record {
        expert = local_index-lt c ok s.claim.expert_idx (good.experts s.claim k);
        rank = good.ranks s.claim k;
        slot =
            omega
              (arith, (assign-range (λ _ _. 0) ks s m).1, good.few s.claim.rank s.claim.expert_idx);
      }

  lands :
      (s : Slotted)
      → Memᴰ s (assign (λ _ _. 0) ks)
      → (message_write c f x s).address
        ≡ dispatch_dst_ptr c
            (rdma_recv_data_buffer f (owner c s.claim.expert_idx))
            (local_index c s.claim.expert_idx)
            s.claim.rank
            s.slot_idx
  lands s m =
      let d = owner c s.claim.expert_idx in
      let l = local_index c s.claim.expert_idx in
      let i = in_range s m in
      rw
        (
          dispatch_dst_lem c ok (rdma_recv_data_buffer f s.claim.rank) l s.claim.rank s.slot_idx i
              (data_buffer_low f placed s.claim.rank),
          dispatch_dst_lem c ok (rdma_recv_data_buffer f d) l s.claim.rank s.slot_idx i
              (data_buffer_low f placed d),
        )
        (target_ptr_lem f placed s.claim.rank d _
          (message_offset-le c ok 0 l s.claim.rank s.slot_idx i (omega arith)))

  -- Two messages are the same, or do not share a byte.
  apart :
      (s t : Slotted)
      → Memᴰ s (assign (λ _ _. 0) ks)
      → Memᴰ t (assign (λ _ _. 0) ks)
      → Agrees
          (num_bytes_per_msg c)
          (message_write c f x t).rank
          (message_write c f x t).address
          (message_write c f x t).value
          (message_write c f x s)
  apart s t ms mt =
      let d = owner c t.claim.expert_idx in
      elim (Bool-cases (owner c s.claim.expert_idx == d)) [
        | inr e ↦ inr (inl (λ q. ground (arith, e, q)))
        | inl e ↦
            let same : owner c s.claim.expert_idx ≡ d = (==_iff _ d).0 e in
            elim (triple_cases (local_index c s.claim.expert_idx) s.claim.rank s.slot_idx
              (local_index c t.claim.expert_idx) t.claim.rank t.slot_idx) [
                | inl q ↦ inl (
                    ap (λ u. message_write c f x u)
                      (assign_unique (λ _ _. 0) ks s t ms mt q.1
                        (same_expert c ok s.claim.expert_idx t.claim.expert_idx same q.0) q.2))
                | inr ne ↦ inr (
                    inr (
                      rw (lands s ms, lands t mt, same)
                        (dispatch_apart c (rdma_recv_data_buffer f d) _ _ _ _ _ _ ok (in_range s ms)
                          (in_range t mt) (data_buffer_low f placed d) ne)))
              ]
      ]

-- Whatever the order of the claims, and whatever the order in which their writes land: the owner of
-- expert `e` finds, where it reads message `i` of rank `r`, the message of the `i`-th token that `r` has
-- claimed a slot for, with the token's index and its row.
pub dispatch_delivers :
    {A : Type 0} (c : Config) (f : Fleet) (x : ℕ → ℕ → A) (torn : Message A) (ks : List Claim)
    (before : Memory (Message A)) (ws : List (Write (Message A))) (r e i t : ℕ)
    → IsConfig c
    → IsFleet f
    → IsClaims c ks
    → Permᴰ (map (message_write c f x) (assign (λ _ _. 0) ks)) ws
    → get_elem? (tokens_of r e ks) i ≡ some t
    → writes
        (num_bytes_per_msg c)
        torn
        before
        ws
        (owner c e)
        (dispatch_src_ptr c (rdma_recv_data_buffer f (owner c e)) (local_index c e) r i)
      ≡ record { src_idx = t; row = x r t }
dispatch_delivers c f x torn ks before ws r e i t ok placed good order h =
    let s : Slotted = record {
      claim = record { rank = r; token_idx = t; expert_idx = e };
      slot_idx = i;
    } in
    let m : Memᴰ s (assign (λ _ _. 0) ks) =
      rw (zero-add i) at (assign-at (λ _ _. 0) ks r e i t h) in
    let place = lands c ok f placed x ks good s m in
    let src =
      dispatch_src-eq-dst c ok (rdma_recv_data_buffer f (owner c e)) (local_index c e) r i
        (in_range c ok f placed x ks good s m) (data_buffer_low f placed (owner c e)) in
    rw (src, sym place)
      (writes-lem (num_bytes_per_msg c) torn (num_bytes_per_msg_pos c ok) (owner c e) _ _ before ws
        (λ w w_in.
          let found =
            map-find (message_write c f x) (assign (λ _ _. 0) ks)
              (Perm-Mem (Permᴰ.symm order) w_in) in
          rw found.2 (apart c ok f placed x ks good found.0 s found.1 m))
        (Perm-Mem order (map-Mem (message_write c f x) (assign (λ _ _. 0) ks) m)))
