-- ===== src/Kernel/Flow/Trip.antt =====
-- src/ep_kernel.cu: `dispatch`, the experts and `combine`, one after the other.
pub mod Whole
use mathlib.Core.List.{Memᴰ, Permᴰ}
use mathlib.Core.List.Memᴰ
use mathlib.Core.List.Permᴰ
use native.Mathlib.Nat.{mod-eq_of_lt, mod-le, mul-le-mul_right, mul_comm, le-mul_of_pos_right}
use ep_demo.Prelude.{
  ℕ, zero, suc, ◌+◌, ◌*◌, ◌/◌, ◌%◌, ◌^◌, ◌<◌, ◌≤◌, ◌≡◌, ◌⊎◌, inl, inr, refl, sym, ap, ◌∙◌, Bool,
  true, false, ◌==◌, if◌then◌else◌, List, [], ◌∷◌, map, arith, Option, some, none, tally, for_each,
  Bool-cases, ==_refl, get_elem?, get_or, length, for_each-Mem, tally-le, tally-Perm, Perm-Mem,
}
use ep_demo.Kernel.{
  num_local_experts, Config, owner, local_index, num_bytes_per_msg, num_bytes_per_slot,
  dispatch_src_ptr, combine_src_ptr,
}
use ep_demo.Kernel.Slots.{IsConfig}
use ep_demo.Kernel.Rows.{some_local}
use ep_demo.Kernel.Memory.{Write, Memory, writes}
use ep_demo.Kernel.Flow.{
  Fleet, rdma_recv_data_buffer, Claim, Slotted, is_pair, assign, tokens_of, Message, message_write,
  Topk, all_claims, claims_of_rank,
}
use ep_demo.Kernel.Flow.Assign.{assign-claim, assign-at, tokens_of-tally}
use ep_demo.Kernel.Flow.Place.{IsFleet, IsClaims, dispatch_delivers}
use ep_demo.Kernel.Flow.Entries.{
  IsTopk, all_claims-IsClaims, claim-find, entry-Mem, tally_few, tally_rank, tally_all,
}
use ep_demo.Kernel.Flow.Count.{num_tokens_sent, num_tokens_sent_lem}
use ep_demo.Kernel.Flow.Gather.{Packed, receive_sources, receive_sources-Gathered, Gathered, sum_of}
use ep_demo.Kernel.Flow.Combine.{
  Float, add_entries, add_entries-same, combined, all_writes, IsPacked,
}

-- All ranks, each once.
abbrev pub upto : ℕ → List ℕ
upto n = for_each n (λ i. i ∷ [])

-- The packed output of an expert, received in the order `srcs`: the memory is what `dispatch` has left,
-- and a source's signal says how many messages its counting warp has found.
abbrev pub packed_output :
    {A : Type 0}
    → Config
    → Fleet
    → Topk
    → Memory (Message A)
    → (ℕ → Packed (Message A))
    → (ℕ → List ℕ)
    → ℕ
    → Packed (Message A)
packed_output c f k memory before srcs expert_idx =
    receive_sources
      (λ src i. memory (owner c expert_idx) (
        dispatch_src_ptr c (rdma_recv_data_buffer f (owner c expert_idx)) (local_index c expert_idx)
          src i))
      (λ src. num_tokens_sent k src expert_idx) (before expert_idx) (srcs expert_idx)

pub get_elem?-get_or : (ts : List ℕ) (i : ℕ) → i < length ts → get_elem? ts i ≡ some (get_or ts i 0)
get_elem?-get_or [] i h = absurd (omega (arith, h))
get_elem?-get_or (t ∷ ts) zero h = refl
get_elem?-get_or (t ∷ ts) (suc i) h = get_elem?-get_or ts i (omega (arith, h))

sum_of-le :
    (n : ℕ → ℕ) (m : ℕ)
    → ((r : ℕ) → n r ≤ m)
    → (rs : List ℕ) → sum_of n rs ≤ tally (λ _. true) rs * m
sum_of-le n m h [] = omega arith
sum_of-le n m h (r ∷ rs) = grind (arith, h r, sum_of-le n m h rs)

-- A claim is among the tokens of its rank for its expert.
pub tokens_of-find :
    (r e t : ℕ) (ks : List Claim)
    → Memᴰ (record { rank = r; token_idx = t; expert_idx = e }) ks
    → (i : ℕ) × (i < length (tokens_of r e ks)) × (get_or (tokens_of r e ks) i 0 ≡ t)
tokens_of-find r e t [] m = absurd (Memᴰ.not-nil m)
tokens_of-find r e t (k ∷ ks) m = elim (Memᴰ.cases_cons m) [
  | inl h ↦ rw (sym h, ==_refl r, ==_refl e) (0, omega arith, refl)
  | inr later ↦
      let found = tokens_of-find r e t ks later in
      elim (Bool-cases (is_pair r e k)) [
        | inl p ↦ rw p (suc found.0, omega (arith, found.1), found.2)
        | inr p ↦ rw p found
      ]
]

module _ (c : Config) (ok : IsConfig c) (k : Topk) (good : IsTopk c k) (ks : List Claim)
    (order : Permᴰ (all_claims k c.num_ranks) ks) where
  ranks_fit :
      (e : ℕ) → e < c.num_experts → c.num_ranks * c.num_max_dispatch_tokens_per_rank < 2 ^ 31
  ranks_fit e lt =
      let ranks : c.num_ranks ≤ c.num_experts = omega (
        arith,
        ok.divides,
        mul_comm (num_local_experts c) c.num_ranks,
        le-mul_of_pos_right c.num_ranks (some_local c ok e lt),
      ) in
      omega (arith, ok.few_slots, mul-le-mul_right c.num_max_dispatch_tokens_per_rank ranks)

  max_fits : (e : ℕ) → e < c.num_experts → c.num_max_dispatch_tokens_per_rank < 2 ^ 31
  max_fits e lt = omega (
    arith,
    ranks_fit e lt,
    mul_comm c.num_ranks c.num_max_dispatch_tokens_per_rank,
    le-mul_of_pos_right c.num_max_dispatch_tokens_per_rank ok.some_rank,
  )

  -- What a rank signals for an expert is the number of its claims.
  pub sent_tokens :
      (r e : ℕ)
      → r < c.num_ranks
      → e < c.num_experts
      → num_tokens_sent k r e ≡ length (tokens_of r e ks)
  sent_tokens r e lr le =
      num_tokens_sent_lem k r e
      ∙ mod-eq_of_lt (omega (arith, tally_rank c k good r e, max_fits e le))
      ∙ sym (tally_all k r e c.num_ranks lr)
      ∙ tally-Perm (is_pair r e) order
      ∙ sym (tokens_of-tally r e ks)

  sent_le : (r e : ℕ) → num_tokens_sent k r e ≤ c.num_max_dispatch_tokens_per_rank
  sent_le r e = omega (
    arith,
    num_tokens_sent_lem k r e,
    tally_rank c k good r e,
    mod-le (tally (is_pair r e) (claims_of_rank k r)) (2 ^ 32),
  )

  -- The rows of an expert fit its part of the packed output, and its counter.
  pub sum_small :
      (e : ℕ) (srcs : List ℕ)
      → Permᴰ (upto c.num_ranks) srcs
      → sum_of (λ r. num_tokens_sent k r e) srcs ≤ c.num_ranks * c.num_max_dispatch_tokens_per_rank
  sum_small e srcs once =
      let max = c.num_max_dispatch_tokens_per_rank in
      let total = sum_of-le (λ r. num_tokens_sent k r e) max (λ r. sent_le r e) srcs in
      let ranks : tally (λ _. true) srcs ≤ c.num_ranks = omega (
        arith,
        tally-Perm (λ _. true) once,
        tally-le (λ _. true) c.num_ranks (λ i. i ∷ []) (λ i lt. omega arith),
      ) in
      omega (arith, total, mul-le-mul_right max ranks)

  pub sum_fits :
      (e : ℕ) (srcs : List ℕ)
      → e < c.num_experts
      → Permᴰ (upto c.num_ranks) srcs
      → sum_of (λ r. num_tokens_sent k r e) srcs < 2 ^ 31
  sum_fits e srcs le once = omega (arith, sum_small e srcs once, ranks_fit e le)

  -- Token `i` of the claims of a rank for an expert is one of the rank's.
  unfoldable pub token_of : ℕ → ℕ → ℕ → ℕ
  token_of e r i = get_or (tokens_of r e ks) i 0

  pub token_small :
      (e r i : ℕ)
      → i < length (tokens_of r e ks)
      → token_of e r i < c.num_max_dispatch_tokens_per_rank
  unfolding token_of
  token_small e r i lt =
      let m =
        assign-claim (λ _ _. 0) ks _
          (assign-at (λ _ _. 0) ks r e i (token_of e r i)
            (get_elem?-get_or (tokens_of r e ks) i lt)) in
      omega (arith, (claim-find k c.num_ranks _ (Perm-Mem (Permᴰ.symm order) m)).1, good.tokens r)
