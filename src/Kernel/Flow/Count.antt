-- ===== src/Kernel/Flow/Count.antt =====
-- src/ep_kernel.cu, `dispatch`: the counting warp reads all of its rank's `topk_idx` and adds up, for an
-- expert, the entries that name it.
use ep_demo.Prelude.{
  ℕ, zero, suc, ◌*◌, ◌/◌, ◌%◌, ◌^◌, ◌≡◌, refl, sym, ap, ◌∙◌, Bool, ◌==◌, if◌then◌else◌, List, arith,
  Option, some, none, tally, tally-append, for_each, ==_refl,
}
use ep_demo.Warp.{strided_sum, warp_reduce_sum}
use ep_demo.Warp.Sum.{sum_to, sum_to-same, strides-sum_to}
use ep_demo.Warp.Table.{sum_to-table}
use ep_demo.Warp.Reduce.{warp_reduce_sum_lem}
use ep_demo.Kernel.Flow.{Topk, is_pair, claim_of, claims_of_entry, claims_of_token, claims_of_rank}

-- `idx >= expert_begin_idx and idx < expert_end_idx` and the counter at `idx - expert_begin_idx`, for one
-- expert.
abbrev pub is_expert : ℕ → Option ℕ → ℕ
is_expert expert_idx none = 0
is_expert expert_idx (some idx) = if idx == expert_idx then 1 else 0

module _ (k : Topk) (rank expert_idx : ℕ) where
  -- `expert_count` of a lane, after its loop over `topk_idx + i`.
  abbrev pub expert_count : ℕ → ℕ
  expert_count lane_id =
      let n = k.num_tokens rank * k.num_topk in
      strided_sum n 32 lane_id n
        (λ i. is_expert expert_idx (k.topk_idx rank (i / k.num_topk) (i % k.num_topk)))

  -- `shared_num_tokens_sent_per_expert`, which lane 0 writes.
  pub num_tokens_sent : ℕ
  num_tokens_sent = warp_reduce_sum expert_count 0

tally-sum_to :
    {A : Type 0} (p : A → Bool) (n : ℕ) (f : ℕ → List A)
    → tally p (for_each n f) ≡ sum_to n (λ i. tally p (f i))
unfolding sum_to
tally-sum_to p zero f = refl
tally-sum_to p (suc n) f = omega (arith, tally-append p (for_each n f) (f n), tally-sum_to p n f)

module _ (k : Topk) (rank expert_idx : ℕ) where
  tally_entry_lem :
      (t i : ℕ)
      → tally (is_pair rank expert_idx) (claims_of_entry k rank t i)
        ≡ is_expert expert_idx (k.topk_idx rank t i)
  tally_entry_lem t i = by_entry (k.topk_idx rank t i)
    where
      by_entry :
          (o : Option ℕ)
          → tally (is_pair rank expert_idx) (claim_of rank t o) ≡ is_expert expert_idx o
      by_entry none = refl
      by_entry (some idx) = rw (==_refl rank) (ground arith)

  -- The warp's sum is the number of the rank's claims for the expert, up to wrap-around.
  pub num_tokens_sent_lem :
      num_tokens_sent k rank expert_idx
      ≡ tally (is_pair rank expert_idx) (claims_of_rank k rank) % 2 ^ 32
  unfolding num_tokens_sent
  num_tokens_sent_lem =
      warp_reduce_sum_lem (expert_count k rank expert_idx) 0 (omega arith)
      ∙ ap (λ s. s % 2 ^ 32)
          (strides-sum_to 32 (k.num_tokens rank * k.num_topk)
              (λ i. is_expert expert_idx (k.topk_idx rank (i / k.num_topk) (i % k.num_topk)))
              (k.num_tokens rank * k.num_topk) (omega arith)
            ∙ sum_to-table (k.num_tokens rank) k.num_topk
                (λ t i. is_expert expert_idx (k.topk_idx rank t i))
            ∙ sum_to-same (k.num_tokens rank) _ _ (λ t lt.
              sum_to-same k.num_topk _ _ (λ i li. sym (tally_entry_lem t i))
              ∙ sym (tally-sum_to (is_pair rank expert_idx) k.num_topk (claims_of_entry k rank t)))
            ∙ sym (
                tally-sum_to (is_pair rank expert_idx) (k.num_tokens rank)
                  (claims_of_token k rank)))
