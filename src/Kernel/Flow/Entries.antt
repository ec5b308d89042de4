-- ===== src/Kernel/Flow/Entries.antt =====
-- The claims that the ranks' `topk_idx` give, and how many of them are a rank's for an expert.
use mathlib.Core.List.{Memᴰ, Permᴰ}
use mathlib.Core.List.Memᴰ
use mathlib.Core.List.Permᴰ
use native.Mathlib.Nat.{eq-zero-or-pos}
use ep_demo.Prelude.{
  ltb, ltb→lt, ℕ, ◌<◌, ◌≤◌, ◌≡◌, ◌≢◌, inl, inr, refl, sym, ap, List, arith, some, tally, Bool-cases,
  Option-cases, for_each-find, for_each-Mem, tally-Perm, tally-none, tally-only, tally-le,
  tally-once, Perm-Mem,
}
use ep_demo.Kernel.{Config}
use ep_demo.Kernel.Flow.{
  Claim, is_pair, Topk, claims_of_entry, claims_of_token, claims_of_rank, all_claims,
}
use ep_demo.Kernel.Flow.Assign.{is_pair_parts}
use ep_demo.Kernel.Flow.Place.{IsClaims}

-- What the callers keep: experts in range, no expert twice for a token, and no more tokens than fit.
pub record IsTopk (c : Config) (k : Topk) : Type 0 where
  pub experts : (r t i e : ℕ) → k.topk_idx r t i ≡ some e → e < c.num_experts
  pub distinct : (r t i j e : ℕ) → k.topk_idx r t i ≡ some e → k.topk_idx r t j ≡ some e → i ≡ j
  pub tokens : (r : ℕ) → k.num_tokens r ≤ c.num_max_dispatch_tokens_per_rank

module _ (k : Topk) where
  entry-find :
      (r t i : ℕ) (a : Claim)
      → Memᴰ a (claims_of_entry k r t i)
      → (e : ℕ) × (k.topk_idx r t i ≡ some e)
        × (a ≡ record { rank = r; token_idx = t; expert_idx = e })
  entry-find r t i a m = elim (Option-cases (k.topk_idx r t i)) [
    | inl q ↦ absurd (Memᴰ.not-nil (rw (claims_of_entry, q) at m))
    | inr q ↦ (q.0, q.1, Memᴰ.eq_of_singleton (rw (claims_of_entry, q.1) at m))
  ]

  pub entry-Mem :
      (n r t i e : ℕ)
      → r < n
      → t < k.num_tokens r
      → i < k.num_topk
      → k.topk_idx r t i ≡ some e
      → Memᴰ (record { rank = r; token_idx = t; expert_idx = e }) (all_claims k n)
  entry-Mem n r t i e lr lt li h = for_each-Mem n (claims_of_rank k) r lr (
      for_each-Mem (k.num_tokens r) (claims_of_token k r) t lt (
        for_each-Mem k.num_topk (claims_of_entry k r t) i li
          (rw (claims_of_entry, h) (Memᴰ.head refl))))

  pub claim-find :
      (n : ℕ) (a : Claim)
      → Memᴰ a (all_claims k n)
      → (a.rank < n)
        × (a.token_idx < k.num_tokens a.rank)
        × ((i : ℕ) × (i < k.num_topk) × (k.topk_idx a.rank a.token_idx i ≡ some a.expert_idx))
  claim-find n a m =
      let by_rank = for_each-find n (claims_of_rank k) m in
      let by_token =
        for_each-find (k.num_tokens by_rank.0) (claims_of_token k by_rank.0) by_rank.2 in
      let by_entry = for_each-find k.num_topk (claims_of_entry k by_rank.0 by_token.0) by_token.2 in
      let entry = entry-find by_rank.0 by_token.0 by_entry.0 a by_entry.2 in
      rw entry.2 (by_rank.1, by_token.1, (by_entry.0, by_entry.1, entry.1))

  module _ (r e : ℕ) where
    tally_entry :
        (r' t i : ℕ)
        → (tally (is_pair r e) (claims_of_entry k r' t i) ≤ 1)
          × (0 < tally (is_pair r e) (claims_of_entry k r' t i)
              → (r' ≡ r) × (k.topk_idx r' t i ≡ some e))
    tally_entry r' t i = elim (Option-cases (k.topk_idx r' t i)) [
      | inl q ↦ rw (claims_of_entry, q) (omega arith, λ p. absurd (omega (arith, p)))
      | inr q ↦
          rw (claims_of_entry, q.1)
            (elim (Bool-cases
              (is_pair r e (record { rank = r'; token_idx = t; expert_idx = q.0 }))) [
                | inl h ↦
                    let parts =
                      is_pair_parts r e (record { rank = r'; token_idx = t; expert_idx = q.0 }) h in
                    rw h (omega arith, λ p. (parts.0, ap some parts.1))
                | inr h ↦ rw h (omega arith, λ p. absurd (omega (arith, p)))
              ])
    ]

    other_rank : (r' : ℕ) → r' ≢ r → tally (is_pair r e) (claims_of_rank k r') ≡ 0
    other_rank r' ne = tally-none (is_pair r e) (k.num_tokens r') (claims_of_token k r') (λ t lt.
        tally-none (is_pair r e) k.num_topk (claims_of_entry k r' t) (λ i li.
          elim (eq-zero-or-pos (tally (is_pair r e) (claims_of_entry k r' t i))) [
            | inl z ↦ z
            | inr pos ↦ absurd (ne ((tally_entry r' t i).1 pos).0)
          ]))

    -- The claims of a rank for an expert are those of the rank's own tokens.
    pub tally_all :
        (n : ℕ)
        → r < n
        → tally (is_pair r e) (all_claims k n) ≡ tally (is_pair r e) (claims_of_rank k r)
    tally_all n lt = tally-only (is_pair r e) n (claims_of_rank k) r lt (λ i li ne. other_rank i ne)

module _ (c : Config) (k : Topk) (ok : IsTopk c k) (r e : ℕ) where
  tally_token : (t : ℕ) → tally (is_pair r e) (claims_of_token k r t) ≤ 1
  tally_token t =
      tally-once (is_pair r e) k.num_topk (claims_of_entry k r t)
        (λ i li. (tally_entry k r e r t i).0)
        (λ i j li lj p q.
          ok.distinct r t i j e ((tally_entry k r e r t i).1 p).1 ((tally_entry k r e r t j).1 q).1)

  pub tally_rank : tally (is_pair r e) (claims_of_rank k r) ≤ c.num_max_dispatch_tokens_per_rank
  tally_rank = omega (
    arith,
    ok.tokens r,
    tally-le (is_pair r e) (k.num_tokens r) (claims_of_token k r) (λ t lt. tally_token t),
  )

  pub tally_few :
      (n : ℕ) → tally (is_pair r e) (all_claims k n) ≤ c.num_max_dispatch_tokens_per_rank
  tally_few n = elim (Bool-cases (ltb r n)) [
    | inl h ↦ rw (tally_all k r e n (ltb→lt r n h)) tally_rank
    | inr h ↦ omega (
      arith,
      tally-none (is_pair r e) n (claims_of_rank k)
          (λ i lt. other_rank k r e i (λ q. ground (arith, h, lt, q))),
    )
  ]

-- The claims of all ranks, in any order, are as `dispatch` expects.
pub all_claims-IsClaims :
    (c : Config) (k : Topk) (ks : List Claim)
    → IsTopk c k
    → Permᴰ (all_claims k c.num_ranks) ks
    → IsClaims c ks
all_claims-IsClaims c k ks ok order =
    let back : (a : Claim) → Memᴰ a ks → _ =
      λ a m. claim-find k c.num_ranks a (Perm-Mem (Permᴰ.symm order) m) in
    record {
      ranks = λ a m. (back a m).0;
      experts = λ a m. ok.experts a.rank a.token_idx (back a m).2.0 a.expert_idx (back a m).2.2;
      few = λ r e. rw (sym (tally-Perm (is_pair r e) order)) (tally_few c k ok r e c.num_ranks);
    }
