-- ===== src/Kernel/Flow/Combine/Delivers.antt =====
-- That every row of `combine` comes to where the token's rank reads it.
use mathlib.Core.List.{Memᴰ, Permᴰ}
use mathlib.Core.List.Memᴰ
use mathlib.Core.List.Permᴰ
use mathlib.Core.Path.{subst}
use ep_demo.Prelude.{
  ℕ, ◌+◌, ◌<◌, ◌≡◌, ◌⊎◌, inl, inr, refl, sym, ap, ◌∙◌, Bool, true, false, ◌&&◌, if◌then◌else◌, ◌==◌,
  List, [], ◌∷◌, arith, Bool-cases, ==_iff, for_each, for_each-find, for_each-Mem, Perm-Mem,
}
use ep_demo.Kernel.{
  Config, owner, local_index, num_bytes_per_slot, combine_dst_ptr, combine_src_ptr,
  global_expert_idx,
}
use ep_demo.Kernel.Memory.{Write, Memory, writes, writes-lem, Agrees}
use ep_demo.Kernel.Slots.{IsConfig}
use ep_demo.Kernel.Rows.{
  global-owner-local, combine_dst_lem, row_offset-le, combine_meets, combine_apart,
}
use ep_demo.Kernel.Flow.{Fleet, rdma_recv_data_buffer, target_ptr, Message}
use ep_demo.Kernel.Flow.Gather.{Packed}
use ep_demo.Kernel.Flow.Place.{IsFleet, data_buffer_low, target_ptr_lem}
use ep_demo.Kernel.Flow.Combine.{
  Sending, over_rdma, IsSent, row_write, source_writes, all_writes, first_row, IsPacked,
}

num_bytes_per_slot_pos : (c : Config) → IsConfig c → 0 < c.hidden → 0 < num_bytes_per_slot c
unfolding num_bytes_per_slot
num_bytes_per_slot_pos c ok some_hidden = omega (arith, ok.small_hidden, some_hidden)

pair_cases : (a b a' b' : ℕ) → ((a ≡ a') × (b ≡ b')) ⊎ (¬ ((a ≡ a') × (b ≡ b')))
pair_cases a b a' b' = ground arith

module _ {A B : Type 0} (c : Config) (ok : IsConfig c) (some_hidden : 0 < c.hidden) (f : Fleet)
    (placed : IsFleet f) (s : Sending B) (output : ℕ → A → B) (x : ℕ → ℕ → A)
    (packed : ℕ → Packed (Message A)) (num : ℕ → ℕ → ℕ) (token : ℕ → ℕ → ℕ → ℕ)
    (good : IsPacked c x packed num token) (sent : IsSent c s output packed) where
  -- The write of the row of token `t` of rank `r` for expert `e`.
  abbrev right_write : ℕ → ℕ → ℕ → Write B
  right_write e r t = record {
    rank = r;
    address = combine_src_ptr c (rdma_recv_data_buffer f r) e t;
    value = output e (x r t);
  }

  row_write_lem :
      (e r i : ℕ)
      → e < c.num_experts
      → r < c.num_ranks
      → i < num e r
      → row_write c f s output packed e r (first_row packed e r + i) ≡ right_write e r (token e r i)
  row_write_lem e r i le lr li =
      let row : (packed e).rows (first_row packed e r + i)
          ≡ record { src_idx = token e r i; row = x r (token e r i) } =
        good.row e r i le lr li in
      let place = address (token e r i) (good.small e r i le lr li) in
      λ j. record {
        rank = r;
        address =
            (ap
                  (λ m. target_ptr f (owner c e) r (
                    combine_dst_ptr c (rdma_recv_data_buffer f (owner c e))
                      (global_expert_idx c (owner c e) (local_index c e)) m.src_idx))
                  row
                ∙ place)
              j;
        value = (value (over_rdma s (owner c e) r) ∙ ap (λ m. output e m.row) row) j;
      }
    where
      value :
          (rdma : Bool)
          → (if s.zero_copy && rdma
              then s.rdma_send_row e (first_row packed e r + i)
              else output e ((packed e).rows (first_row packed e r + i)).row)
            ≡ output e ((packed e).rows (first_row packed e r + i)).row
      value rdma = elim (Bool-cases s.zero_copy) [
        | inr z ↦ rw z refl
        | inl z ↦ rw z (chosen rdma (sent e r i le lr (rw (good.count e r le lr) li) z))
      ]
        where
          chosen : {y z : B} (b : Bool) → y ≡ z → (if b then y else z) ≡ z
          chosen true h = h
          chosen false h = refl

      address :
          (t : ℕ)
          → t < c.num_max_dispatch_tokens_per_rank
          → target_ptr f (owner c e) r (
              combine_dst_ptr c
                (rdma_recv_data_buffer f (owner c e))
                (global_expert_idx c (owner c e) (local_index c e))
                t)
            ≡ combine_src_ptr c (rdma_recv_data_buffer f r) e t
      address t lt =
          rw
            (
              global-owner-local c ok e le,
              sym (combine_meets c (rdma_recv_data_buffer f r) e t ok le),
              global-owner-local c ok e le,
              combine_dst_lem c ok (rdma_recv_data_buffer f (owner c e)) e t le lt
                  (data_buffer_low f placed (owner c e)),
              combine_dst_lem c ok (rdma_recv_data_buffer f r) e t le lt
                  (data_buffer_low f placed r),
            )
            (target_ptr_lem f placed (owner c e) r _ (row_offset-le c ok 0 e t le lt (omega arith)))

  source_writes_lem :
      (e r : ℕ)
      → e < c.num_experts
      → r < c.num_ranks
      → source_writes c f s output packed e r
        ≡ for_each
            (num e r)
            (λ i. row_write c f s output packed e r (first_row packed e r + i) ∷ [])
  source_writes_lem e r le lr =
      ap (λ n. for_each n (λ i. row_write c f s output packed e r (first_row packed e r + i) ∷ []))
        (good.count e r le lr)

  write-find :
      (w : Write B)
      → Memᴰ w (all_writes c f s output packed)
      → (e r i : ℕ) × (e < c.num_experts)
        × (r < c.num_ranks)
        × (i < num e r)
        × (w ≡ right_write e r (token e r i))
  write-find w m =
      let by_expert =
        for_each-find c.num_experts
          (λ e. for_each c.num_ranks (source_writes c f s output packed e)) m in
      let e = by_expert.0 in
      let by_rank = for_each-find c.num_ranks (source_writes c f s output packed e) by_expert.2 in
      let r = by_rank.0 in
      let by_row =
        for_each-find (num e r)
          (λ i. row_write c f s output packed e r (first_row packed e r + i) ∷ [])
          (subst (Memᴰ w) (source_writes_lem e r by_expert.1 by_rank.1) by_rank.2) in
      (
        e,
        r,
        by_row.0,
        by_expert.1,
        by_rank.1,
        by_row.1,
        Memᴰ.eq_of_singleton by_row.2 ∙ row_write_lem e r by_row.0 by_expert.1 by_rank.1 by_row.1,
      )

  write-Mem :
      (e r i : ℕ)
      → e < c.num_experts
      → r < c.num_ranks
      → i < num e r
      → Memᴰ (right_write e r (token e r i)) (all_writes c f s output packed)
  write-Mem e r i le lr li =
      for_each-Mem c.num_experts (λ e. for_each c.num_ranks (source_writes c f s output packed e)) e
        le
        (for_each-Mem c.num_ranks (source_writes c f s output packed e) r lr (
          subst (Memᴰ _) (sym (source_writes_lem e r le lr)) (
            for_each-Mem (num e r)
              (λ i. row_write c f s output packed e r (first_row packed e r + i) ∷ []) i li
              (Memᴰ.head (sym (row_write_lem e r i le lr li))))))

  -- Rows for one rank are those of the same expert and token, or do not share a byte.
  rows_apart :
      (e r t e' r' t' : ℕ)
      → e < c.num_experts
      → e' < c.num_experts
      → t < c.num_max_dispatch_tokens_per_rank
      → t' < c.num_max_dispatch_tokens_per_rank
      → Agrees
          (num_bytes_per_slot c)
          r
          (right_write e r t).address
          (right_write e r t).value
          (right_write e' r' t')
  rows_apart e r t e' r' t' le le' lt lt' = elim (Bool-cases (r' == r)) [
    | inr q ↦ inr (inl (λ s. ground (arith, q, s)))
    | inl q ↦
        let same : r' ≡ r = (==_iff r' r).0 q in
        elim (pair_cases e' t' e t) [
          | inl s ↦ inl (rw (same, s.0, s.1) refl)
          | inr ne ↦ inr (
              inr (
                rw (same, sym (meets e le t), sym (meets e' le' t'))
                  (combine_apart c (rdma_recv_data_buffer f r) e' t' e t ok le' le lt' lt
                    (data_buffer_low f placed r) ne).0))
        ]
  ]
    where
      meets :
          (e : ℕ)
          → e < c.num_experts
          → (t : ℕ)
          → combine_dst_ptr c (rdma_recv_data_buffer f r) e t
            ≡ combine_src_ptr c (rdma_recv_data_buffer f r) e t
      meets e le t =
          rw
            (
              sym (combine_meets c (rdma_recv_data_buffer f r) e t ok le),
              global-owner-local c ok e le,
            )
            refl

  -- In whatever order the rows are written: a rank finds the row of expert `e` for its token, where
  -- it reads it, to be what the expert has made of the token's row.
  pub combine_delivers :
      (torn : B) (before : Memory B) (ws : List (Write B)) (e r i : ℕ)
      → Permᴰ (all_writes c f s output packed) ws
      → e < c.num_experts
      → r < c.num_ranks
      → i < num e r
      → writes
          (num_bytes_per_slot c)
          torn
          before
          ws
          r
          (combine_src_ptr c (rdma_recv_data_buffer f r) e (token e r i))
        ≡ output e (x r (token e r i))
  combine_delivers torn before ws e r i order le lr li =
      writes-lem (num_bytes_per_slot c) torn (num_bytes_per_slot_pos c ok some_hidden) r _ _ before
        ws
        (λ w w_in.
          let found = write-find w (Perm-Mem (Permᴰ.symm order) w_in) in
          rw found.6 (
            rows_apart e r (token e r i) found.0 found.1 (token found.0 found.1 found.2) le found.3
              (good.small e r i le lr li)
              (good.small found.0 found.1 found.2 found.3 found.4 found.5)))
        (Perm-Mem order (write-Mem e r i le lr li))
