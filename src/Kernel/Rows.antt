-- ===== src/Kernel/Rows.antt =====
-- Rows of `combine`: the owner of an expert writes a token's row where the token's rank reads it.
use native.Mathlib.Nat.{
  mod-lt, div-add-mod', mul-le-mul_left, div-lt_iff_lt-mul, eq-zero-or-pos, zero-mul, mul_comm,
}
use ep_demo.Prelude.{
  ℕ, ◌+◌, ◌*◌, ◌^◌, ◌<◌, ◌≤◌, ◌≡◌, ◌⊎◌, inl, inr, ◌≢◌, ap, ap, arith, mul32, add32,
}
use ep_demo.Kernel.{
  Config, num_local_experts, owner, local_index, global_expert_idx, num_bytes_per_slot,
  combine_dst_ptr, combine_src_ptr,
}
use ep_demo.Kernel.Areas.{mixed-lt, mixed_inj, areas_apart, area_inside, small_product, small_area}
use ep_demo.Kernel.Slots.{IsConfig}

module _ (c : Config) (ok : IsConfig c) (x : ℕ) (lt : x < c.num_experts) where
  pub some_local : 0 < num_local_experts c
  some_local = elim (eq-zero-or-pos (num_local_experts c)) [
    | inl none ↦
        absurd (omega (arith, ok.divides, ap (λ l. l * c.num_ranks) none, zero-mul c.num_ranks))
    | inr pos ↦ pos
  ]

  -- An expert is the one with its local index at its owner.
  pub global-owner-local : global_expert_idx c (owner c x) (local_index c x) ≡ x
  unfolding global_expert_idx
  global-owner-local = omega (arith, ok.few_experts, div-add-mod' x (num_local_experts c))

  pub owner-lt : owner c x < c.num_ranks
  owner-lt =
      (div-lt_iff_lt-mul some_local).1
        (omega (arith, ok.divides, mul_comm (num_local_experts c) c.num_ranks))

  pub local_index-lt : local_index c x < num_local_experts c
  local_index-lt = mod-lt x some_local

abbrev pub row_number : Config → ℕ → ℕ → ℕ
row_number c x t = x * c.num_max_dispatch_tokens_per_rank + t

module _ (c : Config) (ok : IsConfig c) (base x t : ℕ) (lt : x < c.num_experts)
    (slot : t < c.num_max_dispatch_tokens_per_rank) (low : base < 2 ^ 62) where
  pub slot_bytes : num_bytes_per_slot c ≡ c.hidden * 2
  unfolding num_bytes_per_slot
  slot_bytes = omega (arith, ok.small_hidden)

  number_lt : row_number c x t < c.num_experts * c.num_max_dispatch_tokens_per_rank
  number_lt = mixed-lt c.num_experts c.num_max_dispatch_tokens_per_rank x t lt slot

  number_lem : add32 (mul32 x c.num_max_dispatch_tokens_per_rank) t ≡ row_number c x t
  number_lem = omega (arith, number_lt, ok.few_slots)

  pub row_offset-le : row_number c x t * num_bytes_per_slot c ≤ 2 ^ 53
  row_offset-le =
      small_product (row_number c x t) (num_bytes_per_slot c)
        (omega (arith, number_lt, ok.few_slots)) (omega (arith, slot_bytes, ok.small_hidden))

  pub combine_dst_lem : combine_dst_ptr c base x t ≡ base + row_number c x t * num_bytes_per_slot c
  unfolding combine_dst_ptr
  combine_dst_lem =
      rw
        (
          number_lem,
          small_area (row_number c x t) (num_bytes_per_slot c)
              (omega (arith, number_lt, ok.few_slots)) (omega (arith, slot_bytes, ok.small_hidden)),
        )
        (omega (arith, row_offset-le, low))

-- The owner of expert `x`, which knows it by its local index, writes the row of token `t` exactly
-- where the rank that has the token reads the row of expert `x`.
pub combine_meets :
    (c : Config) (base x t : ℕ)
    → IsConfig c
    → x < c.num_experts
    → combine_dst_ptr c base (global_expert_idx c (owner c x) (local_index c x)) t
      ≡ combine_src_ptr c base x t
unfolding combine_dst_ptr combine_src_ptr
combine_meets c base x t ok lt = rw (global-owner-local c ok x lt)

-- Rows of different experts or tokens do not share a byte, and all lie in the data region.
pub combine_apart :
    (c : Config) (base x t x' t' : ℕ)
    → IsConfig c
    → x < c.num_experts
    → x' < c.num_experts
    → t < c.num_max_dispatch_tokens_per_rank
    → t' < c.num_max_dispatch_tokens_per_rank
    → base < 2 ^ 62
    → ¬ ((x ≡ x') × (t ≡ t'))
    → let p = combine_dst_ptr c base x t in
      let q = combine_dst_ptr c base x' t' in
      ((p + num_bytes_per_slot c ≤ q) ⊎ (q + num_bytes_per_slot c ≤ p))
      × (base ≤ p)
      × (p + num_bytes_per_slot c
          ≤ base + c.num_experts * c.num_max_dispatch_tokens_per_rank * (32 + c.hidden * 2))
combine_apart c base x t x' t' ok lt lt' slot slot' low ne =
    rw (combine_dst_lem c ok base x t lt slot low, combine_dst_lem c ok base x' t' lt' slot' low)
      (
        shift (row_number c x t * b) (row_number c x' t' * b)
            (areas_apart b (row_number c x t) (row_number c x' t') other),
        omega arith,
        omega (arith, inside, wider),
      )
  where
    b : ℕ
    b = num_bytes_per_slot c

    other : row_number c x t ≢ row_number c x' t'
    other h = ne (mixed_inj c.num_max_dispatch_tokens_per_rank x t x' t' slot slot' h)

    inside : row_number c x t * b + b ≤ c.num_experts * c.num_max_dispatch_tokens_per_rank * b
    inside =
        area_inside b (row_number c x t) (c.num_experts * c.num_max_dispatch_tokens_per_rank)
          (number_lt c ok base x t lt slot low)

    wider :
        c.num_experts * c.num_max_dispatch_tokens_per_rank * b
        ≤ c.num_experts * c.num_max_dispatch_tokens_per_rank * (32 + c.hidden * 2)
    wider =
        mul-le-mul_left (c.num_experts * c.num_max_dispatch_tokens_per_rank)
          (omega (arith, slot_bytes c ok base x t lt slot low))

    shift :
        (m n : ℕ)
        → (m + b ≤ n) ⊎ (n + b ≤ m)
        → (base + m + b ≤ base + n) ⊎ (base + n + b ≤ base + m)
    shift m n (inl h) = inl (omega arith)
    shift m n (inr h) = inr (omega arith)
