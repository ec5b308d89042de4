-- ===== src/Kernel/Scales.antt =====
-- src/ep_kernel.cu, the receive phase of `dispatch` with FP8: where the scales of a row are put. The row's
-- scales stand a whole part apart, so that one scale of all rows is contiguous.
use native.Mathlib.Nat.{
  eq-zero-or-pos, mul-zero, le-mul_of_pos_right, mod-eq_of_lt, mul_comm, lt_trans,
}
use ep_demo.Prelude.{
  inl, inr, ℕ, ◌+◌, ◌*◌, ◌/◌, ◌-◌, ◌^◌, ◌<◌, ◌≤◌, ◌≡◌, refl, sym, ap, ◌∙◌, if◌then◌else◌, ltb,
  arith, add_size, size_of_int, mul32, lt→ltb,
}
use ep_demo.Kernel.Areas.{mixed_inj, mixed-lt}
use ep_demo.Kernel.{Config, num_local_experts}
use ep_demo.Kernel.Slots.{IsConfig}
use ep_demo.Warp.{is_element}
use ep_demo.Warp.Sum.{sum_to, sum_to-same, sum_to-add, sum_to-split, sum_to_zero, below}
use ep_demo.Warp.Copy.{is_element-once}

abbrev pub num_scales : Config → ℕ
num_scales c = c.hidden / 128

-- `num_ranks * num_max_dispatch_tokens_per_rank`
abbrev pub scale_stride : Config → ℕ
scale_stride c = mul32 c.num_ranks c.num_max_dispatch_tokens_per_rank

-- The index in `packed_recv_x_scales` of scale `j` of a row of a local expert.
pub scale_index : Config → ℕ → ℕ → ℕ → ℕ
scale_index c local_expert_idx row j =
    add_size
      (add_size
        (size_of_int (
          mul32 (mul32 (mul32 local_expert_idx c.num_ranks) c.num_max_dispatch_tokens_per_rank)
            (num_scales c)))
        (size_of_int row))
      (size_of_int (mul32 j (scale_stride c)))

-- How often a lane stores scale `j`: its two scales, if there are so many.
abbrev pub scale_stores : Config → ℕ → ℕ → ℕ
scale_stores c j lane_id =
    (if ltb lane_id (num_scales c) then is_element j lane_id else 0)
    + (if ltb (lane_id + 32) (num_scales c) then is_element j (lane_id + 32) else 0)

-- The lanes of a warp store each scale of a row once.
pub scale_stores_once :
    (c : Config) (j : ℕ)
    → num_scales c ≤ 64
    → sum_to 32 (scale_stores c j) ≡ (if ltb j (num_scales c) then 1 else 0)
scale_stores_once c j few =
    sum_to-add 32 (below (num_scales c) (is_element j))
      (λ l. below (num_scales c) (is_element j) (l + 32))
    ∙ ap (λ t. sum_to 32 (below (num_scales c) (is_element j)) + t)
        (sum_to-same 32 _ _ (λ l lt. ap (below (num_scales c) (is_element j)) (omega arith)))
    ∙ sym (sum_to-split 32 32 (below (num_scales c) (is_element j)))
    ∙ ap (λ k. sum_to k (below (num_scales c) (is_element j))) (split_at few)
    ∙ sum_to-split (num_scales c) (64 - num_scales c) (below (num_scales c) (is_element j))
    ∙ omega (
      arith,
      sum_to-same (num_scales c) (below (num_scales c) (is_element j)) (is_element j)
          (λ i lt. rw (lt→ltb i (num_scales c) lt) refl),
      sum_to_zero (64 - num_scales c) (λ i. below (num_scales c) (is_element j) (num_scales c + i))
          (λ i lt. ground arith),
      is_element-once j (num_scales c),
    )
  where
    split_at : {n : ℕ} → n ≤ 64 → 64 ≡ n + (64 - n)
    split_at h = omega (arith, h)

-- A scale's place: a local expert, a row of its part and a scale of the row.
pub record IsScale (c : Config) (l b j : ℕ) : Type 0 where
  pub expert : l < num_local_experts c
  pub row : b < c.num_ranks * c.num_max_dispatch_tokens_per_rank
  pub scale : j < num_scales c

module _ (c : Config) (ok : IsConfig c) (l b j : ℕ) (i : IsScale c l b j)
    (few : c.num_experts * c.num_max_dispatch_tokens_per_rank * num_scales c < 2 ^ 31) where
  abbrev part : ℕ
  part = c.num_ranks * c.num_max_dispatch_tokens_per_rank

  -- The number of a scale among all: by expert, then scale, then row.
  abbrev scale_number : ℕ
  scale_number = (l * num_scales c + j) * part + b

  all_scales :
      num_local_experts c * num_scales c * part
      ≡ c.num_experts * c.num_max_dispatch_tokens_per_rank * num_scales c
  all_scales =
      shuffle (num_local_experts c) (num_scales c) c.num_ranks c.num_max_dispatch_tokens_per_rank
      ∙ ap (λ e. e * c.num_max_dispatch_tokens_per_rank * num_scales c) (sym ok.divides)
    where
      shuffle : (a b d e : ℕ) → a * b * (d * e) ≡ a * d * e * b
      shuffle a b d e = grind arith

  pair_inside : l * num_scales c + j < num_local_experts c * num_scales c
  pair_inside = mixed-lt (num_local_experts c) (num_scales c) l j i.expert i.scale

  number_inside : scale_number < c.num_experts * c.num_max_dispatch_tokens_per_rank * num_scales c
  number_inside = rw (sym all_scales) (
      mixed-lt (num_local_experts c * num_scales c) part (l * num_scales c + j) b pair_inside i.row)

  parts :
      scale_number
      ≡ l * c.num_ranks * c.num_max_dispatch_tokens_per_rank * num_scales c + j * part + b
  parts = grind arith

  some_tokens : 0 < c.num_max_dispatch_tokens_per_rank
  some_tokens = elim (eq-zero-or-pos c.num_max_dispatch_tokens_per_rank) [
    | inl none ↦ absurd (omega (arith, i.row, ap (λ m. c.num_ranks * m) none, mul-zero c.num_ranks))
    | inr pos ↦ pos
  ]

  -- Scale `j` of a row stands at its number.
  scale_index_lem : scale_index c l b j ≡ scale_number
  unfolding scale_index
  scale_index_lem =
      let first = le-mul_of_pos_right (l * c.num_ranks) some_tokens in
      let second : l * c.num_ranks * c.num_max_dispatch_tokens_per_rank
          ≤ l * c.num_ranks * c.num_max_dispatch_tokens_per_rank * num_scales c =
        le-mul_of_pos_right (l * c.num_ranks * c.num_max_dispatch_tokens_per_rank)
          (omega (arith, i.scale)) in
      let small = lt_trans number_inside few in
      let number_total : num_local_experts c * num_scales c * part < 2 ^ 31 = rw all_scales few in
      let part_le : part ≤ num_local_experts c * num_scales c * part =
        rw (mul_comm (num_local_experts c * num_scales c) part)
          (le-mul_of_pos_right part (omega (arith, pair_inside))) in
      rw
        (
          mod-eq_of_lt {n = l * c.num_ranks} {m = 2 ^ 32}
              (omega (arith, first, second, parts, small)),
          mod-eq_of_lt {n = l * c.num_ranks * c.num_max_dispatch_tokens_per_rank} {m = 2 ^ 32}
              (omega (arith, second, parts, small)),
          mod-eq_of_lt {n = part} {m = 2 ^ 32} (omega (arith, part_le, number_total)),
        )
        (ground (arith, parts, small))

-- Where the scales of all experts are fewer than 2 ^ 31: scales of different experts, rows or places in
-- the row are put at different indices, all inside `packed_recv_x_scales`.
pub scale_index-apart :
    (c : Config) (l b j l' b' j' : ℕ)
    → IsConfig c
    → IsScale c l b j
    → IsScale c l' b' j'
    → c.num_experts * c.num_max_dispatch_tokens_per_rank * num_scales c < 2 ^ 31
    → (scale_index c l b j ≡ scale_index c l' b' j' → (l ≡ l') × (b ≡ b') × (j ≡ j'))
      × (scale_index c l b j < c.num_experts * c.num_max_dispatch_tokens_per_rank * num_scales c)
scale_index-apart c l b j l' b' j' ok i i' few = (
  λ e.
      let same : (l * num_scales c + j) * part' + b ≡ (l' * num_scales c + j') * part' + b' =
        sym (scale_index_lem c ok l b j i few) ∙ e ∙ scale_index_lem c ok l' b' j' i' few in
      let outer =
        mixed_inj part' (l * num_scales c + j) b (l' * num_scales c + j') b' i.row i'.row same in
      let inner = mixed_inj (num_scales c) l j l' j' i.scale i'.scale outer.0 in
      (inner.0, outer.1, inner.1),
  rw (scale_index_lem c ok l b j i few) (number_inside c ok l b j i few),
)
  where
    part' : ℕ
    part' = c.num_ranks * c.num_max_dispatch_tokens_per_rank
