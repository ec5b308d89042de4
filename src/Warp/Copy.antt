-- ===== src/Warp/Copy.antt =====
-- `UNROLLED_WARP_COPY`: the lanes together store every element once.
use native.Mathlib.Nat.{
  div-mul-le_self, le-mul_of_pos_right, mul-le-mul_right, zero-mul, add_assoc, le_trans,
}
use ep_demo.Prelude.{
  ℕ, zero, suc, ◌+◌, ◌-◌, ◌*◌, ◌/◌, ◌<◌, ◌≤◌, ◌≡◌, inl, inr, refl, sym, ap, ◌∙◌, true, false,
  if◌then◌else◌, ltb, arith, Bool-cases, ltb→lt, lt→ltb,
}
use ep_demo.Warp.{strided_sum, is_element, round_stores, lane_stores}
use ep_demo.Warp.Sum.{
  sum_to, sum_to-same, sum_to-add, sum_to-split, sum_to-swap, sum_to_zero, below, strided_sum-suc,
  strides-sum_to, strides-sum_from,
}
use ep_demo.Warp.Table.{sum_to-table}

round_stores_lem : (u k i : ℕ) → round_stores u k i ≡ sum_to u (λ j. is_element k (i + j * 32))
unfolding sum_to
round_stores_lem zero k i = refl
round_stores_lem (suc u) k i = ap (λ t. t + is_element k (i + u * 32)) (round_stores_lem u k i)

-- A bound that is a multiple of the stride cuts all elements of a round or none.
position : (stride m q r : ℕ) → r < stride → ltb (q * stride + r) (m * stride) ≡ ltb q m
position stride m q r lt = elim (Bool-cases (ltb q m)) [
  | inl h ↦ rw h (lt→ltb (q * stride + r) (m * stride) (inside (ltb→lt q m h)))
  | inr h ↦ rw h (outside (ground (arith, h)))
]
  where
    inside : q < m → q * stride + r < m * stride
    inside h = grind arith

    outside : m ≤ q → ltb (q * stride + r) (m * stride) ≡ false
    outside h = ground (arith, mul-le-mul_right stride h)

below-position :
    (stride m q r : ℕ) (w : ℕ → ℕ)
    → r < stride
    → (ltb q m ≡ true → below (m * stride) w (q * stride + r) ≡ w (q * stride + r))
      × (ltb q m ≡ false → below (m * stride) w (q * stride + r) ≡ 0)
below-position stride m q r w lt =
    (λ h. rw (position stride m q r lt, h) refl, λ h. rw (position stride m q r lt, h) refl)

module _ (u m k lane : ℕ) (pos : 0 < u) (lt : lane < 32) where
  abbrev stride : ℕ
  stride = u * 32

  abbrev stored : ℕ → ℕ
  stored = round_stores u k

  in_round : (j : ℕ) → j < u → lane + j * 32 < stride
  in_round j h = omega (arith, h, lt)

  -- What a round of the lane stores is what `u` single steps store.
  round_lem :
      (q : ℕ)
      → below (m * stride) stored (q * stride + lane)
        ≡ sum_to u (λ j. below (m * stride) (is_element k) (q * stride + (lane + j * 32)))
  round_lem q = elim (Bool-cases (ltb q m)) [
    | inl h ↦
        (below-position stride m q lane stored (omega (arith, lt, pos))).0 h
        ∙ round_stores_lem u k (q * stride + lane)
        ∙ sum_to-same u _ _ (λ j lj.
          ap (is_element k) (add_assoc (q * stride) lane (j * 32))
          ∙ sym ((below-position stride m q (lane + j * 32) (is_element k) (in_round j lj)).0 h))
    | inr h ↦
        (below-position stride m q lane stored (omega (arith, lt, pos))).1 h
        ∙ sym (
            sum_to_zero u _ (λ j lj.
              (below-position stride m q (lane + j * 32) (is_element k) (in_round j lj)).1 h))
  ]

  rounds_lem :
      (fuel q : ℕ)
      → strided_sum fuel stride (q * stride + lane) (m * stride) stored
        ≡ sum_to u (λ j.
          strided_sum fuel stride (q * stride + (lane + j * 32)) (m * stride) (is_element k))
  rounds_lem zero q = sym (sum_to_zero u _ (λ j lj. refl))
  rounds_lem (suc fuel) q =
      strided_sum-suc stride (m * stride) stored fuel (q * stride + lane)
      ∙ ap
          (λ i.
            below (m * stride) stored (q * stride + lane)
            + strided_sum fuel stride i (m * stride) stored)
          (next lane)
      ∙ ap (λ t. below (m * stride) stored (q * stride + lane) + t) (rounds_lem fuel (suc q))
      ∙ ap
          (λ t.
            t
            + sum_to u (λ j.
              strided_sum fuel stride (suc q * stride + (lane + j * 32)) (m * stride)
                (is_element k)))
          (round_lem q)
      ∙ sym (sum_to-add u _ _)
      ∙ sum_to-same u _ _ (λ j lj.
        ap
          (λ i.
            below (m * stride) (is_element k) (q * stride + (lane + j * 32))
            + strided_sum fuel stride i (m * stride) (is_element k))
          (sym (next (lane + j * 32)))
        ∙ sym (
            strided_sum-suc stride (m * stride) (is_element k) fuel (q * stride + (lane + j * 32))))
    where
      next : (r : ℕ) → q * stride + r + stride ≡ suc q * stride + r
      next r = grind arith

-- The first loops of the lanes store every element below their bound once.
whole_lem :
    (u m k fuel : ℕ)
    → 0 < u
    → m * (u * 32) ≤ fuel * (u * 32)
    → sum_to 32 (λ lane. strided_sum fuel (u * 32) lane (m * (u * 32)) (round_stores u k))
      ≡ sum_to (m * (u * 32)) (is_element k)
whole_lem u m k fuel pos enough =
    sum_to-same 32 _ _ (λ lane lt.
      ap (λ i. strided_sum fuel (u * 32) i (m * (u * 32)) (round_stores u k)) (start lane)
      ∙ rounds_lem u m k lane pos lt fuel 0)
    ∙ sum_to-swap 32 u _
    ∙ sum_to-same u _ _ (λ j lj. sum_to-same 32 _ _ (λ lane lt.
      ap (λ i. strided_sum fuel (u * 32) i (m * (u * 32)) (is_element k))
        (sym (start (lane + j * 32)))))
    ∙ sym (
        sum_to-table u 32
          (λ j lane. strided_sum fuel (u * 32) (lane + j * 32) (m * (u * 32)) (is_element k)))
    ∙ sum_to-same (u * 32) _ _
        (λ i lt. ap (λ i. strided_sum fuel (u * 32) i (m * (u * 32)) (is_element k)) (omega arith))
    ∙ strides-sum_to (u * 32) (m * (u * 32)) (is_element k) fuel enough
  where
    start : (r : ℕ) → r ≡ 0 * (u * 32) + r
    start r = omega (arith, zero-mul (u * 32))

pub is_element-once : (k n : ℕ) → sum_to n (is_element k) ≡ (if ltb k n then 1 else 0)
unfolding sum_to
is_element-once k zero = ground arith
is_element-once k (suc n) = ground (arith, is_element-once k n)

-- All lanes together store each of the `n` elements exactly once, and nothing else, whatever the unroll
-- factor and the number of elements left over for the second loop.
pub unrolled_copy_lem :
    (unroll_factor n k : ℕ)
    → 0 < unroll_factor
    → sum_to 32 (λ lane. lane_stores unroll_factor n k lane) ≡ (if ltb k n then 1 else 0)
unrolled_copy_lem u n k pos =
    let m = n / (u * 32) in
    let whole = m * (u * 32) in
    let fits : whole ≤ n = div-mul-le_self n (u * 32) in
    sum_to-add 32 (λ lane. strided_sum n (u * 32) lane whole (round_stores u k))
      (λ lane. strided_sum n 32 (whole + lane) n (is_element k))
    ∙ ap (λ t. t + sum_to 32 (λ lane. strided_sum n 32 (whole + lane) n (is_element k)))
        (whole_lem u m k n pos (le_trans fits (le-mul_of_pos_right n (omega (arith, pos)))))
    ∙ ap (λ t. sum_to whole (is_element k) + t)
        (strides-sum_from 32 n (is_element k) n whole (n - whole) (omega (arith, fits))
          (omega arith))
    ∙ sym (sum_to-split whole (n - whole) (is_element k))
    ∙ ap (λ t. sum_to t (is_element k)) (omega (arith, fits))
    ∙ is_element-once k n
