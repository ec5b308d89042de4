-- ===== src/Warp/Sum.antt =====
-- Sums of a warp: the lanes' loops visit each index once, and the butterfly of shuffles adds all lanes.
use native.Mathlib.Nat.{add-zero, zero-add, add-suc, add_assoc, zero-mul}
use ep_demo.Prelude.{
  ℕ, zero, suc, ◌+◌, ◌-◌, ◌*◌, ◌<◌, ◌≤◌, ◌≡◌, inl, inr, refl, sym, ap, ◌∙◌, if◌then◌else◌, ltb,
  arith, Bool-cases, lt→ltb,
}
use ep_demo.Warp.{strided_sum}

unfoldable pub sum_to : ℕ → (ℕ → ℕ) → ℕ
sum_to zero f = 0
sum_to (suc n) f = sum_to n f + f n

pub sum_to-same : (n : ℕ) (f g : ℕ → ℕ) → ((i : ℕ) → i < n → f i ≡ g i) → sum_to n f ≡ sum_to n g
unfolding sum_to
sum_to-same zero f g h = refl
sum_to-same (suc n) f g h =
    omega (arith, sum_to-same n f g (λ i lt. h i (omega (arith, lt))), h n (omega arith))

pub sum_to-add : (n : ℕ) (f g : ℕ → ℕ) → sum_to n (λ i. f i + g i) ≡ sum_to n f + sum_to n g
unfolding sum_to
sum_to-add zero f g = refl
sum_to-add (suc n) f g = omega (arith, sum_to-add n f g)

pub sum_to-split : (m n : ℕ) (f : ℕ → ℕ) → sum_to (m + n) f ≡ sum_to m f + sum_to n (λ i. f (m + i))
unfolding sum_to
sum_to-split m zero f = rw (add-zero m) (sym (add-zero (sum_to m f)))
sum_to-split m (suc n) f = ap (λ k. sum_to k f) (add-suc m n) ∙ omega (arith, sum_to-split m n f)

pub sum_to_zero : (n : ℕ) (f : ℕ → ℕ) → ((i : ℕ) → i < n → f i ≡ 0) → sum_to n f ≡ 0
unfolding sum_to
sum_to_zero zero f h = refl
sum_to_zero (suc n) f h =
    omega (arith, sum_to_zero n f (λ i lt. h i (omega (arith, lt))), h n (omega arith))

-- Two sums in the other order.
pub sum_to-swap :
    (m n : ℕ) (w : ℕ → ℕ → ℕ)
    → sum_to m (λ i. sum_to n (λ j. w i j)) ≡ sum_to n (λ j. sum_to m (λ i. w i j))
unfolding sum_to
sum_to-swap zero n w = sym (sum_to_zero n (λ j. 0) (λ j lt. refl))
sum_to-swap (suc m) n w =
    ap (λ t. t + sum_to n (λ j. w m j)) (sum_to-swap m n w)
    ∙ sym (sum_to-add n (λ j. sum_to m (λ i. w i j)) (λ j. w m j))

-- What index `i` adds to a sum over the indices below `n`.
abbrev pub below : ℕ → (ℕ → ℕ) → ℕ → ℕ
below n w i = if ltb i n then w i else 0

module _ (stride n : ℕ) (w : ℕ → ℕ) where
  strided_sum-past : (fuel i : ℕ) → n ≤ i → strided_sum fuel stride i n w ≡ 0
  strided_sum-past zero i h = refl
  strided_sum-past (suc fuel) i h = ground (arith, h)

  pub strided_sum-suc :
      (fuel i : ℕ)
      → strided_sum (suc fuel) stride i n w ≡ below n w i + strided_sum fuel stride (i + stride) n w
  strided_sum-suc fuel i = elim (Bool-cases (ltb i n)) [
    | inl h ↦ rw h refl
    | inr h ↦ rw (h, strided_sum-past fuel (i + stride) (ground (arith, h))) refl
  ]

  strides_from :
      (fuel b : ℕ)
      → sum_to stride (λ lane. strided_sum fuel stride (b + lane) n w)
        ≡ sum_to (fuel * stride) (λ i. below n w (b + i))
  unfolding sum_to
  strides_from zero b =
      sum_to_zero stride (λ lane. 0) (λ i lt. refl)
      ∙ ap (λ k. sum_to k (λ i. below n w (b + i))) (sym (zero-mul stride))
  strides_from (suc fuel) b =
      sum_to-same stride _ _ (λ lane lt. strided_sum-suc fuel (b + lane))
      ∙ sum_to-add stride (λ lane. below n w (b + lane))
          (λ lane. strided_sum fuel stride (b + lane + stride) n w)
      ∙ ap (λ t. sum_to stride (λ i. below n w (b + i)) + t)
          (sum_to-same stride _ _
              (λ lane lt. ap (λ k. strided_sum fuel stride k n w) (swap_last b lane))
            ∙ strides_from fuel (b + stride)
            ∙ sum_to-same (fuel * stride) _ _ (λ i lt. ap (below n w) (add_assoc b stride i)))
      ∙ sym (sum_to-split stride (fuel * stride) (λ i. below n w (b + i)))
      ∙ ap (λ k. sum_to k (λ i. below n w (b + i))) (suc_times fuel)
    where
      swap_last : (b lane : ℕ) → b + lane + stride ≡ b + stride + lane
      swap_last b lane = omega arith

      suc_times : (fuel : ℕ) → stride + fuel * stride ≡ suc fuel * stride
      suc_times fuel = grind arith

  -- The loops that begin at `b` together add each index from `b` to the end once.
  pub strides-sum_from :
      (fuel b m : ℕ)
      → n ≡ b + m
      → m ≤ fuel * stride
      → sum_to stride (λ lane. strided_sum fuel stride (b + lane) n w) ≡ sum_to m (λ i. w (b + i))
  strides-sum_from fuel b m e enough =
      strides_from fuel b
      ∙ ap (λ k. sum_to k (λ i. below n w (b + i))) (split_at enough)
      ∙ sum_to-split m (fuel * stride - m) (λ i. below n w (b + i))
      ∙ omega (
        arith,
        sum_to-same m (λ i. below n w (b + i)) (λ i. w (b + i))
            (λ i lt. rw (lt→ltb (b + i) n (omega (arith, lt, e))) refl),
        sum_to_zero (fuel * stride - m) (λ i. below n w (b + (m + i))) (λ i lt. ground (arith, e)),
      )
    where
      split_at : {k : ℕ} → m ≤ k → k ≡ m + (k - m)
      split_at h = omega (arith, h)

  pub strides-sum_to :
      (fuel : ℕ)
      → n ≤ fuel * stride
      → sum_to stride (λ lane. strided_sum fuel stride lane n w) ≡ sum_to n w
  strides-sum_to fuel enough =
      sum_to-same stride _ _
        (λ lane lt. ap (λ k. strided_sum fuel stride k n w) (sym (zero-add lane)))
      ∙ strides-sum_from fuel 0 n (sym (zero-add n)) enough
      ∙ sum_to-same n _ _ (λ i lt. ap w (zero-add i))
