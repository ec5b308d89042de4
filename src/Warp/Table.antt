-- ===== src/Warp/Table.antt =====
-- A sum over a table, by rows or by index.
use native.Mathlib.Nat.{
  mul-add-mod_self_right, mul-add-div_right, div-eq_of_lt, mod-eq_of_lt, zero-mul,
}
use ep_demo.Prelude.{ℕ, zero, suc, ◌+◌, ◌*◌, ◌/◌, ◌%◌, ◌<◌, ◌≡◌, refl, ap, ◌∙◌, arith}
use ep_demo.Warp.Sum.{sum_to, sum_to-same, sum_to-split}

-- A sum over a table, by rows.
pub sum_to-table :
    (m n : ℕ) (w : ℕ → ℕ → ℕ)
    → sum_to (m * n) (λ i. w (i / n) (i % n)) ≡ sum_to m (λ t. sum_to n (λ j. w t j))
unfolding sum_to
sum_to-table zero n w = ap (λ k. sum_to k (λ i. w (i / n) (i % n))) (zero-mul n)
sum_to-table (suc m) n w =
    ap (λ k. sum_to k (λ i. w (i / n) (i % n))) times
    ∙ sum_to-split (m * n) n (λ i. w (i / n) (i % n))
    ∙ omega (
      arith,
      sum_to-table m n w,
      sum_to-same n (λ j. w ((m * n + j) / n) ((m * n + j) % n)) (w m)
          (λ j lt. rw (row j lt, column j lt) refl),
    )
  where
    times : suc m * n ≡ m * n + n
    times = grind arith

    row : (j : ℕ) → j < n → (m * n + j) / n ≡ m
    row j lt = omega (arith, mul-add-div_right {m = n} (omega (arith, lt)) m j, div-eq_of_lt lt)

    column : (j : ℕ) → j < n → (m * n + j) % n ≡ j
    column j lt = mul-add-mod_self_right m n j ∙ mod-eq_of_lt lt
