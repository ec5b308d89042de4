-- ===== src/Warp/Reduce.antt =====
-- `warp_reduce_sum`: the butterfly of five shuffles gives every lane the sum of all 32.
use native.Mathlib.Nat.{mod-one}
use ep_demo.Prelude.{
  ℕ, zero, suc, ◌+◌, ◌*◌, ◌%◌, ◌^◌, ◌<◌, ◌≡◌, ◌⊎◌, inl, inr, refl, ap, Bool, true, false, ltb, ◌==◌,
  ◌&&◌, ◌||◌, bit_xor, arith, Bool-cases, ==_iff,
}
use ep_demo.Warp.{shfl_xor_add, warp_reduce_sum}
use ep_demo.Warp.Sum.{sum_to}

unfoldable pub all_below : ℕ → (ℕ → Bool) → Bool
all_below zero p = true
all_below (suc n) p = all_below n p && p n

pub all_below-lt : (n : ℕ) (p : ℕ → Bool) → all_below n p ≡ true → (i : ℕ) → i < n → p i ≡ true
unfolding all_below
all_below-lt zero p h i lt = absurd (omega (arith, lt))
all_below-lt (suc n) p h i lt = elim (Bool-cases (i == n)) [
  | inl e ↦ rw ((==_iff i n).0 e) (and_right (all_below n p) (p n) h)
  | inr e ↦ all_below-lt n p (and_left (all_below n p) (p n) h) i (ground (arith, lt, e))
]
  where
    and_left : (a b : Bool) → (a && b) ≡ true → a ≡ true
    and_left true b h = refl
    and_left false b h = h

    and_right : (a b : Bool) → (a && b) ≡ true → b ≡ true
    and_right true b h = h
    and_right false b h = cc h

-- Of the lanes `l` and `l ^ m`, one is in the lower and one in the upper half of its group of `2 * m`.
abbrev halves : ℕ → ℕ → Bool
halves m l =
    ltb (bit_xor l m) 32
    && (((l % (2 * m) == l % m) && (bit_xor l m % (2 * m) == l % m + m))
        || ((l % (2 * m) == l % m + m) && (bit_xor l m % (2 * m) == l % m)))

halves_parts :
    (m l : ℕ)
    → halves m l ≡ true
    → (bit_xor l m < 32)
      × (((l % (2 * m) ≡ l % m) × (bit_xor l m % (2 * m) ≡ l % m + m))
          ⊎ ((l % (2 * m) ≡ l % m + m) × (bit_xor l m % (2 * m) ≡ l % m)))
halves_parts m l h = ground (arith, h)

-- The values of the lanes are, up to wrap-around, a function of the lane within groups of `m`.
abbrev Grouped : ℕ → (ℕ → ℕ) → (ℕ → ℕ) → Type 0
Grouped m g value = (l : ℕ) → l < 32 → value l % 2 ^ 32 ≡ g (l % m) % 2 ^ 32

fold_step :
    (m : ℕ) (g value : ℕ → ℕ)
    → all_below 32 (halves m) ≡ true
    → Grouped (2 * m) g value
    → Grouped m (λ j. g j + g (j + m)) (shfl_xor_add m value)
fold_step m g value ok h l lt =
    let parts = halves_parts m l (all_below-lt 32 (halves m) ok l lt) in
    let own = h l lt in
    let other = h (bit_xor l m) parts.0 in
    elim parts.1 [
      | inl q ↦ omega (arith, own, other, ap g q.0, ap g q.1)
      | inr q ↦ omega (arith, own, other, ap g q.0, ap g q.1)
    ]

all_halves :
    (all_below 32 (halves 16) ≡ true)
    × (all_below 32 (halves 8) ≡ true)
    × (all_below 32 (halves 4) ≡ true)
    × (all_below 32 (halves 2) ≡ true)
    × (all_below 32 (halves 1) ≡ true)
unfolding all_below
all_halves = (refl, refl, refl, refl, refl)

abbrev fold : ℕ → (ℕ → ℕ) → ℕ → ℕ
fold m g j = g j + g (j + m)

-- What the lanes of a group of 16, 8, 4 and 2 have after the shuffles before.
abbrev by_16 : (ℕ → ℕ) → ℕ → ℕ
by_16 value = fold 16 value

abbrev by_8 : (ℕ → ℕ) → ℕ → ℕ
by_8 value = fold 8 (by_16 value)

abbrev by_4 : (ℕ → ℕ) → ℕ → ℕ
by_4 value = fold 4 (by_8 value)

abbrev by_2 : (ℕ → ℕ) → ℕ → ℕ
by_2 value = fold 2 (by_4 value)

reduced : (value : ℕ → ℕ) → Grouped 1 (fold 1 (by_2 value)) (warp_reduce_sum value)
reduced value = fold_step 1 (by_2 value) _ all_halves.4 (
    fold_step 2 (by_4 value) _ all_halves.3 (
      fold_step 4 (by_8 value) _ all_halves.2 (
        fold_step 8 (by_16 value) _ all_halves.1 (
          fold_step 16 value value all_halves.0
            (λ l lt. ap (λ k. value k % 2 ^ 32) (omega (arith, lt)))))))

-- Every lane gets the sum of the values of all 32 lanes, up to wrap-around.
pub warp_reduce_sum_lem :
    (value : ℕ → ℕ) (lane : ℕ) → lane < 32 → warp_reduce_sum value lane ≡ sum_to 32 value % 2 ^ 32
unfolding sum_to
warp_reduce_sum_lem value lane lt =
    omega (arith, reduced value lane lt, ap (fold 1 (by_2 value)) (mod-one lane))
