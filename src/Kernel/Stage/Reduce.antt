-- ===== src/Kernel/Stage/Reduce.antt =====
-- `half_warp_reduce_max`: the four shuffles give each lane the maximum over its half of the warp.
use native.Mathlib.Nat.{mod-one}
use ep_demo.Prelude.{
  ℕ, zero, suc, ◌+◌, ◌*◌, ◌/◌, ◌%◌, ◌<◌, ◌≡◌, ◌⊎◌, inl, inr, refl, sym, ap, ◌∙◌, Bool, true, ltb,
  ◌==◌, ◌&&◌, ◌||◌, bit_xor, arith,
}
use ep_demo.Warp.Reduce.{all_below, all_below-lt}
use ep_demo.Kernel.Stage.{Floats, IsMax, max_to, shfl_xor_max, half_warp_reduce_max}

-- Of the lanes `l` and `l ^ m`, in the same half warp, one is in the lower and one in the upper half of its
-- group of `2 * m`.
abbrev halves : ℕ → ℕ → Bool
halves m l =
    ltb (bit_xor l m) 32
    && (bit_xor l m / 16 == l / 16)
    && (((l % (2 * m) == l % m) && (bit_xor l m % (2 * m) == l % m + m))
        || ((l % (2 * m) == l % m + m) && (bit_xor l m % (2 * m) == l % m)))

halves_parts :
    (m l : ℕ)
    → halves m l ≡ true
    → (bit_xor l m < 32)
      × (bit_xor l m / 16 ≡ l / 16)
      × (((l % (2 * m) ≡ l % m) × (bit_xor l m % (2 * m) ≡ l % m + m))
          ⊎ ((l % (2 * m) ≡ l % m + m) × (bit_xor l m % (2 * m) ≡ l % m)))
halves_parts m l h = ground (arith, h)

all_halves :
    (all_below 32 (halves 8) ≡ true)
    × (all_below 32 (halves 4) ≡ true)
    × (all_below 32 (halves 2) ≡ true)
    × (all_below 32 (halves 1) ≡ true)
unfolding all_below
all_halves = (refl, refl, refl, refl)

module _ (f : Floats) (ok : IsMax f) where
  open f use {Float, fmax, fp8_margin}

  -- The margin is in the maximum already.
  abbrev pub Absorbs : Float → Type 0
  Absorbs a = fmax fp8_margin a ≡ a

  pub fmax-Absorbs : (a b : Float) → Absorbs a → Absorbs (fmax a b)
  fmax-Absorbs a b h = sym (ok.assoc fp8_margin a b) ∙ ap (λ t. fmax t b) h

  pub max_to-Absorbs : (n : ℕ) (v : ℕ → Float) → Absorbs (max_to f n v)
  unfolding max_to
  max_to-Absorbs zero v = ok.idem fp8_margin
  max_to-Absorbs (suc n) v = fmax-Absorbs (max_to f n v) (v n) (max_to-Absorbs n v)

  pub max_to-same :
      (n : ℕ) (u v : ℕ → Float) → ((i : ℕ) → i < n → u i ≡ v i) → max_to f n u ≡ max_to f n v
  unfolding max_to
  max_to-same zero u v h = refl
  max_to-same (suc n) u v h =
      ap (λ t. fmax t (u n)) (max_to-same n u v (λ i lt. h i (omega (arith, lt))))
      ∙ ap (fmax (max_to f n v)) (h n (omega arith))

  pub max_to-split :
      (m n : ℕ) (v : ℕ → Float)
      → max_to f (m + n) v ≡ fmax (max_to f m v) (max_to f n (λ i. v (m + i)))
  unfolding max_to
  max_to-split m zero v =
      ap (λ k. max_to f k v) (plus_zero m)
      ∙ sym (ok.comm (max_to f m v) fp8_margin ∙ max_to-Absorbs m v)
    where
      plus_zero : (m : ℕ) → m + 0 ≡ m
      plus_zero m = omega arith
  max_to-split m (suc n) v =
      ap (λ k. max_to f k v) (plus_suc m n)
      ∙ ap (λ t. fmax t (v (m + n))) (max_to-split m n v)
      ∙ ok.assoc (max_to f m v) (max_to f n (λ i. v (m + i))) (v (m + n))
    where
      plus_suc : (m n : ℕ) → m + suc n ≡ suc (m + n)
      plus_suc m n = omega arith

  middle : (a b c d : Float) → fmax (fmax a b) (fmax c d) ≡ fmax (fmax a c) (fmax b d)
  middle a b c d =
      ok.assoc a b (fmax c d)
      ∙ ap (fmax a) (sym (ok.assoc b c d) ∙ ap (λ t. fmax t d) (ok.comm b c) ∙ ok.assoc c b d)
      ∙ sym (ok.assoc a c (fmax b d))

  max_to-fmax :
      (n : ℕ) (u v : ℕ → Float)
      → max_to f n (λ i. fmax (u i) (v i)) ≡ fmax (max_to f n u) (max_to f n v)
  unfolding max_to
  max_to-fmax zero u v = sym (ok.idem fp8_margin)
  max_to-fmax (suc n) u v =
      ap (λ t. fmax t (fmax (u n) (v n))) (max_to-fmax n u v)
      ∙ middle (max_to f n u) (max_to f n v) (u n) (v n)

  -- A table, by rows.
  pub max_to-table :
      (m n : ℕ) (v : ℕ → Float)
      → max_to f m (λ i. max_to f n (λ j. v (i * n + j))) ≡ max_to f (m * n) v
  unfolding max_to
  max_to-table zero n v = ap (λ k. max_to f k v) (zero_times n)
    where
      zero_times : (n : ℕ) → 0 ≡ 0 * n
      zero_times n = grind arith
  max_to-table (suc m) n v =
      ap (λ t. fmax t (max_to f n (λ j. v (m * n + j)))) (max_to-table m n v)
      ∙ sym (max_to-split (m * n) n v)
      ∙ ap (λ k. max_to f k v) (suc_times m n)
    where
      suc_times : (m n : ℕ) → m * n + n ≡ suc m * n
      suc_times m n = grind arith

  -- The lanes' values are a function of the half warp and the lane within groups of `m`.
  abbrev Grouped : ℕ → (ℕ → ℕ → Float) → (ℕ → Float) → Type 0
  Grouped m g value = (l : ℕ) → l < 32 → value l ≡ g (l / 16) (l % m)

  abbrev fold : ℕ → (ℕ → ℕ → Float) → ℕ → ℕ → Float
  fold m g h j = fmax (g h j) (g h (j + m))

  fold_step :
      (m : ℕ) (g : ℕ → ℕ → Float) (value : ℕ → Float)
      → all_below 32 (halves m) ≡ true
      → Grouped (2 * m) g value
      → Grouped m (fold m g) (shfl_xor_max f m value)
  fold_step m g value table h l lt =
      let parts = halves_parts m l (all_below-lt 32 (halves m) table l lt) in
      let other : value (bit_xor l m) ≡ g (l / 16) (bit_xor l m % (2 * m)) =
        h (bit_xor l m) parts.0 ∙ ap (λ t. g t (bit_xor l m % (2 * m))) parts.1 in
      let at : ℕ → ℕ → Float = λ j k. fmax (g (l / 16) j) (g (l / 16) k) in
      ap (λ t. fmax t (value (bit_xor l m))) (h l lt)
      ∙ ap (fmax (g (l / 16) (l % (2 * m)))) other
      ∙ elim parts.2 [
        | inl q ↦ ap (λ j. at j (bit_xor l m % (2 * m))) q.0 ∙ ap (at (l % m)) q.1
        | inr q ↦
            ap (λ j. at j (bit_xor l m % (2 * m))) q.0
            ∙ ap (at (l % m + m)) q.1
            ∙ ok.comm (g (l / 16) (l % m + m)) (g (l / 16) (l % m))
      ]

  max_to-fold :
      (m : ℕ) (g : ℕ → ℕ → Float) (h : ℕ) → max_to f m (fold m g h) ≡ max_to f (m + m) (g h)
  max_to-fold m g h =
      max_to-fmax m (g h) (λ j. g h (j + m))
      ∙ ap (fmax (max_to f m (g h))) (max_to-same m _ _ (λ i lt. ap (g h) (swap i m)))
      ∙ sym (max_to-split m m (g h))
    where
      swap : (i m : ℕ) → i + m ≡ m + i
      swap i m = omega arith

  module _ (value : ℕ → Float) (absorbs : (l : ℕ) → Absorbs (value l)) where
    abbrev by_16 : ℕ → ℕ → Float
    by_16 h j = value (h * 16 + j)

    abbrev by_8 : ℕ → ℕ → Float
    by_8 = fold 8 by_16

    abbrev by_4 : ℕ → ℕ → Float
    by_4 = fold 4 by_8

    abbrev by_2 : ℕ → ℕ → Float
    by_2 = fold 2 by_4

    reduced : Grouped 1 (fold 1 by_2) (half_warp_reduce_max f value)
    reduced = fold_step 1 by_2 _ all_halves.3 (
        fold_step 2 by_4 _ all_halves.2 (
          fold_step 4 by_8 _ all_halves.1
            (fold_step 8 by_16 value all_halves.0 (λ l lt. ap value (omega arith)))))

    single : (h : ℕ) → fold 1 by_2 h 0 ≡ max_to f 1 (fold 1 by_2 h)
    unfolding max_to
    single h = sym (
        fmax-Absorbs _ _
          (fmax-Absorbs _ _ (fmax-Absorbs _ _ (fmax-Absorbs _ _ (absorbs (h * 16 + 0))))))

    -- Each lane gets the maximum of the values of its half warp.
    pub half_warp_reduce_max_lem :
        (lane : ℕ)
        → lane < 32
        → half_warp_reduce_max f value lane ≡ max_to f 16 (λ j. value (lane / 16 * 16 + j))
    half_warp_reduce_max_lem lane lt =
        reduced lane lt
        ∙ ap (fold 1 by_2 (lane / 16)) (mod-one lane)
        ∙ single (lane / 16)
        ∙ max_to-fold 1 by_2 (lane / 16)
        ∙ max_to-fold 2 by_4 (lane / 16)
        ∙ max_to-fold 4 by_8 (lane / 16)
        ∙ max_to-fold 8 by_16 (lane / 16)
