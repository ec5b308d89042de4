-- ===== src/Kernel/Stage/Staged.antt =====
-- src/ep_kernel.cu, `dispatch`: the values of a message as the loops of a round compute them, against their
-- description element by element.
use ep_demo.Prelude.{
  ℕ, zero, suc, ◌+◌, ◌*◌, ◌/◌, ◌<◌, ◌≡◌, inl, inr, refl, ap, ◌∙◌, [], ◌∷◌, arith, Bool-cases,
}
use ep_demo.Kernel.{Config}
use ep_demo.Kernel.Stage.{
  Floats, Place, src_idx, vec, scale, int2, int4, float, max_to, largest, scaled_pair, bf16_values,
  block_amax, looped, staged, fp8_values,
}

module _ (f : Floats) (c : Config) (token_idx num_threads : ℕ) (x : ℕ → f.Bf16) where
  max_to-largest :
      (b n : ℕ)
      → max_to f n (λ j. f.abs (f.to_float (x (b * 128 + j))))
        ≡ largest f c token_idx num_threads x b n
  unfolding max_to
  max_to-largest b zero = refl
  max_to-largest b (suc n) =
      ap (λ m. f.fmax m (f.abs (f.to_float (x (b * 128 + n))))) (max_to-largest b n)

  bf16-staged :
      (i : ℕ)
      → bf16_values f c token_idx num_threads x i
        ≡ x (8 * i)
          ∷ x (8 * i + 1)
          ∷ x (8 * i + 2)
          ∷ x (8 * i + 3)
          ∷ x (8 * i + 4)
          ∷ x (8 * i + 5)
          ∷ x (8 * i + 6)
          ∷ x (8 * i + 7)
          ∷ []
  bf16-staged i = λ t.
      x (start t)
      ∷ x (at 1 t)
      ∷ x (at 2 t)
      ∷ x (at 3 t)
      ∷ x (at 4 t)
      ∷ x (at 5 t)
      ∷ x (at 6 t)
      ∷ x (at 7 t)
      ∷ []
    where
      start : i * 8 + 0 ≡ 8 * i
      start = omega arith

      at : (j : ℕ) → i * 8 + j ≡ 8 * i + j
      at j = omega arith

  pair-staged :
      (i q : ℕ)
      → q < 4
      → let s = f.div f.fp8_amax (block_amax f c token_idx num_threads x (i / 16)) in
        f.to_fp8x2
          (f.mul (f.to_float (x (i * 8 + 2 * q))) s)
          (f.mul (f.to_float (x (i * 8 + (2 * q + 1)))) s)
        ≡ scaled_pair f c token_idx num_threads x (4 * i + q)
  pair-staged i q lt =
      let first : i * 8 + 2 * q ≡ 2 * (4 * i + q) = omega arith in
      let second : i * 8 + (2 * q + 1) ≡ 2 * (4 * i + q) + 1 = omega arith in
      let block : i / 16 ≡ (4 * i + q) / 64 = omega (arith, lt) in
      let scaling = ap (f.div f.fp8_amax) (
        ap (block_amax f c token_idx num_threads x) block
        ∙ max_to-largest ((4 * i + q) / 64) 128) in
      λ t.
        f.to_fp8x2 (f.mul (f.to_float (x (first t))) (scaling t))
          (f.mul (f.to_float (x (second t))) (scaling t))

  fp8-staged :
      (i : ℕ)
      → let pair = scaled_pair f c token_idx num_threads x in
        fp8_values f c token_idx num_threads x
          (f.div f.fp8_amax (block_amax f c token_idx num_threads x (i / 16)))
          i
        ≡ pair (4 * i) ∷ pair (4 * i + 1) ∷ pair (4 * i + 2) ∷ pair (4 * i + 3) ∷ []
  fp8-staged i =
      let start : 4 * i + 0 ≡ 4 * i = omega arith in
      let zeroth =
        pair-staged i 0 (omega arith) ∙ ap (scaled_pair f c token_idx num_threads x) start in
      λ t.
        zeroth t
        ∷ pair-staged i 1 (omega arith) t
        ∷ pair-staged i 2 (omega arith) t
        ∷ pair-staged i 3 (omega arith) t
        ∷ []

  -- The values that the loops compute are those described.
  pub looped-staged :
      (p : Place) → looped f c token_idx num_threads x p ≡ staged f c token_idx num_threads x p
  looped-staged src_idx = refl
  looped-staged (vec i) = elim (Bool-cases c.use_fp8) [
    | inl e ↦ rw e (ap int2 (fp8-staged i))
    | inr e ↦ rw e (ap int4 (bf16-staged i))
  ]
  looped-staged (scale b) = ap (λ m. float (f.mul m f.fp8_amax_inv)) (max_to-largest b 128)
