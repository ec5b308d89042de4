-- ===== src/Tests/Stage.antt =====
-- The message of a token of 128 elements, with numbers in place of floating-point values.
use mathlib.Core.List.Permᴰ
use ep_demo.Prelude.{
  ℕ, ◌+◌, ◌≤◌, false, ◌*◌, ◌/◌, ◌≡◌, refl, max, true, [], ◌∷◌, arith, if◌then◌else◌,
}
use ep_demo.Kernel.{Config, num_bytes_per_msg}
use ep_demo.Kernel.Stage.{
  Floats, IsMax, same_place, max_to, vec, scale, token, int2, float, put_all, in_message, staged,
  stage_writes,
}
use ep_demo.Kernel.Stage.Places.{place_offset, place_size, Disjoint, stage-Disjoint}
use ep_demo.Kernel.Stage.Message.{stage_lem}

abbrev numbers : Floats
numbers = record {
  Bf16 = ℕ;
  Float = ℕ;
  Fp8x2 = ℕ × ℕ;
  to_float = λ a. a;
  abs = λ a. a;
  fmax = max;
  mul = λ a b. a * b;
  div = λ a b. a / b;
  to_fp8x2 = λ a b. (a, b);
  fp8_margin = 1;
  fp8_amax = 448;
  fp8_amax_inv = 2;
}

numbers-IsMax : IsMax numbers
numbers-IsMax = record {
  comm = λ a b. omega arith;
  assoc = λ a b c. omega arith;
  idem = λ a. omega arith;
}

abbrev row_config : Config
row_config = record {
  num_experts = 16;
  num_ranks = 2;
  num_max_dispatch_tokens_per_rank = 128;
  hidden = 128;
  use_fp8 = true;
}

stage_lem_example :
    put_all numbers (λ p. token 7) (stage_writes numbers row_config 5 (1 * 32) (λ i. i)) (scale 0)
    ≡ (if in_message numbers row_config 5 (1 * 32) (λ i. i) (scale 0)
        then staged numbers row_config 5 (1 * 32) (λ i. i) (scale 0)
        else token 7)
stage_lem_example =
    stage_lem numbers row_config 5 1 (λ i. i) (stage_writes numbers row_config 5 (1 * 32) (λ i. i))
      (λ p. token 7) (scale 0) numbers-IsMax (omega arith) (omega arith) (Permᴰ.refl _)

-- By evaluation: the scale is that of the largest element, 127.
staged_scale :
    put_all numbers (λ p. token 7) (stage_writes numbers row_config 5 32 (λ i. i)) (scale 0)
    ≡ float 254
unfolding max_to
staged_scale = refl

staged_last :
    put_all numbers (λ p. token 7) (stage_writes numbers row_config 5 32 (λ i. i)) (vec 15)
    ≡ int2 ((360, 363) ∷ (366, 369) ∷ (372, 375) ∷ (378, 381) ∷ [])
unfolding max_to
staged_last = refl

stage-Disjoint_example :
    (place_offset row_config (vec 15) + place_size row_config (vec 15)
      ≤ num_bytes_per_msg row_config)
    × (same_place (vec 15) (scale 0) ≡ false → Disjoint row_config (vec 15) (scale 0))
stage-Disjoint_example =
    stage-Disjoint numbers row_config 5 32 (λ i. i) (vec 15) (scale 0) refl (omega arith) refl refl
