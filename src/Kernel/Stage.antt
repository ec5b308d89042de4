-- ===== src/Kernel/Stage.antt =====
-- src/ep_kernel.cu, `dispatch`: the threads of a block write the message of a token to the send buffer, with
-- FP8 a scale for each 128 elements; `half_warp_reduce_max` is that of include/ep_utils.cuh. The
-- floating-point types and their operations are a parameter.
pub mod Reduce
pub mod Stores
pub mod Staged
pub mod Message
pub mod Places
use ep_demo.Prelude.{
  ℕ, zero, suc, ◌+◌, ◌-◌, ◌*◌, ◌/◌, ◌%◌, ◌<◌, ◌≡◌, Bool, true, false, ◌||◌, ◌==◌, if◌then◌else◌,
  ltb, List, [], ◌∷◌, ◌++◌, bit_xor, for_each,
}
use ep_demo.Kernel.{Config}

-- `nv_bfloat16`, `float` and `__nv_fp8x2_storage_t`, with the operations and constants of the kernel.
pub record Floats : Type 1 where
  pub Bf16 : Type 0
  pub Float : Type 0
  pub Fp8x2 : Type 0
  pub to_float : Bf16 → Float
  pub abs : Float → Float
  pub fmax : Float → Float → Float
  pub mul : Float → Float → Float
  pub div : Float → Float → Float
  pub to_fp8x2 : Float → Float → Fp8x2
  pub fp8_margin : Float
  pub fp8_amax : Float
  pub fp8_amax_inv : Float

-- The maximum of two numbers that are not NaN. The kernel's maxima start at a number.
pub record IsMax (f : Floats) : Type 0 where
  pub comm : (a b : f.Float) → f.fmax a b ≡ f.fmax b a
  pub assoc : (a b c : f.Float) → f.fmax (f.fmax a b) c ≡ f.fmax a (f.fmax b c)
  pub idem : (a : f.Float) → f.fmax a a ≡ a

-- The parts of a message, as the kernel writes them: the token's index, `rdma_x_vec[i]`, `rdma_x_scales[i]`.
pub data Place : Type 0 where
  src_idx : Place
  vec : ℕ → Place
  scale : ℕ → Place

abbrev pub same_place : Place → Place → Bool
same_place src_idx src_idx = true
same_place (vec i) (vec j) = i == j
same_place (scale i) (scale j) = i == j
same_place _ _ = false

module _ (f : Floats) where
  pub data Value : Type 0 where
    token : ℕ → Value
    int4 : List f.Bf16 → Value
    int2 : List f.Fp8x2 → Value
    float : f.Float → Value

  -- The maximum of `fp8_margin` and `n` values, as the loop over `j` takes it.
  unfoldable pub max_to : ℕ → (ℕ → f.Float) → f.Float
  max_to zero v = f.fp8_margin
  max_to (suc n) v = f.fmax (max_to n v) (v n)

  -- `value = max(value, __shfl_xor_sync(mask, value, m))`, for the values of all lanes.
  abbrev pub shfl_xor_max : ℕ → (ℕ → f.Float) → ℕ → f.Float
  shfl_xor_max m value lane = f.fmax (value lane) (value (bit_xor lane m))

  abbrev pub half_warp_reduce_max : (ℕ → f.Float) → ℕ → f.Float
  half_warp_reduce_max value =
      shfl_xor_max 1 (shfl_xor_max 2 (shfl_xor_max 4 (shfl_xor_max 8 value)))

  module _ (c : Config) (token_idx num_threads : ℕ) (x : ℕ → f.Bf16) where
    -- `fp32_values[j]` of the `i`-th read.
    abbrev pub fp32_value : ℕ → ℕ → f.Float
    fp32_value i j = f.to_float (x (i * 8 + j))

    -- `amax` before the shuffles.
    abbrev pub read_amax : ℕ → f.Float
    read_amax i = max_to 8 (λ j. f.abs (fp32_value i j))

    -- `amax` after them, on lane `lane_id` in its round at `i`: lane `l` is at `i - lane_id + l`.
    abbrev pub reduced_amax : ℕ → ℕ → f.Float
    reduced_amax lane_id i = half_warp_reduce_max (λ l. read_amax (i - lane_id + l)) lane_id

    -- `int2_value`, its pairs converted one by one.
    abbrev pub fp8_values : f.Float → ℕ → List f.Fp8x2
    fp8_values s i =
        for_each 4 (λ j.
          f.to_fp8x2 (f.mul (fp32_value i (2 * j)) s) (f.mul (fp32_value i (2 * j + 1)) s) ∷ [])

    abbrev pub bf16_values : ℕ → List f.Bf16
    bf16_values i = for_each 8 (λ j. x (i * 8 + j) ∷ [])

    -- What a round stores: lanes 0 and 16 also a scale.
    abbrev pub scale_writes : ℕ → ℕ → List (Place × Value)
    scale_writes lane_id i =
        if (lane_id == 0) || (lane_id == 16)
        then (scale (i * 8 / 128), float (f.mul (reduced_amax lane_id i) f.fp8_amax_inv)) ∷ []
        else []

    abbrev pub round_writes : ℕ → ℕ → List (Place × Value)
    round_writes lane_id i =
        if c.use_fp8
        then scale_writes lane_id i
          ++ (vec i, int2 (fp8_values (f.div f.fp8_amax (reduced_amax lane_id i)) i)) ∷ []
        else (vec i, int4 (bf16_values i)) ∷ []

    -- `for (int i = thread_id; i < hidden_bf16_int4; i += num_threads)` on fuel.
    abbrev pub strided_writes : ℕ → ℕ → ℕ → List (Place × Value)
    strided_writes zero lane_id i = []
    strided_writes (suc fuel) lane_id i =
        let rest = strided_writes fuel lane_id (i + num_threads) in
        if ltb i (c.hidden / 8) then round_writes lane_id i ++ rest else []

    abbrev pub thread_writes : ℕ → List (Place × Value)
    thread_writes thread_id =
        (if thread_id == 0 then (src_idx, token token_idx) ∷ [] else [])
        ++ strided_writes (c.hidden / 8) (thread_id % 32) thread_id

    -- Thread by thread; the threads run in any order.
    abbrev pub stage_writes : List (Place × Value)
    stage_writes = for_each num_threads thread_writes

    -- A place in terms of the loop: the maximum of each 128 elements gives their scale.
    abbrev pub block_amax : ℕ → f.Float
    block_amax b = max_to 128 (λ j. f.abs (f.to_float (x (b * 128 + j))))

    abbrev pub looped : Place → Value
    looped src_idx = token token_idx
    looped (vec i) =
        if c.use_fp8
        then int2 (fp8_values (f.div f.fp8_amax (block_amax (i / 16))) i)
        else int4 (bf16_values i)
    looped (scale b) = float (f.mul (block_amax b) f.fp8_amax_inv)

    -- What is meant, element by element: the largest magnitude of the 128 elements of block `b`, at least
    -- the margin; pair `k` of the row, scaled; and the parts of the message.
    abbrev pub largest : ℕ → ℕ → f.Float
    largest b zero = f.fp8_margin
    largest b (suc n) = f.fmax (largest b n) (f.abs (f.to_float (x (b * 128 + n))))

    abbrev pub scaled_pair : ℕ → f.Fp8x2
    scaled_pair k =
        let s = f.div f.fp8_amax (largest (k / 64) 128) in
        f.to_fp8x2 (f.mul (f.to_float (x (2 * k))) s) (f.mul (f.to_float (x (2 * k + 1))) s)

    abbrev pub staged : Place → Value
    staged src_idx = token token_idx
    staged (vec i) =
        if c.use_fp8
        then int2 (
            scaled_pair (4 * i)
            ∷ scaled_pair (4 * i + 1)
            ∷ scaled_pair (4 * i + 2)
            ∷ scaled_pair (4 * i + 3)
            ∷ [])
        else int4 (
            x (8 * i)
            ∷ x (8 * i + 1)
            ∷ x (8 * i + 2)
            ∷ x (8 * i + 3)
            ∷ x (8 * i + 4)
            ∷ x (8 * i + 5)
            ∷ x (8 * i + 6)
            ∷ x (8 * i + 7)
            ∷ [])
    staged (scale b) = float (f.mul (largest b 128) f.fp8_amax_inv)

    -- The places of the message.
    abbrev pub in_message : Place → Bool
    in_message src_idx = true
    in_message (vec i) = ltb i (c.hidden / 8)
    in_message (scale b) = if c.use_fp8 then ltb b (c.hidden / 128) else false

  -- Stores, one after the other.
  abbrev pub put_all : (Place → Value) → List (Place × Value) → Place → Value
  put_all m [] = m
  put_all m (w ∷ ws) = put_all (λ p. if same_place w.0 p then w.1 else m p) ws
