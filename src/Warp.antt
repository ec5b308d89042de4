-- ===== src/Warp.antt =====
-- include/ep_utils.cuh: what the 32 lanes of a warp do together. A lane's loop is the list of the
-- indices that it visits, a shuffle a function of the values of all lanes.
pub mod Sum
pub mod Reduce
pub mod Table
pub mod Copy
use ep_demo.Prelude.{
  ◌==◌, ◌*◌, ◌/◌, ℕ, zero, suc, ◌+◌, ◌-◌, ◌*◌, ◌/◌, ◌<◌, ◌≡◌, Bool, true, false, if◌then◌else◌, ltb,
  List, [], ◌∷◌, ◌++◌, add32, bit_xor, min,
}

-- `for (int i = first; i < n; i += stride)` on fuel: the sum of what the rounds add.
abbrev pub strided_sum : ℕ → ℕ → ℕ → ℕ → (ℕ → ℕ) → ℕ
strided_sum zero stride first n w = 0
strided_sum (suc fuel) stride first n w =
    let rest = strided_sum fuel stride (first + stride) n w in
    if ltb first n then w first + rest else 0

-- `value += __shfl_xor_sync(0xffffffff, value, mask)`, for the values of all lanes.
abbrev pub shfl_xor_add : ℕ → (ℕ → ℕ) → ℕ → ℕ
shfl_xor_add mask value lane = add32 (value lane) (value (bit_xor lane mask))

abbrev pub warp_reduce_sum : (ℕ → ℕ) → ℕ → ℕ
warp_reduce_sum value =
    shfl_xor_add 1 (shfl_xor_add 2 (shfl_xor_add 4 (shfl_xor_add 8 (shfl_xor_add 16 value))))

-- `UNROLLED_WARP_COPY`: how often a lane stores element `k` of `n`. Each store of `k` is of element `k` of
-- the source. A round of the first loop at `i` stores the elements `i + j * 32`.
abbrev pub is_element : ℕ → ℕ → ℕ
is_element k i = if i == k then 1 else 0

abbrev pub round_stores : ℕ → ℕ → ℕ → ℕ
round_stores zero k i = 0
round_stores (suc j) k i = round_stores j k i + is_element k (i + j * 32)

abbrev pub lane_stores : ℕ → ℕ → ℕ → ℕ → ℕ
lane_stores unroll_factor n k lane_id =
    let stride = unroll_factor * 32 in
    let whole = n / stride * stride in
    strided_sum n stride lane_id whole (round_stores unroll_factor k)
    + strided_sum n 32 (whole + lane_id) n (is_element k)
