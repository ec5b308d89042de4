-- ===== src/Tests/Warp.antt =====
-- Sums and copies of a warp.
use ep_demo.Prelude.{◌+◌, ◌≡◌, arith, refl, if◌then◌else◌, ltb}
use ep_demo.Warp.{warp_reduce_sum, lane_stores}
use ep_demo.Warp.Copy.{unrolled_copy_lem}
use ep_demo.Warp.Sum.{sum_to}

-- The sum of 1 to 32, at lane 7.
sum_1_to_32 : warp_reduce_sum (λ l. l + 1) 7 ≡ 528
sum_1_to_32 = refl

-- 70 elements, two of them in a row: one round of the first loop, and the rest in the second.
unrolled_copy_lem_example :
    sum_to 32 (λ lane. lane_stores 2 70 65 lane) ≡ (if ltb 65 70 then 1 else 0)
unrolled_copy_lem_example = unrolled_copy_lem 2 70 65 (omega arith)
