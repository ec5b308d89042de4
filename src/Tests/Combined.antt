-- ===== src/Tests/Combined.antt =====
-- Two rows of 16 elements, with numbers in place of floating-point values.
use ep_demo.Prelude.{
  ℕ, zero, suc, ◌+◌, ◌*◌, ◌/◌, ◌%◌, ◌^◌, ◌<◌, ◌≡◌, refl, Option, none, some, arith,
}
use ep_demo.Warp.{strided_sum, is_element}
use ep_demo.Warp.Sum.{sum_to}
use ep_demo.Kernel.Flow.Combine.{add_entries}
use ep_demo.Kernel.Combined.{Narrowing, element_wise, combined_int4, combined_int4-lem}

-- A word of 32 bits, of which narrowing keeps the upper half.
abbrev words : Narrowing
words = record {
  F = ℕ;
  H = ℕ;
  zero_value = 0;
  add = λ a b. a + b;
  mul = λ a b. a * b;
  to_float = λ h. h * 2 ^ 16;
  low = λ a. a % 2 ^ 16;
  high = λ a. a / 2 ^ 16;
  narrow = λ l h. h;
}

abbrev two_entries : ℕ → Option ℕ
two_entries zero = some 4
two_entries (suc zero) = some 6
two_entries (suc (suc i)) = none

combined_int4-lem_example :
    (sum_to 2 (λ sm_id. strided_sum 5 2 sm_id 5 (is_element 3)) ≡ 1)
    × (11 / 8 < 32)
    × (combined_int4 words (λ e i. e * i) two_entries (λ i. i + 1) 2 (11 / 8) (11 % 8)
        ≡ (element_wise words).round
            (add_entries (element_wise words) (λ e i. e * i) two_entries (λ i. i + 1) 2)
            11)
combined_int4-lem_example =
    combined_int4-lem words (λ e i. e * i) two_entries (λ i. i + 1) 2 16 32 2 5 3 11 refl
      (omega arith) (omega arith) (omega arith) (omega arith)

-- Element 11: 4 * 11 * 1 + 6 * 11 * 2.
element_11 : combined_int4 words (λ e i. e * i) two_entries (λ i. i + 1) 2 1 3 ≡ 176
element_11 = refl
