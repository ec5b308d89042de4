-- ===== src/Kernel/Areas.antt =====
-- Numbers in mixed radix, and areas of one size laid one behind the other.
use native.Mathlib.Nat.{
  mul-le-mul, mul-le-mul_right, mul-add-div_right, div-eq_of_lt, suc-mul, le_trans,
}
use native.Mathlib.Decide.{dec_lt}
use ep_demo.Prelude.{
  ℕ, suc, ◌+◌, ◌*◌, ◌/◌, ◌^◌, ◌<◌, ◌≤◌, ◌≡◌, ◌≢◌, ◌⊎◌, ◌∙◌, inl, inr, sym, ap, arith, mul_size,
  size_of_int,
}

pub mixed-lt : (l n e r : ℕ) → e < l → r < n → e * n + r < l * n
mixed-lt l n e r he hr = grind arith

pub mixed_div : (m q s : ℕ) → s < m → (q * m + s) / m ≡ q
mixed_div m q s h = omega (arith, mul-add-div_right {m = m} (omega arith) q s, div-eq_of_lt h)

pub mixed_inj : (m q s q' s' : ℕ) → s < m → s' < m → q * m + s ≡ q' * m + s' → (q ≡ q') × (s ≡ s')
mixed_inj m q s q' s' h h' e = (same, rest)
  where
    same : q ≡ q'
    same = sym (mixed_div m q s h) ∙ ap (λ t. t / m) e ∙ mixed_div m q' s' h'

    rest : s ≡ s'
    rest = omega (arith, e, ap (λ t. t * m) same)

pub slot_number-lt : (l n m e r s : ℕ) → e < l → r < n → s < m → (e * n + r) * m + s < l * n * m
slot_number-lt l n m e r s he hr hs = mixed-lt (l * n) m (e * n + r) s (mixed-lt l n e r he hr) hs

-- Areas at two numbers of a region do not meet.
pub areas_apart : (b i j : ℕ) → i ≢ j → (i * b + b ≤ j * b) ⊎ (j * b + b ≤ i * b)
areas_apart b i j ne = elim (dec_lt i j) [
  | yes lt ↦ inl (omega (arith, mul-le-mul_right b lt, suc-mul i b))
  | no ge ↦ inr (omega (arith, mul-le-mul_right {m = suc j} {n = i} b (omega arith), suc-mul j b))
]

pub area_inside : (b i n : ℕ) → i < n → i * b + b ≤ n * b
area_inside b i n lt = omega (arith, mul-le-mul_right b lt, suc-mul i b)

-- A count of areas times their size, below the bounds of `IsConfig`.
pub small_product : (n b : ℕ) → n < 2 ^ 31 → b ≤ 2 ^ 22 → n * b ≤ 2 ^ 53
small_product n b hn hb =
    le_trans (mul-le-mul {n₁ = n} {m₁ = b} {n₂ = 2 ^ 31} {m₂ = 2 ^ 22} (omega arith) hb)
      (omega arith)

pub small_area : (n b : ℕ) → n < 2 ^ 31 → b ≤ 2 ^ 22 → mul_size (size_of_int n) b ≡ n * b
small_area n b hn hb = ground (arith, hn, small_product n b hn hb)
