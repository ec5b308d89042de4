-- ===== src/Mlx5gda/Pow2.antt =====
-- src/ep_ibgda/mlx5gda.cpp: `round_up_pow2` at `uint32_t`.
use ep_demo.Prelude.{
  ℕ, zero, suc, ◌+◌, ◌*◌, ◌^◌, ◌<◌, ◌≤◌, ◌≡◌, ltb, leb, if◌then◌else◌, Option, none, some, mul32,
  inl, inr, Bool-cases, lt→ltb, ltb→lt, refl, arith, ap, ◌∙◌,
}
use native.Mathlib.Nat.{pow-suc, pow-le-pow_right}

-- `while (pow2 < n) pow2 <<= 1`, in 32 bits.
abbrev pub double_until : ℕ → ℕ → ℕ → Option ℕ
double_until zero pow2 n = none
double_until (suc fuel) pow2 n =
    let rest = double_until fuel (mul32 pow2 2) n in if ltb pow2 n then rest else some pow2

abbrev pub round_up_pow2 : ℕ → ℕ → Option ℕ
round_up_pow2 fuel n = if leb n 1 then some 1 else double_until fuel 1 n

-- A doubling below 2 ^ 31 does not wrap.
doubled : (k : ℕ) → k < 31 → mul32 (2 ^ k) 2 ≡ 2 ^ suc k
doubled k h = omega (
  arith,
  pow-suc 2 k,
  pow-le-pow_right {n = 2} (omega arith) {i = suc k} {j = 31} (omega (arith, h)),
)

double_until-more :
    (d k n : ℕ) → k < 31 → 2 ^ k < n → double_until (suc d) (2 ^ k) n ≡ double_until d (2 ^ suc k) n
double_until-more d k n h more =
    rw (lt→ltb (2 ^ k) n more) (ap (λ t. double_until d t n) (doubled k h))

longer : (f p n q : ℕ) → double_until f p n ≡ some q → double_until (suc f) p n ≡ some q
longer zero p n q h = cc
longer (suc f) p n q h = elim (Bool-cases (ltb p n)) [
  | inl more ↦ rw more (longer f (mul32 p 2) n q (rw more at h))
  | inr done ↦ rw done (rw done at h)
]

-- With `d` doublings left to 2 ^ 31.
double_until-pow :
    (d k n : ℕ)
    → d + k ≡ 31
    → n ≤ 2 ^ 31
    → 2 ^ k < 2 * n
    → (j : ℕ) × (double_until (suc d) (2 ^ k) n ≡ some (2 ^ j))
      × (n ≤ 2 ^ j)
      × (2 ^ j < 2 * n)
      × (j ≤ 31)
double_until-pow zero k n e small close = elim (Bool-cases (ltb (2 ^ k) n)) [
  | inr done ↦ (k, rw done refl, ground arith, close, omega (arith, e))
  | inl more ↦
      let f : k ≡ 31 = omega (arith, e) in
      absurd (omega (arith, ap (λ t. 2 ^ t) f, small, ltb→lt (2 ^ k) n more))
]
double_until-pow (suc d) k n e small close = elim (Bool-cases (ltb (2 ^ k) n)) [
  | inr done ↦ (k, rw done refl, ground arith, close, omega (arith, e))
  | inl more ↦
      let lt = ltb→lt (2 ^ k) n more in
      let (j, eq, above, near, fits) =
        double_until-pow d (suc k) n (omega (arith, e)) small (omega (arith, pow-suc 2 k, lt)) in
      (j, double_until-more (suc d) k n (omega (arith, e)) lt ∙ eq, above, near, fits)
]

-- A size from 1 to 2 ^ 31 is rounded up to the least power of two that holds it: the loop ends, after
-- 31 doublings at most.
pub round_up_pow2-least :
    (n : ℕ)
    → 0 < n
    → n ≤ 2 ^ 31
    → (j : ℕ) × (round_up_pow2 33 n ≡ some (2 ^ j)) × (n ≤ 2 ^ j) × (2 ^ j < 2 * n) × (j ≤ 31)
round_up_pow2-least n pos small = elim (Bool-cases (leb n 1)) [
  | inl one ↦ (0, rw one refl, ground arith, omega (arith, pos), omega arith)
  | inr more ↦
      let (j, eq, above, near, fits) = double_until-pow 31 0 n refl small (omega (arith, pos)) in
      (j, rw more (longer 32 1 n (2 ^ j) eq), above, near, fits)
]
