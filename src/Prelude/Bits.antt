-- ===== src/Prelude/Bits.antt =====
-- Masks, disjoint fields and powers of two: what the C bit operators compute, as arithmetic.
use Prim.Native.Nat.{
  ℕ, zero, suc, ◌+◌, ◌-◌, ◌*◌, ◌/◌, ◌%◌, ◌^◌, ◌≤◌, ◌<◌, min, max, ◌∣◌, bit_and, bit_or, digits,
  bit_and-bitwise, bit_or-bitwise,
}
use mathlib.Core.Path.{◌≡◌, refl, ap, sym, ◌∙◌}
use mathlib.Core.Logic.{inl, inr}
use ep_demo.Prelude.Tests.{◌==◌, Bool-cases}
use native.Mathlib.Nat.{
  div-add-mod', mod-lt, mod-eq_of_lt, div-lt_iff_lt-mul, pow-suc, one-le-pow, mod_self,
  mod-mod_of_dvd, dvd_refl, dvd-mul_right_of_dvd,
}
use native.Mathlib.Omega.{arith}

-- The meaning of a bit operation does not depend on fuel beyond the number of digits.
digits_enough :
    (z : ℕ → ℕ) (f : ℕ → ℕ → ℕ) (n m a b : ℕ) → a ≤ n → a ≤ m → digits z f n a b ≡ digits z f m a b
digits_enough z f zero zero a b p q = refl
digits_enough z f (suc n) zero zero b p q = refl
digits_enough z f (suc n) zero (suc a) b p q = absurd (omega arith)
digits_enough z f zero (suc m) zero b p q = refl
digits_enough z f zero (suc m) (suc a) b p q = absurd (omega arith)
digits_enough z f (suc n) (suc m) zero b p q = refl
digits_enough z f (suc n) (suc m) (suc a) b p q =
    omega (arith, digits_enough z f n m (suc a / 2) (b / 2) (omega arith) (omega arith))

pub and_halves : (a b : ℕ) → bit_and a b ≡ bit_and (a / 2) (b / 2) * 2 + min (a % 2) (b % 2)
and_halves zero b = omega (arith, bit_and-bitwise 0 b, bit_and-bitwise 0 (b / 2))
and_halves (suc a) b = omega (
  arith,
  bit_and-bitwise (suc a) b,
  bit_and-bitwise (suc a / 2) (b / 2),
  digits_enough (λ y. zero) min a (suc a / 2) (suc a / 2) (b / 2) (omega arith) (omega arith),
)

pub or_halves : (a b : ℕ) → bit_or a b ≡ bit_or (a / 2) (b / 2) * 2 + max (a % 2) (b % 2)
or_halves zero b = omega (arith, bit_or-bitwise 0 b, bit_or-bitwise 0 (b / 2))
or_halves (suc a) b = omega (
  arith,
  bit_or-bitwise (suc a) b,
  bit_or-bitwise (suc a / 2) (b / 2),
  digits_enough (λ y. y) max a (suc a / 2) (suc a / 2) (b / 2) (omega arith) (omega arith),
)

and-zero_below : (n a : ℕ) → a ≤ n → bit_and a 0 ≡ 0
and-zero_below n zero h = refl
and-zero_below zero (suc a) h = absurd (omega arith)
and-zero_below (suc n) (suc a) h =
    omega (arith, and_halves (suc a) 0, and-zero_below n (suc a / 2) (omega arith))

or-zero_below : (n a : ℕ) → a ≤ n → bit_or a 0 ≡ a
or-zero_below n zero h = refl
or-zero_below zero (suc a) h = absurd (omega arith)
or-zero_below (suc n) (suc a) h =
    omega (arith, or_halves (suc a) 0, or-zero_below n (suc a / 2) (omega arith))

pub and-zero : (a : ℕ) → bit_and a 0 ≡ 0
and-zero a = and-zero_below a a (omega arith)

pub or-zero : (a : ℕ) → bit_or a 0 ≡ a
or-zero a = or-zero_below a a (omega arith)

double_pow : (q k : ℕ) → q * 2 ^ suc k ≡ 2 * (q * 2 ^ k)
double_pow q k = omega (arith, ap (λ (t : ℕ). q * t) (pow-suc 2 k))

-- Below, `q` is what stands above bit `k`, and `r` what stands below it.
pub or_fields : (k q r : ℕ) → r < 2 ^ k → bit_or (q * 2 ^ k) r ≡ q * 2 ^ k + r
or_fields zero q r h = ground (arith, or-zero q)
or_fields (suc k) q r h = omega (
  arith,
  pow-suc 2 k,
  double_pow q k,
  or_halves (q * 2 ^ suc k) r,
  ap (λ (t : ℕ). bit_or t (r / 2)) (half_of_double (q * 2 ^ suc k) (q * 2 ^ k) (double_pow q k)),
  or_fields k q (r / 2) (omega (arith, pow-suc 2 k)),
)
  where
    half_of_double : (m n : ℕ) → m ≡ 2 * n → m / 2 ≡ n
    half_of_double m n e = omega arith

and_fields : (k q r : ℕ) → r < 2 ^ k → bit_and (q * 2 ^ k + r) (2 ^ k - 1) ≡ r
and_fields zero q r h = omega (arith, and-zero (q * 1 + r))
and_fields (suc k) q r h = ground (
  arith,
  pow-suc 2 k,
  one-le-pow k 2,
  double_pow q k,
  and_halves (q * 2 ^ suc k + r) (2 ^ suc k - 1),
  and_fields k q (r / 2),
)

or_ones : (k q r : ℕ) → r < 2 ^ k → bit_or (q * 2 ^ k + r) (2 ^ k - 1) ≡ q * 2 ^ k + (2 ^ k - 1)
or_ones zero q r h = omega (arith, or-zero (q * 1 + r))
or_ones (suc k) q r h = ground (
  arith,
  pow-suc 2 k,
  one-le-pow k 2,
  double_pow q k,
  or_halves (q * 2 ^ suc k + r) (2 ^ suc k - 1),
  or_ones k q (r / 2),
)

pub and_mask : (k a : ℕ) → bit_and a (2 ^ k - 1) ≡ a % 2 ^ k
and_mask k a = ground (arith, one-le-pow k 2, and_fields k (a / 2 ^ k) (a % 2 ^ k))

pub or_mask : (k a : ℕ) → bit_or a (2 ^ k - 1) ≡ a / 2 ^ k * 2 ^ k + (2 ^ k - 1)
or_mask k a = ground (arith, one-le-pow k 2, or_ones k (a / 2 ^ k) (a % 2 ^ k))

and_self_below : (n a : ℕ) → a ≤ n → bit_and a a ≡ a
and_self_below n zero h = refl
and_self_below zero (suc a) h = absurd (omega arith)
and_self_below (suc n) (suc a) h =
    omega (arith, and_halves (suc a) (suc a), and_self_below n (suc a / 2) (omega arith))

-- The test `(a & (a - 1)) == 0` finds exactly the powers of two (and 0).
pow_of_test_below : (n a : ℕ) → a ≤ n → 0 < a → bit_and a (a - 1) ≡ 0 → (k : ℕ) × (a ≡ 2 ^ k)
pow_of_test_below n zero h pos t = absurd (omega arith)
pow_of_test_below zero (suc a) h pos t = absurd (omega arith)
pow_of_test_below (suc n) (suc a) h pos t = elim (Bool-cases (suc a % 2 == 0)) [
  | inl even ↦
      let (k, e) =
        pow_of_test_below n (suc a / 2) (omega arith) (ground arith)
          (ground (arith, and_halves (suc a) a)) in
      (suc k, ground (arith, pow-suc 2 k))
  | inr odd ↦ (0, ground (arith, and_halves (suc a) a, and_self_below a (suc a / 2)))
]

pub pow_of_test : (a : ℕ) → 0 < a → bit_and a (a - 1) ≡ 0 → (k : ℕ) × (a ≡ 2 ^ k)
pow_of_test a pos t = pow_of_test_below a a (omega arith) pos t

pub test_of_pow : (k : ℕ) → bit_and (2 ^ k) (2 ^ k - 1) ≡ 0
test_of_pow k = and_mask k (2 ^ k) ∙ mod_self (2 ^ k)

-- A smaller power of two divides a larger one.
pow-dvd-pow : (k d : ℕ) → (2 ^ k) ∣ (2 ^ (d + k))
pow-dvd-pow k zero = let e : 0 + k ≡ k = omega arith in rw e (dvd_refl (2 ^ k))
pow-dvd-pow k (suc d) =
    let e : suc d + k ≡ suc (d + k) = omega arith in
    rw (e, pow-suc 2 (d + k)) (dvd-mul_right_of_dvd (2 ^ k) (pow-dvd-pow k d) 2)

pub mod_pow_mod : (k n a : ℕ) → k ≤ n → a % 2 ^ n % 2 ^ k ≡ a % 2 ^ k
mod_pow_mod k n a h =
    let e : n ≡ n - k + k = omega (arith, h) in
    ap (λ t. a % 2 ^ t % 2 ^ k) e ∙ mod-mod_of_dvd (2 ^ k) a (pow-dvd-pow k (n - k))

plain : (q r : ℕ) → r < 1 → q * 1 + r ≡ q
plain q r h = omega arith

times_one : (m : ℕ) → m * 1 ≡ m
times_one m = omega arith

-- What a mask of high bits keeps.
pub and_high : (k q r m : ℕ) → r < 2 ^ k → bit_and (q * 2 ^ k + r) (m * 2 ^ k) ≡ bit_and q m * 2 ^ k
and_high zero q r m h =
    ap (λ (t : ℕ). bit_and t (m * 1)) (plain q r h)
    ∙ ap (λ (t : ℕ). bit_and q t) (times_one m)
    ∙ sym (times_one (bit_and q m))
and_high (suc k) q r m h = omega (
  arith,
  pow-suc 2 k,
  double_pow q k,
  double_pow m k,
  double_pow (bit_and q m) k,
  and_halves (q * 2 ^ suc k + r) (m * 2 ^ suc k),
  ap (λ (t : ℕ). bit_and ((q * 2 ^ suc k + r) / 2) t)
      (half_of_double (m * 2 ^ suc k) (m * 2 ^ k) (double_pow m k)),
  ap (λ (t : ℕ). bit_and t (m * 2 ^ k))
      (half_of_sum (q * 2 ^ suc k) (q * 2 ^ k) r (double_pow q k)),
  and_high k q (r / 2) m (omega (arith, h, pow-suc 2 k)),
)
  where
    half_of_double : (m n : ℕ) → m ≡ 2 * n → m / 2 ≡ n
    half_of_double m n e = omega arith

    half_of_sum : (m n r : ℕ) → m ≡ 2 * n → (m + r) / 2 ≡ n + r / 2
    half_of_sum m n r e = omega arith

pub pow_plus : (d k : ℕ) → 2 ^ (d + k) ≡ 2 ^ d * 2 ^ k
pow_plus zero k = ap (λ (t : ℕ). 2 ^ t) (zero_plus k) ∙ one_times (2 ^ k)
  where
    zero_plus : (k : ℕ) → 0 + k ≡ k
    zero_plus k = omega arith

    one_times : (k : ℕ) → k ≡ 1 * k
    one_times k = omega arith
pow_plus (suc d) k =
    ap (λ (t : ℕ). 2 ^ t) (suc_plus d k)
    ∙ pow-suc 2 (d + k)
    ∙ ap (λ (t : ℕ). t * 2) (pow_plus d k)
    ∙ swap (2 ^ d) (2 ^ k)
    ∙ ap (λ (t : ℕ). t * 2 ^ k) (sym (pow-suc 2 d))
  where
    suc_plus : (d k : ℕ) → suc d + k ≡ suc (d + k)
    suc_plus d k = omega arith

    swap : (a b : ℕ) → a * b * 2 ≡ a * 2 * b
    swap a b = grind arith

product_less : (p q : ℕ) → suc p * suc q - 1 - (suc q - 1) ≡ p * suc q
product_less p q = grind arith

mask : (n p q : ℕ) → n ≡ p * q → n - 1 - (q - 1) ≡ (p - 1) * q
mask n zero q e = omega (arith, e)
mask n (suc p) zero e = omega (arith, e)
mask n (suc p) (suc q) e =
    let less : p ≡ suc p - 1 = omega arith in
    ap (λ (t : ℕ). t - 1 - (suc q - 1)) e ∙ product_less p q ∙ ap (λ (t : ℕ). t * suc q) less

-- `a & ~(2 ^ k - 1)` in 2 ^ n.
pub clear_low :
    (d k a : ℕ) → a < 2 ^ (d + k) → bit_and a (2 ^ (d + k) - 1 - (2 ^ k - 1)) ≡ a / 2 ^ k * 2 ^ k
clear_low d k a h =
    ap (λ (t : ℕ). bit_and a t) (mask (2 ^ (d + k)) (2 ^ d) (2 ^ k) (pow_plus d k))
    ∙ ap (λ (t : ℕ). bit_and t ((2 ^ d - 1) * 2 ^ k)) (sym (div-add-mod' a (2 ^ k)))
    ∙ and_high k (a / 2 ^ k) (a % 2 ^ k) (2 ^ d - 1) (mod-lt a (one-le-pow k 2 (omega arith)))
    ∙ ap (λ (t : ℕ). t * 2 ^ k) (and_mask d (a / 2 ^ k) ∙ mod-eq_of_lt small)
  where
    small : a / 2 ^ k < 2 ^ d
    small = (div-lt_iff_lt-mul (one-le-pow k 2 (omega arith))).1 (omega (arith, h, pow_plus d k))
