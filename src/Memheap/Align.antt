-- ===== src/Memheap/Align.antt =====
-- Offsets rounded up to an alignment, and the alignments that the allocator accepts.
use native.Mathlib.Nat.{one-le-pow, mod-lt, mul-mod_left, div-add-mod'}
use ep_demo.Prelude.{
  add_size, ℕ, suc, ◌+◌, ◌-◌, ◌*◌, ◌/◌, ◌^◌, ◌%◌, ◌<◌, ◌≤◌, ◌≡◌, ◌↔◌, inl, inr, bit_and, bit_or,
  ◌==◌, Bool-cases, some, arith, and_mask, or_mask, pow_of_test, test_of_pow,
}
use ep_demo.Memheap.{align_up, aligned_alloc, Memheap, einval}

-- The least multiple of `2 ^ k` that is not below `o`.
pub record IsRoundedUp (k o r : ℕ) : Type 0 where
  pub above : o ≤ r
  pub near : r < o + 2 ^ k
  pub multiple : r % 2 ^ k ≡ 0

next_multiple :
    (k o : ℕ) → o + 2 ^ k < 2 ^ 64 → add_size (bit_or o (2 ^ k - 1)) 1 ≡ suc (o / 2 ^ k) * 2 ^ k
next_multiple k o h = rw (or_mask k o) (
    omega
      (arith, one-le-pow k 2 (omega arith), div-add-mod' o (2 ^ k), suc_mul (o / 2 ^ k) (2 ^ k)))
  where
    suc_mul : (q p : ℕ) → suc q * p ≡ q * p + p
    suc_mul q p = grind arith

module _ (k o : ℕ) where
  pos : 1 ≤ 2 ^ k
  pos = one-le-pow k 2 (omega arith)

  passed : suc (o / 2 ^ k) * 2 ^ k + o % 2 ^ k ≡ o + 2 ^ k
  passed = grind (arith, div-add-mod' o (2 ^ k))

  rest_lt : o % 2 ^ k < 2 ^ k
  rest_lt = mod-lt o pos

  pub align_up-IsRoundedUp : o + 2 ^ k < 2 ^ 64 → IsRoundedUp k o (align_up o (2 ^ k))
  unfolding align_up
  align_up-IsRoundedUp h = elim (Bool-cases (bit_and o (2 ^ k - 1) == 0)) [
    | inl done ↦ rw done (record {
      above = omega arith;
      near = omega (arith, pos);
      multiple = ground (arith, and_mask k o);
    })
    | inr more ↦
        rw (more, next_multiple k o h)
          (record {
            above = omega (arith, passed, rest_lt);
            near = ground (arith, passed, and_mask k o);
            multiple = mul-mod_left (suc (o / 2 ^ k)) (2 ^ k);
          })
  ]

-- For a request of some size, exactly the alignments that are no power of two are refused by EINVAL.
pub aligned_alloc-einval :
    (h : Memheap) (size align : ℕ)
    → 0 < size
    → ((aligned_alloc h size align).2 ≡ some einval) ↔ ¬ ((k : ℕ) × (align ≡ 2 ^ k))
unfolding aligned_alloc
aligned_alloc-einval h size align some_size = (
  λ e p. ground (arith, p.1, test_of_pow p.0, one-le-pow p.0 2),
  λ none_fits. elim (Bool-cases (align == 0)) [
    | inl zero_align ↦ ground arith
    | inr pos_align ↦ elim (Bool-cases (bit_and align (align - 1) == 0)) [
      | inl test ↦ absurd (none_fits (pow_of_test align (ground arith) (ground arith)))
      | inr fails ↦ ground arith
    ]
  ],
)
