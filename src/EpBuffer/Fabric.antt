-- ===== src/EpBuffer/Fabric.antt =====
-- src/ep_buffer.cpp: the size of the fabric allocation.
use native.Mathlib.Nat.{mod-lt, div-add-mod', mul-mod_left, one-le-pow, mod_self}
use ep_demo.Prelude.{
  Bool-cases, add_size, ap, arith, bit_and, clear_low, inl, inr, sub_size, ℕ, ◌%◌, ◌*◌, ◌+◌, ◌-◌,
  ◌/◌, ◌<◌, ◌==◌, ◌^◌, ◌∙◌, ◌≡◌, ◌≤◌,
}
use ep_demo.EpBuffer.{fabric_alloc_size}

rounded :
    (n k : ℕ)
    → k ≤ 64
    → n + 2 ^ k < 2 ^ 64
    → bit_and (sub_size (add_size n (2 ^ k)) 1) (2 ^ 64 - 1 - sub_size (2 ^ k) 1)
      ≡ (n + 2 ^ k - 1) / 2 ^ k * 2 ^ k
rounded n k hk h =
    let pos = one-le-pow k 2 (omega arith) in
    let e : 64 ≡ 64 - k + k = omega (arith, hk) in
    let first : sub_size (add_size n (2 ^ k)) 1 ≡ n + 2 ^ k - 1 = omega (arith, h, pos) in
    let second : 2 ^ 64 - 1 - sub_size (2 ^ k) 1 ≡ 2 ^ 64 - 1 - (2 ^ k - 1) =
      omega (arith, h, pos) in
    let wide : 2 ^ 64 ≡ 2 ^ (64 - k + k) = ap (λ (t : ℕ). 2 ^ t) e in
    ap (λ (t : ℕ). bit_and t (2 ^ 64 - 1 - sub_size (2 ^ k) 1)) first
    ∙ ap (λ (t : ℕ). bit_and (n + 2 ^ k - 1) t) second
    ∙ ap (λ (t : ℕ). bit_and (n + 2 ^ k - 1) (t - 1 - (2 ^ k - 1))) wide
    ∙ clear_low (64 - k) k (n + 2 ^ k - 1) (omega (arith, h, pos, wide))

-- For a granularity that is a power of two, and a size that does not come near 2 ^ 64, the allocation
-- is a positive multiple of the granularity that holds the buffer, and is larger by at most one unit.
pub fabric_alloc_size_lem :
    (n k : ℕ)
    → k ≤ 64
    → n + 2 ^ k < 2 ^ 64
    → let size = fabric_alloc_size n (2 ^ k) in
      (n ≤ size) × (size % 2 ^ k ≡ 0) × (0 < size) × (size ≤ n + 2 ^ k)
fabric_alloc_size_lem n k hk h =
    let size = (n + 2 ^ k - 1) / 2 ^ k * 2 ^ k in
    let pos = one-le-pow k 2 (omega arith) in
    let parts = div-add-mod' (n + 2 ^ k - 1) (2 ^ k) in
    let rest = mod-lt (n + 2 ^ k - 1) pos in
    let holds : n ≤ size = omega (arith, parts, rest, pos) in
    elim (Bool-cases (size == 0)) [
      | inl e ↦
          rw (rounded n k hk h, e) (ground (arith, holds, e), mod_self (2 ^ k), pos, omega arith)
      | inr e ↦
          rw (rounded n k hk h, e)
            (
              holds,
              mul-mod_left ((n + 2 ^ k - 1) / 2 ^ k) (2 ^ k),
              ground (arith, e),
              omega (arith, parts, pos),
            )
    ]
