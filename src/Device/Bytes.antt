-- ===== src/Device/Bytes.antt =====
-- src/ep_kernel.cu: `device_byteswap` at its three widths, by CUDA's `__byte_perm`.
use ep_demo.Prelude.{
  ℕ, ◌+◌, ◌-◌, ◌*◌, ◌/◌, ◌%◌, ◌^◌, ◌<◌, ◌≡◌, ltb, if◌then◌else◌, arith, bit_or, or_fields,
}

abbrev pub byte_at : ℕ → ℕ → ℕ
byte_at x i = x / 2 ^ (8 * i) % 256

-- The byte that a selector nibble picks out of `x` (0 to 3) and `y` (4 to 7). A nibble's top bit would
-- replicate a sign; no selector of the source has it.
abbrev pick : ℕ → ℕ → ℕ → ℕ
pick x y nibble = let i = nibble % 8 in if ltb i 4 then byte_at x i else byte_at y (i - 4)

abbrev nibble_at : ℕ → ℕ → ℕ
nibble_at s i = s / 2 ^ (4 * i) % 16

abbrev byte_perm : ℕ → ℕ → ℕ → ℕ
byte_perm x y s =
    pick x y (nibble_at s 0)
    + pick x y (nibble_at s 1) * 2 ^ 8
    + pick x y (nibble_at s 2) * 2 ^ 16
    + pick x y (nibble_at s 3) * 2 ^ 24

unfoldable pub byteswap16 : ℕ → ℕ
byteswap16 x = byte_perm x x 0x2301 % 2 ^ 16

unfoldable pub byteswap32 : ℕ → ℕ
byteswap32 x = byte_perm x x 0x0123

unfoldable pub byteswap64 : ℕ → ℕ
unfolding byteswap32
byteswap64 x =
    let hi = x / 2 ^ 32 in let lo = x % 2 ^ 32 in bit_or (byteswap32 lo * 2 ^ 32) (byteswap32 hi)

pub byteswap32-lt : (x : ℕ) → byteswap32 x < 2 ^ 32
unfolding byteswap32
byteswap32-lt x = omega arith

-- Swapping the bytes of a 16-bit word twice gives the word back.
pub byteswap16_twice : (x : ℕ) → x < 2 ^ 16 → byteswap16 (byteswap16 x) ≡ x
unfolding byteswap16
byteswap16_twice x h = omega arith

pub byteswap32_twice : (x : ℕ) → x < 2 ^ 32 → byteswap32 (byteswap32 x) ≡ x
unfolding byteswap32
byteswap32_twice x h = omega arith

pub byteswap64_parts :
    (x : ℕ) → byteswap64 x ≡ byteswap32 (x % 2 ^ 32) * 2 ^ 32 + byteswap32 (x / 2 ^ 32)
unfolding byteswap64
byteswap64_parts x =
    or_fields 32 (byteswap32 (x % 2 ^ 32)) (byteswap32 (x / 2 ^ 32)) (byteswap32-lt (x / 2 ^ 32))

halves : (a b : ℕ) → b < 2 ^ 32 → ((a * 2 ^ 32 + b) % 2 ^ 32 ≡ b) × ((a * 2 ^ 32 + b) / 2 ^ 32 ≡ a)
halves a b h = omega arith

-- Swapping the bytes of a 64-bit word twice gives the word back.
pub byteswap64_twice : (x : ℕ) → x < 2 ^ 64 → byteswap64 (byteswap64 x) ≡ x
byteswap64_twice x h =
    rw
      (
        byteswap64_parts (byteswap64 x),
        byteswap64_parts x,
        (halves (byteswap32 (x % 2 ^ 32)) (byteswap32 (x / 2 ^ 32)) (byteswap32-lt (x / 2 ^ 32))).0,
        (halves (byteswap32 (x % 2 ^ 32)) (byteswap32 (x / 2 ^ 32)) (byteswap32-lt (x / 2 ^ 32))).1,
        byteswap32_twice (x / 2 ^ 32) (omega arith),
        byteswap32_twice (x % 2 ^ 32) (omega arith),
      )
      (omega arith)

-- A swapped word has the bytes of the word in the opposite order: it is the word in big-endian order.
pub byteswap32-byte_at :
    (x : ℕ)
    → (byte_at (byteswap32 x) 0 ≡ byte_at x 3)
      × (byte_at (byteswap32 x) 1 ≡ byte_at x 2)
      × (byte_at (byteswap32 x) 2 ≡ byte_at x 1)
      × (byte_at (byteswap32 x) 3 ≡ byte_at x 0)
unfolding byteswap32
byteswap32-byte_at x = omega arith
