-- ===== src/Kernel/Stage/Places.antt =====
-- The bytes of a message's parts, from the message's start: `rdma_x_src_idx`, `rdma_x_vec`, `rdma_x_scales`.
use ep_demo.Prelude.{
  ℕ, ◌+◌, ◌*◌, ◌/◌, ◌%◌, ◌^◌, ◌<◌, ◌≤◌, ◌≡◌, ◌⊎◌, inl, inr, true, false, Bool-cases, if◌then◌else◌,
  ltb, ltb→lt, arith,
}
use ep_demo.Kernel.{Config, num_bytes_per_msg}
use ep_demo.Kernel.Stage.{Place, Floats, Place, src_idx, vec, scale, same_place, in_message}

-- `sizeof(vec_t)` and `hidden_bytes`.
abbrev pub vec_size : Config → ℕ
vec_size c = if c.use_fp8 then 8 else 16

abbrev pub hidden_bytes : Config → ℕ
hidden_bytes c = if c.use_fp8 then c.hidden else c.hidden * 2

abbrev pub place_offset : Config → Place → ℕ
place_offset c src_idx = 0
place_offset c (vec i) = 16 + i * vec_size c
place_offset c (scale i) = 16 + hidden_bytes c + i * 4

abbrev pub place_size : Config → Place → ℕ
place_size c src_idx = 4
place_size c (vec i) = vec_size c
place_size c (scale i) = 4

-- The places of a row of vectors and a row of scales.
abbrev Inside : Config → Place → Type 0
Inside c src_idx = Unit
Inside c (vec i) = i < c.hidden / 8
Inside c (scale i) = (c.use_fp8 ≡ true) × (i < c.hidden / 128)

abbrev Ends : Config → Place → Type 0
Ends c p = place_offset c p + place_size c p ≤ num_bytes_per_msg c

abbrev pub Disjoint : Config → Place → Place → Type 0
Disjoint c p q =
    (place_offset c p + place_size c p ≤ place_offset c q)
    ⊎ (place_offset c q + place_size c q ≤ place_offset c p)

module _ (c : Config) (whole : c.hidden % 128 ≡ 0) (small : c.hidden < 2 ^ 31) where
  ends : (p : Place) → Inside c p → Ends c p
  unfolding num_bytes_per_msg
  ends src_idx h = elim (Bool-cases c.use_fp8) [
    | inl e ↦ rw e (omega (arith, small))
    | inr e ↦ rw e (omega (arith, small))
  ]
  ends (vec i) h = elim (Bool-cases c.use_fp8) [
    | inl e ↦ rw e (omega (arith, small, h))
    | inr e ↦ rw e (omega (arith, small, h))
  ]
  ends (scale i) h = rw h.0 (omega (arith, small, h.1, whole))

  before : (i j : ℕ) → i < j → place_offset c (vec i) + vec_size c ≤ place_offset c (vec j)
  before i j lt = elim (Bool-cases c.use_fp8) [
    | inl e ↦ rw e (omega (arith, lt))
    | inr e ↦ rw e (omega (arith, lt))
  ]

  under_scales :
      (i j : ℕ) → Inside c (vec i) → place_offset c (vec i) + vec_size c ≤ place_offset c (scale j)
  under_scales i j h = elim (Bool-cases c.use_fp8) [
    | inl e ↦ rw e (omega (arith, h))
    | inr e ↦ rw e (omega (arith, h))
  ]

  disjoint : (p q : Place) → Inside c p → Inside c q → same_place p q ≡ false → Disjoint c p q
  disjoint src_idx src_idx h k other = absurd (cc other)
  disjoint src_idx (vec j) h k other = inl (omega arith)
  disjoint src_idx (scale j) h k other = inl (omega arith)
  disjoint (vec i) src_idx h k other = inr (omega arith)
  disjoint (vec i) (vec j) h k other = elim (Bool-cases (ltb i j)) [
    | inl e ↦ inl (before i j (ground (arith, e)))
    | inr e ↦ inr (before j i (ground (arith, e, other)))
  ]
  disjoint (vec i) (scale j) h k other = inl (under_scales i j h)
  disjoint (scale i) src_idx h k other = inr (omega arith)
  disjoint (scale i) (vec j) h k other = inr (under_scales j i k)
  disjoint (scale i) (scale j) h k other = ground (arith, other)

module _ (f : Floats) (c : Config) (token_idx num_threads : ℕ) (x : ℕ → f.Bf16) where
  inside : (p : Place) → in_message f c token_idx num_threads x p ≡ true → Inside c p
  inside src_idx h = tt
  inside (vec i) h = ltb→lt i (c.hidden / 8) h
  inside (scale i) h = elim (Bool-cases c.use_fp8) [
    | inl e ↦ (e, ltb→lt i (c.hidden / 128) (rw e at h))
    | inr e ↦ absurd (cc (rw e at h))
  ]

  -- The parts of a message that are written end within its `num_bytes_per_msg` bytes, and different parts do
  -- not share a byte.
  pub stage-Disjoint :
      (p q : Place)
      → c.hidden % 128 ≡ 0
      → c.hidden < 2 ^ 31
      → in_message f c token_idx num_threads x p ≡ true
      → in_message f c token_idx num_threads x q ≡ true
      → (place_offset c p + place_size c p ≤ num_bytes_per_msg c)
        × (same_place p q ≡ false → Disjoint c p q)
  stage-Disjoint p q whole small h k =
      (ends c whole small p (inside p h), disjoint c whole small p q (inside p h) (inside q k))
