-- ===== src/Kernel/Slots.antt =====
-- Messages and rows of different senders never share memory, and stay inside their region.
use native.Mathlib.Nat.{mul-le-mul_left, mod-eq_of_lt, lt_trans, le-mul_of_pos_right}
use ep_demo.Prelude.{
  ℕ, ◌+◌, ◌*◌, ◌^◌, ◌<◌, ◌≤◌, ◌≡◌, ◌≢◌, ◌⊎◌, inl, inr, refl, arith, mul_size, size_of_int,
}
use ep_demo.Kernel.Areas.{
  mixed_inj, slot_number-lt, areas_apart, area_inside, small_product, small_area,
}
use ep_demo.Kernel.{
  Config, num_local_experts, num_bytes_per_msg, dispatch_dst_ptr, dispatch_src_ptr, local_base,
  rank_base,
}

-- What the host's checks and the buffer's size give.
pub record IsConfig (c : Config) : Type 0 where
  pub some_rank : 0 < c.num_ranks
  pub divides : c.num_experts ≡ num_local_experts c * c.num_ranks
  pub few_slots : c.num_experts * c.num_max_dispatch_tokens_per_rank < 2 ^ 31
  pub few_experts : c.num_experts < 2 ^ 31
  pub small_hidden : c.hidden < 2 ^ 20

-- The number of a message area among all: by expert, then source rank, then slot.
abbrev pub slot_number : Config → ℕ → ℕ → ℕ → ℕ
slot_number c e r s = (e * c.num_ranks + r) * c.num_max_dispatch_tokens_per_rank + s

-- A message's place: a local expert, a rank and a slot.
pub record InRange (c : Config) (e r s : ℕ) : Type 0 where
  pub expert : e < num_local_experts c
  pub rank : r < c.num_ranks
  pub slot : s < c.num_max_dispatch_tokens_per_rank

-- The bytes of a message fit the area that the layout keeps for one.
msg_bytes : (c : Config) → c.hidden < 2 ^ 20 → num_bytes_per_msg c ≤ 32 + c.hidden * 2
unfolding num_bytes_per_msg
msg_bytes c small = ground arith

pub num_bytes_per_msg_pos : (c : Config) → IsConfig c → 0 < num_bytes_per_msg c
unfolding num_bytes_per_msg
num_bytes_per_msg_pos c ok = ground (arith, ok.small_hidden)

module _ (c : Config) (ok : IsConfig c) where
  module _ (e r s : ℕ) (i : InRange c e r s) where
    number_lt : slot_number c e r s < c.num_experts * c.num_max_dispatch_tokens_per_rank
    number_lt = rw ok.divides (
        slot_number-lt (num_local_experts c) c.num_ranks c.num_max_dispatch_tokens_per_rank e r s
          i.expert i.rank i.slot)

module _ (c : Config) (ok : IsConfig c) (bytes : ℕ) (fit : bytes ≤ 2 ^ 22) (e r s : ℕ)
    (i : InRange c e r s) where
  abbrev max_tokens : ℕ
  max_tokens = c.num_max_dispatch_tokens_per_rank

  parts : slot_number c e r s ≡ e * c.num_ranks * max_tokens + r * max_tokens + s
  parts = grind arith

  number_small : slot_number c e r s < 2 ^ 31
  number_small = lt_trans (number_lt c ok e r s i) ok.few_slots

  slot_pos : 0 < max_tokens
  slot_pos = omega (arith, i.slot)

  ranks_small : e * c.num_ranks ≤ e * c.num_ranks * max_tokens
  ranks_small = le-mul_of_pos_right (e * c.num_ranks) slot_pos

  local_base_lem : local_base c e bytes ≡ e * c.num_ranks * max_tokens * bytes
  unfolding local_base
  local_base_lem =
      rw
        (
          mod-eq_of_lt {n = e * c.num_ranks} {m = 2 ^ 32}
              (omega (arith, ranks_small, parts, number_small)),
          mod-eq_of_lt {n = e * c.num_ranks * max_tokens} {m = 2 ^ 32}
              (omega (arith, parts, number_small)),
        )
        (small_area (e * c.num_ranks * max_tokens) bytes (omega (arith, parts, number_small)) fit)

  rank_base_lem : rank_base c r bytes ≡ r * max_tokens * bytes
  unfolding rank_base
  rank_base_lem =
      rw (mod-eq_of_lt {n = r * max_tokens} {m = 2 ^ 32} (omega (arith, parts, number_small)))
        (small_area (r * max_tokens) bytes (omega (arith, parts, number_small)) fit)

  slot_lem : mul_size (size_of_int s) bytes ≡ s * bytes
  slot_lem = small_area s bytes (omega (arith, parts, number_small)) fit

  spread :
      slot_number c e r s * bytes
      ≡ e * c.num_ranks * max_tokens * bytes + r * max_tokens * bytes + s * bytes
  spread = rw parts (grind arith)

  area_small : slot_number c e r s * bytes ≤ 2 ^ 53
  area_small = small_product (slot_number c e r s) bytes number_small fit

module _ (c : Config) (ok : IsConfig c) (base e r s : ℕ) (i : InRange c e r s)
    (low : base < 2 ^ 62) where
  msg_small : num_bytes_per_msg c ≤ 2 ^ 22
  msg_small = omega (arith, msg_bytes c ok.small_hidden, ok.small_hidden)

  -- A message is written at its number times its size.
  pub dispatch_dst_lem :
      dispatch_dst_ptr c base e r s ≡ base + slot_number c e r s * num_bytes_per_msg c
  unfolding dispatch_dst_ptr
  dispatch_dst_lem = omega (
    arith,
    local_base_lem c ok (num_bytes_per_msg c) msg_small e r s i,
    rank_base_lem c ok (num_bytes_per_msg c) msg_small e r s i,
    slot_lem c ok (num_bytes_per_msg c) msg_small e r s i,
    spread c ok (num_bytes_per_msg c) msg_small e r s i,
    area_small c ok (num_bytes_per_msg c) msg_small e r s i,
    low,
  )

  pub message_offset-le : slot_number c e r s * num_bytes_per_msg c ≤ 2 ^ 53
  message_offset-le = area_small c ok (num_bytes_per_msg c) msg_small e r s i

  -- The receiver reads message `s` of rank `r` where that rank wrote it.
  pub dispatch_src-eq-dst : dispatch_src_ptr c base e r s ≡ dispatch_dst_ptr c base e r s
  unfolding dispatch_src_ptr dispatch_dst_ptr
  dispatch_src-eq-dst = refl

  dispatch_inside :
      dispatch_dst_ptr c base e r s + num_bytes_per_msg c
      ≤ base + c.num_experts * c.num_max_dispatch_tokens_per_rank * num_bytes_per_msg c
  dispatch_inside = omega (
    arith,
    dispatch_dst_lem,
    area_inside (num_bytes_per_msg c) (slot_number c e r s)
        (c.num_experts * c.num_max_dispatch_tokens_per_rank) (number_lt c ok e r s i),
  )

-- Every message lies in the data region that the buffer's layout keeps.
dispatch_in_region :
    (c : Config) (base e r s : ℕ)
    → IsConfig c
    → InRange c e r s
    → base < 2 ^ 62
    → (base ≤ dispatch_dst_ptr c base e r s)
      × (dispatch_dst_ptr c base e r s + num_bytes_per_msg c
          ≤ base + c.num_experts * c.num_max_dispatch_tokens_per_rank * (32 + c.hidden * 2))
dispatch_in_region c base e r s ok i low = (
  omega (arith, dispatch_dst_lem c ok base e r s i low),
  omega (
    arith,
    dispatch_inside c ok base e r s i low,
    mul-le-mul_left (c.num_experts * c.num_max_dispatch_tokens_per_rank)
        (msg_bytes c ok.small_hidden),
  ),
)

-- Messages of different experts, ranks or slots do not share a byte.
pub dispatch_apart :
    (c : Config) (base e r s e' r' s' : ℕ)
    → IsConfig c
    → InRange c e r s
    → InRange c e' r' s'
    → base < 2 ^ 62
    → ¬ ((e ≡ e') × (r ≡ r') × (s ≡ s'))
    → let p = dispatch_dst_ptr c base e r s in
      let q = dispatch_dst_ptr c base e' r' s' in
      (p + num_bytes_per_msg c ≤ q) ⊎ (q + num_bytes_per_msg c ≤ p)
dispatch_apart c base e r s e' r' s' ok i i' low ne =
    rw (dispatch_dst_lem c ok base e r s i low, dispatch_dst_lem c ok base e' r' s' i' low)
      (shift _ _ _
        (areas_apart (num_bytes_per_msg c) (slot_number c e r s) (slot_number c e' r' s') other))
  where
    other : slot_number c e r s ≢ slot_number c e' r' s'
    other h =
        let outer =
          mixed_inj c.num_max_dispatch_tokens_per_rank (e * c.num_ranks + r) s
            (e' * c.num_ranks + r') s' i.slot i'.slot h in
        let inner = mixed_inj c.num_ranks e r e' r' i.rank i'.rank outer.0 in
        ne (inner.0, inner.1, outer.1)

    shift :
        (x y b : ℕ)
        → (x + b ≤ y) ⊎ (y + b ≤ x)
        → (base + x + b ≤ base + y) ⊎ (base + y + b ≤ base + x)
    shift x y b (inl h) = inl (omega arith)
    shift x y b (inr h) = inr (omega arith)
