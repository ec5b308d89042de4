-- ===== src/Layout/Regions.antt =====
-- The regions of a buffer pair: where each starts and ends, and how it is aligned.
use native.Mathlib.Nat.{mul-le-mul, mod-eq_of_lt, le_trans, le_refl}
use ep_demo.Prelude.{
  ◌/◌, ℕ, ◌+◌, ◌*◌, ◌%◌, ◌^◌, ◌<◌, ◌≤◌, ◌≡◌, ◌↔◌, refl, ap, ◌∙◌, arith, add_size, mul_size, mul32,
  size_of_int,
}
use ep_demo.Layout.{
  BufferLayout, signaling_buffer_bytes, send_recv_buffer_bytes, layout_at, buffer_pair,
  get_ep_buffer_size_hint,
}

-- Arguments as the tests pass them: counts whose product is an `int`, and a buffer that ends below
-- the top of the address space.
pub record IsSized (base tokens hidden experts : ℕ) : Type 0 where
  pub few_experts : experts < 2 ^ 31
  pub few_slots : experts * tokens < 2 ^ 31
  pub small_hidden : hidden < 2 ^ 20
  pub low_base : base < 2 ^ 62

-- The bytes of one message area.
abbrev pub data_bytes : ℕ → ℕ → ℕ → ℕ
data_bytes tokens hidden experts = experts * tokens * (32 + hidden * 2)

module _ {base tokens hidden experts : ℕ} (s : IsSized base tokens hidden experts) where
  data_small : data_bytes tokens hidden experts ≤ 2 ^ 31 * 2 ^ 22
  data_small = le_trans (mul-le-mul (few_le) (hidden_le)) (le_refl _)
    where
      few_le : experts * tokens ≤ 2 ^ 31
      few_le = omega (arith, s.few_slots)

      hidden_le : 32 + hidden * 2 ≤ 2 ^ 22
      hidden_le = omega (arith, s.small_hidden)

  pub send_recv_lem :
      send_recv_buffer_bytes tokens hidden experts ≡ data_bytes tokens hidden experts
  unfolding send_recv_buffer_bytes
  send_recv_lem =
      ground (arith, s.few_slots, s.small_hidden, slots, hidden_bytes, mod-eq_of_lt fits)
    where
      slots : size_of_int (mul32 experts tokens) ≡ experts * tokens
      slots = ground (arith, s.few_slots)

      hidden_bytes : add_size (2 * 16) (mul_size (size_of_int hidden) 2) ≡ 32 + hidden * 2
      hidden_bytes = ground (arith, s.small_hidden)

      fits : data_bytes tokens hidden experts < 2 ^ 64
      fits = omega (arith, data_small)

  pub signaling_lem : signaling_buffer_bytes experts ≡ experts * 4
  unfolding signaling_buffer_bytes
  signaling_lem = ground (arith, s.few_experts)

-- One set of buffers from `lo` to `hi`: two signal regions of `sig` bytes, then two data regions of
-- `dat` bytes, with no gap.
pub record IsLaidOut (lo hi sig dat : ℕ) (b : BufferLayout) : Type 0 where
  pub send_signal : b.rdma_send_signal_buffer ≡ lo
  pub recv_signal : b.rdma_recv_signal_buffer ≡ lo + sig
  pub send_data : b.rdma_send_data_buffer ≡ lo + sig + sig
  pub recv_data : b.rdma_recv_data_buffer ≡ lo + sig + sig + dat
  pub stop : hi ≡ lo + sig + sig + dat + dat

module _ (base sig dat : ℕ) (low : base < 2 ^ 62) (sig_small : sig < 2 ^ 33)
    (dat_small : dat ≤ 2 ^ 53) where
  abbrev half : ℕ
  half = add_size (mul_size 4 sig) (mul_size 4 dat) / 2

  total : add_size (mul_size 4 sig) (mul_size 4 dat) ≡ 4 * sig + 4 * dat
  total = omega arith

  layout_first : IsLaidOut base (base + half) sig dat (layout_at 0 base sig dat)
  unfolding layout_at
  layout_first = omega arith

  layout_second :
      IsLaidOut
        (base + half)
        (base + add_size (mul_size 4 sig) (mul_size 4 dat))
        sig
        dat
        (layout_at 1 base sig dat)
  unfolding layout_at
  layout_second = omega arith

-- The two sets of buffers fill `total_bytes` from the start of the memory, one behind the other,
-- with a signal for each expert and a message area for each slot.
pub buffer_pair-IsLaidOut :
    (base tokens hidden ranks experts : ℕ)
    → IsSized base tokens hidden experts
    → let p = buffer_pair base tokens hidden ranks experts in
      let half = p.total_bytes / 2 in
      IsLaidOut base (base + half) (experts * 4) (data_bytes tokens hidden experts) p.buffer0
      × IsLaidOut
          (base + half)
          (base + p.total_bytes)
          (experts * 4)
          (data_bytes tokens hidden experts)
          p.buffer1
unfolding buffer_pair
buffer_pair-IsLaidOut base tokens hidden ranks experts s =
    rw (signaling_lem s, send_recv_lem s)
      (
        layout_first base (experts * 4) (data_bytes tokens hidden experts) s.low_base sig_small
            dat_small,
        layout_second base (experts * 4) (data_bytes tokens hidden experts) s.low_base sig_small
            dat_small,
      )
  where
    sig_small : experts * 4 < 2 ^ 33
    sig_small = omega (arith, s.few_experts)

    dat_small : data_bytes tokens hidden experts ≤ 2 ^ 53
    dat_small = data_small s

-- The size hint is the number of bytes that a pair takes wherever the memory starts.
pub size_hint_lem :
    (base tokens hidden ranks experts : ℕ)
    → get_ep_buffer_size_hint tokens hidden ranks experts
      ≡ (buffer_pair base tokens hidden ranks experts).total_bytes
unfolding get_ep_buffer_size_hint buffer_pair
size_hint_lem base tokens hidden ranks experts = refl

-- Where the sizes do not wrap, the memory starts at a multiple of 16 and the row is a multiple of 8
-- elements, each of the two message areas of the pair's first set, for sending and for receiving, is aligned
-- for 16-byte accesses exactly when the number of experts is even.
pub data_aligned :
    (base tokens hidden ranks experts : ℕ)
    → IsSized base tokens hidden experts
    → base % 16 ≡ 0
    → hidden % 8 ≡ 0
    → let b = (buffer_pair base tokens hidden ranks experts).buffer0 in
      ((b.rdma_send_data_buffer % 16 ≡ 0) ↔ (experts % 2 ≡ 0))
      × ((b.rdma_recv_data_buffer % 16 ≡ 0) ↔ (experts % 2 ≡ 0))
data_aligned base tokens hidden ranks experts s al row =
    let b = buffer_pair-IsLaidOut base tokens hidden ranks experts s in
    let half : 32 + hidden * 2 ≡ 16 * (2 + hidden / 8) = omega (arith, row) in
    let whole : data_bytes tokens hidden experts ≡ 16 * (experts * tokens * (2 + hidden / 8)) =
      ap (λ n. experts * tokens * n) half ∙ regroup (experts * tokens) (2 + hidden / 8) in
    (
      rw b.0.send_data (λ e. omega arith, λ e. omega arith),
      rw (b.0.recv_data, whole) (λ e. omega arith, λ e. omega arith),
    )
  where
    regroup : (n m : ℕ) → n * (16 * m) ≡ 16 * (n * m)
    regroup n m = grind arith
