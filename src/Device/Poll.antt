-- ===== src/Device/Poll.antt =====
-- src/ep_kernel.cu: `__mlx5gda_device_poll_cq`. What the device reads from the completion queue's one
-- entry in each round is an argument: the counter in big-endian order, and the opcode above the owner
-- bit. The reads go on as long as the loop does, so the function takes a sequence and fuel.
use ep_demo.Prelude.{
  ℕ, zero, suc, ◌+◌, ◌/◌, ◌^◌, ◌<◌, ◌≤◌, ◌≡◌, ◌==◌, Bool, true, false, ◌||◌, leb, if◌then◌else◌, ap,
  refl, ◌∙◌, sub16, add16, arith,
}
use ep_demo.Device.Bytes.{byteswap16}

pub record Cqe : Type 0 where
  pub wqe_counter : ℕ
  pub op_own : ℕ

abbrev pub opcode : Cqe → ℕ
opcode e = e.op_own / 2 ^ 4

-- `EP_DEVICE_ASSERT` of the opcode: a completion of a request, or an entry that was never written.
abbrev pub is_good : Cqe → Bool
is_good e = (opcode e == 0x0) || (opcode e == 0xF)

-- `(int16_t)(wq_tail - expect) <= 0`, on the bit pattern.
abbrev pub not_yet : ℕ → ℕ → Bool
not_yet wq_tail expect = let d = sub16 wq_tail expect in (d == 0) || leb (2 ^ 15) d

abbrev pub tail_of : Cqe → ℕ
tail_of e = add16 (byteswap16 e.wqe_counter) 1

pub data PollResult : Type 0 where
  polled : ℕ → PollResult  -- the new tail
  trapped : PollResult
  looping : PollResult  -- the fuel is used up

-- `cqes i` is what round `i` reads.
abbrev pub poll_cq : ℕ → ℕ → (ℕ → Cqe) → ℕ → PollResult
poll_cq zero wq_tail cqes expect = looping
poll_cq (suc fuel) wq_tail cqes expect =
    let rest = poll_cq fuel (tail_of (cqes 0)) (λ i. cqes (suc i)) expect in
    if not_yet wq_tail expect then if is_good (cqes 0) then rest else trapped else polled wq_tail

poll_cq-wait :
    (fuel wq_tail : ℕ) (cqes : ℕ → Cqe) (expect : ℕ)
    → not_yet wq_tail expect ≡ true
    → is_good (cqes 0) ≡ true
    → poll_cq (suc fuel) wq_tail cqes expect
      ≡ poll_cq fuel (tail_of (cqes 0)) (λ i. cqes (suc i)) expect
poll_cq-wait fuel wq_tail cqes expect e g = rw (e, g) refl

poll_cq-done :
    (fuel wq_tail : ℕ) (cqes : ℕ → Cqe) (expect : ℕ)
    → not_yet wq_tail expect ≡ false
    → poll_cq (suc fuel) wq_tail cqes expect ≡ polled wq_tail
poll_cq-done fuel wq_tail cqes expect e = rw e refl

-- The signed 16-bit test, on the bit pattern: polling ends within 2 ^ 15 - 1 entries past the one
-- that was waited for.
is_past :
    (t expect : ℕ) → not_yet t expect ≡ false → (0 < sub16 t expect) × (sub16 t expect < 2 ^ 15)
is_past t expect h = ground arith

suc_two : (n : ℕ) → suc n + 2 ≡ suc (n + 2)
suc_two n = omega arith

-- If the entries read are good, and round `n` reads the first counter past the entry waited for, then
-- polling ends after that round with this counter as the tail, which is past the entry by less than
-- 2 ^ 15.
poll_cq-polled :
    (n wq_tail : ℕ) (cqes : ℕ → Cqe) (expect : ℕ)
    → not_yet wq_tail expect ≡ true
    → ((i : ℕ) → i ≤ n → is_good (cqes i) ≡ true)
    → ((i : ℕ) → i < n → not_yet (tail_of (cqes i)) expect ≡ true)
    → not_yet (tail_of (cqes n)) expect ≡ false
    → (poll_cq (n + 2) wq_tail cqes expect ≡ polled (tail_of (cqes n)))
      × (0 < sub16 (tail_of (cqes n)) expect)
      × (sub16 (tail_of (cqes n)) expect < 2 ^ 15)
poll_cq-polled zero wq_tail cqes expect w good before past = (
  poll_cq-wait 1 wq_tail cqes expect w (good 0 (omega arith))
      ∙ poll_cq-done 0 (tail_of (cqes 0)) (λ i. cqes (suc i)) expect past,
  (is_past (tail_of (cqes 0)) expect past).0,
  (is_past (tail_of (cqes 0)) expect past).1,
)
poll_cq-polled (suc n) wq_tail cqes expect w good before past =
    let rest =
      poll_cq-polled n (tail_of (cqes 0)) (λ i. cqes (suc i)) expect (before 0 (omega arith))
        (λ i h. good (suc i) (omega (arith, h))) (λ i h. before (suc i) (omega (arith, h))) past in
    (
      ap (λ f. poll_cq f wq_tail cqes expect) (suc_two n)
          ∙ poll_cq-wait (n + 2) wq_tail cqes expect w (good 0 (omega arith))
          ∙ rest.0,
      rest.1,
      rest.2,
    )
