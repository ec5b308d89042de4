-- ===== src/Kernel/Finish/Done.antt =====
-- What the receiver's signal stands for, and that every launch comes to it.
use native.Mathlib.Nat.{eq-zero-or-pos}
use ep_demo.Prelude.{
  ℕ, zero, suc, ◌+◌, ◌^◌, ◌<◌, ◌≡◌, ◌≢◌, ◌⊎◌, inl, inr, refl, true, false, Bool-cases, arith,
}
use ep_demo.Kernel.Finish.{
  Phase, unclaimed, claimed, sent, reported, Counters, Step, claim, send, report, clean, count,
  signal, Reach,
}
use ep_demo.Kernel.Finish.Inv.{Open, Inv, running, ended, Reach-Inv, total, reports, is_reported}

-- For an expert with fewer than 2 ^ 31 messages, the receiver is signalled only when no warp waits for a
-- slot, every message of the expert is sent and reported, and the next round's buffer is cleaned; and the
-- counters are zero again.
pub signal_complete :
    {n : ℕ} {s : Counters}
    → n < 2 ^ 31
    → Reach n s
    → s.signalled ≡ true
    → (s.waiting ≡ 0)
      × (s.cleaned ≡ true)
      × ((i : ℕ) → i < n → s.phase i ≡ reported)
      × (s.atomic_counter ≡ 0)
      × (s.atomic_finish_counter ≡ 0)
signal_complete {n} {s} small r e = go (Reach-Inv small r)
  where
    go :
        Inv n s
        → (s.waiting ≡ 0)
          × (s.cleaned ≡ true)
          × ((i : ℕ) → i < n → s.phase i ≡ reported)
          × (s.atomic_counter ≡ 0)
          × (s.atomic_finish_counter ≡ 0)
    go (running f o) = cc (e, f)
    go (ended f o) = (o.none_waiting, o.cleaned, o.all, o.counter_zero, o.finish_zero)

-- A message on its way, or none.
pending :
    (m : ℕ) (f : ℕ → Phase)
    → ((i : ℕ) → i < m → f i ≢ unclaimed)
    → ((i : ℕ) × ((f i ≡ claimed) ⊎ (f i ≡ sent))) ⊎ (reports m f ≡ m)
unfolding total
pending zero f h = inr refl
pending (suc m) f h = look (f m) refl (pending m f (λ i lt. h i (omega arith)))
  where
    look :
        (p : Phase)
        → f m ≡ p
        → ((i : ℕ) × ((f i ≡ claimed) ⊎ (f i ≡ sent))) ⊎ (reports m f ≡ m)
        → ((i : ℕ) × ((f i ≡ claimed) ⊎ (f i ≡ sent))) ⊎ (reports m f + is_reported (f m) ≡ suc m)
    look unclaimed e r = absurd (h m (omega arith) e)
    look claimed e r = inl (m, inl e)
    look sent e r = inl (m, inr e)
    look reported e (inl x) = inl x
    look reported e (inr full) = inr (rw e (omega arith))

-- With fewer than 2 ^ 31 messages: until the receiver is signalled, some warp can go on.
pub signal_progress :
    {n : ℕ} {s : Counters}
    → n < 2 ^ 31
    → Reach n s
    → s.signalled ≡ false
    → (t : Counters) × Step n s t
signal_progress {n} {s} small r e = go (Reach-Inv small r)
  where
    last : Open n s → reports n s.phase ≡ n → (t : Counters) × Step n s t
    last o full = elim (Bool-cases s.cleaned) [
      | inr no_clean ↦ (_, clean no_clean)
      | inl cleaned ↦ elim (Bool-cases s.counted) [
        | inr no_count ↦ (_, count no_count)
        | inl counted ↦ (_, signal counted e (ground (arith, o.sum, o.word)))
      ]
    ]

    move : Open n s → s.waiting ≡ 0 → (t : Counters) × Step n s t
    move o w = elim (pending n s.phase (λ i lt. o.taken i (omega (arith, o.slots, w)))) [
      | inl (i, inl c) ↦ (_, send i c)
      | inl (i, inr c) ↦ (_, report i c)
      | inr full ↦ last o full
    ]

    go : Inv n s → (t : Counters) × Step n s t
    go (ended f o) = cc (e, f)
    go (running f o) = elim (eq-zero-or-pos s.waiting) [
      | inl none ↦ move o none
      | inr some ↦ (_, claim some)
    ]
