-- ===== src/Kernel/Finish/Ends.antt =====
-- The warps take a bounded number of steps until the receiver is signalled.
use ep_demo.Prelude.{
  ℕ, zero, suc, ◌+◌, ◌*◌, ◌^◌, ◌<◌, ◌≤◌, ◌≡◌, refl, ap, inl, inr, Bool, true, false, Bool-cases,
  arith,
}
use ep_demo.Kernel.Finish.{
  Phase, claimed, sent, reported, Counters, Step, claim, send, report, clean, count, signal, Reach,
  here, next,
}
use ep_demo.Kernel.Finish.Done.{signal_progress}
use ep_demo.Kernel.Finish.Inv.{
  Inv, running, ended, Reach-Inv, total, total-update, total_zero, in_range, Closed-reported,
}

-- The steps that a message still takes once its slot is claimed.
abbrev pub to_go : Phase → ℕ
to_go claimed = 2
to_go sent = 1
to_go _ = 0

abbrev pub flag : Bool → ℕ
flag true = 0
flag false = 1

abbrev pub steps_left : ℕ → Counters → ℕ
steps_left n s =
    s.waiting * 3 + total to_go n s.phase + flag s.cleaned + flag s.counted + flag s.signalled

Inv-Step-left :
    {n : ℕ} {s t : Counters} → Inv n s → Step n s t → steps_left n t + 1 ≡ steps_left n s
Inv-Step-left {n} {s} (running e o) (claim w) = ground (
  arith,
  o.slots,
  o.above s.atomic_counter,
  total-update to_go n s.phase s.atomic_counter claimed (omega (arith, o.slots, w)),
)
Inv-Step-left {n} {s} (running e o) (send i p) =
    ground (arith, p, total-update to_go n s.phase i sent (in_range o i (λ h. cc (p, h))))
Inv-Step-left {n} {s} (running e o) (report i p) =
    ground (arith, p, total-update to_go n s.phase i reported (in_range o i (λ h. cc (p, h))))
Inv-Step-left (running e o) (clean p) = ground arith
Inv-Step-left (running e o) (count p) = ground arith
Inv-Step-left (running e o) (signal c p q) = ground arith
Inv-Step-left (ended e o) (claim w) = absurd (omega (arith, o.none_waiting))
Inv-Step-left (ended e o) (send i p) =
    absurd (Closed-reported o i (λ h. cc (p, h)) (λ h. cc (p, h)))
Inv-Step-left (ended e o) (report i p) =
    absurd (Closed-reported o i (λ h. cc (p, h)) (λ h. cc (p, h)))
Inv-Step-left (ended e o) (clean p) = absurd (cc (p, o.cleaned))
Inv-Step-left (ended e o) (count p) = absurd (cc (p, o.counted))
Inv-Step-left (ended e o) (signal c p q) = absurd (cc (p, e))

-- The number of steps taken.
abbrev pub steps_taken : {n : ℕ} {s : Counters} → Reach n s → ℕ
steps_taken here = 0
steps_taken (next r st) = suc (steps_taken r)

taken_left :
    {n : ℕ} {s : Counters}
    → n < 2 ^ 31
    → (r : Reach n s) → steps_taken r + steps_left n s ≡ n * 3 + 3
taken_left {n} small here = omega (arith, total_zero to_go refl n)
taken_left small (next r st) =
    omega (arith, taken_left small r, Inv-Step-left (Reach-Inv small r) st)

none_to_go : (n : ℕ) (f : ℕ → Phase) → ((i : ℕ) → i < n → f i ≡ reported) → total to_go n f ≡ 0
unfolding total
none_to_go zero f all = refl
none_to_go (suc n) f all =
    omega
      (arith, none_to_go n f (λ i lt. all i (omega (arith, lt))), ap to_go (all n (omega arith)))

none_left_at_end : {n : ℕ} {s : Counters} → Inv n s → s.signalled ≡ true → steps_left n s ≡ 0
none_left_at_end (running e o) h = absurd (cc (e, h))
none_left_at_end {n} {s} (ended e o) h =
    ground (arith, e, o.cleaned, o.counted, o.none_waiting, none_to_go n s.phase o.all)

-- Whatever the order, the warps of a launch with `n` messages for an expert, fewer than 2 ^ 31, take at most
-- `3 n + 3` steps of the counting protocol. A launch in which no warp can take a step has signalled the
-- receiver, and a launch that has signalled it has taken all `3 n + 3` steps.
pub steps_bounded :
    {n : ℕ} {s : Counters}
    → n < 2 ^ 31
    → (r : Reach n s)
    → (steps_taken r ≤ n * 3 + 3)
      × (((t : Counters) → Step n s t → ⊥) → s.signalled ≡ true)
      × (s.signalled ≡ true → steps_taken r ≡ n * 3 + 3)
steps_bounded {n} {s} small r = (
  omega (arith, taken_left small r),
  λ stuck. elim (Bool-cases s.signalled) [
    | inl e ↦ e
    | inr e ↦ let (t, st) = signal_progress small r e in absurd (stuck t st)
  ],
  λ e. omega (arith, taken_left small r, none_left_at_end (Reach-Inv small r) e),
)
