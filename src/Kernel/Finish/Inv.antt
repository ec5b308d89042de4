-- ===== src/Kernel/Finish/Inv.antt =====
-- Before the signal, the finish counter is the sum of the tags and of the messages reported.
use native.Mathlib.Nat.{eq-zero-or-pos}
use native.Mathlib.Decide.{dec_lt}
use ep_demo.Prelude.{
  inl, inr, Bool-cases, ℕ, zero, suc, ◌+◌, ◌*◌, ◌%◌, ◌^◌, ◌<◌, ◌≤◌, ◌≡◌, ◌≢◌, refl, Bool, true,
  false, arith,
}
use ep_demo.Kernel.Finish.{
  finished_sum_tag, Phase, unclaimed, claimed, sent, reported, update, Counters, start, Step, claim,
  send, report, clean, count, signal, Reach, here, next,
}

abbrev pub is_reported : Phase → ℕ
is_reported reported = 1
is_reported _ = 0

-- A sum over the messages below slot `n`.
unfoldable pub total : (Phase → ℕ) → ℕ → (ℕ → Phase) → ℕ
total w zero f = 0
total w (suc n) f = total w n f + w (f n)

module _ (w : Phase → ℕ) where
  total-update_above :
      (n : ℕ) (f : ℕ → Phase) (i : ℕ) (p : Phase) → n ≤ i → total w n (update f i p) ≡ total w n f
  unfolding total
  total-update_above zero f i p h = refl
  total-update_above (suc n) f i p h = ground (arith, total-update_above n f i p)

  pub total-update :
      (n : ℕ) (f : ℕ → Phase) (i : ℕ) (p : Phase)
      → i < n
      → total w n (update f i p) + w (f i) ≡ total w n f + w p
  unfolding total
  total-update zero f i p h = absurd (omega arith)
  total-update (suc n) f i p h = ground (arith, total-update n f i p, total-update_above n f i p)

  pub total_zero : w unclaimed ≡ 0 → (n : ℕ) → total w n (λ _. unclaimed) ≡ 0
  unfolding total
  total_zero h zero = refl
  total_zero h (suc n) = omega (arith, h, total_zero h n)

-- The messages that are reported.
abbrev pub reports : ℕ → (ℕ → Phase) → ℕ
reports = total is_reported

abbrev reports-update :
    (n : ℕ) (f : ℕ → Phase) (i : ℕ) (p : Phase)
    → i < n
    → reports n (update f i p) + is_reported (f i) ≡ reports n f + is_reported p
reports-update = total-update is_reported

pub reports-le : (n : ℕ) (f : ℕ → Phase) → reports n f ≤ n
unfolding total
reports-le zero f = omega arith
reports-le (suc n) f = ground (arith, reports-le n f)

pub reports_full : (n : ℕ) (f : ℕ → Phase) → reports n f ≡ n → (i : ℕ) → i < n → f i ≡ reported
unfolding total
reports_full zero f h i lt = absurd (omega arith)
reports_full (suc n) f h i lt =
    ground (arith, reports-le n f, reports_full n f (ground (arith, reports-le n f)) i)

abbrev pub tag : Bool → ℕ
tag true = finished_sum_tag
tag false = 0

abbrev pub weight : Bool → ℕ → ℕ
weight true n = n
weight false n = 0

-- The sum is written without subtraction.
pub record Open (n : ℕ) (s : Counters) : Type 0 where
  pub slots : s.atomic_counter + s.waiting ≡ n
  pub above : (i : ℕ) → s.atomic_counter ≤ i → s.phase i ≡ unclaimed
  pub taken : (i : ℕ) → i < s.atomic_counter → s.phase i ≢ unclaimed
  pub sum :
      (s.atomic_finish_counter + weight s.counted n) % 2 ^ 32
      ≡ (reports n s.phase + tag s.cleaned + tag s.counted) % 2 ^ 32
  pub word : s.atomic_finish_counter < 2 ^ 32

pub record Closed (n : ℕ) (s : Counters) : Type 0 where
  pub cleaned : s.cleaned ≡ true
  pub counted : s.counted ≡ true
  pub none_waiting : s.waiting ≡ 0
  pub all : (i : ℕ) → i < n → s.phase i ≡ reported
  pub above : (i : ℕ) → n ≤ i → s.phase i ≡ unclaimed
  pub counter_zero : s.atomic_counter ≡ 0
  pub finish_zero : s.atomic_finish_counter ≡ 0

pub data Inv (n : ℕ) (s : Counters) : Type 0 where
  running : s.signalled ≡ false → Open n s → Inv n s
  ended : s.signalled ≡ true → Closed n s → Inv n s

start-Inv : (n : ℕ) → Inv n (start n)
start-Inv n = running refl (record {
  slots = omega arith;
  above = λ i h. refl;
  taken = λ i h. absurd (omega arith);
  sum = rw (total_zero is_reported refl n);
  word = omega arith;
})

pub in_range : {n : ℕ} {s : Counters} → Open n s → (i : ℕ) → s.phase i ≢ unclaimed → i < n
in_range {n} {s} o i ne = elim (dec_lt i n) [
  | yes lt ↦ lt
  | no ge ↦ absurd (ne (o.above i (omega (arith, o.slots))))
]

-- After the signal no message is on its way.
pub Closed-reported :
    {n : ℕ} {s : Counters} → Closed n s → (i : ℕ) → s.phase i ≢ unclaimed → s.phase i ≢ reported → ⊥
Closed-reported {n} {s} o i a b = elim (dec_lt i n) [
  | yes lt ↦ b (o.all i lt)
  | no ge ↦ a (o.above i (omega arith))
]

-- At the signal, the sum leaves no message out: a missing clean tag would need more messages than 2 ^ 31.
at_signal :
    {n : ℕ} {s : Counters}
    → n < 2 ^ 31
    → Open n s
    → s.counted ≡ true
    → s.atomic_finish_counter ≡ finished_sum_tag * 2
    → (s.cleaned ≡ true) × (reports n s.phase ≡ n)
at_signal {n} {s} small o c e = elim (Bool-cases s.cleaned) [
  | inl done ↦ (done, ground (arith, o.sum, reports-le n s.phase))
  | inr not_clean ↦ absurd (ground (arith, o.sum, reports-le n s.phase))
]

none_left : {n : ℕ} {s : Counters} → Open n s → reports n s.phase ≡ n → s.waiting ≡ 0
none_left {n} {s} o full = elim (eq-zero-or-pos s.waiting) [
  | inl none ↦ none
  | inr some ↦ cc (
    o.above s.atomic_counter (omega arith),
    reports_full n s.phase full s.atomic_counter (omega (arith, o.slots, some)),
  )
]

pub Step-Inv : {n : ℕ} {s t : Counters} → n < 2 ^ 31 → Step n s t → Inv n s → Inv n t
Step-Inv {n} {s} small (claim w) (running e o) = running e (record {
  slots = omega (arith, o.slots, w);
  above = λ i h. ground (arith, o.above i);
  taken = λ i h. ground (arith, o.taken i);
  sum = ground (
    arith,
    o.sum,
    o.above s.atomic_counter,
    reports-update n s.phase s.atomic_counter claimed (omega (arith, o.slots, w)),
  );
  word = o.word;
})
Step-Inv {n} {s} small (send i p) (running e o) = running e (record {
  slots = o.slots;
  above = λ j h. ground (arith, o.above j, o.above i);
  taken = λ j h. ground (arith, o.taken j);
  sum = ground (arith, o.sum, p, reports-update n s.phase i sent (in_range o i (λ h. cc (p, h))));
  word = o.word;
})
Step-Inv {n} {s} small (report i p) (running e o) = running e (record {
  slots = o.slots;
  above = λ j h. ground (arith, o.above j, o.above i);
  taken = λ j h. ground (arith, o.taken j);
  sum =
      ground (arith, o.sum, p, reports-update n s.phase i reported (in_range o i (λ h. cc (p, h))));
  word = omega arith;
})
Step-Inv {n} {s} small (clean p) (running e o) = running e (record {
  slots = o.slots;
  above = o.above;
  taken = o.taken;
  sum = ground (arith, o.sum, p);
  word = omega arith;
})
Step-Inv {n} {s} small (count p) (running e o) = running e (record {
  slots = o.slots;
  above = o.above;
  taken = o.taken;
  sum = ground (arith, o.sum, p);
  word = omega arith;
})
Step-Inv {n} {s} small (signal c p q) (running e o) =
    let last = at_signal small o c q in
    ended refl (record {
      cleaned = last.0;
      counted = c;
      none_waiting = none_left o last.1;
      all = reports_full n s.phase last.1;
      above = λ i h. o.above i (omega (arith, o.slots));
      counter_zero = refl;
      finish_zero = refl;
    })
Step-Inv {n} {s} small (claim w) (ended e o) = absurd (omega (arith, o.none_waiting, w))
Step-Inv {n} {s} small (send i p) (ended e o) =
    absurd (Closed-reported o i (λ h. cc (p, h)) (λ h. cc (p, h)))
Step-Inv {n} {s} small (report i p) (ended e o) =
    absurd (Closed-reported o i (λ h. cc (p, h)) (λ h. cc (p, h)))
Step-Inv {n} {s} small (clean p) (ended e o) = absurd (cc (p, o.cleaned))
Step-Inv {n} {s} small (count p) (ended e o) = absurd (cc (p, o.counted))
Step-Inv {n} {s} small (signal c p q) (ended e o) = absurd (cc (p, e))

pub Reach-Inv : {n : ℕ} {s : Counters} → n < 2 ^ 31 → Reach n s → Inv n s
Reach-Inv {n} small here = start-Inv n
Reach-Inv small (next r st) = Step-Inv small st (Reach-Inv small r)
