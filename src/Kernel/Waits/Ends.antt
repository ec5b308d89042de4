-- ===== src/Kernel/Waits/Ends.antt =====
-- That a wait ends once its signal has come or its rank is given up.
use ep_demo.Prelude.{
  ℕ, ◌+◌, ◌<◌, ◌≤◌, ◌==◌, ==_refl, ◌≡◌, ◌≢◌, ◌⊎◌, inl, inr, refl, sym, ap, ◌∙◌, Bool-cases,
  if◌then◌else◌, arith,
}
use ep_demo.Kernel.Waits.{
  Wait, polling, late_or_not, decided, finished, Waits, Receiver, put_at, WaitStep, peer_signals,
  reads_signal, reads_none, in_time, over_time, goes_on, breaks, WaitRun, no_step, then_step,
}
use ep_demo.Kernel.Waits.Numbers.{put_at-cases}

-- Whose step it is: 1 if it is a step of the thread of expert `e`.
abbrev pub own : {r : Receiver} {s t : Waits} → ℕ → WaitStep r s t → ℕ
own e (peer_signals k l lk ll z) = 0
own e (reads_signal k l p q) = if k == e then 1 else 0
own e (reads_none k l p q) = if k == e then 1 else 0
own e (in_time k p) = if k == e then 1 else 0
own e (over_time k p late) = if k == e then 1 else 0
own e (goes_on k p q) = if k == e then 1 else 0
own e (breaks k p q) = if k == e then 1 else 0

abbrev pub own_steps : {r : Receiver} {s t : Waits} → ℕ → WaitRun r s t → ℕ
own_steps e no_step = 0
own_steps e (then_step run st) = own_steps e run + own e st

-- The signal of expert `e` has come, or its rank is given up.
abbrev pub Settles : Receiver → Waits → ℕ → Type 0
Settles r s e = (s.signals (r.signal_index e) ≢ 0) ⊎ (s.active_ranks (r.src_rank e) ≡ 0)

-- The steps that the thread still takes, if its signal has come, and if its rank is given up.
abbrev with_signal : Wait → ℕ
with_signal polling = 1
with_signal decided = 2
with_signal late_or_not = 3
with_signal (finished n) = 0

abbrev given_up : Wait → ℕ
given_up decided = 1
given_up late_or_not = 2
given_up polling = 3
given_up (finished n) = 0

own_move :
    (m : Wait → ℕ) (f : ℕ → Wait) (k e : ℕ) (w w' : Wait)
    → f k ≡ w
    → m w' < m w
    → (if k == e then 1 else 0) + m (put_at f k w' e) ≤ m (f e)
own_move m f k e w w' at less = elim (Bool-cases (k == e)) [
  | inl eq ↦
      let same : k ≡ e = ground (arith, eq) in
      let before : m (f e) ≡ m w = ap (λ i. m (f i)) (sym same) ∙ ap m at in
      rw eq (omega (arith, before, less))
  | inr ne ↦ rw ne (omega arith)
]

module _ (r : Receiver) (e : ℕ) where
  -- A word keeps its signal, if what peers write is not 0; a rank that is given up stays so.
  pub signal_stays :
      (s t : Waits)
      → ((k l : ℕ) → r.written k l ≢ 0)
      → WaitStep r s t
      → s.signals (r.signal_index e) ≢ 0
      → t.signals (r.signal_index e) ≢ 0
  signal_stays s t some_word (peer_signals k l lk ll z) h =
      elim (put_at-cases s.signals (r.sent_index k l) (r.written k l) (r.signal_index e)) [
        | inl (_, at) ↦ λ q. some_word k l (sym at ∙ q)
        | inr (_, at) ↦ λ q. h (sym at ∙ q)
      ]
  signal_stays s t some_word (reads_signal k l p q) h = h
  signal_stays s t some_word (reads_none k l p q) h = h
  signal_stays s t some_word (in_time k p) h = h
  signal_stays s t some_word (over_time k p late) h = h
  signal_stays s t some_word (goes_on k p q) h = h
  signal_stays s t some_word (breaks k p q) h = h

  pub off_stays :
      (s t : Waits)
      → WaitStep r s t
      → s.active_ranks (r.src_rank e) ≡ 0
      → t.active_ranks (r.src_rank e) ≡ 0
  off_stays s t (over_time k p late) h =
      elim (put_at-cases s.active_ranks (r.src_rank k) 0 (r.src_rank e)) [
        | inl (_, at) ↦ at
        | inr (_, at) ↦ at ∙ h
      ]
  off_stays s t (peer_signals k l lk ll z) h = h
  off_stays s t (reads_signal k l p q) h = h
  off_stays s t (reads_none k l p q) h = h
  off_stays s t (in_time k p) h = h
  off_stays s t (goes_on k p q) h = h
  off_stays s t (breaks k p q) h = h

  -- A step of another thread does not move this one, whatever it is.
  step_with_signal :
      (s t : Waits) (st : WaitStep r s t)
      → s.signals (r.signal_index e) ≢ 0
      → own e st + with_signal (t.wait e) ≤ with_signal (s.wait e)
  step_with_signal s t (peer_signals k l lk ll z) h = omega arith
  step_with_signal s t (reads_signal k l p q) h =
      own_move with_signal s.wait k e polling _ p (omega arith)
  step_with_signal s t (reads_none k l p q) h = elim (Bool-cases (k == e)) [
    | inl eq ↦
        let same : k ≡ e = ground (arith, eq) in
        absurd (h (ap (λ i. s.signals (r.signal_index i)) (sym same) ∙ q))
    | inr ne ↦ rw ne (omega arith)
  ]
  step_with_signal s t (in_time k p) h =
      own_move with_signal s.wait k e late_or_not decided p (omega arith)
  step_with_signal s t (over_time k p late) h =
      own_move with_signal s.wait k e late_or_not decided p (omega arith)
  step_with_signal s t (goes_on k p q) h =
      own_move with_signal s.wait k e decided polling p (omega arith)
  step_with_signal s t (breaks k p q) h = own_move with_signal s.wait k e decided _ p (omega arith)

  step_given_up :
      (s t : Waits) (st : WaitStep r s t)
      → s.active_ranks (r.src_rank e) ≡ 0
      → own e st + given_up (t.wait e) ≤ given_up (s.wait e)
  step_given_up s t (peer_signals k l lk ll z) h = omega arith
  step_given_up s t (reads_signal k l p q) h =
      own_move given_up s.wait k e polling _ p (omega arith)
  step_given_up s t (reads_none k l p q) h =
      own_move given_up s.wait k e polling late_or_not p (omega arith)
  step_given_up s t (in_time k p) h =
      own_move given_up s.wait k e late_or_not decided p (omega arith)
  step_given_up s t (over_time k p late) h =
      own_move given_up s.wait k e late_or_not decided p (omega arith)
  step_given_up s t (goes_on k p q) h = elim (Bool-cases (k == e)) [
    | inl eq ↦
        let same : k ≡ e = ground (arith, eq) in
        absurd (q (ap (λ i. s.active_ranks (r.src_rank i)) same ∙ h))
    | inr ne ↦ rw ne (omega arith)
  ]
  step_given_up s t (breaks k p q) h = own_move given_up s.wait k e decided _ p (omega arith)

  run_with_signal :
      {s t : Waits} (run : WaitRun r s t)
      → ((k l : ℕ) → r.written k l ≢ 0)
      → s.signals (r.signal_index e) ≢ 0
      → (t.signals (r.signal_index e) ≢ 0)
        × (own_steps e run + with_signal (t.wait e) ≤ with_signal (s.wait e))
  run_with_signal no_step some_word h = (h, omega arith)
  run_with_signal (then_step run st) some_word h =
      let (there, less) = run_with_signal run some_word h in
      (signal_stays _ _ some_word st there, omega (arith, less, step_with_signal _ _ st there))

  run_given_up :
      {s t : Waits} (run : WaitRun r s t)
      → s.active_ranks (r.src_rank e) ≡ 0
      → (t.active_ranks (r.src_rank e) ≡ 0)
        × (own_steps e run + given_up (t.wait e) ≤ given_up (s.wait e))
  run_given_up no_step h = (h, omega arith)
  run_given_up (then_step run st) h =
      let (off, less) = run_given_up run h in
      (off_stays _ _ st off, omega (arith, less, step_given_up _ _ st off))

  abbrev pub Finished : Waits → Type 0
  Finished s = (n : ℕ) × (s.wait e ≡ finished n)

  at_end :
      (m : Wait → ℕ) (w : Wait)
      → 0 < m polling
      → 0 < m late_or_not
      → 0 < m decided
      → m w ≡ 0
      → (n : ℕ) × (w ≡ finished n)
  at_end m polling p l d h = absurd (omega (arith, p, h))
  at_end m late_or_not p l d h = absurd (omega (arith, l, h))
  at_end m decided p l d h = absurd (omega (arith, d, h))
  at_end m (finished n) p l d h = (n, refl)

  at_most_3 : (w : Wait) → (with_signal w ≤ 3) × (given_up w ≤ 3)
  at_most_3 polling = (omega arith, omega arith)
  at_most_3 late_or_not = (omega arith, omega arith)
  at_most_3 decided = (omega arith, omega arith)
  at_most_3 (finished n) = (omega arith, omega arith)

  -- The thread has a step to take.
  abbrev pub CanMove : Waits → Type 0
  CanMove s = (t : Waits) × (st : WaitStep r s t) × (own e st ≡ 1)

  can_move : (s : Waits) (w : Wait) → e < r.num_experts → s.wait e ≡ w → Finished s ⊎ CanMove s
  can_move s polling lt h = inr (elim (Bool-cases (s.signals (r.signal_index e) == 0)) [
    | inl z ↦ (_, reads_none e lt h (ground (arith, z)), rw (==_refl e) refl)
    | inr nz ↦ (_, reads_signal e lt h (λ q. ground (arith, q, nz)), rw (==_refl e) refl)
  ])
  can_move s late_or_not lt h = inr (_, in_time e h, rw (==_refl e) refl)
  can_move s decided lt h = inr (elim (Bool-cases (s.active_ranks (r.src_rank e) == 0)) [
    | inl z ↦ (_, breaks e h (ground (arith, z)), rw (==_refl e) refl)
    | inr nz ↦ (_, goes_on e h (λ q. ground (arith, q, nz)), rw (==_refl e) refl)
  ])
  can_move s (finished n) lt h = inl (n, h)

  -- Once the signal of an expert has come or its rank is given up, its thread takes at most three steps
  -- more, whatever the others do between them, and after three it has left its loop; until it has left, it
  -- has a step to take. What peers write is not 0.
  pub wait_ends :
      {s t : Waits} (run : WaitRun r s t)
      → e < r.num_experts
      → ((k l : ℕ) → r.written k l ≢ 0)
      → Settles r s e
      → (own_steps e run ≤ 3) × (own_steps e run ≡ 3 → Finished t) × (Finished t ⊎ CanMove t)
  wait_ends {s} {t} run lt some_word (inl come) =
      let (_, less) = run_with_signal run some_word come in
      let few = (at_most_3 (s.wait e)).0 in
      (
        omega (arith, less, few),
        λ all.
            at_end with_signal (t.wait e) (omega arith) (omega arith) (omega arith)
              (omega (arith, less, few, all)),
        can_move t (t.wait e) lt refl,
      )
  wait_ends {s} {t} run lt some_word (inr off) =
      let (_, less) = run_given_up run off in
      let few = (at_most_3 (s.wait e)).1 in
      (
        omega (arith, less, few),
        λ all.
            at_end given_up (t.wait e) (omega arith) (omega arith) (omega arith)
              (omega (arith, less, few, all)),
        can_move t (t.wait e) lt refl,
      )
