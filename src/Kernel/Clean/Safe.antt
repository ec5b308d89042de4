-- ===== src/Kernel/Clean/Safe.antt =====
-- The flag of `combine`: no receiver is signalled before the buffer is clean, no warp waits in vain, and
-- the flag is back at 0 at the end.
use ep_demo.Prelude.{
  Bool-cases, ap, arith, false, inl, inr, ltb, ltb→lt, refl, suc, true, zero, ℕ, ◌+◌, ◌<◌, ◌^◌, ◌≡◌,
  ◌≢◌, ◌≤◌,
}
use ep_demo.Kernel.Clean.{
  CleanReach, CleanStep, Flags, Stage, advance_stage, all_sent, clean_buffer, count_off,
  counted_off, launched, sending, signal_receiver, signalled_on, then_step, waits,
}

abbrev pub is_off : Stage → ℕ
is_off counted_off = 1
is_off _ = 0

-- How many of the experts below `n` have taken their 1 from the flag.
unfoldable pub offs : ℕ → (ℕ → Stage) → ℕ
offs zero f = 0
offs (suc n) f = offs n f + is_off (f n)

offs-advance_above :
    (n : ℕ) (f : ℕ → Stage) (i : ℕ) (p : Stage) → n ≤ i → offs n (advance_stage f i p) ≡ offs n f
unfolding offs
offs-advance_above zero f i p h = refl
offs-advance_above (suc n) f i p h = ground (arith, offs-advance_above n f i p)

offs-advance :
    (n : ℕ) (f : ℕ → Stage) (i : ℕ) (p : Stage)
    → i < n
    → offs n (advance_stage f i p) + is_off (f i) ≡ offs n f + is_off p
unfolding offs
offs-advance zero f i p h = absurd (omega arith)
offs-advance (suc n) f i p h = ground (arith, offs-advance n f i p, offs-advance_above n f i p)

offs-le : (n : ℕ) (f : ℕ → Stage) → offs n f ≤ n
unfolding offs
offs-le zero f = omega arith
offs-le (suc n) f = ground (arith, offs-le n f)

offs-lt : (n : ℕ) (f : ℕ → Stage) (i : ℕ) → i < n → is_off (f i) ≡ 0 → offs n f < n
unfolding offs
offs-lt zero f i h e = absurd (omega (arith, h))
offs-lt (suc n) f i h e = ground (arith, offs-lt n f i, offs-le n f)

offs_all : (n : ℕ) (f : ℕ → Stage) → ((i : ℕ) → i < n → f i ≡ counted_off) → offs n f ≡ n
unfolding offs
offs_all zero f h = refl
offs_all (suc n) f h =
    omega (arith, offs_all n f (λ i l. h i (omega (arith, l))), ap is_off (h n (omega arith)))

offs_none : (n : ℕ) → offs n (λ _. sending) ≡ 0
unfolding offs
offs_none zero = refl
offs_none (suc n) = omega (arith, offs_none n)

pub record CleanInv (n : ℕ) (s : Flags) : Type 0 where
  pub word : s.atomic_clean_flag < 2 ^ 32
  pub before : s.cleaned ≡ false → s.atomic_clean_flag ≡ 0
  pub quiet : s.cleaned ≡ false → (i : ℕ) → (s.stage i ≢ signalled_on) × (s.stage i ≢ counted_off)
  pub after : s.cleaned ≡ true → s.atomic_clean_flag + offs n s.stage ≡ n
  pub inside : (i : ℕ) → n ≤ i → s.stage i ≡ sending
  pub none_off : s.cleaned ≡ false → offs n s.stage ≡ 0

inside_lt : {n : ℕ} {s : Flags} → CleanInv n s → (i : ℕ) → s.stage i ≢ sending → i < n
inside_lt {n} {s} v i h = elim (Bool-cases (ltb i n)) [
  | inl e ↦ ltb→lt i n e
  | inr e ↦ absurd (h (v.inside i (ground (arith, e))))
]

Step-CleanInv : {n : ℕ} {s t : Flags} → n < 2 ^ 31 → CleanStep n s t → CleanInv n s → CleanInv n t
Step-CleanInv {n} {s} small (clean_buffer p) v = record {
  word = omega arith;
  before = λ e. cc e;
  quiet = λ e. cc e;
  after = λ e. omega (arith, v.before p, v.none_off p, small);
  inside = v.inside;
  none_off = λ e. cc e;
}
Step-CleanInv {n} {s} small (all_sent i l p) v =
    let moved = offs-advance n s.stage i waits l in
    let zero_off : is_off (s.stage i) ≡ 0 = ap is_off p in
    record {
      word = v.word;
      before = v.before;
      quiet = λ e k. ground (arith, v.quiet e k);
      after = λ e. omega (arith, v.after e, moved, zero_off);
      inside = λ k g. ground (arith, v.inside k g, l);
      none_off = λ e. omega (arith, v.none_off e, moved, zero_off);
    }
Step-CleanInv {n} {s} small (signal_receiver i p q) v =
    let l = inside_lt v i (λ e. cc (e, p)) in
    let moved = offs-advance n s.stage i signalled_on l in
    let zero_off : is_off (s.stage i) ≡ 0 = ap is_off p in
    record {
      word = v.word;
      before = v.before;
      quiet = λ e k. absurd (q (v.before e));
      after = λ e. omega (arith, v.after e, moved, zero_off);
      inside = λ k g. ground (arith, v.inside k g, l);
      none_off = λ e. absurd (q (v.before e));
    }
Step-CleanInv {n} {s} small (count_off i p) v =
    let l = inside_lt v i (λ e. cc (e, p)) in
    let moved = offs-advance n s.stage i counted_off l in
    let zero_off : is_off (s.stage i) ≡ 0 = ap is_off p in
    let more = offs-lt n s.stage i l zero_off in
    record {
      word = omega arith;
      before = λ e. absurd ((v.quiet e i).0 p);
      quiet = λ e. absurd ((v.quiet e i).0 p);
      after = λ e. omega (arith, v.after e, moved, zero_off, more, small);
      inside = λ k g. ground (arith, v.inside k g, l);
      none_off = λ e. absurd ((v.quiet e i).0 p);
    }

CleanReach-Inv : {n : ℕ} {s : Flags} → n < 2 ^ 31 → CleanReach n s → CleanInv n s
CleanReach-Inv {n} small launched = record {
  word = omega arith;
  before = λ e. refl;
  quiet = λ e i. (λ h. cc h, λ h. cc h);
  after = λ e. cc e;
  inside = λ i h. refl;
  none_off = λ e. offs_none n;
}
CleanReach-Inv small (then_step r st) = Step-CleanInv small st (CleanReach-Inv small r)

-- A receiver is signalled only after the other round's buffer is cleaned; once it is cleaned, the flag is
-- not 0 while a warp still waits for it, so no warp waits in vain; and when every expert has taken its 1
-- from the cleaned round's flag, the flag is 0 again for the next launch.
pub clean_flag_safe :
    {n : ℕ} {s : Flags}
    → n < 2 ^ 31
    → CleanReach n s
    → ((i : ℕ) → s.stage i ≡ signalled_on → s.cleaned ≡ true)
      × ((i : ℕ) → s.cleaned ≡ true → s.stage i ≡ waits → s.atomic_clean_flag ≢ 0)
      × (s.cleaned ≡ true → ((i : ℕ) → i < n → s.stage i ≡ counted_off) → s.atomic_clean_flag ≡ 0)
clean_flag_safe {n} {s} small r =
    let v = CleanReach-Inv small r in
    (
      λ i p. elim (Bool-cases s.cleaned) [ inl e ↦ e | inr e ↦ absurd ((v.quiet e i).0 p) ],
      λ i e p z.
          let l = inside_lt v i (λ q. cc (p, q)) in
          let more = offs-lt n s.stage i l (ap is_off p) in omega (arith, v.after e, more, z),
      λ e all. omega (arith, v.after e, offs_all n s.stage all),
    )
