-- ===== src/Kernel/Waits/Reuse.antt =====
-- A `combine` that waits on the signal words of the `dispatch` before it.
use mathlib.Core.Path.{subst}
use native.Mathlib.Nat.{
  mul-add-mod_self_right, mul_comm, div-lt_iff_lt-mul, mod-lt, div-add-mod', mod-eq_of_lt,
}
use ep_demo.Prelude.{
  ℕ, ◌+◌, ◌*◌, ◌/◌, ◌%◌, ◌^◌, ◌<◌, ==_refl, ◌≡◌, ◌≢◌, inl, inr, refl, sym, ap, ◌∙◌, false, arith,
}
use ep_demo.Kernel.{Config, num_local_experts}
use ep_demo.Kernel.Areas.{mixed-lt, mixed_div}
use ep_demo.Kernel.Slots.{IsConfig}
use ep_demo.Kernel.Receive.{signal_value}
use ep_demo.Kernel.Waits.{
  Wait, polling, late_or_not, decided, finished, Waits, Receiver, put_at, start, WaitStep,
  peer_signals, reads_signal, reads_none, in_time, over_time, goes_on, breaks, WaitRun, no_step,
  then_step, dispatch_receiver, combine_receiver,
}
use ep_demo.Kernel.Waits.Numbers.{put_at-cases, Reach-WaitInv}
use ep_demo.Kernel.Waits.Ends.{Settles, signal_stays, off_stays}

module _ (r : Receiver) (some_word : (k l : ℕ) → r.written k l ≢ 0) where
  -- Each thread that has left its loop has had its signal, or its rank is given up.
  abbrev AllSettled : Waits → Type 0
  AllSettled s = (e n : ℕ) → s.wait e ≡ finished n → Settles r s e

  still : (s t : Waits) → WaitStep r s t → (e : ℕ) → Settles r s e → Settles r t e
  still s t st e (inl come) = inl (signal_stays r e s t some_word st come)
  still s t st e (inr off) = inr (off_stays r e s t st off)

  -- A thread that moves to `w` and the others as before.
  moved :
      (s t : Waits) (st : WaitStep r s t) (k : ℕ) (w : Wait)
      → t.wait ≡ put_at s.wait k w
      → ((n : ℕ) → w ≡ finished n → Settles r s k)
      → AllSettled s
      → AllSettled t
  moved s t st k w same new all e n h =
      let now : put_at s.wait k w e ≡ finished n = ap (λ f. f e) (sym same) ∙ h in
      still s t st e (elim (put_at-cases s.wait k w e) [
        | inl (here, at) ↦ subst (λ j. Settles r s j) here (new n (sym at ∙ now))
        | inr (_, at) ↦ all e n (sym at ∙ now)
      ])

  Step-AllSettled : (s t : Waits) → WaitStep r s t → AllSettled s → AllSettled t
  Step-AllSettled s t (peer_signals k l lk ll z) all =
      λ e n h. still s t (peer_signals k l lk ll z) e (all e n h)
  Step-AllSettled s t (reads_signal k l p q) all =
      moved s t (reads_signal k l p q) k _ refl (λ n h. inl q) all
  Step-AllSettled s t (reads_none k l p q) all =
      moved s t (reads_none k l p q) k late_or_not refl (λ n h. absurd (cc h)) all
  Step-AllSettled s t (in_time k p) all =
      moved s t (in_time k p) k decided refl (λ n h. absurd (cc h)) all
  Step-AllSettled s t (over_time k p late) all =
      moved s t (over_time k p late) k decided refl (λ n h. absurd (cc h)) all
  Step-AllSettled s t (goes_on k p q) all =
      moved s t (goes_on k p q) k polling refl (λ n h. absurd (cc h)) all
  Step-AllSettled s t (breaks k p q) all = moved s t (breaks k p q) k _ refl (λ n h. inr q) all

  Run-AllSettled : {s t : Waits} → WaitRun r s t → AllSettled s → AllSettled t
  Run-AllSettled no_step all = all
  Run-AllSettled (then_step run st) all = Step-AllSettled _ _ st (Run-AllSettled run all)

-- Every word is that of an expert.
word_owner :
    (c : Config) (w : ℕ)
    → IsConfig c
    → w < c.num_experts
    → (e : ℕ) × (e < c.num_experts)
      × (e % num_local_experts c * c.num_ranks + e / num_local_experts c ≡ w)
word_owner c w ok lt =
    let l = num_local_experts c in
    let q = w / c.num_ranks in
    let m = w % c.num_ranks in
    let low : q < l = (div-lt_iff_lt-mul ok.some_rank).1 (subst (λ n. w < n) ok.divides lt) in
    let less : m < c.num_ranks = mod-lt w ok.some_rank in
    let local : (m * l + q) % l ≡ q = mul-add-mod_self_right m l q ∙ mod-eq_of_lt low in
    let inside : m * l + q < c.num_experts =
      subst (λ n. m * l + q < n) (mul_comm c.num_ranks l ∙ sym ok.divides)
        (mixed-lt c.num_ranks l m q less low) in
    (m * l + q, inside, rw (local, mixed_div l m q low) (div-add-mod' w c.num_ranks))

-- After the waits of `dispatch` have ended for all experts, without a timeout, with every rank active at the
-- start and with fewer than 2 ^ 31 tokens sent by each, no word of the signal buffer is 0. If `combine` then
-- waits on the same words, each of its threads may leave its loop with its first read, without a signal of
-- its peer.
pub combine_reuses_signals :
    (c : Config) (sent : ℕ → ℕ → ℕ) (given : ℕ → ℕ) (s : Waits) (w : ℕ)
    → IsConfig c
    → ((k l : ℕ) → sent k l < 2 ^ 31)
    → ((k : ℕ) → given k ≢ 0)
    → WaitRun (dispatch_receiver c sent false) (start given) s
    → ((e : ℕ) → e < c.num_experts → (n : ℕ) × (s.wait e ≡ finished n))
    → w < c.num_experts
    → let again = record s { wait = λ _. polling } in
      (s.signals w ≢ 0)
      × (t : Waits) × WaitStep (combine_receiver c false) again t
      × (t.wait w ≡ finished (signal_value (s.signals w)))
combine_reuses_signals c sent given s w ok small on run ended lt =
    let r = dispatch_receiver c sent false in
    let some_word : (k l : ℕ) → r.written k l ≢ 0 = λ k l h. omega (arith, small k l, h) in
    let (e, inside, same) = word_owner c w ok lt in
    let (n, at) = ended e inside in
    let active : s.active_ranks (r.src_rank e) ≡ given (r.src_rank e) =
      (Reach-WaitInv r given run).no_timeout refl (r.src_rank e) in
    let come : s.signals w ≢ 0 =
      elim (Run-AllSettled r some_word run (λ k m h. absurd (cc h)) e n at) [
        | inl some_signal ↦ subst (λ i. s.signals i ≢ 0) same some_signal
        | inr off ↦ absurd (on (r.src_rank e) (sym active ∙ off))
      ] in
    (come, _, reads_signal w lt refl come, rw (==_refl w) refl)
