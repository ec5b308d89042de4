-- ===== src/Kernel/Waits/Numbers.antt =====
-- What the waiting threads leave their loops with.
use mathlib.Core.Path.{subst}
use ep_demo.Prelude.{
  ℕ, ◌-◌, ◌^◌, ◌<◌, ◌==◌, ◌≡◌, ◌≢◌, ◌⊎◌, inl, inr, refl, sym, ap, ◌∙◌, ◌/◌, ◌%◌, Bool, true, false,
  Bool-cases, arith,
}
use ep_demo.Kernel.{Config, num_local_experts}
use ep_demo.Kernel.Areas.{mixed_inj}
use ep_demo.Kernel.Slots.{IsConfig}
use ep_demo.Kernel.Rows.{owner-lt}
use ep_demo.Kernel.Receive.{signal_value}
use ep_demo.Kernel.Waits.{
  Wait, polling, late_or_not, decided, finished, Waits, Receiver, put_at, start, WaitStep,
  peer_signals, reads_signal, reads_none, in_time, over_time, goes_on, breaks, WaitRun, no_step,
  then_step, dispatch_receiver,
}

-- A word that is not 0 is one that a peer has written.
abbrev pub IsWritten : Receiver → ℕ → ℕ → Type 0
IsWritten r i word =
    (rank local_idx : ℕ) × (rank < r.num_ranks)
    × (local_idx < r.num_local_experts)
    × (r.sent_index rank local_idx ≡ i)
    × (word ≡ r.written rank local_idx)

-- The number is that of a word that a peer has written where the thread reads, or the rank is given up and
-- the number is 0.
abbrev pub Received : Receiver → Waits → ℕ → ℕ → Type 0
Received r s e n =
    ((word : ℕ) × IsWritten r (r.signal_index e) word × (n ≡ signal_value word))
    ⊎ ((n ≡ 0) × (s.active_ranks (r.src_rank e) ≡ 0))

-- The signals are those written, a rank that is given up stays so, and without a timeout none is.
pub record WaitInv (r : Receiver) (given : ℕ → ℕ) (s : Waits) : Type 0 where
  pub signals : (i : ℕ) → s.signals i ≢ 0 → IsWritten r i (s.signals i)
  pub given_up : (k : ℕ) → (s.active_ranks k ≡ given k) ⊎ (s.active_ranks k ≡ 0)
  pub no_timeout : r.has_timeout ≡ false → (k : ℕ) → s.active_ranks k ≡ given k
  pub ends : (e n : ℕ) → s.wait e ≡ finished n → Received r s e n

-- An entry of a changed function is the new one or an old one.
pub put_at-cases :
    {A : Type 0} (f : ℕ → A) (i : ℕ) (x : A) (j : ℕ)
    → ((i ≡ j) × (put_at f i x j ≡ x)) ⊎ ((i ≢ j) × (put_at f i x j ≡ f j))
put_at-cases f i x j = elim (Bool-cases (i == j)) [
  | inl e ↦ inl (ground (arith, e), rw e refl)
  | inr e ↦ inr (λ h. ground (arith, h, e), rw e refl)
]

module _ (r : Receiver) (given : ℕ → ℕ) where
  -- A thread that moves to a place inside its loop.
  moves :
      (s : Waits) (e : ℕ) (w : Wait)
      → ((n : ℕ) → w ≢ finished n)
      → WaitInv r given s
      → WaitInv r given (record s { wait = put_at s.wait e w })
  moves s e w inside v = record {
    signals = v.signals;
    given_up = v.given_up;
    no_timeout = v.no_timeout;
    ends = λ k n h. elim (put_at-cases s.wait e w k) [
      | inl (_, at) ↦ absurd (inside n (sym at ∙ h))
      | inr (_, at) ↦ v.ends k n (sym at ∙ h)
    ];
  }

  -- A thread that leaves its loop.
  leaves :
      (s : Waits) (e m : ℕ)
      → Received r s e m
      → WaitInv r given s
      → WaitInv r given (record s { wait = put_at s.wait e (finished m) })
  leaves s e m got v = record {
    signals = v.signals;
    given_up = v.given_up;
    no_timeout = v.no_timeout;
    ends = λ k n h. elim (put_at-cases s.wait e (finished m) k) [
      | inl (here, at) ↦
          let same : m ≡ n = cc (sym at ∙ h) in
          subst (λ k. Received r s k n) here (subst (λ q. Received r s e q) same got)
      | inr (_, at) ↦ v.ends k n (sym at ∙ h)
    ];
  }

  start-WaitInv : WaitInv r given (start given)
  start-WaitInv = record {
    signals = λ i h. absurd (h refl);
    given_up = λ k. inl refl;
    no_timeout = λ h k. refl;
    ends = λ e n h. absurd (cc h);
  }

  -- A peer's signal is new, so no thread has read it.
  signalled :
      (s : Waits) (rank local_idx : ℕ)
      → rank < r.num_ranks
      → local_idx < r.num_local_experts
      → WaitInv r given s
      → WaitInv r given (record s {
        signals = put_at s.signals (r.sent_index rank local_idx) (r.written rank local_idx);
      })
  signalled s rank local_idx lr ll v = record {
    signals = λ k h.
        elim (put_at-cases s.signals (r.sent_index rank local_idx) (r.written rank local_idx) k) [
          | inl (here, at) ↦ (rank, local_idx, lr, ll, here, at)
          | inr (_, at) ↦ subst (IsWritten r k) (sym at) (v.signals k (λ z. h (at ∙ z)))
        ];
    given_up = v.given_up;
    no_timeout = v.no_timeout;
    ends = v.ends;
  }

  gives_up :
      (s : Waits) (k : ℕ)
      → r.has_timeout ≡ true
      → WaitInv r given s
      → WaitInv r given (record s { active_ranks = put_at s.active_ranks k 0 })
  gives_up s k late v = record {
    signals = v.signals;
    given_up = λ j. elim (put_at-cases s.active_ranks k 0 j) [
      | inl (_, at) ↦ inr at
      | inr (_, at) ↦ elim (v.given_up j) [ inl same ↦ inl (at ∙ same) | inr off ↦ inr (at ∙ off) ]
    ];
    no_timeout = λ h j. absurd (cc (h, late));
    ends = λ e n h. elim (v.ends e n h) [
      | inl got ↦ inl got
      | inr (none_got, off) ↦ inr (
        none_got,
        elim (put_at-cases s.active_ranks k 0 (r.src_rank e)) [
          | inl (_, at) ↦ at
          | inr (_, at) ↦ at ∙ off
        ],
      )
    ];
  }

  Step-WaitInv : (s t : Waits) → WaitStep r s t → WaitInv r given s → WaitInv r given t
  Step-WaitInv s t (peer_signals k l lk ll z) v = signalled s k l lk ll v
  Step-WaitInv s t (reads_signal e l p q) v =
      leaves s e (signal_value (s.signals (r.signal_index e)))
        (inl (s.signals (r.signal_index e), v.signals (r.signal_index e) q, refl)) v
  Step-WaitInv s t (reads_none e l p q) v = moves s e late_or_not (λ n h. cc h) v
  Step-WaitInv s t (in_time e p) v = moves s e decided (λ n h. cc h) v
  Step-WaitInv s t (over_time e p late) v =
      moves (record s { active_ranks = put_at s.active_ranks (r.src_rank e) 0 }) e decided
        (λ n h. cc h) (gives_up s (r.src_rank e) late v)
  Step-WaitInv s t (goes_on e p q) v = moves s e polling (λ n h. cc h) v
  Step-WaitInv s t (breaks e p q) v =
      leaves s e (signal_value (2 ^ 32 - 1)) (inr (omega arith, q)) v

  Run-WaitInv : {s t : Waits} → WaitRun r s t → WaitInv r given s → WaitInv r given t
  Run-WaitInv no_step v = v
  Run-WaitInv (then_step run st) v = Step-WaitInv _ _ st (Run-WaitInv run v)

  pub Reach-WaitInv : {s : Waits} → WaitRun r (start given) s → WaitInv r given s
  Reach-WaitInv run = Run-WaitInv run start-WaitInv

-- In a well-formed configuration and from a clean signal buffer, whatever the order of the accesses and signals: a thread of `dispatch` that
-- has left its loop for expert index `e` has the number of tokens that rank `e / num_local_experts` has
-- sent to the local expert `e % num_local_experts`, or 0, and then that rank is given up. Without a
-- timeout, it has the number sent if the rank was active. All numbers are less than 2 ^ 31.
pub dispatch_numbers :
    (c : Config) (sent : ℕ → ℕ → ℕ) (given : ℕ → ℕ) (has_timeout : Bool) (s : Waits) (e n : ℕ)
    → IsConfig c
    → e < c.num_experts
    → ((k l : ℕ) → sent k l < 2 ^ 31)
    → WaitRun (dispatch_receiver c sent has_timeout) (start given) s
    → s.wait e ≡ finished n
    → let rank = e / num_local_experts c in
      let local_idx = e % num_local_experts c in
      ((n ≡ sent rank local_idx) ⊎ ((n ≡ 0) × (s.active_ranks rank ≡ 0)))
      × (has_timeout ≡ false → given rank ≢ 0 → n ≡ sent rank local_idx)
dispatch_numbers c sent given has_timeout s e n ok lt small run h =
    let r = dispatch_receiver c sent has_timeout in
    let rank = e / num_local_experts c in
    let local_idx = e % num_local_experts c in
    let v = Reach-WaitInv r given run in
    let right : (m : ℕ)
        → (word : ℕ) × IsWritten r (r.signal_index e) word × (m ≡ signal_value word)
        → m ≡ sent rank local_idx =
      λ m got.
        let (word, (k, l, lk, ll, same, wrote), value) = got in
        let back : signal_value (signal_value (sent k l)) ≡ sent k l = omega (arith, small k l) in
        let parts = mixed_inj c.num_ranks l k local_idx rank lk (owner-lt c ok e lt) same in
        value ∙ ap signal_value wrote ∙ back ∙ (λ i. sent (parts.1 i) (parts.0 i)) in
    let got = v.ends e n h in
    (
      elim got [ inl came ↦ inl (right n came) | inr off ↦ inr off ],
      λ never on. elim got [
        | inl came ↦ right n came
        | inr (_, off) ↦ absurd (on (sym (v.no_timeout never rank) ∙ off))
      ],
    )
