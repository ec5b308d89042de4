-- ===== src/EpBuffer/Connect/Done.antt =====
-- What a rank has told the device when `sync_ib` or `sync_roce` returns.
use ep_demo.Prelude.{
  ==_refl, Bool-cases, List, Option-cases, [], ap, arith, false, if◌then◌else◌, inl, inr, refl,
  some, suc, sym, true, zero, ℕ, ◌++◌, ◌+◌, ◌<◌, ◌==◌, ◌∙◌, ◌∷◌, ◌≡◌, ◌≢◌, ◌≤◌,
}
use ep_demo.EpBuffer.{use_qp_count, peer_rank}
use ep_demo.EpBuffer.Connect.{
  sync_roce, roce_attr, AhAttr, Command, Mr, QpInfo, Remote, Tables, Verbs, connect, connect_from,
  ib_attr, init2rtr_command, rtr2rts_command, sync_ib,
}

-- The commands for one queue pair, in their order.
abbrev pub commands_of : ℕ → List (ℕ × Command) → List Command
commands_of j [] = []
commands_of j (x ∷ xs) = let rest = commands_of j xs in if x.0 == j then x.1 ∷ rest else rest

pub commands_of-append :
    (j : ℕ) (xs ys : List (ℕ × Command))
    → commands_of j (xs ++ ys) ≡ commands_of j xs ++ commands_of j ys
commands_of-append j [] ys = refl
commands_of-append j (x ∷ xs) ys = elim (Bool-cases (x.0 == j)) [
  | inl e ↦ rw e (ap (λ t. x.1 ∷ t) (commands_of-append j xs ys))
  | inr e ↦ rw e (commands_of-append j xs ys)
]

two_commands :
    (j : ℕ) (a b : Command)
    → (commands_of j ((j, a) ∷ (j, b) ∷ []) ≡ a ∷ b ∷ [])
      × ((i : ℕ) → i ≢ j → commands_of i ((j, a) ∷ (j, b) ∷ []) ≡ [])
two_commands j a b = (rw (==_refl j) refl, λ i ne. rw (differ i ne) refl)
  where
    differ : (i : ℕ) → i ≢ j → (j == i) ≡ false
    differ i ne = ground (arith, ne)

module _ (v : Verbs) (num_ranks : ℕ) (qps : ℕ → QpInfo) (r : Remote) (attr : ℕ → AhAttr) where
  -- Queue pair `j` is connected: the device took both commands, and no other.
  pub record IsConnected (j : ℕ) (cmds : List Command) : Type 0 where
    pub cmd : Command
    pub made : init2rtr_command v (qps j) (attr j) (r.remote_qpns j) ≡ some cmd
    pub taken : v.accepts j cmd ≡ true
    pub then_taken : v.accepts j (rtr2rts_command v (qps j)) ≡ true
    pub both : cmds ≡ cmd ∷ rtr2rts_command v (qps j) ∷ []

  connect-IsConnected :
      (j : ℕ) (cmds : List (ℕ × Command))
      → connect v j (qps j) (attr j) (r.remote_qpns j) ≡ some cmds
      → (IsConnected j (commands_of j cmds)) × ((i : ℕ) → i ≢ j → commands_of i cmds ≡ [])
  connect-IsConnected j cmds h =
      elim (Option-cases (init2rtr_command v (qps j) (attr j) (r.remote_qpns j))) [
        | inl n ↦ absurd (ground (arith, h, n))
        | inr (cmd, made) ↦ elim (Bool-cases (v.accepts j cmd)) [
          | inr e ↦ absurd (ground (arith, h, made, e))
          | inl taken ↦ elim (Bool-cases (v.accepts j (rtr2rts_command v (qps j)))) [
            | inr e ↦ absurd (ground (arith, h, made, taken, e))
            | inl then_taken ↦
                let same : (j, cmd) ∷ (j, rtr2rts_command v (qps j)) ∷ [] ≡ cmds =
                  ground (arith, h, made, taken, then_taken) in
                (
                  record {
                    cmd = cmd;
                    made = made;
                    taken = taken;
                    then_taken = then_taken;
                    both =
                        ap (λ l. commands_of j l) (sym same)
                        ∙ (two_commands j cmd (rtr2rts_command v (qps j))).0;
                  },
                  λ i ne.
                      ap (λ l. commands_of i l) (sym same)
                      ∙ (two_commands j cmd (rtr2rts_command v (qps j))).1 i ne,
                )
          ]
        ]
      ]

  -- What the log says of queue pair `j` in the range of the loop.
  abbrev pub Settled : ℕ → List Command → Type 0
  Settled j cmds =
      (r.active_ranks_mask (peer_rank num_ranks j) ≡ 0 → cmds ≡ [])
      × (r.active_ranks_mask (peer_rank num_ranks j) ≢ 0 → IsConnected j cmds)

  Settled-step :
      (i n : ℕ) (log cmds log' : List (ℕ × Command))
      → r.active_ranks_mask (peer_rank num_ranks i) ≢ 0
      → cmds ++ log' ≡ log
      → (IsConnected i (commands_of i cmds)) × ((j : ℕ) → j ≢ i → commands_of j cmds ≡ [])
      → ((j : ℕ) → j < suc i → commands_of j log' ≡ [])
        × ((j : ℕ) → suc i ≤ j → j < suc i + n → Settled j (commands_of j log'))
      → ((j : ℕ) → j < i → commands_of j log ≡ [])
        × ((j : ℕ) → i ≤ j → j < i + suc n → Settled j (commands_of j log))
  Settled-step i n log cmds log' active same now later = (
    λ j lt.
        parts j
        ∙ ap (λ l. l ++ commands_of j log') (now.1 j (λ e. absurd (omega (arith, e, lt))))
        ∙ later.0 j (omega (arith, lt)),
    λ j ge lt. elim (Bool-cases (j == i)) [
      | inl e ↦
          let here : j ≡ i = ground (arith, e) in
          rw here (
            λ m. absurd (active m),
            λ m. record {
              cmd = now.0.cmd;
              made = now.0.made;
              taken = now.0.taken;
              then_taken = now.0.then_taken;
              both =
                  parts i
                  ∙ ap (λ l. l ++ commands_of i log') now.0.both
                  ∙ ap (λ l. now.0.cmd ∷ rtr2rts_command v (qps i) ∷ l) (later.0 i (omega arith));
            },
          )
      | inr e ↦
          let other : commands_of j log ≡ commands_of j log' =
            parts j ∙ ap (λ l. l ++ commands_of j log') (now.1 j (λ g. cc (e, g, ==_refl i))) in
          rw other (later.1 j (ground (arith, ge, e)) (omega (arith, lt)))
    ],
  )
    where
      parts : (j : ℕ) → commands_of j log ≡ commands_of j cmds ++ commands_of j log'
      parts j = ap (λ l. commands_of j l) (sym same) ∙ commands_of-append j cmds log'

  connect_from-Settled :
      (n i : ℕ) (log : List (ℕ × Command))
      → connect_from v num_ranks qps r attr i n ≡ some log
      → ((j : ℕ) → j < i → commands_of j log ≡ [])
        × ((j : ℕ) → i ≤ j → j < i + n → Settled j (commands_of j log))
  connect_from-Settled zero i log h =
      let same : [] ≡ log = cc h in
      (λ j lt. ap (λ l. commands_of j l) (sym same), λ j ge lt. absurd (omega (arith, ge, lt)))
  connect_from-Settled (suc n) i log h =
      elim (Bool-cases (r.active_ranks_mask (peer_rank num_ranks i) == 0)) [
        | inl skip ↦
            let later = connect_from-Settled n (suc i) log (rw skip at h) in
            (
              λ j lt. later.0 j (omega (arith, lt)),
              λ j ge lt. elim (Bool-cases (j == i)) [
                | inl e ↦
                    let same : j ≡ i = ground (arith, e) in
                    rw same (λ m. later.0 i (omega arith), λ m. absurd (m (ground (arith, skip))))
                | inr e ↦ later.1 j (ground (arith, ge, e)) (omega (arith, lt))
              ],
            )
        | inr go ↦ elim (Option-cases (connect v i (qps i) (attr i) (r.remote_qpns i))) [
          | inl n' ↦ absurd (cc (rw (go, n') at h))
          | inr (cmds, made) ↦ elim (Option-cases (connect_from v num_ranks qps r attr (suc i) n)) [
            | inl n' ↦ absurd (cc (rw (go, made, n') at h))
            | inr (log', rest) ↦
                let same : cmds ++ log' ≡ log = cc (rw (go, made, rest) at h) in
                Settled-step i n log cmds log' (ground (arith, go)) same
                  (connect-IsConnected i cmds made) (connect_from-Settled n (suc i) log' rest)
          ]
        ]
      ]

module _ (v : Verbs) (mr : Mr) (num_ranks : ℕ) (qps : ℕ → QpInfo) (r : Remote) where
  -- When `sync_ib` returns, the device has taken for each queue pair of an active peer exactly the two
  -- commands that connect it to the peer's number and LID, in their order, and none for the others.
  pub sync_ib-Settled :
      (rank : ℕ) (t t' : Tables) (log : List (ℕ × Command)) (j : ℕ)
      → sync_ib v mr rank num_ranks qps r t ≡ some (log, t')
      → j < use_qp_count num_ranks
      → Settled v num_ranks qps r (ib_attr r) j (commands_of j log)
  sync_ib-Settled rank t t' log j h lt =
      elim (Option-cases (connect_from v num_ranks qps r (ib_attr r) 0 (use_qp_count num_ranks))) [
        | inl n ↦ absurd (cc (rw (n, sync_ib) at h))
        | inr (l, e) ↦
            let same : l ≡ log = cc (rw (e, sync_ib) at h) in
            (connect_from-Settled v num_ranks qps r (ib_attr r) (use_qp_count num_ranks) 0 log
                (e ∙ ap some same)).1
              j (omega arith) (omega (arith, lt))
      ]

  -- When `sync_roce` returns, the device has taken for each queue pair of an active peer exactly the two
  -- commands that connect it by the peer's GID, in their order, and none for the others.
  pub sync_roce-Settled :
      (gid_index rank : ℕ) (t t' : Tables) (log : List (ℕ × Command)) (j : ℕ)
      → sync_roce v mr gid_index rank num_ranks qps r t ≡ some (log, t')
      → j < use_qp_count num_ranks
      → Settled v num_ranks qps r
          (λ i. roce_attr gid_index r (qps i) (peer_rank num_ranks i))
          j
          (commands_of j log)
  sync_roce-Settled gid_index rank t t' log j h lt =
      let attr : ℕ → AhAttr = λ i. roce_attr gid_index r (qps i) (peer_rank num_ranks i) in
      elim (Option-cases (connect_from v num_ranks qps r attr 0 (use_qp_count num_ranks))) [
        | inl n ↦ absurd (cc (rw (n, sync_roce) at h))
        | inr (l, e) ↦
            let same : l ≡ log = cc (rw (e, sync_roce) at h) in
            (connect_from-Settled v num_ranks qps r attr (use_qp_count num_ranks) 0 log
                (e ∙ ap some same)).1
              j (omega arith) (omega (arith, lt))
      ]
