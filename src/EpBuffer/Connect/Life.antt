-- ===== src/EpBuffer/Connect/Life.antt =====
-- The states of a queue pair in the device, from its creation to the end of `sync_ib`.
use ep_demo.Prelude.{
  ℕ, zero, suc, ◌+◌, ◌<◌, ◌≤◌, ◌≡◌, ◌≢◌, sym, ap, ◌∙◌, false, ◌==◌, ==_refl, inl, inr, Option, none,
  some, List, [], ◌∷◌, ◌++◌, Bool-cases, Option-cases, arith,
}
use ep_demo.EpBuffer.{use_qp_count, peer_rank}
use ep_demo.EpBuffer.Connect.{
  Command, rst2init, init2rtr, rtr2rts, AddressPath, address_path, AhAttr, Mr, QpInfo, Remote,
  Tables, Verbs, rst2init_from, rst2init_command, rtr2rts_command, ib_attr, sync_ib,
}
use ep_demo.EpBuffer.Connect.Done.{commands_of, commands_of-append, IsConnected, sync_ib-Settled}

-- The device: the state of a queue pair after a command that it has taken, by the states of InfiniBand.
pub record Hca : Type 1 where
  pub State : Type 0
  pub reset : State
  pub init : State
  pub ready_to_receive : State
  pub ready_to_send : State
  pub after : State → Command → State
  pub from_reset :
      (qpn rwe rre rae mode port : ℕ) (pkey : Option ℕ) (pm : ℕ)
      → after reset (rst2init qpn rwe rre rae mode port pkey pm) ≡ init
  pub from_init :
      (qpn mtu max remote_qpn nak rra : ℕ) (path : AddressPath)
      → after init (init2rtr qpn mtu max remote_qpn nak rra path) ≡ ready_to_receive
  pub from_ready_to_receive :
      (qpn freq sra psn retry rnr timeout : ℕ)
      → after ready_to_receive (rtr2rts qpn freq sra psn retry rnr timeout) ≡ ready_to_send

abbrev pub state_after : (h : Hca) → h.State → List Command → h.State
state_after h s [] = s
state_after h s (c ∷ cs) = state_after h (h.after s c) cs

-- One command for each queue pair in the range, and none for the others.
rst2init_from-commands :
    (v : Verbs) (qps : ℕ → QpInfo) (n i : ℕ) (log : List (ℕ × Command))
    → rst2init_from v qps i n ≡ some log
    → ((j : ℕ) → j < i → commands_of j log ≡ [])
      × ((j : ℕ) → i ≤ j → j < i + n → commands_of j log ≡ rst2init_command v (qps j) 0 ∷ [])
rst2init_from-commands v qps zero i log h =
    let same : [] ≡ log = cc h in
    (λ j lt. ap (λ l. commands_of j l) (sym same), λ j ge lt. absurd (omega (arith, ge, lt)))
rst2init_from-commands v qps (suc n) i log h =
    elim (Bool-cases (v.accepts i (rst2init_command v (qps i) 0))) [
      | inr e ↦ absurd (cc (rw e at h))
      | inl e ↦ elim (Option-cases (rst2init_from v qps (suc i) n)) [
        | inl none_left ↦ absurd (cc (rw (e, none_left) at h))
        | inr (rest, more) ↦
            let later = rst2init_from-commands v qps n (suc i) rest more in
            let same : (i, rst2init_command v (qps i) 0) ∷ rest ≡ log = cc (rw (e, more) at h) in
            (
              λ j lt.
                  ap (λ l. commands_of j l) (sym same)
                  ∙ rw (differ j lt) (later.0 j (omega (arith, lt))),
              λ j ge lt. elim (Bool-cases (j == i)) [
                | inl eq ↦
                    let here : j ≡ i = ground (arith, eq) in
                    let now : commands_of i log ≡ rst2init_command v (qps i) 0 ∷ [] =
                      ap (λ l. commands_of i l) (sym same)
                      ∙ rw (==_refl i)
                          (ap (λ l. rst2init_command v (qps i) 0 ∷ l) (later.0 i (omega arith))) in
                    rw here now
                | inr ne ↦
                    ap (λ l. commands_of j l) (sym same)
                    ∙ rw (flip j ne) (later.1 j (ground (arith, ge, ne)) (omega (arith, lt)))
              ],
            )
      ]
    ]
  where
    differ : (j : ℕ) → j < i → (i == j) ≡ false
    differ j lt = ground (arith, lt)

    flip : (j : ℕ) → (j == i) ≡ false → (i == j) ≡ false
    flip j ne = ground (arith, ne)

module _ (h : Hca) (v : Verbs) (qps : ℕ → QpInfo) where
  -- What a queue pair's two commands of `sync_ib` do.
  connected :
      (num_ranks : ℕ) (r : Remote) (attr : ℕ → AhAttr) (j : ℕ) (cmds : List Command)
      → IsConnected v num_ranks qps r attr j cmds
      → state_after h h.init cmds ≡ h.ready_to_send
  connected num_ranks r attr j cmds c =
      ap (λ l. state_after h h.init l) c.both
      ∙ by_path (address_path v (qps j).link_layer (attr j)) c.made
    where
      by_path :
          (path : Option AddressPath)
          → elim path [
            | none ↦ none
            | some p ↦ some (init2rtr (qps j).qpn v.mtu_4096 30 (r.remote_qpns j) 7 1 p)
          ]
            ≡ some c.cmd
          → state_after h h.init (c.cmd ∷ rtr2rts_command v (qps j) ∷ []) ≡ h.ready_to_send
      by_path none e = absurd (cc e)
      by_path (some p) e =
          let same : init2rtr (qps j).qpn v.mtu_4096 30 (r.remote_qpns j) 7 1 p ≡ c.cmd = cc e in
          ap (λ k. state_after h h.init (k ∷ rtr2rts_command v (qps j) ∷ [])) (sym same)
          ∙ ap (λ s. h.after s (rtr2rts_command v (qps j))) (h.from_init _ _ _ _ _ _ p)
          ∙ h.from_ready_to_receive _ _ _ _ _ _ _

  -- After the queue pairs have been created and `sync_ib` has returned: the commands that the device has
  -- taken for a queue pair have led it, through the states in their order, to be ready to send if its peer
  -- is active, and to its initialized state if not.
  pub sync_ib-state :
      (mr : Mr) (num_ranks rank : ℕ) (r : Remote) (t t' : Tables)
      (created connected : List (ℕ × Command)) (j : ℕ)
      → rst2init_from v qps 0 (use_qp_count num_ranks) ≡ some created
      → sync_ib v mr rank num_ranks qps r t ≡ some (connected, t')
      → j < use_qp_count num_ranks
      → (r.active_ranks_mask (peer_rank num_ranks j) ≢ 0
          → state_after h h.reset (commands_of j (created ++ connected)) ≡ h.ready_to_send)
        × (r.active_ranks_mask (peer_rank num_ranks j) ≡ 0
            → state_after h h.reset (commands_of j (created ++ connected)) ≡ h.init)
  sync_ib-state mr num_ranks rank r t t' created log j made synced lt =
      let first =
        (rst2init_from-commands v qps (use_qp_count num_ranks) 0 created made).1 j (omega arith)
          (omega (arith, lt)) in
      let settled = sync_ib-Settled v mr num_ranks qps r rank t t' log j synced lt in
      let all : commands_of j (created ++ log) ≡ rst2init_command v (qps j) 0 ∷ commands_of j log =
        commands_of-append j created log ∙ ap (λ l. l ++ commands_of j log) first in
      let start : state_after h h.reset (commands_of j (created ++ log))
          ≡ state_after h h.init (commands_of j log) =
        ap (λ l. state_after h h.reset l) all
        ∙ ap (λ s. state_after h s (commands_of j log)) (h.from_reset _ _ _ _ _ _ _ _) in
      (
        λ active.
            start ∙ connected num_ranks r (ib_attr r) j (commands_of j log) (settled.1 active),
        λ inactive. start ∙ ap (λ l. state_after h h.init l) (settled.0 inactive),
      )
