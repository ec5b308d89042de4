-- ===== src/EpBuffer/Connect/Mesh.antt =====
-- The queue pairs of all ranks after each rank's `sync_ib`, when the ranks have exchanged their numbers.
use mathlib.Core.Path.{subst}
use ep_demo.Prelude.{ℕ, ◌<◌, ◌≡◌, ◌≢◌, ap, ◌∙◌, Option, none, some, List, [], ◌∷◌}
use ep_demo.EpBuffer.{use_qp_count, peer_rank}
use ep_demo.EpBuffer.Connect.{
  Command, init2rtr, AddressPath, address_path, AhAttr, Mr, QpInfo, Remote, Tables, Verbs,
  rtr2rts_command, ib_attr, sync_ib,
}
use ep_demo.EpBuffer.Connect.Done.{commands_of, IsConnected, sync_ib-Settled}
use ep_demo.EpBuffer.Pairs.{IsRanks, other_end, other_end-lt, other_end-mutual}

-- The two commands that connect a queue pair to the one with number `remote_qpn`.
abbrev pub Names : Verbs → QpInfo → ℕ → List Command → Type 0
Names v qp remote_qpn cmds =
    (path : AddressPath) × (cmds
      ≡ init2rtr qp.qpn v.mtu_4096 30 remote_qpn 7 1 path ∷ rtr2rts_command v qp ∷ [])

IsConnected-Names :
    (v : Verbs) (num_ranks : ℕ) (qps : ℕ → QpInfo) (r : Remote) (attr : ℕ → AhAttr) (j : ℕ)
    (cmds : List Command)
    → IsConnected v num_ranks qps r attr j cmds
    → Names v (qps j) (r.remote_qpns j) cmds
IsConnected-Names v num_ranks qps r attr j cmds c =
    by_path (address_path v (qps j).link_layer (attr j)) c.made
  where
    by_path :
        (path : Option AddressPath)
        → elim path [
          | none ↦ none
          | some p ↦ some (init2rtr (qps j).qpn v.mtu_4096 30 (r.remote_qpns j) 7 1 p)
        ]
          ≡ some c.cmd
        → Names v (qps j) (r.remote_qpns j) cmds
    by_path none e = absurd (cc e)
    by_path (some p) e =
        let same : c.cmd ≡ init2rtr (qps j).qpn v.mtu_4096 30 (r.remote_qpns j) 7 1 p = cc e in
        (p, c.both ∙ ap (λ k. k ∷ rtr2rts_command v (qps j) ∷ []) same)

-- What a rank brings to the exchange, and the commands that its device has taken.
pub record Peer : Type 0 where
  pub verbs : Verbs
  pub mr : Mr
  pub qps : ℕ → QpInfo
  pub remote : Remote
  pub before : Tables
  pub after : Tables
  pub log : List (ℕ × Command)

module _ (n : ℕ) (peer : ℕ → Peer) where
  -- Each rank gets for each of its queue pairs the number of the one at the other end.
  abbrev pub Exchanged : Type 0
  Exchanged =
      (rank j : ℕ)
      → rank < n
      → j < use_qp_count n
      → (peer rank).remote.remote_qpns j ≡ ((peer (peer_rank n j)).qps (other_end n rank j)).qpn

  abbrev pub Synced : ℕ → Type 0
  Synced rank =
      let p = peer rank in
      sync_ib p.verbs p.mr rank n p.qps p.remote p.before ≡ some (p.log, p.after)

  named :
      (rank j : ℕ)
      → Synced rank
      → j < use_qp_count n
      → (peer rank).remote.active_ranks_mask (peer_rank n j) ≢ 0
      → Names
          (peer rank).verbs
          ((peer rank).qps j)
          ((peer rank).remote.remote_qpns j)
          (commands_of j (peer rank).log)
  named rank j synced lt active =
      let p = peer rank in
      IsConnected-Names p.verbs n p.qps p.remote (ib_attr p.remote) j (commands_of j p.log) (
        (sync_ib-Settled p.verbs p.mr n p.qps p.remote rank p.before p.after p.log j synced lt).1
          active)

  -- Two ranks that take each other for active and have exchanged their numbers: once `sync_ib` has returned
  -- on both, each queue pair between them and the one at its other end have been connected to each other,
  -- by the same commands but for the path.
  pub sync_ib-mutual :
      (rank i : ℕ)
      → IsRanks n
      → rank < n
      → i < use_qp_count n
      → Exchanged
      → Synced rank
      → Synced (peer_rank n i)
      → (peer rank).remote.active_ranks_mask (peer_rank n i) ≢ 0
      → (peer (peer_rank n i)).remote.active_ranks_mask rank ≢ 0
      → let a = peer rank in
        let b = peer (peer_rank n i) in
        let k = other_end n rank i in
        Names a.verbs (a.qps i) (b.qps k).qpn (commands_of i a.log)
        × Names b.verbs (b.qps k) (a.qps i).qpn (commands_of k b.log)
  sync_ib-mutual rank i ranks lt li exchanged synced synced' active active' =
      let a = peer rank in
      let b = peer (peer_rank n i) in
      let k = other_end n rank i in
      let (peer_lt, back, number) =
        other_end-mutual n (λ r j. ((peer r).qps j).qpn) (λ r j. (peer r).remote.remote_qpns j) rank
          i ranks lt li exchanged in
      (
        subst (λ q. Names a.verbs (a.qps i) q (commands_of i a.log)) (exchanged rank i lt li)
            (named rank i synced li active),
        subst (λ q. Names b.verbs (b.qps k) q (commands_of k b.log)) number
            (named (peer_rank n i) k synced' (other_end-lt n rank i ranks lt) (rw back active')),
      )
