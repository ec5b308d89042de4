-- ===== src/EpBuffer/P2p.antt =====
-- Which peers the kernels may write to through a pointer, after `sync_nvlink_ipc_handles`.
use ep_demo.Prelude.{
  ==_iff, Bool, Bool-cases, List, ap, arith, false, get_elem?, if◌then◌else◌, inl, inr, length, ltb,
  lt→ltb, none, refl, some, suc, sym, true, zero, ℕ, ◌%◌, ◌&&◌, ◌+◌, ◌-◌, ◌/◌, ◌<◌, ◌==◌, ◌||◌, ◌∙◌,
  ◌≡◌, ◌≢◌, ◌≤◌,
}
use ep_demo.EpBuffer.Handles.{handle_of, num_int32s}
use ep_demo.EpBuffer.Nvlink.{
  Entry, Ipc, all_mapped, fresh, group_end, group_start, open_peer, put_entry, sync_group,
  sync_nvlink_ipc_handles, visit, visits,
}

enabled_parts :
    (m l n : Bool)
    → (if m && l then if n then true else false else m) ≡ true
    → (m ≡ true) × (l ≡ true → n ≡ true)
enabled_parts true true true h = (refl, λ g. refl)
enabled_parts true true false h = cc h
enabled_parts true false n h = (refl, λ g. cc g)
enabled_parts false l n h = cc h

module _ (c : Ipc) where
  -- The loop does its round for each rank of its range, and leaves the other entries.
  visits-at :
      (n i : ℕ) (s : ℕ → Entry) (j : ℕ)
      → (j < i → visits c n i s j ≡ s j)
        × (i + n ≤ j → visits c n i s j ≡ s j)
        × (i ≤ j → j < i + n → visits c n i s j ≡ visit c j (s j))
  visits-at zero i s j = (λ h. refl, λ h. refl, λ g h. absurd (omega (arith, g, h)))
  visits-at (suc n) i s j =
      let later = visits-at n (suc i) (put_entry s i (visit c i (s i))) j in
      (
        λ h.
            later.0 (omega (arith, h))
            ∙ kept i s (visit c i (s i)) j (λ e. absurd (omega (arith, e, h))),
        λ h.
            later.1 (omega (arith, h))
            ∙ kept i s (visit c i (s i)) j (λ e. absurd (omega (arith, e, h))),
        λ g h. elim (Bool-cases (i == j)) [
          | inl e ↦
              let same : i ≡ j = ground (arith, e) in
              later.0 (omega (arith, same))
              ∙ own i j e s (visit c i (s i))
              ∙ ap (λ t. visit c t (s t)) same
          | inr e ↦
              later.2 (ground (arith, g, e)) (omega (arith, h))
              ∙ ap (λ t. visit c j t) (kept i s (visit c i (s i)) j (λ k. ground (arith, k, e)))
        ],
      )
    where
      own : (i j : ℕ) → (i == j) ≡ true → (s : ℕ → Entry) (x : Entry) → put_entry s i x j ≡ x
      own i j e s x = rw e refl

      kept : (i : ℕ) (s : ℕ → Entry) (x : Entry) (j : ℕ) → i ≢ j → put_entry s i x j ≡ s j
      kept i s x j ne = ground (arith, ne)

  all_mapped-suc :
      (n i : ℕ) (s : ℕ → Entry)
      → all_mapped c (suc n) i s ≡ true
      → (all_mapped c n (suc i) s ≡ true)
        × (c.active_ranks_mask i ≢ 0 → ((s i).nvlink ≢ 0) × ((s i).ptr ≢ 0))
  all_mapped-suc n i s h = elim (Bool-cases (c.active_ranks_mask i == 0)) [
    | inl e ↦ (rw e at h, λ a. absurd (a (ground (arith, e))))
    | inr e ↦ elim (Bool-cases (((s i).nvlink == 0) || ((s i).ptr == 0))) [
      | inl f ↦ absurd (cc (rw (e, f) at h))
      | inr f ↦ (rw (e, f) at h, λ a. ground (arith, f))
    ]
  ]

  all_mapped-each :
      (n i : ℕ) (s : ℕ → Entry)
      → all_mapped c n i s ≡ true
      → (j : ℕ) → i ≤ j
      → j < i + n
      → c.active_ranks_mask j ≢ 0
      → ((s j).nvlink ≢ 0) × ((s j).ptr ≢ 0)
  all_mapped-each zero i s h j g l a = absurd (omega (arith, g, l))
  all_mapped-each (suc n) i s h j g l a = elim (Bool-cases (i == j)) [
    | inl e ↦
        let same : i ≡ j = ground (arith, e) in
        rw (sym same) ((all_mapped-suc n i s h).1 (rw (sym same) at a))
    | inr e ↦
        all_mapped-each n (suc i) s (all_mapped-suc n i s h).0 j (ground (arith, g, e))
          (omega (arith, l)) a
  ]

  -- If `p2p_ipc_all_enabled_` is set, without fabric memory, every active rank is marked as reachable
  -- and has a pointer, and all ranks are on one node.
  pub all_enabled-reachable :
      (before : ℕ → Entry) (j : ℕ)
      → (sync_nvlink_ipc_handles c false before).1 ≡ true
      → j < c.num_ranks
      → c.active_ranks_mask j ≢ 0
      → let s = (sync_nvlink_ipc_handles c false before).0 in
        ((s j).nvlink ≢ 0)
        × ((s j).ptr ≢ 0)
        × (1 < c.num_ranks → 0 / c.device_count ≡ (c.num_ranks - 1) / c.device_count)
  all_enabled-reachable before j h lt a =
      let s = sync_group c before in
      let parts =
        enabled_parts (all_mapped c c.num_ranks 0 s) (ltb 1 c.num_ranks)
          (0 / c.device_count == (c.num_ranks - 1) / c.device_count) h in
      (
        (all_mapped-each c.num_ranks 0 s parts.0 j (omega arith) (omega (arith, lt)) a).0,
        (all_mapped-each c.num_ranks 0 s parts.0 j (omega arith) (omega (arith, lt)) a).1,
        λ g.
            (==_iff (0 / c.device_count) ((c.num_ranks - 1) / c.device_count)).0
              (parts.1 (lt→ltb 1 c.num_ranks g)),
      )

  -- In the group of this rank's node, and not this rank: a peer that is asked for.
  pub record IsPeer (j : ℕ) : Type 0 where
    pub not_below : group_start c ≤ j
    pub not_above : j < group_end c
    pub active : c.active_ranks_mask j ≢ 0
    pub other : j ≢ c.rank
    pub accessible : c.can_access_peer (j % c.device_count) ≡ true
    pub enabled : c.peer_enabled (j % c.device_count) ≡ true

  sync_group-peer :
      (before : ℕ → Entry) (j : ℕ)
      → IsPeer j
      → sync_group c before j ≡ open_peer c j (fresh c before j)
  sync_group-peer before j p =
      (visits-at (group_end c - group_start c) (group_start c) (fresh c before) j).2 p.not_below
        (omega (arith, p.not_below, p.not_above))
      ∙ ground (arith, p.active, p.other, p.accessible, p.enabled)

  -- A peer whose handle was opened is marked and has the pointer that was opened; one whose handle
  -- cannot be opened is not marked; but one whose handle is missing or too short is marked as
  -- reachable while its pointer is left as it was, null at the first call.
  pub sync-peer :
      (before : ℕ → Entry) (j : ℕ)
      → IsPeer j
      → let s = (sync_nvlink_ipc_handles c false before).0 in
        (get_elem? c.remote_handles j ≡ none → ((s j).nvlink ≡ 1) × ((s j).ptr ≡ (before j).ptr))
        × ((ints : List ℕ)
            → get_elem? c.remote_handles j ≡ some ints
            → length ints < num_int32s
            → ((s j).nvlink ≡ 1) × ((s j).ptr ≡ (before j).ptr))
        × ((ints : List ℕ)
            → get_elem? c.remote_handles j ≡ some ints
            → num_int32s ≤ length ints
            → (c.open_handle (handle_of ints) ≡ none → (s j).nvlink ≡ 0)
              × ((ptr : ℕ)
                  → c.open_handle (handle_of ints) ≡ some ptr
                  → ((s j).nvlink ≡ 1) × ((s j).ptr ≡ ptr)))
  sync-peer before j p =
      let at = sync_group-peer before j p in
      rw at (
        λ h. rw (h, open_peer) (refl, refl),
        λ ints h l. rw (h, lt→ltb (length ints) num_int32s l, open_peer) (refl, refl),
        λ ints h l.
            let long : ltb (length ints) num_int32s ≡ false = ground (arith, l) in
            (
              λ o. rw (h, long, o, open_peer) refl,
              λ ptr o. rw (h, long, o, open_peer) (refl, refl),
            ),
      )
