-- ===== src/EpBuffer/QueuePairs/Again.antt =====
-- `update_local_qpns`: the blocks of the queue pairs that are destroyed serve again, each for the queue
-- pair in the same place.
use mathlib.Core.Path.{subst}
use mathlib.Core.List.{append_assoc, append-nil, map-append}
use ep_demo.Prelude.{
  ℕ, suc, ◌+◌, ◌-◌, ◌*◌, ◌^◌, ◌<◌, ◌≤◌, ◌≡◌, refl, sym, ap, ◌∙◌, Bool, true, false, some, List, [],
  ◌∷◌, ◌++◌, map, length, All, arith,
}
use ep_demo.Memheap.Again.{marks, IsAt}
use ep_demo.Mlx5gda.{World}
use ep_demo.Mlx5gda.Qp.{Qp, create_rc_qp}
use ep_demo.EpBuffer.QueuePairs.{Round, Init, created, init_qps, destroy_qps, update_local_qpns}
use ep_demo.EpBuffer.QueuePairs.Granted.{create_rc_qp-HasRoom}
use ep_demo.EpBuffer.QueuePairs.Blocks.{
  Offsets, offsets, offsets_in, heap4, HasRoom, IsAligned, IsFilled,
}
use ep_demo.EpBuffer.QueuePairs.Room.{IsGoodRound, length-map}
use ep_demo.EpBuffer.QueuePairs.Freed.{blocks, table-blocks, destroy_qps-IsAt, requests-IsAt}

-- The loop creates the queue pairs in the blocks `next`, and fills them all.
abbrev Recreated : ℕ → ℕ → List Offsets → Init → Type 0
Recreated size a os i =
    (qps : List Qp) × (w : World) × (i ≡ created qps w)
    × (map offsets qps ≡ os)
    × IsAt true w.heap size a (blocks os) []

init_qps-Recreated :
    (umem_id size a : ℕ) (rounds : List Round) (w : World) (qps : List Qp) (next : List Offsets)
    → All IsGoodRound rounds
    → All IsAligned next
    → length rounds ≡ length next
    → IsAt true w.heap size a (blocks (map offsets qps)) (blocks next)
    → a + length next * 2097168 < 2 ^ 64
    → Recreated size
        (a + length next * 2097168)
        (map offsets qps ++ next)
        (init_qps umem_id rounds w qps)
init_qps-Recreated umem_id size a [] w qps [] good ok same at small = (
  qps,
  w,
  refl,
  sym (append-nil (map offsets qps)),
  rw append-nil
      (subst (λ b. IsAt true w.heap size b (blocks (map offsets qps)) []) (omega arith) at),
)
init_qps-Recreated umem_id size a [] w qps (o ∷ next) good ok same at small =
    absurd (omega (arith, same))
init_qps-Recreated umem_id size a (r ∷ rounds) w qps [] good ok same at small =
    absurd (omega (arith, same))
init_qps-Recreated umem_id size a (r ∷ rounds) w qps (o ∷ next) good ok same at small =
    let step =
      requests-IsAt size a (map offsets qps) next w.heap o ok.0 at (omega (arith, small)) in
    round step (create_rc_qp-HasRoom umem_id r.answers w good.0.0 step.1) (λ w' qps'.
      init_qps-Recreated umem_id size (a + 2097168) rounds w' qps' next good.1 ok.1
        (omega (arith, same)))
  where
    round :
        (offsets_in w.heap ≡ o)
          × HasRoom w.heap
          × IsAt true
              (heap4 w.heap)
              size
              (a + 2097168)
              (blocks (map offsets qps ++ o ∷ []))
              (blocks next)
        → (qp : Qp) × (t : World) × (create_rc_qp r.answers w umem_id 16384 ≡ some (some qp, t))
          × (offsets qp ≡ offsets_in w.heap)
          × (t.heap ≡ heap4 w.heap)
        → ((w' : World) (qps' : List Qp)
            → IsAt true w'.heap size (a + 2097168) (blocks (map offsets qps')) (blocks next)
            → a + 2097168 + length next * 2097168 < 2 ^ 64
            → Recreated size
                (a + 2097168 + length next * 2097168)
                (map offsets qps' ++ next)
                (init_qps umem_id rounds w' qps'))
        → Recreated size
            (a + suc (length next) * 2097168)
            (map offsets qps ++ o ∷ next)
            (init_qps umem_id (r ∷ rounds) w qps)
    round (place, room, filled) (qp, t, made, own, heap) later =
        let here : map offsets (qps ++ qp ∷ []) ≡ map offsets qps ++ o ∷ [] =
          rw (map-append, own, place) refl in
        let (all, u, e, list, at') =
          later t (qps ++ qp ∷ []) (rw (heap, here) filled) (omega (arith, small)) in
        let whole : map offsets (qps ++ qp ∷ []) ++ next ≡ map offsets qps ++ o ∷ next =
          ap (λ l. l ++ next) here ∙ append_assoc (map offsets qps) (o ∷ []) next in
        (
          all,
          u,
          rw (init_qps, made, good.0.1, good.0.2) e,
          list ∙ whole,
          subst (λ b. IsAt true u.heap size b (blocks (map offsets qps ++ o ∷ next)) [])
              (omega arith)
              (subst
                (λ l. IsAt true u.heap size (a + 2097168 + length next * 2097168) (blocks l) [])
                whole at'),
        )

-- If the system does what it is asked, the queue pairs that are there are replaced by new ones, each in the
-- blocks of the one before it in its place, and the heap of the control buffer is exactly as it was.
pub update_local_qpns-same :
    (umem_id : ℕ) (unregister_ok : ℕ → Bool) (rounds : List Round) (w : World) (qps : List Qp)
    → IsFilled (map offsets qps) w.heap
    → All IsGoodRound rounds
    → length rounds ≡ length qps
    → (qps' : List Qp) × (w' : World) × (update_local_qpns umem_id unregister_ok rounds w qps
        ≡ created qps' w')
      × (map offsets qps' ≡ map offsets qps)
      × (w'.heap ≡ w.heap)
update_local_qpns-same umem_id unregister_ok rounds w qps filled good same =
    let os = map offsets qps in
    let h = w.heap in
    let count : length os ≡ length qps = length-map qps in
    let at : IsAt false h h.size h.allocated (blocks []) (blocks os) = record {
      size_eq = refl;
      allocated_eq = refl;
      allocs_eq = filled.entries ∙ table-blocks true os;
    } in
    let enough : length qps * 2097168 ≤ h.allocated = omega (arith, filled.bottom, count) in
    let small : h.allocated < 2 ^ 64 = omega (arith, filled.packed.within, filled.size) in
    let freed =
      destroy_qps-IsAt h.size h.allocated [] w unregister_ok qps filled.aligned at enough small in
    let again : IsAt true (destroy_qps w unregister_ok qps).heap h.size
        (h.allocated - length qps * 2097168) (blocks []) (blocks os) =
      record {
        size_eq = freed.size_eq;
        allocated_eq = freed.allocated_eq;
        allocs_eq = freed.allocs_eq ∙ append-nil (marks false (blocks os));
      } in
    let back : h.allocated - length qps * 2097168 + length os * 2097168 ≡ h.allocated =
      omega (arith, enough, count) in
    let (qps', w', e, list, at') =
      init_qps-Recreated umem_id h.size (h.allocated - length qps * 2097168) rounds
        (destroy_qps w unregister_ok qps) [] os good filled.aligned (same ∙ sym count) again
        (rw back small) in
    let allocs : w'.heap.allocs ≡ h.allocs =
      at'.allocs_eq
      ∙ append-nil (marks true (blocks os))
      ∙ sym (table-blocks true os)
      ∙ sym filled.entries in
    (
      qps',
      w',
      e,
      list,
      λ i. record {
        size = at'.size_eq i;
        allocated = (at'.allocated_eq ∙ back) i;
        allocs = allocs i;
      },
    )
