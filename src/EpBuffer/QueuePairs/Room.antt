-- ===== src/EpBuffer/QueuePairs/Room.antt =====
-- The control buffer of 1 GiB and the table of 1024 entries have room for 256 queue pairs.
use ep_demo.Prelude.{
  ℕ, suc, ◌+◌, ◌^◌, ◌<◌, ◌≤◌, ◌≡◌, refl, ap, true, some, List, [], ◌∷◌, ◌++◌, map, length,
  length-append, All, arith,
}
use mathlib.Core.List.{map-append}
use ep_demo.Memheap.{create}
use ep_demo.Memheap.Packed.{create-IsPacked}
use ep_demo.Mlx5gda.{World}
use ep_demo.Mlx5gda.Qp.{Qp, create_rc_qp}
use ep_demo.EpBuffer.QueuePairs.{Round, Init, created, init_qps}
use ep_demo.EpBuffer.QueuePairs.Granted.{create_rc_qp-HasRoom}
use ep_demo.EpBuffer.QueuePairs.Blocks.{IsGood, offsets, offsets_in, heap4, IsFilled}
use ep_demo.EpBuffer.QueuePairs.Fill.{IsFilled-HasRoom, IsFilled-step}

-- Rounds in which the system does what it is asked.
abbrev pub IsGoodRound : Round → Type 0
IsGoodRound a = IsGood a.answers × (a.rst2init_ok ≡ true) × (a.sync_ok ≡ true)

-- The loop has created a queue pair for each round, and the control buffer holds their blocks alone.
abbrev pub AllCreated : ℕ → Init → Type 0
AllCreated n i =
    (qps : List Qp) × (w : World) × (i ≡ created qps w)
    × (length qps ≡ n)
    × IsFilled (map offsets qps) w.heap

pub length-map : (qps : List Qp) → length (map offsets qps) ≡ length qps
length-map [] = refl
length-map (qp ∷ qps) = ap suc (length-map qps)

init_qps-AllCreated :
    (umem_id : ℕ) (rounds : List Round) (w : World) (qps : List Qp)
    → All IsGoodRound rounds
    → length qps + length rounds ≤ 256
    → IsFilled (map offsets qps) w.heap
    → AllCreated (length qps + length rounds) (init_qps umem_id rounds w qps)
init_qps-AllCreated umem_id [] w qps good few filled = (qps, w, refl, omega arith, filled)
init_qps-AllCreated umem_id (a ∷ rounds) w qps good few filled =
    next
      (create_rc_qp-HasRoom umem_id a.answers w good.0.0
        (IsFilled-HasRoom (map offsets qps) w.heap filled fewer))
      (λ w' qps'. init_qps-AllCreated umem_id rounds w' qps' good.1)
  where
    fewer : length (map offsets qps) < 256
    fewer = omega (arith, length-map qps, few)

    next :
        (qp : Qp) × (t : World) × (create_rc_qp a.answers w umem_id 16384 ≡ some (some qp, t))
          × (offsets qp ≡ offsets_in w.heap)
          × (t.heap ≡ heap4 w.heap)
        → ((w' : World) (qps' : List Qp)
            → length qps' + length rounds ≤ 256
            → IsFilled (map offsets qps') w'.heap
            → AllCreated (length qps' + length rounds) (init_qps umem_id rounds w' qps'))
        → AllCreated (length qps + suc (length rounds)) (init_qps umem_id (a ∷ rounds) w qps)
    next (qp, t, same, at, heap) later =
        let more : length (qps ++ qp ∷ []) ≡ length qps + 1 = length-append qps (qp ∷ []) in
        let grown : IsFilled (map offsets (qps ++ qp ∷ [])) t.heap =
          rw (heap, map-append, at) (IsFilled-step (map offsets qps) w.heap filled fewer) in
        let (all, u, e, count, filled') =
          later t (qps ++ qp ∷ []) (omega (arith, more, few)) grown in
        (all, u, rw (init_qps, same, good.0.1, good.0.2) e, omega (arith, count, more), filled')

create-IsFilled : IsFilled [] (create (2 ^ 30))
unfolding create
create-IsFilled = record {
  packed = create-IsPacked (2 ^ 30) (omega arith);
  size = refl;
  top = omega arith;
  bottom = omega arith;
  entries = refl;
  aligned = tt;
}

-- If the system does what it is asked, up to 256 queue pairs are created in a new control buffer: its
-- 1 GiB and the table of 1024 entries are enough.
pub init_qps-created :
    (umem_id : ℕ) (rounds : List Round) (w : World)
    → w.heap ≡ create (2 ^ 30)
    → All IsGoodRound rounds
    → length rounds ≤ 256
    → AllCreated (length rounds) (init_qps umem_id rounds w [])
init_qps-created umem_id rounds w empty good few =
    let all =
      init_qps-AllCreated umem_id rounds w [] good (omega (arith, few))
        (rw empty create-IsFilled) in
    (all.0, all.1, all.2, omega (arith, all.3), all.4)
