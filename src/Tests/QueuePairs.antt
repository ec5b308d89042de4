-- ===== src/Tests/QueuePairs.antt =====
-- Queue pairs in the control buffer, when the system does what it is asked.
use ep_demo.Prelude.{◌≡◌, refl, List, [], ◌∷◌, map, replicate, true, length-replicate, arith}
use ep_demo.Memheap.{create}
use ep_demo.Mlx5gda.{World}
use ep_demo.Mlx5gda.Qp.{Qp}
use ep_demo.EpBuffer.QueuePairs.{init_qps, update_local_qpns, created}
use ep_demo.EpBuffer.QueuePairs.Blocks.{offsets, IsFilled}
use ep_demo.EpBuffer.QueuePairs.Room.{IsGoodRound, AllCreated, init_qps-created}
use ep_demo.EpBuffer.Getters.{Told, get_local_qpns-init_qps}
use ep_demo.Tests.Mlx5gda.{idle, made, after, round}
use ep_demo.EpBuffer.QueuePairs.Again.{update_local_qpns-same}

round-IsGoodRound : IsGoodRound round
round-IsGoodRound = (
  record {
    calloc = refl;
    query_port = refl;
    cqe_version = refl;
    cq = record {
      memset = refl;
      malloc = refl;
      eqn = (5, refl);
      uar = (9, refl);
      sync = refl;
      made = λ cmd. (11, refl);
    };
    uar = (10, refl);
    register = refl;
    memset = refl;
    sync = refl;
    made = λ cmd. (77, refl);
  },
  refl,
  refl,
)

init_qps-created_example : AllCreated 2 (init_qps 7 (round ∷ round ∷ []) idle [])
unfolding create
init_qps-created_example =
    init_qps-created 7 (round ∷ round ∷ []) idle refl (round-IsGoodRound, (round-IsGoodRound, tt))
      (omega arith)

after-IsFilled : IsFilled (map offsets (made ∷ [])) after.heap
after-IsFilled = record {
  packed = record {
    used = (refl, (refl, (refl, (refl, tt))));
    stacked = omega arith;
    within = omega arith;
    small = omega arith;
  };
  size = refl;
  top = omega arith;
  bottom = omega arith;
  entries = refl;
  aligned = (omega arith, tt);
}

update_local_qpns-same_example :
    (qps' : List Qp) × (w' : World) × (update_local_qpns 7
        (λ i. true)
        (round ∷ [])
        after
        (made ∷ [])
      ≡ created qps' w')
    × (map offsets qps' ≡ map offsets (made ∷ []))
    × (w'.heap ≡ after.heap)
update_local_qpns-same_example =
    update_local_qpns-same 7 (λ i. true) (round ∷ []) after (made ∷ []) after-IsFilled
      (round-IsGoodRound, tt) refl

get_local_qpns-init_qps_example : Told 4 (λ qp. 7) (init_qps 7 (replicate 256 round) idle [])
get_local_qpns-init_qps_example =
    get_local_qpns-init_qps 4 7 (λ qp. 7) (replicate 256 round) idle (length-replicate 256 round)
