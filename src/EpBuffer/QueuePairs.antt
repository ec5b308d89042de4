-- ===== src/EpBuffer/QueuePairs.antt =====
-- src/ep_buffer.cpp: the loop of `init_ibgda` that creates the queue pairs, and the two loops of
-- `update_local_qpns`. Each round has its own answers of the driver, and the answer to the transition
-- from reset to init, and to `cudaStreamSynchronize`, which throws when it fails; the result of
-- `cudaMemcpy` is not looked at. The list of answers is as long as the loop, USE_QP_COUNT rounds.
pub mod Held
pub mod Blocks
pub mod Granted
pub mod Taken
pub mod Fill
pub mod Room
pub mod Freed
pub mod Again
use ep_demo.Prelude.{
  Bool, List, [], suc, false, if◌then◌else◌, none, not, refl, some, true, ℕ, ◌++◌, ◌∷◌,
}
use ep_demo.Mlx5gda.{World}
use ep_demo.Mlx5gda.Qp.{Qp, QpAnswers, create_rc_qp, destroy_qp}

pub record Round : Type 0 where
  pub answers : QpAnswers
  pub rst2init_ok : Bool
  pub sync_ok : Bool

-- `wqe` of `mlx5gda_create_rc_qp`
abbrev pub num_wqe : ℕ
num_wqe = 16384

-- What the loop leaves: the vector of queue pairs, and what is held, when it has gone through, has
-- returned early, or has thrown. `looping` stands for a creation that does not return.
pub data Init : Type 0 where
  created : List Qp → World → Init
  failed : List Qp → World → Init
  thrown : List Qp → World → Init
  looping : Init

abbrev pub init_qps : ℕ → List Round → World → List Qp → Init
init_qps umem_id [] w qps = created qps w
init_qps umem_id (a ∷ rounds) w qps = elim (create_rc_qp a.answers w umem_id num_wqe) [
  | none ↦ looping
  | some r ↦ elim r.0 [
    | none ↦ failed qps r.1
    | some qp ↦
        let rest = init_qps umem_id rounds r.1 (qps ++ qp ∷ []) in
        if not a.rst2init_ok then failed qps r.1 else if not a.sync_ok then thrown qps r.1 else rest
  ]
]

-- The first loop of `update_local_qpns`, with the answers of `cudaHostUnregister` by rounds.
abbrev pub destroy_qps : World → (ℕ → Bool) → List Qp → World
destroy_qps w unregister_ok [] = w
destroy_qps w unregister_ok (qp ∷ qps) =
    destroy_qps (destroy_qp (unregister_ok 0) w qp) (λ i. unregister_ok (suc i)) qps

-- The second loop is the one of `init_ibgda` on an emptied vector; a failure sets `ibgda_disabled_`.
abbrev pub update_local_qpns : ℕ → (ℕ → Bool) → List Round → World → List Qp → Init
update_local_qpns umem_id unregister_ok rounds w qps =
    init_qps umem_id rounds (destroy_qps w unregister_ok qps) []
