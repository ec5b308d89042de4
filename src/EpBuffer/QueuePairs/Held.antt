-- ===== src/EpBuffer/QueuePairs/Held.antt =====
-- What the queue pairs of a rank hold, when they are created.
use ep_demo.Prelude.{
  Bool-cases, List, Option, [], arith, inl, inr, length, length-append, none, some, suc, ℕ, ◌*◌,
  ◌++◌, ◌+◌, ◌<◌, ◌∷◌, ◌≡◌,
}
use ep_demo.Mlx5gda.{World}
use ep_demo.Mlx5gda.Qp.{Qp, create_rc_qp}
use ep_demo.Mlx5gda.Create.{Holds}
use ep_demo.Mlx5gda.CreateQp.{HoldsQp, create_rc_qp-HoldsQp}
use ep_demo.EpBuffer.QueuePairs.{Init, Round, created, failed, thrown, init_qps, looping, num_wqe}

-- What `n` queue pairs hold, on top of what `s` holds.
abbrev pub HoldsQps : World → World → ℕ → Type 0
HoldsQps s t n = Holds s t (2 * n) n (2 * n) (2 * n)

-- The loop's result, begun with `n` queue pairs and with `k` rounds to go.
abbrev pub IsInit : World → ℕ → ℕ → Init → Type 0
IsInit s n k (created qps t) = (length qps ≡ n + k) × HoldsQps s t (length qps)
IsInit s n k (failed qps t) = length qps < n + k
IsInit s n k (thrown qps t) = (length qps < n + k) × HoldsQps s t (suc (length qps))
IsInit s n k looping = ⊥

-- One round less to go, and one queue pair more.
shift : (s : World) (k n m : ℕ) → m ≡ suc n → (i : Init) → IsInit s m k i → IsInit s n (suc k) i
shift s k n m e (created qps t) g = (omega (arith, e, g.0), g.1)
shift s k n m e (failed qps t) g = omega (arith, e, g)
shift s k n m e (thrown qps t) g = (omega (arith, e, g.0), g.1)
shift s k n m e looping g = g

init_qps-round :
    (umem_id : ℕ) (a : Round) (rounds : List Round) (s w : World) (qps : List Qp)
    → HoldsQps s w (length qps)
    → ((w' : World) (qps' : List Qp)
        → HoldsQps s w' (length qps')
        → IsInit s (length qps') (length rounds) (init_qps umem_id rounds w' qps'))
    → IsInit s (length qps) (suc (length rounds)) (init_qps umem_id (a ∷ rounds) w qps)
init_qps-round umem_id a rounds s w qps h later =
    let (r, same, held) = create_rc_qp-HoldsQp a.answers w umem_id num_wqe (omega arith) in
    go r same held
  where
    go :
        (r : Option Qp × World)
        → create_rc_qp a.answers w umem_id num_wqe ≡ some r
        → HoldsQp a.answers.unregister_ok w r
        → IsInit s (length qps) (suc (length rounds)) (init_qps umem_id (a ∷ rounds) w qps)
    go (none, t) same held = rw (same, init_qps) (omega arith)
    go (some qp, t) same held = elim (Bool-cases a.rst2init_ok) [
      | inr e ↦ rw (same, e, init_qps) (omega arith)
      | inl e ↦ elim (Bool-cases a.sync_ok) [
        | inr f ↦
            rw (same, e, f, init_qps)
              (omega (
                arith, h.uars, h.registered, h.objects, h.mallocs, held.uars, held.registered,
                held.objects, held.mallocs,
              ))
        | inl f ↦
            let more : length (qps ++ qp ∷ []) ≡ suc (length qps) =
              omega (arith, length-append qps (qp ∷ [])) in
            let step : HoldsQps s t (length (qps ++ qp ∷ [])) = omega (
              arith, more, h.uars, h.registered, h.objects, h.mallocs, held.uars, held.registered,
              held.objects, held.mallocs,
            ) in
            rw (same, e, f, init_qps)
              (shift s (length rounds) (length qps) (length (qps ++ qp ∷ [])) more _
                (later t (qps ++ qp ∷ []) step))
      ]
    ]

init_qps-IsInit :
    (umem_id : ℕ) (rounds : List Round) (s w : World) (qps : List Qp)
    → HoldsQps s w (length qps)
    → IsInit s (length qps) (length rounds) (init_qps umem_id rounds w qps)
init_qps-IsInit umem_id [] s w qps h = (omega arith, h)
init_qps-IsInit umem_id (a ∷ rounds) s w qps h =
    init_qps-round umem_id a rounds s w qps h
      (λ w' qps' h'. init_qps-IsInit umem_id rounds s w' qps' h')

-- Creating the queue pairs always returns: with one for each round, which together hold two UARs, two
-- objects, two host blocks and a registered page each; or, when a round fails, with fewer than that; or it
-- throws with fewer than that, and then one more queue pair is held, which no one has.
pub init_qps_lem :
    (umem_id : ℕ) (rounds : List Round) (w : World)
    → IsInit w 0 (length rounds) (init_qps umem_id rounds w [])
init_qps_lem umem_id rounds w = init_qps-IsInit umem_id rounds w w [] (omega arith)
