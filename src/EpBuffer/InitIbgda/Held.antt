-- ===== src/EpBuffer/InitIbgda/Held.antt =====
-- What `init_ibgda` holds at each of its ends.
use mathlib.Core.Path.{subst}
use ep_demo.Prelude.{
  ℕ, ◌<◌, ◌≡◌, inl, inr, refl, sym, ◌∙◌, ◌⊎◌, suc, Bool, true, false, not, if◌then◌else◌, [],
  length, arith, Bool-cases, Option-cases,
}
use ep_demo.Memheap.{create}
use ep_demo.Mlx5gda.{World}
use ep_demo.EpBuffer.{find_best_gid_index}
use ep_demo.EpBuffer.QueuePairs.{Init, created, failed, thrown, looping, init_qps}
use ep_demo.EpBuffer.QueuePairs.Held.{IsInit, HoldsQps, init_qps_lem}
use ep_demo.EpBuffer.InitIbgda.{
  Ibgda, IbgdaAnswers, IbgdaResult, ready, refused, threw, endless, init_ibgda, init_device,
  init_ctrl_buf, with_qps, find_nic, ctrl_buf_size,
}

-- The world of the queue pairs, once the control buffer's heap is made.
abbrev pub with_heap : World → World
with_heap w = record w { heap = create ctrl_buf_size }

-- Ready: every object is there but perhaps the domain's `mlx5dv` view and the memory region, the device
-- list is given back, and there is a queue pair for each round, which hold what queue pairs hold. Refused:
-- there are fewer queue pairs, and no memory region without a control buffer that is registered. Thrown:
-- there is no control buffer and no queue pair, or the control buffer and its heap are there, with fewer
-- queue pairs than rounds in the vector and one more that is held.
abbrev pub IsLeft : World → ℕ → IbgdaResult → Type 0
IsLeft w n (ready t) =
    (t.device_list ≡ false)
    × (t.context ≡ true)
    × (t.pd ≡ true)
    × (t.ctrl_buf ≡ true)
    × (t.ctrl_buf_umem ≡ true)
    × (t.ctrl_buf_heap ≡ true)
    × (length t.qps ≡ n)
    × HoldsQps (with_heap w) t.world n
IsLeft w n (refused t) = (length t.qps < n) × (t.ctrl_buf_umem ≡ false → t.mr ≡ false)
IsLeft w n (threw t) =
    ((length t.qps ≡ 0) × (t.ctrl_buf ≡ false))
    ⊎ ((length t.qps < n)
        × (t.ctrl_buf ≡ true)
        × (t.ctrl_buf_umem ≡ true)
        × (t.ctrl_buf_heap ≡ true)
        × HoldsQps (with_heap w) t.world (suc (length t.qps)))
IsLeft w n endless = ⊥

-- Nothing is held yet.
pub record IsFresh (s : Ibgda) : Type 0 where
  pub mr : s.mr ≡ false
  pub ctrl_buf : s.ctrl_buf ≡ false
  pub ctrl_buf_umem : s.ctrl_buf_umem ≡ false
  pub qps : s.qps ≡ []

-- Freshness does not regard the device list, the context and the protection domain.
IsFresh-again :
    {s : Ibgda} {d c p m : Bool}
    → IsFresh s
    → IsFresh (record s { device_list = d; context = c; pd = p; mpd = m })
IsFresh-again f = record {
  mr = f.mr;
  ctrl_buf = f.ctrl_buf;
  ctrl_buf_umem = f.ctrl_buf_umem;
  qps = f.qps;
}

IsLeft-if :
    (w : World) (n : ℕ) (b : Bool) (x y : IbgdaResult)
    → IsLeft w n x
    → IsLeft w n y
    → IsLeft w n (if b then x else y)
IsLeft-if w n true x y p q = p
IsLeft-if w n false x y p q = q

with_qps-IsLeft :
    (w : World) (n : ℕ) (s : Ibgda) (i : Init)
    → s.device_list ≡ false
    → s.context ≡ true
    → s.pd ≡ true
    → s.ctrl_buf ≡ true
    → s.ctrl_buf_umem ≡ true
    → s.ctrl_buf_heap ≡ true
    → IsInit (with_heap w) 0 n i
    → IsLeft w n (with_qps s i)
with_qps-IsLeft w n s (created qps t) d c p b u h (len, held) =
    let all : length qps ≡ n = omega (arith, len) in
    (d, c, p, b, u, h, all, subst (HoldsQps (with_heap w) t) all held)
with_qps-IsLeft w n s (failed qps t) d c p b u h len = (omega (arith, len), λ q. cc (sym u ∙ q))
with_qps-IsLeft w n s (thrown qps t) d c p b u h (len, held) =
    inr (omega (arith, len), b, u, h, held)
with_qps-IsLeft w n s looping d c p b u h g = g

module _ (a : IbgdaAnswers) (some_round : 0 < length a.rounds) where
  early : (w : World) (s : Ibgda) → IsFresh s → IsLeft w (length a.rounds) (refused s)
  early w s fresh = (rw fresh.qps some_round, λ q. fresh.mr)

  init_ctrl_buf-IsLeft :
      (s : Ibgda) (m : Bool)
      → IsFresh s
      → s.device_list ≡ false
      → s.context ≡ true
      → s.pd ≡ true
      → IsLeft s.world (length a.rounds) (init_ctrl_buf a (record s { mr = m }))
  init_ctrl_buf-IsLeft s m fresh d c p = elim (Bool-cases a.ctrl_buf_ok) [
    | inr e ↦ rw e (inl (rw fresh.qps refl, fresh.ctrl_buf))
    | inl e ↦ elim (Option-cases a.umem) [
      | inl u ↦ rw (e, u) (rw fresh.qps some_round, λ q. refl)
      | inr u ↦
          rw (e, u.1)
            (IsLeft-if s.world (length a.rounds) (not a.heap_ok) _ _
              (rw fresh.qps some_round, λ q. cc q)
              (with_qps-IsLeft s.world (length a.rounds)
                (record s { mr = m; ctrl_buf = true; ctrl_buf_umem = true; ctrl_buf_heap = true })
                (init_qps u.0 a.rounds (with_heap s.world) s.qps) d c p refl refl refl
                (rw fresh.qps (init_qps_lem u.0 a.rounds (with_heap s.world)))))
    ]
  ]

  init_device-IsLeft : (s : Ibgda) → IsFresh s → IsLeft s.world (length a.rounds) (init_device a s)
  init_device-IsLeft s fresh =
      IsLeft-if s.world (length a.rounds) (not a.open_ok) _ _ (early s.world s fresh) (
        IsLeft-if s.world (length a.rounds) (not a.query_port_ok) _ _
          (early s.world (record s { context = true }) (IsFresh-again fresh))
          (elim (Option-cases (find_best_gid_index a.gids)) [
            | inl e ↦ rw e (early s.world (record s { context = true }) (IsFresh-again fresh))
            | inr e ↦ rw e.1 (
                IsLeft-if s.world (length a.rounds) (not a.query_gid_ok) _ _
                  (early s.world (record s { context = true }) (IsFresh-again fresh))
                  (IsLeft-if s.world (length a.rounds) (not a.pd_ok) _ _
                    (early s.world (record s { context = true; device_list = false })
                      (IsFresh-again fresh))
                    (init_ctrl_buf-IsLeft
                      (record s {
                        context = true;
                        device_list = false;
                        pd = true;
                        mpd = a.init_obj_ok;
                      })
                      a.mr_ok (IsFresh-again fresh) refl refl refl)))
          ]))

pub init_ibgda-IsLeft :
    (a : IbgdaAnswers) (s : Ibgda)
    → IsFresh s
    → 0 < length a.rounds
    → IsLeft s.world (length a.rounds) (init_ibgda a s)
init_ibgda-IsLeft a s fresh some_round = elim (Option-cases (find_nic 0 a.names_match)) [
  | inl e ↦ rw (init_ibgda, e) (inl (rw fresh.qps refl, fresh.ctrl_buf))
  | inr e ↦
      rw (init_ibgda, e.1)
        (init_device-IsLeft a some_round (record s { device_list = true }) (IsFresh-again fresh))
]
