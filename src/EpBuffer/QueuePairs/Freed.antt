-- ===== src/EpBuffer/QueuePairs/Freed.antt =====
-- The blocks of queue pairs that are destroyed, one after the other, in the order of the table.
use mathlib.Core.Path.{subst}
use mathlib.Core.List.{append_assoc, append-nil}
use ep_demo.Prelude.{
  ℕ, suc, ◌+◌, ◌-◌, ◌*◌, ◌^◌, ◌<◌, ◌≤◌, ◌≡◌, refl, sym, ap, ◌∙◌, Bool, true, false, ◌==◌, List, [],
  ◌∷◌, ◌++◌, map, length, All, arith,
}
use ep_demo.Memheap.{Memheap, no_offset, alloc}
use ep_demo.Memheap.Again.{marks, IsAt, free-IsAt, aligned_alloc-IsAt}
use ep_demo.Mlx5gda.{World}
use ep_demo.Mlx5gda.Qp.{Qp, destroy_qp}
use ep_demo.EpBuffer.QueuePairs.{destroy_qps}
use ep_demo.EpBuffer.QueuePairs.Blocks.{
  Offsets, offsets, offsets_in, ring_bytes, ring, heap2, heap3, heap4, HasRoom, table, IsAligned,
}

-- The blocks of queue pairs, in the order of the table.
abbrev pub blocks : List Offsets → List (ℕ × ℕ)
blocks [] = []
blocks (o ∷ os) =
    (o.cq, ring_bytes) ∷ (o.cq_dbr, 8) ∷ (o.wq, ring_bytes) ∷ (o.wq_dbr, 8) ∷ blocks os

blocks-append : (xs ys : List Offsets) → blocks (xs ++ ys) ≡ blocks xs ++ blocks ys
blocks-append [] ys = refl
blocks-append (o ∷ xs) ys =
    ap (λ l. (o.cq, ring_bytes) ∷ (o.cq_dbr, 8) ∷ (o.wq, ring_bytes) ∷ (o.wq_dbr, 8) ∷ l)
      (blocks-append xs ys)

pub table-blocks : (used : Bool) (os : List Offsets) → table used os ≡ marks used (blocks os)
table-blocks used [] = refl
table-blocks used (o ∷ os) = ap (λ l. table used (o ∷ []) ++ l) (table-blocks used os)

-- `IsAt`, one queue pair further.
further :
    (used : Bool) (h : Memheap) (size a b : ℕ) (past next : List Offsets) (o : Offsets)
    → a ≡ b
    → IsAt used h size a
        ((((blocks past ++ (o.cq, ring_bytes) ∷ []) ++ (o.cq_dbr, 8) ∷ [])
            ++ (o.wq, ring_bytes) ∷ [])
          ++ (o.wq_dbr, 8) ∷ [])
        (blocks next)
    → IsAt used h size b (blocks (past ++ o ∷ [])) (blocks next)
further used h size a b past next o e at =
    rw (sym e) (subst (λ l. IsAt used h size a l (blocks next)) regroup at)
  where
    regroup :
        (((blocks past ++ (o.cq, ring_bytes) ∷ []) ++ (o.cq_dbr, 8) ∷ [])
            ++ (o.wq, ring_bytes) ∷ [])
          ++ (o.wq_dbr, 8) ∷ []
        ≡ blocks (past ++ o ∷ [])
    regroup = simp (append_assoc, blocks-append)

pub there : (o : ℕ) → o < 2 ^ 30 → (o == no_offset) ≡ false
there o small = ground arith

module _ (size a : ℕ) (past next : List Offsets) where
  destroy_qp-IsAt :
      (w : World) (u : Bool) (qp : Qp)
      → IsAligned (offsets qp)
      → IsAt false w.heap size a (blocks past) (blocks (offsets qp ∷ next))
      → 2097168 ≤ a
      → a < 2 ^ 64
      → IsAt false
          (destroy_qp u w qp).heap
          size
          (a - 2097168)
          (blocks (past ++ offsets qp ∷ []))
          (blocks next)
  destroy_qp-IsAt w u qp ok at enough small =
      let t1 = there qp.send_cq.cq_offset ok.cq_small in
      let t2 = there qp.send_cq.dbr_offset ok.cq_dbr_small in
      let t3 = there qp.wq_offset ok.wq_small in
      let t4 = there qp.dbr_offset ok.wq_dbr_small in
      let f1 = free-IsAt w.heap size a _ _ _ _ at t1 (omega (arith, enough)) small in
      let f2 = free-IsAt _ size _ _ _ _ _ f1 t2 (omega (arith, enough)) (omega (arith, small)) in
      let f3 = free-IsAt _ size _ _ _ _ _ f2 t3 (omega (arith, enough)) (omega (arith, small)) in
      let f4 = free-IsAt _ size _ _ _ _ _ f3 t4 (omega (arith, enough)) (omega (arith, small)) in
      rw (t3, t4) (further false _ size _ _ past next (offsets qp) (omega (arith, enough)) f4)

  -- The requests of a queue pair get its old blocks.
  pub requests-IsAt :
      (h : Memheap) (o : Offsets)
      → IsAligned o
      → IsAt true h size a (blocks past) (blocks (o ∷ next))
      → a + 2097168 < 2 ^ 64
      → (offsets_in h ≡ o)
        × HasRoom h
        × IsAt true (heap4 h) size (a + 2097168) (blocks (past ++ o ∷ [])) (blocks next)
  unfolding alloc
  requests-IsAt h o ok at small =
      let r1 =
        aligned_alloc-IsAt h size a _ _ o.cq ring_bytes 12 at ok.cq (omega (arith, ok.cq_small))
          (omega arith) (omega (arith, small)) in
      let r2 =
        aligned_alloc-IsAt (ring h).1 size _ _ _ o.cq_dbr 8 3 r1.1 ok.cq_dbr
          (omega (arith, ok.cq_dbr_small)) (omega arith) (omega (arith, small)) in
      let r3 =
        aligned_alloc-IsAt (heap2 h) size _ _ _ o.wq ring_bytes 12 r2.1 ok.wq
          (omega (arith, ok.wq_small)) (omega arith) (omega (arith, small)) in
      let r4 =
        aligned_alloc-IsAt (heap3 h) size _ _ _ o.wq_dbr 8 3 r3.1 ok.wq_dbr
          (omega (arith, ok.wq_dbr_small)) (omega arith) (omega (arith, small)) in
      (
        λ i. record { cq = r1.0 i; cq_dbr = r2.0 i; wq = r3.0 i; wq_dbr = r4.0 i },
        record {
          cq = ap (λ t. t == no_offset) r1.0 ∙ there o.cq ok.cq_small;
          cq_dbr = ap (λ t. t == no_offset) r2.0 ∙ there o.cq_dbr ok.cq_dbr_small;
          wq = ap (λ t. t == no_offset) r3.0 ∙ there o.wq ok.wq_small;
          wq_dbr = ap (λ t. t == no_offset) r4.0 ∙ there o.wq_dbr ok.wq_dbr_small;
        },
        further true (heap4 h) size _ _ past next o (omega arith) r4.1,
      )

pub destroy_qps-IsAt :
    (size a : ℕ) (past : List Offsets) (w : World) (unregister_ok : ℕ → Bool) (qps : List Qp)
    → All IsAligned (map offsets qps)
    → IsAt false w.heap size a (blocks past) (blocks (map offsets qps))
    → length qps * 2097168 ≤ a
    → a < 2 ^ 64
    → IsAt false
        (destroy_qps w unregister_ok qps).heap
        size
        (a - length qps * 2097168)
        (blocks (past ++ map offsets qps))
        []
destroy_qps-IsAt size a past w unregister_ok [] ok at enough small =
    rw append-nil (subst (λ b. IsAt false w.heap size b (blocks past) []) (omega arith) at)
destroy_qps-IsAt size a past w unregister_ok (qp ∷ qps) ok at enough small =
    let one =
      destroy_qp-IsAt size a past (map offsets qps) w (unregister_ok 0) qp ok.0 at
        (omega (arith, enough)) small in
    let all =
      destroy_qps-IsAt size (a - 2097168) (past ++ offsets qp ∷ [])
        (destroy_qp (unregister_ok 0) w qp) (λ i. unregister_ok (suc i)) qps ok.1 one
        (omega (arith, enough)) (omega (arith, small)) in
    subst
      (λ b.
        IsAt false (destroy_qps w unregister_ok (qp ∷ qps)).heap size b
          (blocks (past ++ map offsets (qp ∷ qps))) [])
      (omega (arith, enough))
      (subst
        (λ l.
          IsAt false (destroy_qps w unregister_ok (qp ∷ qps)).heap size
            (a - 2097168 - length qps * 2097168) (blocks l) [])
        (append_assoc past (offsets qp ∷ []) (map offsets qps)) all)
