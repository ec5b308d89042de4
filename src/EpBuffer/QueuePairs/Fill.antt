-- ===== src/EpBuffer/QueuePairs/Fill.antt =====
-- One more queue pair in the control buffer, after fewer than 256.
use ep_demo.Prelude.{
  ℕ, ◌+◌, ◌*◌, ◌<◌, ◌≡◌, sym, ap, ◌∙◌, true, List, [], ◌∷◌, ◌++◌, length, length-append, All-append,
  arith,
}
use mathlib.Core.List.{append_assoc}
use ep_demo.Memheap.{Allocation, Memheap}
use ep_demo.Memheap.Again.{entry}
use ep_demo.EpBuffer.QueuePairs.Blocks.{
  Offsets, offsets_in, ring_bytes, ring, dbr, heap2, heap3, heap4, HasRoom, table, table-append,
  length-table, IsAligned, IsFilled,
}
use ep_demo.EpBuffer.QueuePairs.Taken.{IsTaken, IsAt, ring-IsTaken, dbr-IsTaken, IsTaken-IsAt}

-- One more queue pair fits.
module _ (os : List Offsets) (h : Memheap) (filled : IsFilled os h) (few : length os < 256) where
  abbrev n : ℕ
  n = length os * 4

  abbrev t : ℕ
  t = length os * 2105376

  at0 : IsAt h n t
  at0 = record {
    packed = filled.packed;
    size = filled.size;
    count = ap length filled.entries ∙ length-table true os ∙ omega arith;
    top_le = filled.top;
  }

  taken1 : IsTaken h ring_bytes 12 (ring h)
  taken1 = ring-IsTaken h n t at0 (omega (arith, few)) (omega (arith, few))

  at1 : IsAt (ring h).1 (n + 1) (t + 1052672)
  at1 = IsTaken-IsAt h n t ring_bytes 12 (ring h) at0 taken1

  taken2 : IsTaken (ring h).1 8 3 (dbr (ring h).1)
  taken2 =
      dbr-IsTaken (ring h).1 (n + 1) (t + 1052672) at1 (omega (arith, few)) (omega (arith, few))

  at2 : IsAt (heap2 h) (n + 1 + 1) (t + 1052672 + 16)
  at2 = IsTaken-IsAt (ring h).1 (n + 1) (t + 1052672) 8 3 (dbr (ring h).1) at1 taken2

  taken3 : IsTaken (heap2 h) ring_bytes 12 (ring (heap2 h))
  taken3 =
      ring-IsTaken (heap2 h) (n + 1 + 1) (t + 1052672 + 16) at2 (omega (arith, few))
        (omega (arith, few))

  at3 : IsAt (heap3 h) (n + 1 + 1 + 1) (t + 1052672 + 16 + 1052672)
  at3 =
      IsTaken-IsAt (heap2 h) (n + 1 + 1) (t + 1052672 + 16) ring_bytes 12 (ring (heap2 h)) at2
        taken3

  taken4 : IsTaken (heap3 h) 8 3 (dbr (heap3 h))
  taken4 =
      dbr-IsTaken (heap3 h) (n + 1 + 1 + 1) (t + 1052672 + 16 + 1052672) at3 (omega (arith, few))
        (omega (arith, few))

  at4 : IsAt (heap4 h) (n + 1 + 1 + 1 + 1) (t + 1052672 + 16 + 1052672 + 16)
  at4 =
      IsTaken-IsAt (heap3 h) (n + 1 + 1 + 1) (t + 1052672 + 16 + 1052672) 8 3 (dbr (heap3 h)) at3
        taken4

  pub IsFilled-HasRoom : HasRoom h
  IsFilled-HasRoom = record {
    cq = taken1.there;
    cq_dbr = taken2.there;
    wq = taken3.there;
    wq_dbr = taken4.there;
  }

  now_entries : (heap4 h).allocs ≡ table true (os ++ offsets_in h ∷ [])
  now_entries =
      taken4.entered
      ∙ ap (λ l. l ++ entry true (dbr (heap3 h)).0 8 ∷ [])
          (taken3.entered
            ∙ ap (λ l. l ++ entry true (ring (heap2 h)).0 ring_bytes ∷ [])
                (taken2.entered
                  ∙ ap (λ l. l ++ entry true (dbr (ring h).1).0 8 ∷ [])
                      (taken1.entered
                        ∙ ap (λ l. l ++ entry true (ring h).0 ring_bytes ∷ []) filled.entries)))
      ∙ regroup (table true os)
      ∙ sym (table-append true os (offsets_in h ∷ []))
    where
      regroup :
          (l : List Allocation)
          → (((l ++ entry true (ring h).0 ring_bytes ∷ []) ++ entry true (dbr (ring h).1).0 8 ∷ [])
                ++ entry true (ring (heap2 h)).0 ring_bytes ∷ [])
              ++ entry true (dbr (heap3 h)).0 8 ∷ []
            ≡ l ++ table true (offsets_in h ∷ [])
      regroup l = simp append_assoc

  now-IsAligned : IsAligned (offsets_in h)
  now-IsAligned = record {
    cq = taken1.granted.place.multiple;
    cq_dbr = taken2.granted.place.multiple;
    wq = taken3.granted.place.multiple;
    wq_dbr = taken4.granted.place.multiple;
    cq_small = omega (arith, taken1.granted.inside, at0.size);
    cq_dbr_small = omega (arith, taken2.granted.inside, at1.size);
    wq_small = omega (arith, taken3.granted.inside, at2.size);
    wq_dbr_small = omega (arith, taken4.granted.inside, at3.size);
  }

  pub IsFilled-step : IsFilled (os ++ offsets_in h ∷ []) (heap4 h)
  IsFilled-step =
      let more : length (os ++ offsets_in h ∷ []) ≡ length os + 1 =
        length-append os (offsets_in h ∷ []) in
      record {
        packed = at4.packed;
        size = at4.size;
        top = omega (arith, at4.top_le, more);
        bottom = omega (
          arith, more, filled.bottom, taken1.granted.top, taken1.granted.place.above,
          taken2.granted.top, taken2.granted.place.above, taken3.granted.top,
          taken3.granted.place.above, taken4.granted.top, taken4.granted.place.above,
        );
        entries = now_entries;
        aligned = All-append IsAligned os (offsets_in h ∷ []) filled.aligned (now-IsAligned, tt);
      }
