-- ===== src/EpBuffer/QueuePairs/Taken.antt =====
-- The blocks of a queue pair are new ones at the end of the control buffer, where its heap has room.
use ep_demo.Prelude.{
  ℕ, ◌+◌, ◌^◌, ◌<◌, ◌≤◌, ◌≡◌, refl, sym, ap, ◌∙◌, true, false, leb, ◌==◌, inl, inr, Option, [], ◌∷◌,
  ◌++◌, length, length-append, Bool-cases, lt→ltb, add_size, arith,
}
use ep_demo.Memheap.{Memheap, Errno, no_offset, push, bump, align_up, aligned_alloc, alloc}
use ep_demo.Memheap.Again.{entry}
use ep_demo.Memheap.Align.{align_up-IsRoundedUp}
use ep_demo.Memheap.Packed.{IsPacked, IsGranted, aligned_alloc_packed, aligned_alloc-bump}
use ep_demo.EpBuffer.QueuePairs.Blocks.{ring_bytes, ring, dbr}

-- A request that gets a new block, which is entered in the table.
pub record IsTaken (h : Memheap) (size k : ℕ) (out : ℕ × Memheap × Option Errno) : Type 0 where
  pub granted : IsGranted h size k out
  pub entered : out.1.allocs ≡ h.allocs ++ entry true out.0 size ∷ []
  pub there : (out.0 == no_offset) ≡ false

bump-entered :
    (h : Memheap) (size align : ℕ)
    → length h.allocs < 1024
    → h.size ≤ 2 ^ 62
    → (bump h size align).0 + size ≤ h.size
    → (bump h size align).1.allocs ≡ h.allocs ++ entry true (bump h size align).0 size ∷ []
unfolding bump push
bump-entered h size align few small inside =
    elim (Bool-cases (leb (add_size (align_up h.allocated align) size) h.size)) [
      | inl room ↦ rw (room, lt→ltb (length h.allocs) 1024 few) refl
      | inr full ↦ absurd (omega (arith, small, (rw full at inside)))
    ]

aligned_alloc-IsTaken :
    (h : Memheap) (size k : ℕ)
    → IsPacked h
    → length h.allocs < 1024
    → 0 < size
    → size < 2 ^ 62
    → k ≤ 12
    → 2 ^ k ≤ 4096
    → h.allocated + 4096 + size ≤ h.size
    → IsTaken h size k (aligned_alloc h size (2 ^ k))
aligned_alloc-IsTaken h size k p few pos small low low_pow room =
    elim (aligned_alloc_packed h size k p pos small (omega (arith, low))) [
      | inr f ↦
          let place =
            align_up-IsRoundedUp k h.allocated (omega (arith, p.within, p.small, low_pow)) in
          absurd (omega (arith, f.full, place.near, low_pow, room))
      | inl g ↦ record {
        granted = g;
        entered = entered g;
        there = ground (arith, g.inside, p.small, pos);
      }
    ]
  where
    entered :
        IsGranted h size k (aligned_alloc h size (2 ^ k))
        → (aligned_alloc h size (2 ^ k)).1.allocs
          ≡ h.allocs ++ entry true (aligned_alloc h size (2 ^ k)).0 size ∷ []
    entered g =
        let same = aligned_alloc-bump h size k p.used pos in
        let inside : (bump h size (2 ^ k)).0 + size ≤ h.size = rw (sym same) g.inside in
        rw same (bump-entered h size (2 ^ k) few p.small inside)

-- The state of the control buffer between two requests.
pub record IsAt (h : Memheap) (n top : ℕ) : Type 0 where
  pub packed : IsPacked h
  pub size : h.size ≡ 2 ^ 30
  pub count : length h.allocs ≡ n
  pub top_le : h.allocated ≤ top

-- A ring, or a doorbell record, with room for it.
module _ (h : Memheap) (n top : ℕ) (at : IsAt h n top) (few : n < 1024)
    (room : top + 4096 + 2 ^ 20 ≤ 2 ^ 30) where
  pub ring-IsTaken : IsTaken h ring_bytes 12 (ring h)
  ring-IsTaken =
      aligned_alloc-IsTaken h ring_bytes 12 at.packed (omega (arith, at.count, few)) (omega arith)
        (omega arith) (omega arith) (omega arith) (omega (arith, at.top_le, at.size, room))

  pub dbr-IsTaken : IsTaken h 8 3 (dbr h)
  unfolding alloc
  dbr-IsTaken =
      aligned_alloc-IsTaken h 8 3 at.packed (omega (arith, at.count, few)) (omega arith)
        (omega arith) (omega arith) (omega arith) (omega (arith, at.top_le, at.size, room))

pub IsTaken-IsAt :
    (h : Memheap) (n top size k : ℕ) (out : ℕ × Memheap × Option Errno)
    → IsAt h n top
    → IsTaken h size k out
    → IsAt out.1 (n + 1) (top + (size + 2 ^ k))
IsTaken-IsAt h n top size k out at taken = record {
  packed = taken.granted.packed;
  size = taken.granted.same_size ∙ at.size;
  count =
      ap length taken.entered
      ∙ length-append h.allocs (entry true out.0 size ∷ [])
      ∙ ap (λ t. t + 1) at.count;
  top_le = omega (arith, taken.granted.top, taken.granted.place.near, at.top_le);
}
