-- ===== src/Memheap/Reuse.antt =====
-- Freed blocks: what a search for one returns, and how a block is cut out of it.
use native.Mathlib.Nat.{one-le-pow, add-zero, zero-add, add-suc}
use mathlib.Core.Path.{ap₂, subst}
use ep_demo.Prelude.{
  ℕ, ◌+◌, ◌-◌, ◌^◌, ◌%◌, ◌<◌, ◌≤◌, ◌≡◌, refl, ◌∙◌, ap, true, false, none, some, List, [], ◌∷◌, ◌++◌,
  length, set, All, arith, test_of_pow,
}
use ep_demo.Memheap.{
  Allocation, Memheap, align_up, reuse, fits, split_front, split_back, carve, release,
  aligned_alloc, free,
}
use ep_demo.Memheap.Packed.{IsPacked, IsUsed, Stacked}
use ep_demo.Memheap.Overlap.{align_up_self}

pub set_middle :
    (xs : List Allocation) (a b : Allocation) (ys : List Allocation)
    → set (xs ++ a ∷ ys) (length xs) b ≡ xs ++ b ∷ ys
set_middle [] a b ys = refl
set_middle (x ∷ xs) a b ys = ap (λ l. x ∷ l) (set_middle xs a b ys)

abbrev released : Allocation → Allocation
released a = record a { used = false }

Stacked-le :
    (lo hi : ℕ) (xs : List Allocation) (a : Allocation) (ys : List Allocation)
    → Stacked lo (xs ++ a ∷ ys) hi
    → lo ≤ a.offset
Stacked-le lo hi [] a ys s = s.0
Stacked-le lo hi (x ∷ xs) a ys s = omega (arith, s.0, Stacked-le (x.offset + x.size) hi xs a ys s.2)

Stacked-end : (lo hi : ℕ) (ys : List Allocation) → Stacked lo ys hi → lo ≤ hi
Stacked-end lo hi [] s = s
Stacked-end lo hi (y ∷ ys) s = omega (arith, s.0, Stacked-end (y.offset + y.size) hi ys s.2)

Stacked-stop :
    (lo hi : ℕ) (xs : List Allocation) (a : Allocation) (ys : List Allocation)
    → Stacked lo (xs ++ a ∷ ys) hi
    → a.offset + a.size ≤ hi
Stacked-stop lo hi [] a ys s = Stacked-end (a.offset + a.size) hi ys s.2
Stacked-stop lo hi (x ∷ xs) a ys s = Stacked-stop (x.offset + x.size) hi xs a ys s.2

Stacked-pos :
    (lo hi : ℕ) (xs : List Allocation) (a : Allocation) (ys : List Allocation)
    → Stacked lo (xs ++ a ∷ ys) hi
    → 0 < a.size
Stacked-pos lo hi [] a ys s = s.1
Stacked-pos lo hi (x ∷ xs) a ys s = Stacked-pos (x.offset + x.size) hi xs a ys s.2

-- In a stacked list no two blocks have one offset, so a free finds the block that is meant.
release_middle :
    (lo hi : ℕ) (xs : List Allocation) (a : Allocation) (ys : List Allocation)
    → Stacked lo (xs ++ a ∷ ys) hi
    → a.used ≡ true
    → release a.offset (xs ++ a ∷ ys) ≡ some (a.size, xs ++ released a ∷ ys)
unfolding release
release_middle lo hi [] a ys s u = ground arith
release_middle lo hi (x ∷ xs) a ys s u = ground (
  arith,
  Stacked-le (x.offset + x.size) hi xs a ys s.2,
  s.1,
  release_middle (x.offset + x.size) hi xs a ys s.2 u,
)

pub reuse_middle :
    (h : Memheap) (i : ℕ) (xs : List Allocation) (a : Allocation) (ys : List Allocation)
    (size align : ℕ)
    → All IsUsed xs
    → a.used ≡ false
    → fits a size align ≡ true
    → reuse h i (xs ++ a ∷ ys) size align
      ≡ (align_up a.offset align, carve h (i + length xs) a size align)
unfolding reuse
reuse_middle h i [] a ys size align us f e = ground (arith, add-zero i)
reuse_middle h i (x ∷ xs) a ys size align us f e =
    ground (arith, us.0, add-suc i (length xs), reuse_middle h (i + 1) xs a ys size align us.1 f e)

All-split :
    (xs : List Allocation) (a : Allocation) (ys : List Allocation)
    → All IsUsed (xs ++ a ∷ ys)
    → All IsUsed xs × IsUsed a
All-split [] a ys u = (tt, u.0)
All-split (x ∷ xs) a ys u = let r = All-split xs a ys u.1 in ((u.0, r.0), r.1)

module _ (h : Memheap) (k : ℕ) (xs : List Allocation) (a : Allocation) (ys : List Allocation)
    (p : IsPacked h) (here : h.allocs ≡ xs ++ a ∷ ys) (al : a.offset % 2 ^ k ≡ 0) where
  abbrev hole : Memheap
  hole = record h { allocated = h.allocated - a.size; allocs = xs ++ released a ∷ ys }

  stacked : Stacked 0 (xs ++ a ∷ ys) h.allocated
  stacked = subst (λ l. Stacked 0 l h.allocated) here p.stacked

  used : All IsUsed xs × IsUsed a
  used = All-split xs a ys (subst (All IsUsed) here p.used)

  below : a.offset + a.size ≤ 2 ^ 62
  below = omega (arith, Stacked-stop 0 h.allocated xs a ys stacked, p.within, p.small)

  stop : a.offset + a.size ≤ h.allocated
  stop = Stacked-stop 0 h.allocated xs a ys stacked

  pos : 0 < a.size
  pos = Stacked-pos 0 h.allocated xs a ys stacked

  free_middle : free h a.offset ≡ hole
  unfolding free
  free_middle = rw here (
      rw (release_middle 0 h.allocated xs a ys stacked used.1)
        (ground (arith, below, stop, p.within, p.small)))

  carve_whole : carve hole (length xs) (released a) a.size (2 ^ k) ≡ h
  unfolding carve split_front split_back
  carve_whole = rw (align_up_self k a.offset al) (
      ground (arith, below, stop, p.within, p.small, here, used.1, set_middle xs (released a) a ys))

  fits_whole : fits (released a) a.size (2 ^ k) ≡ true
  unfolding fits
  fits_whole = rw (align_up_self k a.offset al) (ground arith)

  -- A block that is freed and asked for again, with its size and alignment, comes back at its old
  -- offset, and the heap is as it was.
  free-aligned_alloc : aligned_alloc (free h a.offset) a.size (2 ^ k) ≡ (a.offset, h, none)
  unfolding aligned_alloc
  free-aligned_alloc =
      rw free_middle (ground (arith, pos, below, test_of_pow k, one-le-pow k 2, found))
    where
      found : reuse hole 0 hole.allocs a.size (2 ^ k) ≡ (a.offset, h)
      found =
          reuse_middle hole 0 xs (released a) ys a.size (2 ^ k) used.0 refl fits_whole
          ∙ ap₂ (λ o g. (o, g)) (align_up_self k a.offset al)
              (ap (λ i. carve hole i (released a) a.size (2 ^ k)) (zero-add (length xs))
                ∙ carve_whole)
