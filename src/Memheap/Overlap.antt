-- ===== src/Memheap/Overlap.antt =====
-- What `allocated` means after a free: it is both the bytes in use and the place of the next new block.
use native.Mathlib.Nat.{one-le-pow, zero-mod, zero-add}
use mathlib.Core.Path.{ap₂}
use ep_demo.Prelude.{
  ℕ, ◌+◌, ◌^◌, ◌%◌, ◌<◌, ◌≤◌, ◌≡◌, refl, ◌∙◌, ap, true, false, Option, none, some, [], ◌∷◌, ◌++◌,
  length, get_elem?, arith, test_of_pow, and_mask,
}
use ep_demo.Memheap.{
  Allocation, Memheap, Errno, no_offset, align_up, push, reuse, bump, fits, aligned_alloc, create,
  free,
}
use ep_demo.Memheap.Packed.{aligned_alloc-bump}

pub align_up_self : (k o : ℕ) → o % 2 ^ k ≡ 0 → align_up o (2 ^ k) ≡ o
unfolding align_up
align_up_self k o h = ground (arith, and_mask k o)

-- A block at `allocated` itself, where that is aligned already.
pub bump_aligned :
    (h : Memheap) (size k : ℕ)
    → h.allocated % 2 ^ k ≡ 0
    → h.allocated + size ≤ h.size
    → h.size ≤ 2 ^ 62
    → length h.allocs < 1024
    → bump h size (2 ^ k) ≡ (
      h.allocated,
      record h {
        allocated = h.allocated + size;
        allocs = h.allocs ++ record { offset = h.allocated; size = size; used = true } ∷ [];
      },
      none,
    )
unfolding bump push
bump_aligned h size k al room small space = rw (align_up_self k h.allocated al) (ground arith)

-- A search that fails goes on to take new space.
pub aligned_alloc_none :
    (h : Memheap) (size k : ℕ)
    → 0 < size
    → reuse h 0 h.allocs size (2 ^ k) ≡ (no_offset, h)
    → aligned_alloc h size (2 ^ k) ≡ bump h size (2 ^ k)
unfolding aligned_alloc
aligned_alloc_none h size k pos e = ground (arith, e, test_of_pow k, one-le-pow k 2)

module _ (k a b c n : ℕ) where
  pub first : ℕ × Memheap × Option Errno
  first = aligned_alloc (create n) a (2 ^ k)

  pub second : ℕ × Memheap × Option Errno
  second = aligned_alloc first.1 b (2 ^ k)

  pub third : ℕ × Memheap × Option Errno
  third = aligned_alloc (free second.1 first.0) c (2 ^ k)

module _ (k a b c n : ℕ) (al : a % 2 ^ k ≡ 0) (bl : b % 2 ^ k ≡ 0) (pa : 0 < a) (pb : 0 < b)
    (more : a < c) (room_b : a + b ≤ n) (room_c : b + c ≤ n) (small : n ≤ 2 ^ 62) where
  abbrev live : Allocation
  live = record { offset = a; size = b; used = true }

  abbrev one : Memheap
  one = record {
    size = n;
    allocated = a;
    allocs = record { offset = 0; size = a; used = true } ∷ [];
  }

  -- with the first block freed
  abbrev two : Memheap
  two = record {
    size = n;
    allocated = b;
    allocs = record { offset = 0; size = a; used = false } ∷ live ∷ [];
  }

  first_lem : first k a b c n ≡ (
    0,
    record { size = n; allocated = a; allocs = record { offset = 0; size = a; used = true } ∷ [] },
    none,
  )
  unfolding first create
  first_lem =
      aligned_alloc-bump (create n) a k tt pa
      ∙ bump_aligned (create n) a k (zero-mod (2 ^ k)) (omega arith) small (omega arith)
      ∙ rw zero-add

  second_lem : second k a b c n ≡ (
    a,
    record {
      size = n;
      allocated = a + b;
      allocs = record { offset = 0; size = a; used = true } ∷ live ∷ [];
    },
    none,
  )
  unfolding second
  second_lem =
      ap (λ o. aligned_alloc o.1 b (2 ^ k)) first_lem
      ∙ aligned_alloc-bump one b k (refl, tt) pb
      ∙ bump_aligned one b k al room_b small (omega arith)

  third_lem : third k a b c n ≡ (
    b,
    record {
      size = n;
      allocated = b + c;
      allocs =
          record { offset = 0; size = a; used = false }
          ∷ live
          ∷ record { offset = b; size = c; used = true }
          ∷ [];
    },
    none,
  )
  unfolding third
  third_lem =
      ap₂ (λ o p. aligned_alloc (free o.1 p.0) c (2 ^ k)) second_lem first_lem
      ∙ ap (λ h. aligned_alloc h c (2 ^ k)) freed
      ∙ aligned_alloc_none two c k (omega arith) no_room
      ∙ bump_aligned two c k bl room_c small (omega arith)
    where
      freed :
          free
            (record one {
              allocated = a + b;
              allocs = record { offset = 0; size = a; used = true } ∷ live ∷ [];
            })
            0
          ≡ two
      freed = unfold free in ground arith

      no_room : reuse two 0 two.allocs c (2 ^ k) ≡ (no_offset, two)
      no_room = unfold reuse fits in ground (arith, align_up_self k 0 (zero-mod (2 ^ k)))

  -- After four calls on a new heap, `p = memheap_aligned_alloc(a)`, `q = memheap_aligned_alloc(b)`,
  -- `memheap_free(p)` and `r = memheap_aligned_alloc(c)`, all with the alignment `2 ^ k`, where `a` and `b`
  -- are positive multiples of the alignment, `c` is larger than `a`, and the heap, of at most 2 ^ 62 bytes, has
  -- room for `a` and `b` and for `b` and `c`: the block at `q` is live in the table and the block at `r`
  -- overlaps it.
  pub aligned_alloc-free-overlap :
      let h = (third k a b c n).1 in
      let q = (second k a b c n).0 in
      let r = (third k a b c n).0 in
      (get_elem? h.allocs 1 ≡ some (record { offset = q; size = b; used = true }))
      × (q < r + c)
      × (r < q + b)
  aligned_alloc-free-overlap = rw (second_lem, third_lem) (refl, omega arith, omega arith)
