-- ===== src/Memheap/Packed.antt =====
-- Heaps from which nothing has been freed: the table is in address order and below `allocated`.
use native.Mathlib.Nat.{one-le-pow, pow-le-pow_right}
use mathlib.Core.Path.{subst₂}
use ep_demo.Prelude.{
  add_size, ℕ, ◌+◌, ◌^◌, ◌%◌, ◌<◌, ◌≤◌, ◌≡◌, refl, ◌⊎◌, inl, inr, true, false, ◌==◌, leb, ltb,
  if◌then◌else◌, Option, none, some, List, [], ◌∷◌, ◌++◌, length, All, All-append, Bool-cases,
  arith, test_of_pow,
}
use ep_demo.Memheap.{
  Allocation, Memheap, Errno, enomem, no_offset, align_up, push, reuse, bump, aligned_alloc, create,
}
use ep_demo.Memheap.Align.{IsRoundedUp, align_up-IsRoundedUp}

-- The entries lie one behind another, without overlap, from `lo` to `hi`.
abbrev pub Stacked : ℕ → List Allocation → ℕ → Type 0
Stacked lo [] hi = lo ≤ hi
Stacked lo (a ∷ rest) hi = (lo ≤ a.offset) × (0 < a.size) × Stacked (a.offset + a.size) rest hi

abbrev pub IsUsed : Allocation → Type 0
IsUsed a = a.used ≡ true

pub record IsPacked (h : Memheap) : Type 0 where
  pub used : All IsUsed h.allocs
  pub stacked : Stacked 0 h.allocs h.allocated
  pub within : h.allocated ≤ h.size
  pub small : h.size ≤ 2 ^ 62

pub Stacked-append :
    (lo mid hi : ℕ) (xs : List Allocation) (a : Allocation)
    → Stacked lo xs mid
    → mid ≤ a.offset
    → 0 < a.size
    → a.offset + a.size ≤ hi
    → Stacked lo (xs ++ a ∷ []) hi
Stacked-append lo mid hi [] a s p q r = (omega arith, q, r)
Stacked-append lo mid hi (x ∷ xs) a s p q r =
    (s.0, s.1, Stacked-append (x.offset + x.size) mid hi xs a s.2 p q r)

pub Stacked-weaken :
    (lo mid hi : ℕ) (xs : List Allocation) → Stacked lo xs mid → mid ≤ hi → Stacked lo xs hi
Stacked-weaken lo mid hi [] s p = omega arith
Stacked-weaken lo mid hi (x ∷ xs) s p =
    (s.0, s.1, Stacked-weaken (x.offset + x.size) mid hi xs s.2 p)

-- No live entry is taken for a new block.
pub reuse-used :
    (h : Memheap) (i : ℕ) (xs : List Allocation) (size align : ℕ)
    → All IsUsed xs
    → reuse h i xs size align ≡ (no_offset, h)
unfolding reuse
reuse-used h i [] size align u = refl
reuse-used h i (x ∷ xs) size align u = ground (arith, u.0, reuse-used h (i + 1) xs size align u.1)

pub aligned_alloc-bump :
    (h : Memheap) (size k : ℕ)
    → All IsUsed h.allocs
    → 0 < size
    → aligned_alloc h size (2 ^ k) ≡ bump h size (2 ^ k)
unfolding aligned_alloc
aligned_alloc-bump h size k u pos =
    ground (arith, reuse-used h 0 h.allocs size (2 ^ k) u, test_of_pow k, one-le-pow k 2)

-- What a request does: a block at the first aligned offset from `allocated` on, and behind it the
-- heap is full up to that block's end; or no block, if that one would end beyond the heap.
pub record IsGranted (h : Memheap) (size k : ℕ) (out : ℕ × Memheap × Option Errno) : Type 0 where
  pub place : IsRoundedUp k h.allocated out.0
  pub inside : out.0 + size ≤ h.size
  pub top : out.1.allocated ≡ out.0 + size
  pub same_size : out.1.size ≡ h.size
  pub silent : out.2 ≡ none
  pub packed : IsPacked out.1

pub record IsRefused (h : Memheap) (size k : ℕ) (out : ℕ × Memheap × Option Errno) : Type 0 where
  pub full : h.size < align_up h.allocated (2 ^ k) + size
  pub result : out ≡ (no_offset, h, some enomem)

module _ (h : Memheap) (o size : ℕ) (p : IsPacked h) (low : h.allocated ≤ o) (pos : 0 < size)
    (room : o + size ≤ h.size) where
  abbrev block : Allocation
  block = record { offset = o; size = size; used = true }

  -- Also when the table is full, and the block is not recorded.
  push-IsPacked : IsPacked (record (push h block) { allocated = o + size })
  unfolding push
  push-IsPacked = elim (Bool-cases (ltb (length h.allocs) 1024)) [
    | inl free ↦ rw free (record {
      used = All-append IsUsed h.allocs (block ∷ []) p.used (refl, tt);
      stacked =
          Stacked-append 0 h.allocated (o + size) h.allocs block p.stacked low pos (omega arith);
      within = room;
      small = p.small;
    })
    | inr full ↦ rw full (record {
      used = p.used;
      stacked = Stacked-weaken 0 h.allocated (o + size) h.allocs p.stacked (omega arith);
      within = room;
      small = p.small;
    })
  ]

  size-push : (push h block).size ≡ h.size
  unfolding push
  size-push = ground arith

-- From a heap with no freed block, a request is granted exactly as `IsGranted` says, or refused.
pub aligned_alloc_packed :
    (h : Memheap) (size k : ℕ)
    → IsPacked h
    → 0 < size
    → size < 2 ^ 62
    → k ≤ 62
    → IsGranted h size k (aligned_alloc h size (2 ^ k))
      ⊎ IsRefused h size k (aligned_alloc h size (2 ^ k))
aligned_alloc_packed h size k p pos small_size small_align =
    rw (aligned_alloc-bump h size k p.used pos) (bump_packed)
  where
    pow_small : 2 ^ k ≤ 2 ^ 62
    pow_small = pow-le-pow_right (omega arith) small_align

    place : IsRoundedUp k h.allocated (align_up h.allocated (2 ^ k))
    place = align_up-IsRoundedUp k h.allocated (omega (arith, p.within, p.small, pow_small))

    no_wrap : add_size (align_up h.allocated (2 ^ k)) size ≡ align_up h.allocated (2 ^ k) + size
    no_wrap = omega (arith, place.near, p.within, p.small, pow_small)

    start : ℕ
    start = align_up h.allocated (2 ^ k)

    taken : Memheap
    taken = push h (record { offset = start; size = size; used = true })

    granted :
        start + size ≤ h.size
        → IsGranted h size k (start, record taken { allocated = start + size }, none)
    granted room = record {
      place = place;
      inside = room;
      top = refl;
      same_size = size-push h start size p place.above pos room;
      silent = refl;
      packed = push-IsPacked h start size p place.above pos room;
    }

    bump_packed :
        IsGranted h size k (bump h size (2 ^ k)) ⊎ IsRefused h size k (bump h size (2 ^ k))
    bump_packed = elim (Bool-cases (leb (add_size (align_up h.allocated (2 ^ k)) size) h.size)) [
      | inl room ↦ inl (unfold bump in rw room (rw no_wrap (granted (ground (arith, no_wrap)))))
      | inr full ↦
          inr (unfold bump in rw full (record { full = ground (arith, no_wrap); result = refl }))
    ]

-- A client's requests in order; `none` stands for a request that got no block.
pub record Request : Type 0 where
  pub size : ℕ
  pub log_align : ℕ

abbrev pub IsSensible : Request → Type 0
IsSensible r = (0 < r.size) × (r.size < 2 ^ 62) × (r.log_align ≤ 62)

-- What a run of requests returns: an offset, or none for `(size_t)-1`.
pub run : Memheap → List Request → List (Option ℕ)
run h [] = []
run h (r ∷ rs) =
    let (o, h', e) = aligned_alloc h r.size (2 ^ r.log_align) in
    (if o == no_offset then none else some o) ∷ run h' rs

-- The blocks granted are aligned and lie one behind another, without overlap, from `lo` to `hi`.
abbrev pub Apart : ℕ → List Request → List (Option ℕ) → ℕ → Type 0
Apart lo (r ∷ rs) (none ∷ os) hi = Apart lo rs os hi
Apart lo (r ∷ rs) (some o ∷ os) hi =
    (lo ≤ o) × (o % 2 ^ r.log_align ≡ 0) × Apart (o + r.size) rs os hi
Apart lo [] os hi = (lo ≤ hi) × (os ≡ [])
Apart lo (r ∷ rs) [] hi = ⊥

-- From a heap of at most 2 ^ 62 bytes with no freed block, the blocks of any run of requests, each of more
-- than 0 and less than 2 ^ 62 bytes and with an alignment of at most 2 ^ 62, are aligned as asked, lie
-- above all that was allocated, inside the heap, and do not overlap.
pub run-Apart :
    (h : Memheap) (rs : List Request)
    → IsPacked h
    → All IsSensible rs
    → Apart h.allocated rs (run h rs) h.size
unfolding run
run-Apart h [] p q = (p.within, refl)
run-Apart h (r ∷ rs) p q = elim (aligned_alloc_packed h r.size r.log_align p q.0.0 q.0.1 q.0.2) [
  | inl g ↦ rw (found g) (
    g.place.above,
    g.place.multiple,
    subst₂ (λ lo hi. Apart lo rs (run out.1 rs) hi) g.top g.same_size
        (run-Apart out.1 rs g.packed q.1),
  )
  | inr f ↦ rw f.result (run-Apart h rs p q.1)
]
  where
    out : ℕ × Memheap × Option Errno
    out = aligned_alloc h r.size (2 ^ r.log_align)

    found : IsGranted h r.size r.log_align out → (out.0 == no_offset) ≡ false
    found g = ground (arith, g.inside, p.small)

pub create-IsPacked : (n : ℕ) → n ≤ 2 ^ 62 → IsPacked (create n)
unfolding create
create-IsPacked n small = record {
  used = tt;
  stacked = omega arith;
  within = omega arith;
  small = small;
}
