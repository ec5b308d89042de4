-- ===== src/Memheap/Again.antt =====
-- A table of blocks that are freed and allocated again in the order of the table: each request gets the
-- block in the same place.
use native.Mathlib.Nat.{one-le-pow}
use mathlib.Core.List.{append_assoc}
use ep_demo.Prelude.{
  ℕ, ◌+◌, ◌-◌, ◌%◌, ◌^◌, ◌<◌, ◌≤◌, ◌≡◌, refl, sym, ap, ◌∙◌, Bool, true, false, not, ◌==◌, ==_refl,
  ltb, le→leb, Option, none, some, List, [], ◌∷◌, ◌++◌, length, set, All, arith, add_size, sub_size,
  test_of_pow,
}
use ep_demo.Memheap.{
  Allocation, Memheap, Errno, no_offset, align_up, fits, split_front, split_back, carve, reuse,
  aligned_alloc, release, free,
}
use ep_demo.Memheap.Packed.{IsUsed}
use ep_demo.Memheap.Overlap.{align_up_self}
use ep_demo.Memheap.Reuse.{reuse_middle, set_middle}

abbrev pub entry : Bool → ℕ → ℕ → Allocation
entry used o n = record { offset = o; size = n; used = used }

-- An entry that is not in use.
abbrev pub IsFree : Allocation → Type 0
IsFree a = a.used ≡ false

-- Behind entries that are free, the first one in use is released.
release_first :
    (pre rest : List Allocation) (o n : ℕ)
    → All IsFree pre
    → release o (pre ++ entry true o n ∷ rest) ≡ some (n, pre ++ entry false o n ∷ rest)
unfolding release
release_first [] rest o n free' = rw (==_refl o) refl
release_first (x ∷ pre) rest o n free' = simp (free'.0, release_first pre rest o n free'.1)

pub free_first :
    (h : Memheap) (pre rest : List Allocation) (o n : ℕ)
    → h.allocs ≡ pre ++ entry true o n ∷ rest
    → All IsFree pre
    → (o == no_offset) ≡ false
    → free h o
      ≡ record h { allocated = sub_size h.allocated n; allocs = pre ++ entry false o n ∷ rest }
unfolding free
free_first h pre rest o n same free' there = rw (there, same, release_first pre rest o n free') refl

below_self : (a : ℕ) → ltb a a ≡ false
below_self a = ground arith

module _ (h : Memheap) (o size k : ℕ) (aligned : align_up o (2 ^ k) ≡ o)
    (small : o + size < 2 ^ 64) where
  no_wrap : add_size o size ≡ o + size
  no_wrap = omega (arith, small)

  carve_exact :
      (i : ℕ)
      → carve h i (entry false o size) size (2 ^ k) ≡ record h {
        allocated = add_size h.allocated size;
        allocs = set h.allocs i (entry true o size);
      }
  unfolding carve split_front split_back
  carve_exact i = rw (aligned, below_self o, below_self (add_size o size)) refl

  fits_exact : fits (entry false o size) size (2 ^ k) ≡ true
  unfolding fits
  fits_exact = rw aligned (le→leb (add_size o size) (add_size o size) (omega arith))

  reuse_all :
      (pre rest : List Allocation)
      → h.allocs ≡ pre ++ entry false o size ∷ rest
      → All IsUsed pre
      → reuse h 0 h.allocs size (2 ^ k) ≡ (
        o,
        record h {
          allocated = add_size h.allocated size;
          allocs = pre ++ entry true o size ∷ rest;
        },
      )
  reuse_all pre rest same used =
      ap (λ l. reuse h 0 l size (2 ^ k)) same
      ∙ reuse_middle h 0 pre (entry false o size) rest size (2 ^ k) used refl fits_exact
      ∙ ap (λ j. (j, carve h (0 + length pre) (entry false o size) size (2 ^ k))) aligned
      ∙ ap (λ (m : Memheap). (o, m))
          (carve_exact (0 + length pre)
            ∙ ap (λ l. record h { allocated = add_size h.allocated size; allocs = l })
                (ap (λ l. set l (0 + length pre) (entry true o size)) same
                  ∙ ap (λ j. set (pre ++ entry false o size ∷ rest) j (entry true o size))
                      (omega arith)
                  ∙ set_middle pre (entry false o size) (entry true o size) rest))

  pub aligned_alloc_first :
      (pre rest : List Allocation)
      → h.allocs ≡ pre ++ entry false o size ∷ rest
      → All IsUsed pre
      → 0 < size
      → aligned_alloc h size (2 ^ k) ≡ (
        o,
        record h {
          allocated = add_size h.allocated size;
          allocs = pre ++ entry true o size ∷ rest;
        },
        none,
      )
  unfolding aligned_alloc
  aligned_alloc_first pre rest same used pos =
      ground (arith, reuse_all pre rest same used, test_of_pow k, one-le-pow k 2, small)

-- Blocks by offset and size, and their entries.
abbrev pub marks : Bool → List (ℕ × ℕ) → List Allocation
marks used [] = []
marks used ((o, n) ∷ bs) = entry used o n ∷ marks used bs

marks-append :
    (used : Bool) (xs ys : List (ℕ × ℕ)) → marks used (xs ++ ys) ≡ marks used xs ++ marks used ys
marks-append used [] ys = refl
marks-append used ((o, n) ∷ xs) ys = ap (λ l. entry used o n ∷ l) (marks-append used xs ys)

marks-IsUsed : (bs : List (ℕ × ℕ)) → All IsUsed (marks true bs)
marks-IsUsed [] = tt
marks-IsUsed ((o, n) ∷ bs) = (refl, marks-IsUsed bs)

marks-IsFree : (bs : List (ℕ × ℕ)) → All IsFree (marks false bs)
marks-IsFree [] = tt
marks-IsFree ((o, n) ∷ bs) = (refl, marks-IsFree bs)

-- A heap where the blocks of `past` have been freed, or allocated, and those of `next` have not.
pub record IsAt (used : Bool) (h : Memheap) (size allocated : ℕ) (past next : List (ℕ × ℕ))
    : Type 0 where
  pub size_eq : h.size ≡ size
  pub allocated_eq : h.allocated ≡ allocated
  pub allocs_eq : h.allocs ≡ marks used past ++ marks (not used) next

module _ (h : Memheap) (size allocated : ℕ) (past next : List (ℕ × ℕ)) (o n : ℕ) where
  passed :
      (used : Bool) (rest : List Allocation)
      → marks used past ++ entry used o n ∷ rest ≡ marks used (past ++ (o, n) ∷ []) ++ rest
  passed used rest =
      sym (append_assoc (marks used past) (entry used o n ∷ []) rest)
      ∙ ap (λ l. l ++ rest) (sym (marks-append used past ((o, n) ∷ [])))

  pub free-IsAt :
      IsAt false h size allocated past ((o, n) ∷ next)
      → (o == no_offset) ≡ false
      → n ≤ allocated
      → allocated < 2 ^ 64
      → IsAt false (free h o) size (allocated - n) (past ++ (o, n) ∷ []) next
  free-IsAt at there enough small =
      let freed =
        free_first h (marks false past) (marks true next) o n at.allocs_eq (marks-IsFree past)
          there in
      record {
        size_eq = ap (λ (m : Memheap). m.size) freed ∙ at.size_eq;
        allocated_eq =
            ap (λ (m : Memheap). m.allocated) freed ∙ omega (arith, at.allocated_eq, enough, small);
        allocs_eq = ap (λ (m : Memheap). m.allocs) freed ∙ passed false (marks true next);
      }

  pub aligned_alloc-IsAt :
      (k : ℕ)
      → IsAt true h size allocated past ((o, n) ∷ next)
      → o % 2 ^ k ≡ 0
      → o + n < 2 ^ 64
      → 0 < n
      → allocated + n < 2 ^ 64
      → ((aligned_alloc h n (2 ^ k)).0 ≡ o)
        × IsAt true (aligned_alloc h n (2 ^ k)).1 size (allocated + n) (past ++ (o, n) ∷ []) next
  aligned_alloc-IsAt k at aligned inside pos small =
      let taken =
        aligned_alloc_first h o n k (align_up_self k o aligned) inside (marks true past)
          (marks false next) at.allocs_eq (marks-IsUsed past) pos in
      (
        ap (λ (r : ℕ × Memheap × Option Errno). r.0) taken,
        record {
          size_eq = ap (λ (r : ℕ × Memheap × Option Errno). r.1.size) taken ∙ at.size_eq;
          allocated_eq =
              ap (λ (r : ℕ × Memheap × Option Errno). r.1.allocated) taken
              ∙ omega (arith, at.allocated_eq, small);
          allocs_eq =
              ap (λ (r : ℕ × Memheap × Option Errno). r.1.allocs) taken
              ∙ passed true (marks false next);
        },
      )
