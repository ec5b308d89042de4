-- ===== src/Memheap.antt =====
-- include/ep_ibgda/memheap.h: the allocator of offsets in the control buffer. `allocs` is the array
-- up to `alloc_count`, so the count is its length. An operation is one section under `heap->lock`.
-- `size_t` is a number below 2 ^ 64, and its sums wrap. The heap pointer is never NULL here.
pub mod Align
pub mod Packed
pub mod Overlap
pub mod Reuse
pub mod Again
use ep_demo.Prelude.{
  ℕ, ◌+◌, ◌-◌, ◌^◌, ◌%◌, bit_and, bit_or, Bool, true, false, ◌&&◌, ◌||◌, not, Option, none, some,
  List, [], ◌∷◌, ◌++◌, ltb, leb, ◌==◌, add_size, sub_size, if◌then◌else◌, length, set,
}

abbrev pub max_allocations : ℕ
max_allocations = 1024

-- `(size_t)-1`
abbrev pub no_offset : ℕ
no_offset = 2 ^ 64 - 1

-- What `errno` is set to.
pub data Errno : Type 0 where
  einval enomem : Errno

pub record Allocation : Type 0 where
  pub offset : ℕ
  pub size : ℕ
  pub used : Bool

pub record Memheap : Type 0 where
  pub size : ℕ
  pub allocated : ℕ
  pub allocs : List Allocation

unfoldable pub create : ℕ → Memheap
create size = record { size = size; allocated = 0; allocs = [] }

-- `if (o & (align - 1)) o = (o | (align - 1)) + 1;`
unfoldable pub align_up : ℕ → ℕ → ℕ
align_up o align = if bit_and o (align - 1) == 0 then o else add_size (bit_or o (align - 1)) 1

-- A new entry at the end of the table, which a full table drops.
unfoldable pub push : Memheap → Allocation → Memheap
push h a =
    if ltb (length h.allocs) max_allocations then record h { allocs = h.allocs ++ a ∷ [] } else h

-- `aligned_offset + size <= offset + block_size`
pub fits : Allocation → ℕ → ℕ → Bool
fits a size align = leb (add_size (align_up a.offset align) size) (add_size a.offset a.size)

-- The piece before the aligned offset becomes a free entry.
pub split_front : Memheap → Allocation → ℕ → Memheap
split_front h a align =
    let start = align_up a.offset align in
    if ltb a.offset start
    then push h (record { offset = a.offset; size = start - a.offset; used = false })
    else h

-- So does the piece behind the block.
pub split_back : Memheap → Allocation → ℕ → ℕ → Memheap
split_back h a size align =
    let stop = add_size (align_up a.offset align) size in
    let block_stop = add_size a.offset a.size in
    if ltb stop block_stop
    then push h (record { offset = stop; size = sub_size block_stop stop; used = false })
    else h

-- The body of the loop once the free block `a`, at index `i`, fits.
pub carve : Memheap → ℕ → Allocation → ℕ → ℕ → Memheap
carve h i a size align =
    let h' = split_back (split_front h a align) a size align in
    record h' {
      allocated = add_size h'.allocated size;
      allocs =
          set h'.allocs i (record { offset = align_up a.offset align; size = size; used = true });
    }

-- The search for a free block that fits; the list is the entries from index `i` on.
unfoldable pub reuse : Memheap → ℕ → List Allocation → ℕ → ℕ → ℕ × Memheap
reuse h i [] size align = (no_offset, h)
reuse h i (a ∷ rest) size align =
    let later = reuse h (i + 1) rest size align in
    if not a.used && fits a size align
    then (align_up a.offset align, carve h i a size align)
    else later

-- The part below `if (ret == (size_t)-1)`: take space at `allocated`.
unfoldable pub bump : Memheap → ℕ → ℕ → ℕ × Memheap × Option Errno
bump h size align =
    let offset = align_up h.allocated align in
    if leb (add_size offset size) h.size
    then (
      offset,
      record (push h (record { offset = offset; size = size; used = true })) {
        allocated = add_size offset size;
      },
      none,
    )
    else (no_offset, h, some enomem)

unfoldable pub aligned_alloc : Memheap → ℕ → ℕ → ℕ × Memheap × Option Errno
unfolding reuse bump
aligned_alloc h size align =
    if size == 0
    then (no_offset, h, none)
    else if align == 0 || not (bit_and align (align - 1) == 0)
    then (no_offset, h, some einval)
    else let (ret, h') = reuse h 0 h.allocs size align in
      if ret == no_offset then bump h' size align else (ret, h', none)

-- `alignof(max_align_t)` of the x86-64 ABI.
abbrev max_align : ℕ
max_align = 16

-- `size & -size`, at most `max_align` and at least 8.
unfoldable pub alloc_align : ℕ → ℕ
alloc_align size =
    let low = bit_and size (sub_size 0 size) in
    let low' = if ltb max_align low then max_align else low in if ltb low' 8 then 8 else low'

unfoldable pub alloc : Memheap → ℕ → ℕ × Memheap × Option Errno
unfolding alloc_align
alloc h size = aligned_alloc h size (alloc_align size)

-- The loop of `memheap_free`: the first live entry at `offset` is marked free. The number is its size.
pub release : ℕ → List Allocation → Option (ℕ × List Allocation)
release offset [] = none
release offset (a ∷ rest) =
    if a.used && (a.offset == offset)
    then some (a.size, record a { used = false } ∷ rest)
    else elim (release offset rest) [ none ↦ none | some (n, rest') ↦ some (n, a ∷ rest') ]

pub free : Memheap → ℕ → Memheap
unfolding release
free h offset = if offset == no_offset then h else elim (release offset h.allocs) [
  | none ↦ h
  | some (n, allocs) ↦ record h { allocated = sub_size h.allocated n; allocs = allocs }
]
