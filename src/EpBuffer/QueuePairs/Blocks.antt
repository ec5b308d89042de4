-- ===== src/EpBuffer/QueuePairs/Blocks.antt =====
-- The four blocks of the control buffer that a queue pair of 16384 entries takes, when the driver, CUDA
-- and the C library do what they are asked.
use ep_demo.Prelude.{
  ℕ, ◌*◌, ◌^◌, ◌≡◌, refl, Bool, true, false, ◌==◌, Option, some, List, [], ◌∷◌, ◌++◌, ◌%◌, ◌<◌, ◌≤◌,
  length, All, ap, arith,
}
use ep_demo.Memheap.{Allocation, Memheap, Errno, no_offset, aligned_alloc, alloc}
use ep_demo.Memheap.Again.{entry}
use ep_demo.Memheap.Packed.{IsPacked, IsUsed}
use ep_demo.Mlx5gda.{CqAnswers, CqCommand, adapter_page}
use ep_demo.Mlx5gda.Qp.{Qp, QpAnswers, QpCommand}

-- What can be asked of the system is granted.
pub record IsGoodCq (a : CqAnswers) : Type 0 where
  pub memset : a.memset_ok ≡ true
  pub malloc : a.malloc_ok ≡ true
  pub eqn : (n : ℕ) × (a.eqn ≡ some n)
  pub uar : (n : ℕ) × (a.uar ≡ some n)
  pub sync : a.sync_ok ≡ true
  pub made : (cmd : CqCommand) → (n : ℕ) × (a.obj_create cmd ≡ some n)

pub record IsGood (a : QpAnswers) : Type 0 where
  pub calloc : a.calloc_ok ≡ true
  pub query_port : a.query_port_ok ≡ true
  pub cqe_version : a.cqe_version ≡ some 1
  pub cq : IsGoodCq a.cq
  pub uar : (n : ℕ) × (a.uar ≡ some n)
  pub register : a.register_ok ≡ true
  pub memset : a.memset_ok ≡ true
  pub sync : a.sync_ok ≡ true
  pub made : (cmd : QpCommand) → (n : ℕ) × (a.obj_create cmd ≡ some n)

-- The offsets of a queue pair's blocks.
pub record Offsets : Type 0 where
  pub cq : ℕ
  pub cq_dbr : ℕ
  pub wq : ℕ
  pub wq_dbr : ℕ

abbrev pub offsets : Qp → Offsets
offsets qp = record {
  cq = qp.send_cq.cq_offset;
  cq_dbr = qp.send_cq.dbr_offset;
  wq = qp.wq_offset;
  wq_dbr = qp.dbr_offset;
}

abbrev pub ring_bytes : ℕ
ring_bytes = 2 ^ 20

-- A ring of entries, and a doorbell record.
abbrev pub ring : Memheap → ℕ × Memheap × Option Errno
ring h = aligned_alloc h ring_bytes adapter_page

abbrev pub dbr : Memheap → ℕ × Memheap × Option Errno
dbr h = alloc h 8

-- The heap after two, three and four of the requests of a queue pair.
abbrev pub heap2 : Memheap → Memheap
heap2 h = (dbr (ring h).1).1

abbrev pub heap3 : Memheap → Memheap
heap3 h = (ring (heap2 h)).1

abbrev pub heap4 : Memheap → Memheap
heap4 h = (dbr (heap3 h)).1

abbrev pub offsets_in : Memheap → Offsets
offsets_in h = record {
  cq = (ring h).0;
  cq_dbr = (dbr (ring h).1).0;
  wq = (ring (heap2 h)).0;
  wq_dbr = (dbr (heap3 h)).0;
}

-- The heap has room for all four.
pub record HasRoom (h : Memheap) : Type 0 where
  pub cq : ((ring h).0 == no_offset) ≡ false
  pub cq_dbr : ((dbr (ring h).1).0 == no_offset) ≡ false
  pub wq : ((ring (heap2 h)).0 == no_offset) ≡ false
  pub wq_dbr : ((dbr (heap3 h)).0 == no_offset) ≡ false

-- The table's entries of a queue pair, and of many.
abbrev pub entries : Bool → Offsets → List Allocation
entries used o =
    entry used o.cq ring_bytes
    ∷ entry used o.cq_dbr 8
    ∷ entry used o.wq ring_bytes
    ∷ entry used o.wq_dbr 8
    ∷ []

abbrev pub table : Bool → List Offsets → List Allocation
table used [] = []
table used (o ∷ os) = entries used o ++ table used os

pub table-append :
    (used : Bool) (xs ys : List Offsets) → table used (xs ++ ys) ≡ table used xs ++ table used ys
table-append used [] ys = refl
table-append used (x ∷ xs) ys = ap (λ l. entries used x ++ l) (table-append used xs ys)

pub length-table : (used : Bool) (os : List Offsets) → length (table used os) ≡ 4 * length os
length-table used [] = omega arith
length-table used (o ∷ os) = omega (arith, length-table used os)

pub table-IsUsed : (os : List Offsets) → All IsUsed (table true os)
table-IsUsed [] = tt
table-IsUsed (o ∷ os) = (refl, (refl, (refl, (refl, table-IsUsed os))))

-- Blocks where the requests can be met again.
pub record IsAligned (o : Offsets) : Type 0 where
  pub cq : o.cq % 4096 ≡ 0
  pub cq_dbr : o.cq_dbr % 8 ≡ 0
  pub wq : o.wq % 4096 ≡ 0
  pub wq_dbr : o.wq_dbr % 8 ≡ 0
  pub cq_small : o.cq < 2 ^ 30
  pub cq_dbr_small : o.cq_dbr < 2 ^ 30
  pub wq_small : o.wq < 2 ^ 30
  pub wq_dbr_small : o.wq_dbr < 2 ^ 30

-- The control buffer holds the blocks of some queue pairs, and nothing else.
pub record IsFilled (os : List Offsets) (h : Memheap) : Type 0 where
  pub packed : IsPacked h
  pub size : h.size ≡ 2 ^ 30
  pub top : h.allocated ≤ length os * 2105376
  pub bottom : length os * 2097168 ≤ h.allocated
  pub entries : h.allocs ≡ table true os
  pub aligned : All IsAligned os
