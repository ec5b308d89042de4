-- ===== src/Kernel/Memory.antt =====
-- The memory of all ranks as the copies and RDMA writes of src/ep_kernel.cu change it. Each write of
-- `bytes` bytes is one cell at its first address; a write over a part of another cell tears that cell.
use mathlib.Core.List.{Memᴰ}
use mathlib.Core.List.Memᴰ
use ep_demo.Prelude.{
  ℕ, ◌+◌, ◌<◌, ◌≤◌, ◌≡◌, ◌≢◌, ◌⊎◌, inl, inr, refl, sym, ◌∙◌, ◌&&◌, ◌==◌, ltb, if◌then◌else◌, List,
  [], ◌∷◌, arith,
}

-- A message or a row on its way: to an address of a rank.
pub record Write {ℓ} (A : Type ℓ) : Type ℓ where
  pub rank : ℕ
  pub address : ℕ
  pub value : A

-- A rank and an address there.
abbrev pub Memory {ℓ} : Type ℓ → Type ℓ
Memory A = ℕ → ℕ → A

module _ {ℓ} {A : Type ℓ} (bytes : ℕ) where
  -- A write that leaves a cell whole.
  abbrev pub Misses : ℕ → ℕ → Write A → Type 0
  Misses rank q w = (w.rank ≢ rank) ⊎ ((w.address + bytes ≤ q) ⊎ (q + bytes ≤ w.address))

  abbrev pub Agrees : ℕ → ℕ → A → Write A → Type ℓ
  Agrees rank q v w = (w ≡ record { rank = rank; address = q; value = v }) ⊎ Misses rank q w

-- A `torn` cell may hold anything: the parameter stands for it.
module _ {ℓ} {A : Type ℓ} (bytes : ℕ) (torn : A) where
  abbrev pub write : Memory A → Write A → Memory A
  write m w rank q =
      if w.rank == rank
      then if w.address == q
        then w.value
        else if ltb w.address (q + bytes) && ltb q (w.address + bytes)
        then torn
        else m rank q
      else m rank q

  -- One write after the other.
  abbrev pub writes : Memory A → List (Write A) → Memory A
  writes m [] = m
  writes m (w ∷ ws) = writes (write m w) ws

  write_self :
      (m : Memory A) (rank q : ℕ) (v : A)
      → write m (record { rank = rank; address = q; value = v }) rank q ≡ v
  write_self m rank q v = ground arith

  write-Misses :
      (m : Memory A) (rank q : ℕ) (w : Write A)
      → 0 < bytes
      → Misses bytes rank q w
      → write m w rank q ≡ m rank q
  write-Misses m rank q w pos (inl ne) = ground (arith, ne)
  write-Misses m rank q w pos (inr (inl h)) = ground (arith, h, pos)
  write-Misses m rank q w pos (inr (inr h)) = ground (arith, h, pos)

  module _ (pos : 0 < bytes) (rank q : ℕ) (v : A) where
    writes-kept :
        (m : Memory A) (ws : List (Write A))
        → ((w : Write A) → Memᴰ w ws → Agrees bytes rank q v w)
        → m rank q ≡ v
        → writes m ws rank q ≡ v
    writes-kept m [] ok h = h
    writes-kept m (w ∷ ws) ok h =
        writes-kept (write m w) ws (λ u u_in. ok u (Memᴰ.tail u_in))
          (elim (ok w (Memᴰ.head refl)) [
            | inl e ↦ rw e (write_self m rank q v)
            | inr miss ↦ write-Misses m rank q w pos miss ∙ h
          ])

    -- In whatever order the writes land: if one of them writes a value to a cell, and each other writes
    -- the same there or misses the cell, the cell holds the value.
    pub writes-lem :
        (m : Memory A) (ws : List (Write A))
        → ((w : Write A) → Memᴰ w ws → Agrees bytes rank q v w)
        → Memᴰ (record { rank = rank; address = q; value = v }) ws
        → writes m ws rank q ≡ v
    writes-lem m [] ok there = absurd (Memᴰ.not-nil there)
    writes-lem m (w ∷ ws) ok there = elim (Memᴰ.cases_cons there) [
      | inl e ↦
          writes-kept (write m w) ws (λ u u_in. ok u (Memᴰ.tail u_in))
            (rw (sym e) (write_self m rank q v))
      | inr later ↦ writes-lem (write m w) ws (λ u u_in. ok u (Memᴰ.tail u_in)) later
    ]
