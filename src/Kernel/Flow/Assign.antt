-- ===== src/Kernel/Flow/Assign.antt =====
-- Slots that atomic additions hand out: each message of a rank for an expert has its own, they are
-- below the number of those messages, and slot `i` is that of the claim with number `i`.
use mathlib.Core.List.{Memᴰ}
use mathlib.Core.List.Memᴰ
use native.Mathlib.Nat.{add-zero}
use ep_demo.Prelude.{
  ℕ, zero, suc, ◌+◌, ◌<◌, ◌≤◌, ◌≡◌, inl, inr, refl, sym, ap, ◌∙◌, true, List, [], ◌∷◌, arith, some,
  length, get_elem?, tally, Bool-cases, ==_refl,
}
use ep_demo.Kernel.Flow.{Claim, Slotted, is_pair, atomic_add_counter, assign, tokens_of}

is_pair_self : (k : Claim) → is_pair k.rank k.expert_idx k ≡ true
is_pair_self k = rw (==_refl k.rank) (==_refl k.expert_idx)

pub is_pair_parts : (r e : ℕ) (k : Claim) → is_pair r e k ≡ true → (k.rank ≡ r) × (k.expert_idx ≡ e)
is_pair_parts r e k h = ground (arith, h)

bump_le : (cnt : ℕ → ℕ → ℕ) (k : Claim) (r e : ℕ) → cnt r e ≤ atomic_add_counter cnt k r e
bump_le cnt k r e = ground arith

pub tokens_of-tally :
    (r e : ℕ) (ks : List Claim) → length (tokens_of r e ks) ≡ tally (is_pair r e) ks
tokens_of-tally r e [] = refl
tokens_of-tally r e (k ∷ ks) = elim (Bool-cases (is_pair r e k)) [
  | inl h ↦ rw h (omega (arith, tokens_of-tally r e ks))
  | inr h ↦ rw h (omega (arith, tokens_of-tally r e ks))
]

pub assign-claim :
    (cnt : ℕ → ℕ → ℕ) (ks : List Claim) (s : Slotted) → Memᴰ s (assign cnt ks) → Memᴰ s.claim ks
assign-claim cnt [] s m = absurd (Memᴰ.not-nil m)
assign-claim cnt (k ∷ ks) s m = elim (Memᴰ.cases_cons m) [
  | inl h ↦ Memᴰ.head (ap (λ s. s.claim) h)
  | inr t ↦ Memᴰ.tail (assign-claim (atomic_add_counter cnt k) ks s t)
]

-- A slot is not below its counter, and below the counter after all claims.
pub assign-range :
    (cnt : ℕ → ℕ → ℕ) (ks : List Claim) (s : Slotted)
    → Memᴰ s (assign cnt ks)
    → (cnt s.claim.rank s.claim.expert_idx ≤ s.slot_idx)
      × (s.slot_idx
          < cnt s.claim.rank s.claim.expert_idx
            + tally (is_pair s.claim.rank s.claim.expert_idx) ks)
assign-range cnt [] s m = absurd (Memᴰ.not-nil m)
assign-range cnt (k ∷ ks) s m = elim (Memᴰ.cases_cons m) [
  | inl h ↦ rw (h, is_pair_self k) (omega arith, omega arith)
  | inr t ↦
      let later = assign-range (atomic_add_counter cnt k) ks s t in
      (
        omega (arith, later.0, bump_le cnt k s.claim.rank s.claim.expert_idx),
        ground (arith, later.1),
      )
]

-- Messages of one rank for one expert with the same slot are the same.
pub assign_unique :
    (cnt : ℕ → ℕ → ℕ) (ks : List Claim) (s t : Slotted)
    → Memᴰ s (assign cnt ks)
    → Memᴰ t (assign cnt ks)
    → s.claim.rank ≡ t.claim.rank
    → s.claim.expert_idx ≡ t.claim.expert_idx
    → s.slot_idx ≡ t.slot_idx
    → s ≡ t
assign_unique cnt [] s t ms mt r e i = absurd (Memᴰ.not-nil ms)
assign_unique cnt (k ∷ ks) s t ms mt r e i = elim (Memᴰ.cases_cons ms) [
  | inl hs ↦ elim (Memᴰ.cases_cons mt) [
    | inl ht ↦ hs ∙ sym ht
    | inr lt ↦ absurd (later k hs t lt r e i)
  ]
  | inr ls ↦ elim (Memᴰ.cases_cons mt) [
    | inl ht ↦ absurd (later k ht s ls (sym r) (sym e) (sym i))
    | inr lt ↦ assign_unique (atomic_add_counter cnt k) ks s t ls lt r e i
  ]
]
  where
    later :
        (k : Claim) {a : Slotted}
        → a ≡ record { claim = k; slot_idx = cnt k.rank k.expert_idx }
        → (b : Slotted) → Memᴰ b (assign (atomic_add_counter cnt k) ks)
        → a.claim.rank ≡ b.claim.rank
        → a.claim.expert_idx ≡ b.claim.expert_idx
        → a.slot_idx ≡ b.slot_idx
        → ⊥
    later k {a} ha b mb r e i =
        let rank : k.rank ≡ b.claim.rank = sym (ap (λ s. s.claim.rank) ha) ∙ r in
        let expert : k.expert_idx ≡ b.claim.expert_idx =
          sym (ap (λ s. s.claim.expert_idx) ha) ∙ e in
        let slot : cnt k.rank k.expert_idx ≡ b.slot_idx = sym (ap (λ s. s.slot_idx) ha) ∙ i in
        let low = (assign-range (atomic_add_counter cnt k) ks b mb).0 in
        let moved : atomic_add_counter cnt k b.claim.rank b.claim.expert_idx
            ≡ cnt k.rank k.expert_idx + 1 =
          rw (sym rank, sym expert, is_pair_self k) refl in
        omega (arith, slot, low, moved)

-- The claim with number `i` among those of a rank for an expert gets slot `i`.
pub assign-at :
    (cnt : ℕ → ℕ → ℕ) (ks : List Claim) (r e i t : ℕ)
    → get_elem? (tokens_of r e ks) i ≡ some t
    → Memᴰ
        (record {
          claim = record { rank = r; token_idx = t; expert_idx = e };
          slot_idx = cnt r e + i;
        })
        (assign cnt ks)
assign-at cnt [] r e i t h = cc h
assign-at cnt (k ∷ ks) r e i t h = elim (Bool-cases (is_pair r e k)) [
  | inl p ↦ own i (assign-at (atomic_add_counter cnt k) ks r e) p (rw p at h)
  | inr p ↦
      let same : atomic_add_counter cnt k r e ≡ cnt r e = rw p refl in
      Memᴰ.tail (rw (sym same) (assign-at (atomic_add_counter cnt k) ks r e i t (rw p at h)))
]
  where
    own :
        (j : ℕ)
        → ((j t : ℕ)
            → get_elem? (tokens_of r e ks) j ≡ some t
            → Memᴰ
                (record {
                  claim = record { rank = r; token_idx = t; expert_idx = e };
                  slot_idx = atomic_add_counter cnt k r e + j;
                })
                (assign (atomic_add_counter cnt k) ks))
        → is_pair r e k ≡ true
        → get_elem? (k.token_idx ∷ tokens_of r e ks) j ≡ some t
        → Memᴰ
            (record {
              claim = record { rank = r; token_idx = t; expert_idx = e };
              slot_idx = cnt r e + j;
            })
            (record { claim = k; slot_idx = cnt k.rank k.expert_idx }
              ∷ assign (atomic_add_counter cnt k) ks)
    own zero rest p g =
        let parts = is_pair_parts r e k p in
        let token : k.token_idx ≡ t = cc g in
        Memᴰ.head (
          rw (sym parts.0, sym parts.1, sym token)
            (ap (λ n. record { claim = k; slot_idx = n }) (add-zero (cnt k.rank k.expert_idx))))
    own (suc j) rest p g =
        let moved : atomic_add_counter cnt k r e + j ≡ cnt r e + suc j = rw p (omega arith) in
        Memᴰ.tail (rw (sym moved) (rest j t g))
