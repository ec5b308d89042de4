-- ===== src/EpBuffer/Gid.antt =====
-- src/ep_buffer.cpp: what `findBestGidIndex` finds.
use ep_demo.Prelude.{
  sym, Bool, Bool-cases, List, Option, [], ap, arith, false, get_or, inl, inr, none, refl, some,
  suc, true, zero, ℕ, ◌-◌, ◌<◌, ◌∙◌, ◌∷◌, ◌≡◌, ◌≤◌,
}
use ep_demo.EpBuffer.{GidEntry, find_best_gid_index, find_gid_from, suits}

-- An entry that suits, where the query of the table answers.
abbrev pub suits? : Option GidEntry → Bool
suits? none = false
suits? (some e) = suits e

-- One entry that does not suit, before a table whose first suitable entry is known.
first_later :
    (i : ℕ) (o : Option GidEntry) (rest : List (Option GidEntry)) (k : ℕ)
    → suits? o ≡ false
    → (suc i ≤ k)
      × (suits? (get_or rest (k - suc i) none) ≡ true)
      × ((j : ℕ) → j < k - suc i → suits? (get_or rest j none) ≡ false)
    → (i ≤ k)
      × (suits? (get_or (o ∷ rest) (k - i) none) ≡ true)
      × ((j : ℕ) → j < k - i → suits? (get_or (o ∷ rest) j none) ≡ false)
first_later i o rest k no_match (le, hit, miss) =
    let one : k - i ≡ suc (k - suc i) = omega (arith, le) in
    (
      omega (arith, le),
      ap (λ n. suits? (get_or (o ∷ rest) n none)) one ∙ hit,
      λ j lt. before j (omega (arith, lt, one)),
    )
  where
    before : (j : ℕ) → j < suc (k - suc i) → suits? (get_or (o ∷ rest) j none) ≡ false
    before zero lt = no_match
    before (suc j) lt = miss j (omega (arith, lt))

find_gid_from-first :
    (i : ℕ) (table : List (Option GidEntry)) (k : ℕ)
    → find_gid_from i table ≡ some k
    → (i ≤ k)
      × (suits? (get_or table (k - i) none) ≡ true)
      × ((j : ℕ) → j < k - i → suits? (get_or table j none) ≡ false)
find_gid_from-first i [] k h = absurd (cc h)
find_gid_from-first i (none ∷ rest) k h =
    let later = find_gid_from-first (suc i) rest k h in first_later i none rest k refl later
find_gid_from-first i (some e ∷ rest) k h = elim (Bool-cases (suits e)) [
  | inl s ↦
      let same : i ≡ k = cc (rw s at h) in
      let none_left : k - i ≡ 0 = omega (arith, same) in
      (
        omega (arith, same),
        ap (λ n. suits? (get_or (some e ∷ rest) n none)) none_left ∙ s,
        λ j lt. absurd (omega (arith, lt, same)),
      )
  | inr s ↦ first_later i (some e) rest k s (find_gid_from-first (suc i) rest k (rw s at h))
]

find_gid_from-missing :
    (i : ℕ) (table : List (Option GidEntry))
    → find_gid_from i table ≡ none
    → (j : ℕ) → suits? (get_or table j none) ≡ false
find_gid_from-missing i [] h j = refl
find_gid_from-missing i (none ∷ rest) h zero = refl
find_gid_from-missing i (none ∷ rest) h (suc j) = find_gid_from-missing (suc i) rest h j
find_gid_from-missing i (some e ∷ rest) h j = elim (Bool-cases (suits e)) [
  | inl s ↦ absurd (cc (rw s at h))
  | inr s ↦ split s (find_gid_from-missing (suc i) rest (rw s at h)) j
]
  where
    split :
        suits e ≡ false
        → ((j : ℕ) → suits? (get_or rest j none) ≡ false)
        → (j : ℕ) → suits? (get_or (some e ∷ rest) j none) ≡ false
    split s later zero = s
    split s later (suc j) = later j

-- The index found is that of the first entry of the table that suits; if none is found, no entry
-- suits. Entries whose query fails are passed over.
pub find_best_gid_index_lem :
    (table : List (Option GidEntry))
    → ((k : ℕ)
        → find_best_gid_index table ≡ some k
        → (suits? (get_or table k none) ≡ true)
          × ((j : ℕ) → j < k → suits? (get_or table j none) ≡ false))
      × (find_best_gid_index table ≡ none → (j : ℕ) → suits? (get_or table j none) ≡ false)
find_best_gid_index_lem table = (
  λ k h.
      let found = find_gid_from-first 0 table k h in
      let same : k - 0 ≡ k = omega arith in
      (
        ap (λ n. suits? (get_or table n none)) (sym same) ∙ found.1,
        λ j lt. found.2 j (omega (arith, lt)),
      ),
  find_gid_from-missing 0 table,
)
