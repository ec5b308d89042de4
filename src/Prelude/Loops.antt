-- ===== src/Prelude/Loops.antt =====
-- Loops that append lists, membership of what they collect, and counting in any order.
use Prim.Native.Nat.{ℕ, zero, suc, ◌+◌, ◌<◌, ◌≤◌}
use native.Mathlib.Nat.{eq-zero-or-pos}
use mathlib.Core.Path.{◌≡◌, refl, sym, ap, ◌∙◌}
use mathlib.Core.Logic.{inl, inr, ◌≢◌}
use mathlib.Core.Bool.{Bool}
use mathlib.Core.List.{List, [], ◌∷◌, ◌++◌, map, Memᴰ}
use mathlib.Core.List.Memᴰ
use mathlib.Core.List.{Permᴰ}
use native.Mathlib.Omega.{arith}
use ep_demo.Prelude.Tests.{◌==◌, if◌then◌else◌, ==_iff, Bool-cases}

module _ {ℓ} {A : Type ℓ} where
  -- What the rounds `0` to `n - 1` of a loop append.
  abbrev pub for_each : ℕ → (ℕ → List A) → List A
  for_each zero f = []
  for_each (suc n) f = for_each n f ++ f n

  pub for_each-find :
      {a : A} (n : ℕ) (f : ℕ → List A) → Memᴰ a (for_each n f) → (i : ℕ) × (i < n) × Memᴰ a (f i)
  for_each-find zero f m = absurd (Memᴰ.not-nil m)
  for_each-find (suc n) f m = elim (Memᴰ.append_cases (for_each n f) m) [
    | inl l ↦ let found = for_each-find n f l in (found.0, omega (arith, found.1), found.2)
    | inr r ↦ (n, omega arith, r)
  ]

  pub for_each-Mem :
      {a : A} (n : ℕ) (f : ℕ → List A) (i : ℕ) → i < n → Memᴰ a (f i) → Memᴰ a (for_each n f)
  for_each-Mem zero f i lt m = absurd (omega (arith, lt))
  for_each-Mem (suc n) f i lt m = elim (Bool-cases (i == n)) [
    | inl e ↦ Memᴰ.append_right (for_each n f) (rw (sym ((==_iff i n).0 e)) m)
    | inr e ↦ Memᴰ.append_left (f n) (for_each-Mem n f i (ground (arith, lt, e)) m)
  ]

  -- How many members pass a test.
  abbrev pub tally : (A → Bool) → List A → ℕ
  tally p [] = 0
  tally p (a ∷ as') = (if p a then 1 else 0) + tally p as'

  module _ (p : A → Bool) where
    pub tally-append : (xs ys : List A) → tally p (xs ++ ys) ≡ tally p xs + tally p ys
    tally-append [] ys = omega arith
    tally-append (x ∷ xs) ys = omega (arith, tally-append xs ys)

    pub tally-Perm : {xs ys : List A} → Permᴰ xs ys → tally p xs ≡ tally p ys
    tally-Perm Permᴰ.nil = refl
    tally-Perm (Permᴰ.cons e d) = rw e (omega (arith, tally-Perm d))
    tally-Perm (Permᴰ.swap e₁ e₂) = rw (e₁, e₂) (omega arith)
    tally-Perm (Permᴰ.trans d₁ d₂) = tally-Perm d₁ ∙ tally-Perm d₂

    pub tally-none :
        (n : ℕ) (f : ℕ → List A)
        → ((i : ℕ) → i < n → tally p (f i) ≡ 0)
        → tally p (for_each n f) ≡ 0
    tally-none zero f h = refl
    tally-none (suc n) f h =
        rw (tally-append (for_each n f) (f n))
          (omega (arith, tally-none n f (λ i lt. h i (omega (arith, lt))), h n (omega arith)))

    -- Only one round has members that pass.
    pub tally-only :
        (n : ℕ) (f : ℕ → List A) (k : ℕ)
        → k < n
        → ((i : ℕ) → i < n → i ≢ k → tally p (f i) ≡ 0)
        → tally p (for_each n f) ≡ tally p (f k)
    tally-only zero f k lt h = absurd (omega (arith, lt))
    tally-only (suc n) f k lt h = elim (Bool-cases (k == n)) [
      | inl e ↦
          let same : k ≡ n = (==_iff k n).0 e in
          rw (tally-append (for_each n f) (f n), same)
            (omega (
              arith,
              tally-none n f
                  (λ i l. h i (omega (arith, l)) (λ q. absurd (omega (arith, q, same, l)))),
            ))
      | inr e ↦
          let below : k < n = ground (arith, lt, e) in
          rw (tally-append (for_each n f) (f n)) (
            omega (
              arith,
              tally-only n f k below (λ i l. h i (omega (arith, l))),
              h n (omega arith) (λ q. absurd (omega (arith, q, below))),
            ))
    ]

    pub tally-le :
        (n : ℕ) (f : ℕ → List A)
        → ((i : ℕ) → i < n → tally p (f i) ≤ 1)
        → tally p (for_each n f) ≤ n
    tally-le zero f h = omega arith
    tally-le (suc n) f h =
        rw (tally-append (for_each n f) (f n))
          (omega (arith, tally-le n f (λ i lt. h i (omega (arith, lt))), h n (omega arith)))

    pub tally-find :
        (n : ℕ) (f : ℕ → List A)
        → 0 < tally p (for_each n f)
        → (i : ℕ) × (i < n) × (0 < tally p (f i))
    tally-find zero f h = absurd (omega (arith, h))
    tally-find (suc n) f h = elim (eq-zero-or-pos (tally p (f n))) [
      | inl z ↦
          let rest = tally-find n f (omega (arith, h, tally-append (for_each n f) (f n), z)) in
          (rest.0, omega (arith, rest.1), rest.2)
      | inr pos ↦ (n, omega arith, pos)
    ]

    -- Rounds of which at most one has a member that passes.
    pub tally-once :
        (n : ℕ) (f : ℕ → List A)
        → ((i : ℕ) → i < n → tally p (f i) ≤ 1)
        → ((i j : ℕ) → i < n → j < n → 0 < tally p (f i) → 0 < tally p (f j) → i ≡ j)
        → tally p (for_each n f) ≤ 1
    tally-once zero f h one = omega arith
    tally-once (suc n) f h one =
        rw (tally-append (for_each n f) (f n)) (elim (eq-zero-or-pos (tally p (for_each n f))) [
          | inl z ↦ omega (arith, z, h n (omega arith))
          | inr pos ↦
              let found = tally-find n f pos in
              elim (eq-zero-or-pos (tally p (f n))) [
                | inl z ↦ omega (
                  arith,
                  z,
                  tally-once n f (λ i lt. h i (omega (arith, lt)))
                      (λ i j l m. one i j (omega (arith, l)) (omega (arith, m))),
                )
                | inr q ↦ absurd (
                    omega (
                      arith,
                      found.1,
                      one found.0 n (omega (arith, found.1)) (omega arith) found.2 q,
                    ))
              ]
        ])

  pub Perm-Mem : {a : A} {xs ys : List A} → Permᴰ xs ys → Memᴰ a xs → Memᴰ a ys
  Perm-Mem Permᴰ.nil m = m
  Perm-Mem (Permᴰ.cons e d) m = elim (Memᴰ.cases_cons m) [
    | inl h ↦ Memᴰ.head (h ∙ e)
    | inr t ↦ Memᴰ.tail (Perm-Mem d t)
  ]
  Perm-Mem (Permᴰ.swap e₁ e₂) m = elim (Memᴰ.cases_cons m) [
    | inl h ↦ Memᴰ.tail (Memᴰ.head (h ∙ e₁))
    | inr t ↦ elim (Memᴰ.cases_cons t) [
      | inl h ↦ Memᴰ.head (h ∙ e₂)
      | inr u ↦ Memᴰ.tail (Memᴰ.tail u)
    ]
  ]
  Perm-Mem (Permᴰ.trans d₁ d₂) m = Perm-Mem d₂ (Perm-Mem d₁ m)

pub map-Mem {ℓ κ} :
    {A : Type ℓ} {B : Type κ} (f : A → B) {a : A} (xs : List A) → Memᴰ a xs → Memᴰ (f a) (map f xs)
map-Mem f [] m = absurd (Memᴰ.not-nil m)
map-Mem f (x ∷ xs) m = elim (Memᴰ.cases_cons m) [
  | inl h ↦ Memᴰ.head (ap f h)
  | inr t ↦ Memᴰ.tail (map-Mem f xs t)
]

pub map-find {ℓ κ} :
    {A : Type ℓ} {B : Type κ} (f : A → B) {b : B} (xs : List A)
    → Memᴰ b (map f xs)
    → (a : A) × Memᴰ a xs × (b ≡ f a)
map-find f [] m = absurd (Memᴰ.not-nil m)
map-find f (x ∷ xs) m = elim (Memᴰ.cases_cons m) [
  | inl h ↦ (x, Memᴰ.head refl, h)
  | inr t ↦ let found = map-find f xs t in (found.0, Memᴰ.tail found.1, found.2)
]
