-- ===== src/EpBuffer/Getters.antt =====
-- include/ep_buffer.h: what `EpBuffer` tells its callers of the queue pairs and the memory region, which
-- the ranks exchange before they connect. A read past the end of the vector `qps` or through the null
-- `mr` is none.
use ep_demo.Prelude.{
  ℕ, zero, suc, ◌%◌, ◌^◌, ◌<◌, ◌≤◌, ◌≡◌, refl, sym, ap, ◌∙◌, Option, none, some, List, [], ◌∷◌,
  ◌++◌, length, get_elem?, map, arith,
}
use ep_demo.EpBuffer.{use_qp_count}
use ep_demo.EpBuffer.QueuePairs.{Round, Init, created, failed, thrown, looping, init_qps}
use ep_demo.EpBuffer.QueuePairs.Held.{IsInit, init_qps_lem}
use ep_demo.Mlx5gda.{World}
use ep_demo.Mlx5gda.Qp.{Qp}

-- The loop over `qps[i]` for `i` below the count, with `push_back`.
abbrev pub push_from : {A : Type 0} → List A → (A → ℕ) → ℕ → Option (List ℕ)
push_from qps f zero = some []
push_from qps f (suc i) =
    let before = push_from qps f i in
    elim (get_elem? qps i) [
      | none ↦ none
      | some qp ↦ elim before [ none ↦ none | some pushed ↦ some (pushed ++ f qp ∷ []) ]
    ]

abbrev pub get_local_qpns : ℕ → List Qp → Option (List ℕ)
get_local_qpns num_ranks qps = push_from qps (λ qp. qp.qpn % 2 ^ 32) (use_qp_count num_ranks)

-- `lid` is `port_attr.lid` of a queue pair.
abbrev pub get_local_lids : ℕ → List Qp → (Qp → ℕ) → Option (List ℕ)
get_local_lids num_ranks qps lid = push_from qps (λ qp. lid qp % 2 ^ 32) (use_qp_count num_ranks)

-- The address and the remote key of the region; the key is returned as an `int32_t`.
abbrev pub get_mr_info : Option (ℕ × ℕ) → Option (ℕ × ℕ)
get_mr_info none = none
get_mr_info (some (addr, rkey)) = some (addr, rkey % 2 ^ 32)

-- `num_ep_buffer_bytes` is an `int64_t`, returned as an `int`.
abbrev pub get_num_ep_buffer_bytes : ℕ → ℕ
get_num_ep_buffer_bytes num_ep_buffer_bytes = num_ep_buffer_bytes % 2 ^ 32

abbrev first : {A : Type 0} → ℕ → List A → List A
first zero xs = []
first (suc i) [] = []
first (suc i) (x ∷ xs) = x ∷ first i xs

first_all : {A : Type 0} (xs : List A) → first (length xs) xs ≡ xs
first_all [] = refl
first_all (x ∷ xs) = ap (λ l. x ∷ l) (first_all xs)

elem_past : {A : Type 0} (xs : List A) (i : ℕ) → length xs ≤ i → get_elem? xs i ≡ none
elem_past [] i le = refl
elem_past (x ∷ xs) zero le = absurd (omega (arith, le))
elem_past (x ∷ xs) (suc i) le = elem_past xs i (omega (arith, le))

-- An entry that is there, and one more entry of the list.
elem_there :
    {A : Type 0} (xs : List A) (i : ℕ) (f : A → ℕ)
    → i < length xs
    → (x : A) × (get_elem? xs i ≡ some x)
      × (map f (first (suc i) xs) ≡ map f (first i xs) ++ f x ∷ [])
elem_there [] i f lt = absurd (omega (arith, lt))
elem_there (x ∷ xs) zero f lt = (x, refl, refl)
elem_there (x ∷ xs) (suc i) f lt =
    let (y, at, more) = elem_there xs i f (omega (arith, lt)) in (y, at, ap (λ l. f x ∷ l) more)

push_from_lem :
    {A : Type 0} (qps : List A) (f : A → ℕ) (i : ℕ)
    → i ≤ length qps
    → push_from qps f i ≡ some (map f (first i qps))
push_from_lem qps f zero le = refl
push_from_lem qps f (suc i) le =
    let (x, at, more) = elem_there qps i f (omega (arith, le)) in
    let before = push_from_lem qps f i (omega (arith, le)) in
    rw (push_from, at, before) (ap some (sym more))

push_from_past :
    {A : Type 0} (qps : List A) (f : A → ℕ) (n : ℕ) → length qps < n → push_from qps f n ≡ none
push_from_past qps f zero lt = absurd (omega (arith, lt))
push_from_past qps f (suc n) lt = rw (push_from, elem_past qps n (omega (arith, lt))) refl

-- What the getters give after the loop of `init_ibgda`.
abbrev pub Told : ℕ → (Qp → ℕ) → Init → Type 0
Told num_ranks lid (created qps w) =
    (get_local_qpns num_ranks qps ≡ some (map (λ qp. qp.qpn % 2 ^ 32) qps))
    × (get_local_lids num_ranks qps lid ≡ some (map (λ qp. lid qp % 2 ^ 32) qps))
Told num_ranks lid (failed qps w) =
    (get_local_qpns num_ranks qps ≡ none) × (get_local_lids num_ranks qps lid ≡ none)
Told num_ranks lid (thrown qps w) =
    (get_local_qpns num_ranks qps ≡ none) × (get_local_lids num_ranks qps lid ≡ none)
Told num_ranks lid looping = ⊥

init_qps-Told :
    (num_ranks : ℕ) (lid : Qp → ℕ) (w : World) (n : ℕ) (i : Init)
    → n ≡ use_qp_count num_ranks
    → IsInit w 0 n i
    → Told num_ranks lid i
init_qps-Told num_ranks lid w n (created qps t) same h =
    let count : length qps ≡ use_qp_count num_ranks = omega (arith, h.0, same) in
    let all : (f : Qp → ℕ) → push_from qps f (use_qp_count num_ranks) ≡ some (map f qps) = λ f.
      ap (push_from qps f) (sym count)
      ∙ push_from_lem qps f (length qps) (omega arith)
      ∙ ap (λ l. some (map f l)) (first_all qps) in
    (all _, all _)
init_qps-Told num_ranks lid w n (failed qps t) same h = (
  push_from_past qps _ _ (omega (arith, h, same)),
  push_from_past qps _ _ (omega (arith, h, same)),
)
init_qps-Told num_ranks lid w n (thrown qps t) same h = (
  push_from_past qps _ _ (omega (arith, h.0, same)),
  push_from_past qps _ _ (omega (arith, h.0, same)),
)
init_qps-Told num_ranks lid w n looping same h = h

-- After the loop of `init_ibgda` over all queue pairs, which always ends: if it has succeeded, the getters
-- give the number and the LID of each queue pair, in their order; if not, they read past the end of the
-- vector.
pub get_local_qpns-init_qps :
    (num_ranks umem_id : ℕ) (lid : Qp → ℕ) (rounds : List Round) (w : World)
    → length rounds ≡ use_qp_count num_ranks
    → Told num_ranks lid (init_qps umem_id rounds w [])
get_local_qpns-init_qps num_ranks umem_id lid rounds w same =
    init_qps-Told num_ranks lid w (length rounds) (init_qps umem_id rounds w []) same
      (init_qps_lem umem_id rounds w)
