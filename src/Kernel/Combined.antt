-- ===== src/Kernel/Combined.antt =====
-- src/ep_kernel.cu, the end of `combine`: the threads of a block add up a token's rows, eight elements to
-- a thread, and narrow the eight sums in place. The floating-point operations are a parameter.
use native.Mathlib.Nat.{div-add-mod', mod-lt, le-mul_of_pos_right}
use ep_demo.Prelude.{
  ℕ, zero, suc, ◌+◌, ◌*◌, ◌/◌, ◌%◌, ◌<◌, ◌≤◌, ◌≡◌, refl, sym, ap, ◌∙◌, true, false, if◌then◌else◌,
  ◌==◌, lt→ltb, inl, inr, Option, none, some, Bool-cases, arith,
}
use ep_demo.Warp.{strided_sum, is_element}
use ep_demo.Warp.Sum.{sum_to, strides-sum_to}
use ep_demo.Warp.Copy.{is_element-once}
use ep_demo.Kernel.Flow.Combine.{Float, add_entry, add_entries}

-- `float`, `nv_bfloat16` and the two 16-bit halves of a `float` in memory. Narrowing is a function of
-- the halves, as `__float2bfloat16` reads them.
pub record Narrowing : Type 1 where
  pub F : Type 0
  pub H : Type 0
  pub zero_value : F
  pub add : F → F → F
  pub mul : F → F → F
  pub to_float : H → F
  pub low : F → H
  pub high : F → H
  pub narrow : H → H → H

module _ (n : Narrowing) where
  open n use {F, H, narrow, low, high}

  -- A row, its sum with a weight, and the narrowed sum: what one element of each is.
  abbrev pub element_wise : Float (ℕ → F) (ℕ → H) F (ℕ → H)
  element_wise = record {
    zero_value = λ e. n.zero_value;
    multiply_add = λ acc row w e. n.add (acc e) (n.mul (n.to_float (row e)) w);
    round = λ acc e. narrow (low (acc e)) (high (acc e));
  }

  -- `combined_values` of thread `thread_id` after `i` entries of `topk_idx`.
  abbrev pub combined_values : (ℕ → ℕ → H) → (ℕ → Option ℕ) → (ℕ → F) → ℕ → ℕ → ℕ → F
  combined_values row topk weights thread_id zero j = n.zero_value
  combined_values row topk weights thread_id (suc i) j =
      let before = combined_values row topk weights thread_id i j in
      elim (topk i) [
        | none ↦ before
        | some e ↦ n.add before (n.mul (n.to_float (row e (thread_id * 8 + j))) (weights i))
      ]

  -- The array `combined_values` as 16-bit words.
  abbrev pub words_of : (ℕ → F) → ℕ → H
  words_of values k = if k % 2 == 0 then low (values (k / 2)) else high (values (k / 2))

  -- `combined_bf16[j] = __float2bfloat16(combined_values[j])` for `j` below the count: both names are of
  -- the same memory.
  abbrev pub narrow_all : ℕ → (ℕ → H) → ℕ → H
  narrow_all zero m k = m k
  narrow_all (suc j) m k =
      let before = narrow_all j m in
      if k == j then narrow (before (2 * j)) (before (2 * j + 1)) else before k

  -- The `int4` that the thread stores.
  abbrev pub combined_int4 : (ℕ → ℕ → H) → (ℕ → Option ℕ) → (ℕ → F) → ℕ → ℕ → ℕ → H
  combined_int4 row topk weights num_topk thread_id =
      narrow_all 8 (words_of (combined_values row topk weights thread_id num_topk))

  narrow_all-ahead : (count : ℕ) (m : ℕ → H) (k : ℕ) → count ≤ k → narrow_all count m k ≡ m k
  narrow_all-ahead zero m k le = refl
  narrow_all-ahead (suc j) m k le =
      let other : (k == j) ≡ false = ground (arith, le) in
      rw other (narrow_all-ahead j m k (omega (arith, le)))

  -- No float is overwritten before it is read.
  narrow_all-lem :
      (count : ℕ) (m : ℕ → H) (k : ℕ)
      → k < count
      → narrow_all count m k ≡ narrow (m (2 * k)) (m (2 * k + 1))
  narrow_all-lem zero m k lt = absurd (omega (arith, lt))
  narrow_all-lem (suc j) m k lt = elim (Bool-cases (k == j)) [
    | inl e ↦
        let same : k ≡ j = ground (arith, e) in
        rw e (
          ap (λ a. narrow a (narrow_all j m (2 * j + 1)))
            (narrow_all-ahead j m (2 * j) (omega arith))
          ∙ ap (narrow (m (2 * j))) (narrow_all-ahead j m (2 * j + 1) (omega arith))
          ∙ ap (λ i. narrow (m (2 * i)) (m (2 * i + 1))) (sym same))
    | inr e ↦ rw e (narrow_all-lem j m k (ground (arith, lt, e)))
  ]

  words_of-lem :
      (values : ℕ → F) (j : ℕ)
      → (words_of values (2 * j) ≡ low (values j)) × (words_of values (2 * j + 1) ≡ high (values j))
  words_of-lem values j =
      let even : (2 * j % 2 == 0) ≡ true = ground arith in
      let odd : ((2 * j + 1) % 2 == 0) ≡ false = ground arith in
      let half : 2 * j / 2 ≡ j = omega arith in
      let half' : (2 * j + 1) / 2 ≡ j = omega arith in (rw (even, half) refl, rw (odd, half') refl)

  combined_values-lem :
      (row : ℕ → ℕ → H) (topk : ℕ → Option ℕ) (weights : ℕ → F) (thread_id i j : ℕ)
      → combined_values row topk weights thread_id i j
        ≡ add_entries element_wise row topk weights i (thread_id * 8 + j)
  combined_values-lem row topk weights thread_id zero j = refl
  combined_values-lem row topk weights thread_id (suc i) j =
      entry (topk i) (combined_values-lem row topk weights thread_id i j)
    where
      entry :
          (q : Option ℕ)
          → combined_values row topk weights thread_id i j
            ≡ add_entries element_wise row topk weights i (thread_id * 8 + j)
          → elim q [
            | none ↦ combined_values row topk weights thread_id i j
            | some e ↦
                n.add
                  (combined_values row topk weights thread_id i j)
                  (n.mul (n.to_float (row e (thread_id * 8 + j))) (weights i))
          ]
            ≡ add_entry element_wise
                (add_entries element_wise row topk weights i)
                row
                q
                (weights i)
                (thread_id * 8 + j)
      entry none h = h
      entry (some e) h =
          ap (λ a. n.add a (n.mul (n.to_float (row e (thread_id * 8 + j))) (weights i))) h

  -- Where the block has a thread for each eight elements: every token is summed by one block, once, and the
  -- thread of an element stores there the narrowed sum of the element over the token's entries, although
  -- the narrowed values overwrite the sums.
  pub combined_int4-lem :
      (row : ℕ → ℕ → H) (topk : ℕ → Option ℕ) (weights : ℕ → F)
      (num_topk hidden num_threads num_sms num_combined_tokens token_idx e : ℕ)
      → hidden % 8 ≡ 0
      → hidden / 8 ≤ num_threads
      → 0 < num_sms
      → token_idx < num_combined_tokens
      → e < hidden
      → (sum_to num_sms (λ sm_id.
            strided_sum num_combined_tokens num_sms sm_id num_combined_tokens
              (is_element token_idx))
          ≡ 1)
        × (e / 8 < num_threads)
        × (combined_int4 row topk weights num_topk (e / 8) (e % 8)
            ≡ element_wise.round (add_entries element_wise row topk weights num_topk) e)
  combined_int4-lem row topk weights num_topk hidden num_threads num_sms num_tokens token_idx e
        whole wide some_sm token_lt lt =
      let values = combined_values row topk weights (e / 8) num_topk in
      let place : e / 8 * 8 + e % 8 ≡ e = div-add-mod' e 8 in
      let sum : values (e % 8) ≡ add_entries element_wise row topk weights num_topk e =
        combined_values-lem row topk weights (e / 8) num_topk (e % 8)
        ∙ ap (add_entries element_wise row topk weights num_topk) place in
      (
        strides-sum_to num_sms num_tokens (is_element token_idx) num_tokens
              (le-mul_of_pos_right num_tokens some_sm)
            ∙ is_element-once token_idx num_tokens
            ∙ rw (lt→ltb token_idx num_tokens token_lt) refl,
        omega (arith, wide, lt, whole),
        narrow_all-lem 8 (words_of values) (e % 8) (mod-lt e (omega arith))
            ∙ rw ((words_of-lem values (e % 8)).0, (words_of-lem values (e % 8)).1)
                (ap (λ s. narrow (low s) (high s)) sum),
      )
