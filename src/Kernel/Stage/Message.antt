-- ===== src/Kernel/Stage/Message.antt =====
-- The message that the threads of a block leave in the send buffer.
use mathlib.Core.List.{Memᴰ, Permᴰ}
use mathlib.Core.List.Memᴰ
use mathlib.Core.List.Permᴰ
use native.Mathlib.Nat.{
  dvd-mul_left, mod-mod_of_dvd, div-le_self, mod-lt, mul-add-mod_self_right, div-add-mod',
}
use ep_demo.Prelude.{
  ℕ, ◌+◌, ◌-◌, ◌*◌, ◌/◌, ◌%◌, ◌<◌, ◌≡◌, inl, inr, refl, sym, ap, ◌∙◌, true, ◌||◌, ltb→lt, lt→ltb,
  if◌then◌else◌, ◌==◌, List, [], ◌∷◌, arith, Bool-cases, for_each-find, for_each-Mem, Perm-Mem,
}
use ep_demo.Kernel.{Config}
use ep_demo.Kernel.Stage.{
  Floats, IsMax, Place, src_idx, vec, scale, Value, token, int2, put_all, scale_writes,
  round_writes, read_amax, reduced_amax, block_amax, looped, staged, in_message, thread_writes,
  stage_writes, fp8_values,
}
use ep_demo.Kernel.Stage.Reduce.{
  max_to-Absorbs, max_to-same, max_to-table, half_warp_reduce_max_lem,
}
use ep_demo.Kernel.Stage.Stores.{Fits, put_all-lem, strided_writes-find, strided_writes-Mem}
use ep_demo.Kernel.Stage.Staged.{looped-staged}

module _ (f : Floats) (ok : IsMax f) (c : Config) (token_idx num_threads : ℕ) (x : ℕ → f.Bf16) where
  -- After the shuffles a lane has the largest magnitude of its 128 elements.
  reduced_amax_lem :
      (i : ℕ)
      → reduced_amax f c token_idx num_threads x (i % 32) i
        ≡ block_amax f c token_idx num_threads x (i / 16)
  reduced_amax_lem i =
      half_warp_reduce_max_lem f ok (λ l. read_amax f c token_idx num_threads x (i - i % 32 + l))
        (λ l. max_to-Absorbs f ok 8 _) (i % 32) (mod-lt i (omega arith))
      ∙ max_to-same f ok 16 _ _ (λ j lt. ap (read_amax f c token_idx num_threads x) (base i j))
      ∙ max_to-same f ok 16 _ _ (λ j lt.
        max_to-same f ok 8 _ _ (λ k lk. ap (λ e. f.abs (f.to_float (x e))) (element i j k)))
      ∙ max_to-table f ok 16 8 (λ e. f.abs (f.to_float (x (i / 16 * 128 + e))))
    where
      base : (i j : ℕ) → i - i % 32 + (i % 32 / 16 * 16 + j) ≡ i / 16 * 16 + j
      base i j = omega arith

      element : (i j k : ℕ) → (i / 16 * 16 + j) * 8 + k ≡ i / 16 * 128 + (j * 8 + k)
      element i j k = omega arith

  abbrev FitsHere : Place × Value f → Type 0
  FitsHere = Fits f (in_message f c token_idx num_threads x) (looped f c token_idx num_threads x)

  -- Each round's stores are of what the message is to hold.
  round-Fits :
      (w : Place × Value f) (i : ℕ)
      → c.hidden % 128 ≡ 0
      → i < c.hidden / 8
      → Memᴰ w (round_writes f c token_idx num_threads x (i % 32) i)
      → FitsHere w
  round-Fits w i whole lt m = elim (Bool-cases c.use_fp8) [
    | inr e ↦
        let same = Memᴰ.eq_of_singleton (rw e at m) in
        rw same (lt→ltb i (c.hidden / 8) lt, rw e refl)
    | inl e ↦
        elim (Memᴰ.append_cases (scale_writes f c token_idx num_threads x (i % 32) i) (rw e at m)) [
          | inr v ↦
              let same = Memᴰ.eq_of_singleton v in
              rw same (lt→ltb i (c.hidden / 8) lt, rw (e, reduced_amax_lem i) refl)
          | inl s ↦ elim (Bool-cases ((i % 32 == 0) || (i % 32 == 16))) [
            | inr no_scale ↦ absurd (Memᴰ.not-nil (rw no_scale at s))
            | inl is_scale ↦
                let same = Memᴰ.eq_of_singleton (rw is_scale at s) in
                rw same (
                  rw e (lt→ltb (i * 8 / 128) (c.hidden / 128) (omega (arith, whole, lt))),
                  rw (reduced_amax_lem i, block) refl,
                )
          ]
        ]
  ]
    where
      block : i * 8 / 128 ≡ i / 16
      block = omega arith

  -- The threads together store every place of the message.
  abbrev Stored : Place → Type 0
  Stored p =
      Memᴰ (p, looped f c token_idx num_threads x p) (stage_writes f c token_idx num_threads x)

  round-Stored :
      (w : Place × Value f) (warps i : ℕ)
      → num_threads ≡ warps * 32
      → 0 < warps
      → i < c.hidden / 8
      → Memᴰ w (round_writes f c token_idx num_threads x (i % 32) i)
      → Memᴰ w (stage_writes f c token_idx num_threads x)
  round-Stored w warps i threads some_warp lt m =
      let thread = i % num_threads in
      let position : thread + i / num_threads * num_threads ≡ i =
        swap (i / num_threads * num_threads) thread ∙ div-add-mod' i num_threads in
      for_each-Mem num_threads (thread_writes f c token_idx num_threads x) thread
        (mod-lt i (omega (arith, threads, some_warp)))
        (Memᴰ.append_right (if thread == 0 then (src_idx, token token_idx) ∷ [] else []) (
          strided_writes-Mem f c token_idx num_threads x (thread % 32) w (c.hidden / 8) thread
            (i / num_threads) (few position) (rw position lt) (rw (position, lane) m)))
    where
      swap : (a b : ℕ) → b + a ≡ a + b
      swap a b = omega arith

      lane : i % num_threads % 32 ≡ i % 32
      lane = mod-mod_of_dvd 32 i (rw threads (dvd-mul_left 32 warps))

      few : i % num_threads + i / num_threads * num_threads ≡ i → i / num_threads < c.hidden / 8
      few e = omega (arith, div-le_self i num_threads, lt)

  abbrev quantized : ℕ → f.Float → Place × Value f
  quantized i amax =
      (vec i, int2 (fp8_values f c token_idx num_threads x (f.div f.fp8_amax amax) i))

  all-Stored :
      (warps : ℕ)
      → num_threads ≡ warps * 32
      → 0 < warps
      → c.hidden % 128 ≡ 0
      → (p : Place) → in_message f c token_idx num_threads x p ≡ true
      → Stored p
  all-Stored warps threads some_warp whole src_idx inside =
      for_each-Mem num_threads (thread_writes f c token_idx num_threads x) 0
        (omega (arith, threads, some_warp)) (Memᴰ.head refl)
  all-Stored warps threads some_warp whole (vec i) inside =
      let lt : i < c.hidden / 8 = ltb→lt i (c.hidden / 8) inside in
      round-Stored (vec i, looped f c token_idx num_threads x (vec i)) warps i threads some_warp lt
        (elim (Bool-cases c.use_fp8) [
          | inr e ↦ rw e (Memᴰ.head refl)
          | inl e ↦ rw e (
              Memᴰ.append_right (scale_writes f c token_idx num_threads x (i % 32) i)
                (Memᴰ.head (ap (quantized i) (sym (reduced_amax_lem i)))))
        ])
  all-Stored warps threads some_warp whole (scale b) inside = elim (Bool-cases c.use_fp8) [
    | inr e ↦ absurd (cc (inside, e))
    | inl e ↦
        let few : b < c.hidden / 128 = ltb→lt b (c.hidden / 128) (rw e at inside) in
        let lt : b * 16 < c.hidden / 8 = omega (arith, few) in
        round-Stored (scale b, looped f c token_idx num_threads x (scale b)) warps (b * 16) threads
          some_warp lt
          (rw e (
            Memᴰ.append_left
              (quantized (b * 16) (reduced_amax f c token_idx num_threads x (b * 16 % 32) (b * 16))
                ∷ [])
              (first e)))
  ]
    where
      lane : (((b * 16) % 32 == 0) || ((b * 16) % 32 == 16)) ≡ true
      lane = ground arith

      place : b * 16 * 8 / 128 ≡ b
      place = omega arith

      block : b * 16 / 16 ≡ b
      block = omega arith

      first :
          c.use_fp8 ≡ true
          → Memᴰ
              (scale b, looped f c token_idx num_threads x (scale b))
              (scale_writes f c token_idx num_threads x (b * 16 % 32) (b * 16))
      first e = rw (lane, place, reduced_amax_lem (b * 16), block) (Memᴰ.head refl)

  all-Fits :
      (warps : ℕ)
      → num_threads ≡ warps * 32
      → c.hidden % 128 ≡ 0
      → (w : Place × Value f) → Memᴰ w (stage_writes f c token_idx num_threads x)
      → FitsHere w
  all-Fits warps threads whole w m =
      let thread = for_each-find num_threads (thread_writes f c token_idx num_threads x) m in
      elim (Memᴰ.append_cases (if thread.0 == 0 then (src_idx, token token_idx) ∷ [] else [])
        thread.2) [
          | inr row ↦
              let round =
                strided_writes-find f c token_idx num_threads x (thread.0 % 32) w (c.hidden / 8)
                  thread.0 row in
              round-Fits w (thread.0 + round.0 * num_threads) whole round.1
                (rw (lane thread.0 round.0) round.2)
          | inl index ↦ elim (Bool-cases (thread.0 == 0)) [
            | inr e ↦ absurd (Memᴰ.not-nil (rw e at index))
            | inl e ↦ let same = Memᴰ.eq_of_singleton (rw e at index) in rw same (refl, refl)
          ]
        ]
    where
      regroup : (t q : ℕ) → t + q * (warps * 32) ≡ q * warps * 32 + t
      regroup t q = grind arith

      lane : (t q : ℕ) → (t + q * num_threads) % 32 ≡ t % 32
      lane t q =
          ap (λ k. k % 32) (rw threads (regroup t q)) ∙ mul-add-mod_self_right (q * warps) 32 t

-- Where the row is a multiple of 128 elements and the block has a warp that copies: in whatever order the
-- stores of its threads land, the message is the token's index, then the row's elements in order, as they
-- are, or with FP8 in pairs, multiplied by the FP8 maximum over the largest magnitude of their block of 128
-- elements, and with the scales of the blocks. Nothing else is written.
pub stage_lem :
    (f : Floats) (c : Config) (token_idx warps : ℕ) (x : ℕ → f.Bf16) (ws : List (Place × Value f))
    (before : Place → Value f) (p : Place)
    → IsMax f
    → 0 < warps
    → c.hidden % 128 ≡ 0
    → Permᴰ (stage_writes f c token_idx (warps * 32) x) ws
    → put_all f before ws p ≡ (
        if in_message f c token_idx (warps * 32) x p
        then staged f c token_idx (warps * 32) x p
        else before p)
stage_lem f c token_idx warps x ws before p ok some_warp whole order =
    put_all-lem f (in_message f c token_idx (warps * 32) x) (looped f c token_idx (warps * 32) x)
      before ws p
      (λ w m.
        all-Fits f ok c token_idx (warps * 32) x warps refl whole w (Perm-Mem (Permᴰ.symm order) m))
      (λ inside.
        Perm-Mem order
          (all-Stored f ok c token_idx (warps * 32) x warps refl some_warp whole p inside))
    ∙ ap (λ v. if in_message f c token_idx (warps * 32) x p then v else before p)
        (looped-staged f c token_idx (warps * 32) x p)
