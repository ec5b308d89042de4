-- ===== src/Kernel/Stage/Stores.antt =====
-- Stores in any order, and the indices that the threads of a block visit.
use mathlib.Core.List.{Memᴰ}
use mathlib.Core.List.Memᴰ
use native.Mathlib.Nat.{zero-mul}
use ep_demo.Prelude.{
  ℕ, zero, suc, ◌+◌, ◌*◌, ◌/◌, ◌<◌, ◌≡◌, inl, inr, refl, sym, ap, ◌∙◌, Bool, true, false, ltb,
  ltb→lt, lt→ltb, if◌then◌else◌, ==_iff, ==_refl, List, [], ◌∷◌, arith, Bool-cases,
}
use ep_demo.Kernel.{Config}
use ep_demo.Kernel.Stage.{
  Floats, Place, src_idx, vec, scale, same_place, Value, put_all, strided_writes, round_writes,
}

same_place_refl : (p : Place) → same_place p p ≡ true
same_place_refl src_idx = refl
same_place_refl (vec i) = ==_refl i
same_place_refl (scale i) = ==_refl i

same_place-eq : (p q : Place) → same_place p q ≡ true → p ≡ q
same_place-eq src_idx src_idx h = refl
same_place-eq src_idx (vec j) h = cc h
same_place-eq src_idx (scale j) h = cc h
same_place-eq (vec i) src_idx h = cc h
same_place-eq (vec i) (vec j) h = ap vec ((==_iff i j).0 h)
same_place-eq (vec i) (scale j) h = cc h
same_place-eq (scale i) src_idx h = cc h
same_place-eq (scale i) (vec j) h = cc h
same_place-eq (scale i) (scale j) h = ap scale ((==_iff i j).0 h)

module _ (f : Floats) where
  -- A store into the message, of what it is to hold there.
  abbrev pub Fits : (Place → Bool) → (Place → Value f) → Place × Value f → Type 0
  Fits inside want w = (inside w.0 ≡ true) × (w.1 ≡ want w.0)

  module _ (inside : Place → Bool) (want : Place → Value f) where
    put_all-outside :
        (m : Place → Value f) (ws : List (Place × Value f)) (p : Place)
        → ((w : Place × Value f) → Memᴰ w ws → Fits inside want w)
        → inside p ≡ false
        → put_all f m ws p ≡ m p
    put_all-outside m [] p ok out = refl
    put_all-outside m (w ∷ ws) p ok out =
        put_all-outside (λ q. if same_place w.0 q then w.1 else m q) ws p
          (λ u u_in. ok u (Memᴰ.tail u_in)) out
        ∙ elim (Bool-cases (same_place w.0 p)) [
          | inr e ↦ rw e refl
          | inl e ↦
              let there = (ok w (Memᴰ.head refl)).0 in
              absurd (cc (there, out, ap inside (same_place-eq w.0 p e)))
        ]

    put_all-kept :
        (m : Place → Value f) (ws : List (Place × Value f)) (p : Place)
        → ((w : Place × Value f) → Memᴰ w ws → Fits inside want w)
        → m p ≡ want p
        → put_all f m ws p ≡ want p
    put_all-kept m [] p ok h = h
    put_all-kept m (w ∷ ws) p ok h =
        put_all-kept (λ q. if same_place w.0 q then w.1 else m q) ws p
          (λ u u_in. ok u (Memᴰ.tail u_in))
          (elim (Bool-cases (same_place w.0 p)) [
            | inr e ↦ rw e h
            | inl e ↦ rw e ((ok w (Memᴰ.head refl)).1 ∙ ap want (same_place-eq w.0 p e))
          ])

    put_all-inside :
        (m : Place → Value f) (ws : List (Place × Value f)) (p : Place)
        → ((w : Place × Value f) → Memᴰ w ws → Fits inside want w)
        → Memᴰ (p, want p) ws
        → put_all f m ws p ≡ want p
    put_all-inside m [] p ok there = absurd (Memᴰ.not-nil there)
    put_all-inside m (w ∷ ws) p ok there = elim (Memᴰ.cases_cons there) [
      | inl e ↦
          put_all-kept (λ q. if same_place w.0 q then w.1 else m q) ws p
            (λ u u_in. ok u (Memᴰ.tail u_in)) (rw (sym e) (rw (same_place_refl p) refl))
      | inr later ↦
          put_all-inside (λ q. if same_place w.0 q then w.1 else m q) ws p
            (λ u u_in. ok u (Memᴰ.tail u_in)) later
    ]

    -- If each store fits, and each place of the message has one, the order does not matter.
    pub put_all-lem :
        (m : Place → Value f) (ws : List (Place × Value f)) (p : Place)
        → ((w : Place × Value f) → Memᴰ w ws → Fits inside want w)
        → (inside p ≡ true → Memᴰ (p, want p) ws)
        → put_all f m ws p ≡ (if inside p then want p else m p)
    put_all-lem m ws p ok there = elim (Bool-cases (inside p)) [
      | inl e ↦ rw e (put_all-inside m ws p ok (there e))
      | inr e ↦ rw e (put_all-outside m ws p ok e)
    ]

module _ (f : Floats) (c : Config) (token_idx stride : ℕ) (x : ℕ → f.Bf16) (lane : ℕ) where
  -- A thread's stores are those of its rounds.
  pub strided_writes-find :
      (w : Place × Value f) (fuel i : ℕ)
      → Memᴰ w (strided_writes f c token_idx stride x fuel lane i)
      → (q : ℕ) × (i + q * stride < c.hidden / 8)
        × Memᴰ w (round_writes f c token_idx stride x lane (i + q * stride))
  strided_writes-find w zero i m = absurd (Memᴰ.not-nil m)
  strided_writes-find w (suc fuel) i m = elim (Bool-cases (ltb i (c.hidden / 8))) [
    | inr e ↦ absurd (Memᴰ.not-nil (rw e at m))
    | inl e ↦ elim (Memᴰ.append_cases (round_writes f c token_idx stride x lane i) (rw e at m)) [
      | inl now ↦ (0, rw (sym (start i)) (ltb→lt i (c.hidden / 8) e), rw (sym (start i)) now)
      | inr later ↦
          let found = strided_writes-find w fuel (i + stride) later in
          (suc found.0, rw (sym (next i found.0)) found.1, rw (sym (next i found.0)) found.2)
    ]
  ]
    where
      start : (i : ℕ) → i ≡ i + 0 * stride
      start i = omega (arith, zero-mul stride)

      next : (i q : ℕ) → i + stride + q * stride ≡ i + suc q * stride
      next i q = grind arith

  -- And each round that is reached stores.
  pub strided_writes-Mem :
      (w : Place × Value f) (fuel i q : ℕ)
      → q < fuel
      → i + q * stride < c.hidden / 8
      → Memᴰ w (round_writes f c token_idx stride x lane (i + q * stride))
      → Memᴰ w (strided_writes f c token_idx stride x fuel lane i)
  strided_writes-Mem w zero i q lt inside m = absurd (omega (arith, lt))
  strided_writes-Mem w (suc fuel) i zero lt inside m =
      let now : Memᴰ w (round_writes f c token_idx stride x lane i) = rw start m in
      rw (lt→ltb i (c.hidden / 8) (rw start inside))
        (Memᴰ.append_left (strided_writes f c token_idx stride x fuel lane (i + stride)) now)
    where
      start : i ≡ i + 0 * stride
      start = omega (arith, zero-mul stride)
  strided_writes-Mem w (suc fuel) i (suc q) lt inside m =
      rw (lt→ltb i (c.hidden / 8) (omega (arith, inside))) (
        Memᴰ.append_right (round_writes f c token_idx stride x lane i) (
          strided_writes-Mem w fuel (i + stride) q (omega (arith, lt)) (rw next inside)
            (rw next m)))
    where
      next : i + stride + q * stride ≡ i + suc q * stride
      next = grind arith
