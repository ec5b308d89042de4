-- ===== src/Kernel/Flow/Gather.antt =====
-- src/ep_kernel.cu, the receive phase of `dispatch`: the owner of an expert packs the messages of all
-- sources, which come in any order, into consecutive rows.
use mathlib.Core.List.{Memᴰ}
use mathlib.Core.List.Memᴰ
use ep_demo.Prelude.{
  ℕ, zero, suc, ◌+◌, ◌^◌, ◌<◌, ◌≤◌, ◌≡◌, inl, inr, refl, sym, ap, ◌∙◌, ◌==◌, if◌then◌else◌, List,
  [], ◌∷◌, arith, Bool-cases, ==_iff, ==_refl, add32,
}
use ep_demo.Kernel.Receive.{pack2, unpack2}
use ep_demo.Kernel.Receive.Ranges.{unpack2-pack2}

-- One local expert's part of the packed output: its rows with their `packed_recv_src_info`, its words of
-- `packed_recv_layout_range`, and its `packed_recv_count`.
pub record Packed (M : Type 0) : Type 0 where
  pub rows : ℕ → M
  pub layout_range : ℕ → ℕ
  pub recv_count : ℕ

module _ {M : Type 0} where
  -- Rows `b` to `b + n - 1` get messages `0` to `n - 1`.
  abbrev pub copy_rows : (ℕ → M) → ℕ → ℕ → (ℕ → M) → ℕ → M
  copy_rows message b zero rows = rows
  copy_rows message b (suc n) rows =
      let rest = copy_rows message b n rows in λ j. if j == b + n then message n else rest j

  module _ (message : ℕ → ℕ → M) (num_recv_tokens : ℕ → ℕ) where
    -- The warps of one source: `message src i` is what stands where its message `i` is read.
    abbrev pub receive_source : Packed M → ℕ → Packed M
    receive_source p src = record {
      rows = copy_rows (message src) p.recv_count (num_recv_tokens src) p.rows;
      layout_range =
          λ r. if r == src then pack2 (num_recv_tokens src) p.recv_count else p.layout_range r;
      recv_count = add32 p.recv_count (num_recv_tokens src);
    }

    -- The sources in the order in which they reserve their rows.
    abbrev pub receive_sources : Packed M → List ℕ → Packed M
    receive_sources p [] = p
    receive_sources p (src ∷ rest) = receive_sources (receive_source p src) rest

  copy_rows_lem :
      (message : ℕ → M) (b n : ℕ) (rows : ℕ → M) (j : ℕ)
      → (j < b → copy_rows message b n rows j ≡ rows j)
        × ((i : ℕ) → i < n → j ≡ b + i → copy_rows message b n rows j ≡ message i)
  copy_rows_lem message b zero rows j = (λ h. refl, λ i h. absurd (omega (arith, h)))
  copy_rows_lem message b (suc n) rows j =
      let rest = copy_rows_lem message b n rows j in
      elim (Bool-cases (j == b + n)) [
        | inl e ↦
            let at_end : j ≡ b + n = (==_iff j (b + n)).0 e in
            (
              λ h. absurd (omega (arith, h, at_end)),
              λ i h q. rw e (ap message (omega (arith, at_end, q))),
            )
        | inr e ↦ (λ h. rw e (rest.0 h), λ i h q. rw e (rest.1 i (ground (arith, h, q, e)) q))
      ]

abbrev pub sum_of : (ℕ → ℕ) → List ℕ → ℕ
sum_of n [] = 0
sum_of n (src ∷ rest) = n src + sum_of n rest

module _ {M : Type 0} (message : ℕ → ℕ → M) (num : ℕ → ℕ) (r : ℕ) where
  -- A source's word gives its number and its first row, and its rows are its messages in order.
  pub record Gathered (p : Packed M) : Type 0 where
    pub begin : ℕ
    pub word : unpack2 (p.layout_range r) ≡ (num r, begin)
    pub row : (i : ℕ) → i < num r → p.rows (begin + i) ≡ message r i
    pub below : begin + num r ≤ p.recv_count

  Gathered-receive_source :
      (p : Packed M) → p.recv_count + num r < 2 ^ 32 → Gathered (receive_source message num p r)
  Gathered-receive_source p small = record {
    begin = p.recv_count;
    word = rw (==_refl r) (unpack2-pack2 (num r) p.recv_count (omega (arith, small)));
    row = λ i lt.
        (copy_rows_lem (message r) p.recv_count (num r) p.rows (p.recv_count + i)).1 i lt refl;
    below = omega (arith, small);
  }

  Gathered-receive_source_later :
      (p : Packed M) (src : ℕ)
      → p.recv_count + num src < 2 ^ 32
      → Gathered p
      → Gathered (receive_source message num p src)
  Gathered-receive_source_later p src small g = elim (Bool-cases (r == src)) [
    | inl e ↦
        let same : r ≡ src = (==_iff r src).0 e in
        rw (sym same) (Gathered-receive_source p (rw same small))
    | inr e ↦ record {
      begin = g.begin;
      word = rw e g.word;
      row = λ i lt.
          (copy_rows_lem (message src) p.recv_count (num src) p.rows (g.begin + i)).0
            (omega (arith, lt, g.below))
          ∙ g.row i lt;
      below = omega (arith, small, g.below);
    }
  ]

  Gathered-receive_sources :
      (p : Packed M) (srcs : List ℕ)
      → p.recv_count + sum_of num srcs < 2 ^ 32
      → Gathered p
      → Gathered (receive_sources message num p srcs)
  Gathered-receive_sources p [] small g = g
  Gathered-receive_sources p (src ∷ rest) small g =
      Gathered-receive_sources (receive_source message num p src) rest (omega (arith, small))
        (Gathered-receive_source_later p src (omega (arith, small)) g)

  -- Whatever the order of the sources: the word of a source that has come gives the number of its
  -- messages and a first row, from which the rows are its messages in order.
  pub receive_sources-Gathered :
      (p : Packed M) (srcs : List ℕ)
      → p.recv_count + sum_of num srcs < 2 ^ 32
      → Memᴰ r srcs
      → Gathered (receive_sources message num p srcs)
  receive_sources-Gathered p [] small m = absurd (Memᴰ.not-nil m)
  receive_sources-Gathered p (src ∷ rest) small m = elim (Memᴰ.cases_cons m) [
    | inl e ↦
        Gathered-receive_sources (receive_source message num p src) rest (omega (arith, small))
          (rw (sym e) (Gathered-receive_source p (rw e (omega (arith, small)))))
    | inr t ↦
        receive_sources-Gathered (receive_source message num p src) rest (omega (arith, small)) t
  ]

-- The counter ends at the sum of the numbers.
pub receive_sources_count :
    {M : Type 0} (message : ℕ → ℕ → M) (num : ℕ → ℕ) (p : Packed M) (srcs : List ℕ)
    → p.recv_count + sum_of num srcs < 2 ^ 32
    → (receive_sources message num p srcs).recv_count ≡ p.recv_count + sum_of num srcs
receive_sources_count message num p [] small = omega arith
receive_sources_count message num p (src ∷ rest) small = omega (
  arith,
  small,
  receive_sources_count message num (receive_source message num p src) rest (omega (arith, small)),
)
