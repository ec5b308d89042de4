-- ===== src/Kernel/Flow/Trip/Whole.antt =====
-- The whole way of a token's row, from `dispatch` to `combine`.
use mathlib.Core.List.{Memᴰ, Permᴰ}
use ep_demo.Prelude.{
  ◌^◌, ◌≤◌, ◌*◌, ℕ, ◌+◌, ◌<◌, ◌≡◌, refl, sym, ap, ◌∙◌, List, [], ◌∷◌, map, arith, some, length,
  for_each-Mem, Perm-Mem,
}
use ep_demo.Kernel.{
  Config, owner, local_index, num_bytes_per_msg, num_bytes_per_slot, dispatch_src_ptr,
  combine_src_ptr,
}
use ep_demo.Kernel.Slots.{IsConfig}
use ep_demo.Kernel.Memory.{Write, Memory, writes}
use ep_demo.Kernel.Flow.{
  Fleet, rdma_recv_data_buffer, Claim, assign, tokens_of, Message, message_write, Topk, all_claims,
}
use ep_demo.Kernel.Flow.Place.{IsFleet, dispatch_delivers}
use ep_demo.Kernel.Flow.Entries.{IsTopk, all_claims-IsClaims, entry-Mem}
use ep_demo.Kernel.Flow.Count.{num_tokens_sent}
use ep_demo.Kernel.Flow.Gather.{
  Packed, receive_sources-Gathered, receive_sources_count, Gathered, sum_of,
}
use ep_demo.Kernel.Receive.{unpack2}
use ep_demo.Kernel.Flow.Combine.{
  Float, add_entries, add_entries-same, combined, Sending, IsSent, all_writes, IsPacked,
}
use ep_demo.Kernel.Flow.Combine.Delivers.{combine_delivers}
use ep_demo.Kernel.Flow.Trip.{
  upto, packed_output, get_elem?-get_or, tokens_of-find, sent_tokens, sum_fits, sum_small, token_of,
  token_small,
}

module _ {A : Type 0} (c : Config) (ok : IsConfig c) (f : Fleet) (placed : IsFleet f) (k : Topk)
    (good : IsTopk c k) (x : ℕ → ℕ → A) (torn : Message A) (before : Memory (Message A))
    (packed_before : ℕ → Packed (Message A)) (ks : List Claim) (ws : List (Write (Message A)))
    (srcs : ℕ → List ℕ) (order : Permᴰ (all_claims k c.num_ranks) ks)
    (landed : Permᴰ (map (message_write c f x) (assign (λ _ _. 0) ks)) ws)
    (received : (e : ℕ) → Permᴰ (upto c.num_ranks) (srcs e))
    (empty : (e : ℕ) → (packed_before e).recv_count ≡ 0) where
  abbrev memory : Memory (Message A)
  memory = writes (num_bytes_per_msg c) torn before ws

  abbrev packed : ℕ → Packed (Message A)
  packed = packed_output c f k memory packed_before srcs

  packed-Gathered :
      (e r : ℕ)
      → e < c.num_experts
      → r < c.num_ranks
      → Gathered
          (λ src i.
            memory
              (owner c e)
              (dispatch_src_ptr c (rdma_recv_data_buffer f (owner c e)) (local_index c e) src i))
          (λ src. num_tokens_sent k src e)
          r
          (packed e)
  packed-Gathered e r le lr =
      receive_sources-Gathered _ (λ src. num_tokens_sent k src e) r (packed_before e) (srcs e)
        (omega (arith, empty e, sum_fits c ok k good ks order e (srcs e) le (received e)))
        (Perm-Mem (received e) (for_each-Mem c.num_ranks (λ i. i ∷ []) r lr (Memᴰ.head refl)))

  packed_row :
      (e r i : ℕ)
      → e < c.num_experts
      → r < c.num_ranks
      → i < length (tokens_of r e ks)
      → memory
          (owner c e)
          (dispatch_src_ptr c (rdma_recv_data_buffer f (owner c e)) (local_index c e) r i)
        ≡ record {
          src_idx = token_of c ok k good ks order e r i;
          row = x r (token_of c ok k good ks order e r i);
        }
  unfolding token_of
  packed_row e r i le lr lt =
      dispatch_delivers c f x torn ks before ws r e i _ ok placed
        (all_claims-IsClaims c k ks good order) landed (get_elem?-get_or (tokens_of r e ks) i lt)

  packed-IsPacked :
      IsPacked c x packed (λ e r. num_tokens_sent k r e) (token_of c ok k good ks order)
  packed-IsPacked = record {
    count = λ e r le lr. ap (λ q. q.0) (packed-Gathered e r le lr).word;
    row = λ e r i le lr lt.
        ap (λ q. (packed e).rows (q.1 + i)) (packed-Gathered e r le lr).word
        ∙ (packed-Gathered e r le lr).row i lt
        ∙ packed_row e r i le lr (rw (sent_tokens c ok k good ks order r e lr le) at lt);
    small = λ e r i le lr lt.
        token_small c ok k good ks order e r i
          (rw (sent_tokens c ok k good ks order r e lr le) at lt);
  }

  -- A token's row for one of its experts comes back to where its rank reads it.
  row_returns :
      {B : Type 0} (s : Sending B) (output : ℕ → A → B) (torn_row : B) (before_rows : Memory B)
      (vs : List (Write B)) (r t i e : ℕ)
      → 0 < c.hidden
      → Permᴰ (all_writes c f s output packed) vs
      → IsSent c s output packed
      → r < c.num_ranks
      → t < k.num_tokens r
      → i < k.num_topk
      → k.topk_idx r t i ≡ some e
      → writes
          (num_bytes_per_slot c)
          torn_row
          before_rows
          vs
          r
          (combine_src_ptr c (rdma_recv_data_buffer f r) e t)
        ≡ output e (x r t)
  unfolding token_of
  row_returns s output torn_row before_rows vs r t i e hid sent ready lr lt li h =
      let le = good.experts r t i e h in
      let found =
        tokens_of-find r e t ks (Perm-Mem order (entry-Mem k c.num_ranks r t i e lr lt li h)) in
      let back =
        combine_delivers c ok hid f placed s output x packed (λ e r. num_tokens_sent k r e)
          (token_of c ok k good ks order) packed-IsPacked ready torn_row before_rows vs e r found.0
          sent le lr (rw (sym (sent_tokens c ok k good ks order r e lr le)) at found.1) in
      rw found.2 at back

-- If the claims are those of the ranks' `topk_idx` and each source is received once, the rows that an
-- expert's owner packs for a source follow its first row without passing the end of the expert's part of
-- `packed_recv_x`, which is as many rows as all ranks may send.
pub packed_output_fits :
    {A : Type 0} (c : Config) (f : Fleet) (k : Topk) (memory : Memory (Message A))
    (packed_before : ℕ → Packed (Message A)) (ks : List Claim) (srcs : ℕ → List ℕ) (e r : ℕ)
    → IsConfig c
    → IsTopk c k
    → Permᴰ (all_claims k c.num_ranks) ks
    → Permᴰ (upto c.num_ranks) (srcs e)
    → (packed_before e).recv_count ≡ 0
    → e < c.num_experts
    → r < c.num_ranks
    → let layout = unpack2 ((packed_output c f k memory packed_before srcs e).layout_range r) in
      (layout.0 ≡ num_tokens_sent k r e)
      × (layout.1 + layout.0 ≤ c.num_ranks * c.num_max_dispatch_tokens_per_rank)
packed_output_fits {A} c f k m packed_before ks srcs e r ok good order once empty le lr =
    let message : ℕ → ℕ → Message A = λ src i.
      m (owner c e)
        (dispatch_src_ptr c (rdma_recv_data_buffer f (owner c e)) (local_index c e) src i) in
    let small : (packed_before e).recv_count + sum_of (λ s. num_tokens_sent k s e) (srcs e)
        < 2 ^ 32 =
      omega (arith, empty, sum_fits c ok k good ks order e (srcs e) le once) in
    let there = Perm-Mem once (for_each-Mem c.num_ranks (λ i. i ∷ []) r lr (Memᴰ.head refl)) in
    let done =
      receive_sources-Gathered message (λ s. num_tokens_sent k s e) r (packed_before e) (srcs e)
        small there in
    let end =
      receive_sources_count message (λ s. num_tokens_sent k s e) (packed_before e) (srcs e) small in
    (
      ap (λ q. q.0) done.word,
      omega (
        arith,
        done.below,
        end,
        empty,
        ap (λ q. q.0) done.word,
        ap (λ q. q.1) done.word,
        sum_small c ok k good ks order e (srcs e) once,
      ),
    )

-- Whatever the order of the claims, the writes and the receptions on all ranks: if the claims are those
-- of the ranks' `topk_idx`, each source is received once, each row is written back, and with `zero_copy` the
-- send buffers hold the rows to send, the combined row of each token is the rounded sum, in the order of its entries, of what its experts make of its own row, with
-- the weights of the entries. Memory and rows may hold anything before.
pub dispatch-combine :
    {A B S W R : Type 0} (c : Config) (f : Fleet) (k : Topk) (o : Float S B W R) (x : ℕ → ℕ → A)
    (s : Sending B) (output : ℕ → A → B) (weights : ℕ → ℕ → ℕ → W) (torn : Message A)
    (before : Memory (Message A)) (packed_before : ℕ → Packed (Message A)) (torn_row : B)
    (before_rows : Memory B) (ks : List Claim) (ws : List (Write (Message A))) (srcs : ℕ → List ℕ)
    (vs : List (Write B)) (r t : ℕ)
    → IsConfig c
    → 0 < c.hidden
    → IsFleet f
    → IsTopk c k
    → Permᴰ (all_claims k c.num_ranks) ks
    → Permᴰ (map (message_write c f x) (assign (λ _ _. 0) ks)) ws
    → ((e : ℕ) → Permᴰ (upto c.num_ranks) (srcs e))
    → ((e : ℕ) → (packed_before e).recv_count ≡ 0)
    → Permᴰ
        (all_writes c f s output
          (packed_output c f k (writes (num_bytes_per_msg c) torn before ws) packed_before srcs))
        vs
    → IsSent c s output
        (packed_output c f k (writes (num_bytes_per_msg c) torn before ws) packed_before srcs)
    → r < c.num_ranks
    → t < k.num_tokens r
    → combined o c f k weights (writes (num_bytes_per_slot c) torn_row before_rows vs) r t
      ≡ o.round (add_entries o (λ e. output e (x r t)) (k.topk_idx r t) (weights r t) k.num_topk)
dispatch-combine c f k o x s output weights torn before packed_before torn_row before_rows ks ws
      srcs vs r t ok hid placed good order landed received empty sent ready lr lt =
    ap o.round (
      add_entries-same o _ (λ e. output e (x r t)) (k.topk_idx r t) (weights r t) k.num_topk
        (λ i e li h.
          row_returns c ok f placed k good x torn before packed_before ks ws srcs order landed
            received empty s output torn_row before_rows vs r t i e hid sent ready lr lt li h))
