-- ===== src/Kernel/Flow/Combine.antt =====
-- src/ep_kernel.cu, `combine`: the owners of the experts send the rows back, and the rank of a token adds
-- them up with their weights. The arithmetic of the floating-point values is a parameter.
pub mod Delivers
use mathlib.Core.List.{Memᴰ, Permᴰ}
use mathlib.Core.List.Memᴰ
use mathlib.Core.List.Permᴰ
use mathlib.Core.Path.{subst}
use ep_demo.Prelude.{
  ℕ, zero, suc, ◌+◌, ◌*◌, ◌^◌, ◌<◌, ◌≤◌, ◌≡◌, ◌≢◌, ◌⊎◌, inl, inr, refl, sym, ap, ◌∙◌, Bool, true,
  false, not, ◌&&◌, ◌==◌, if◌then◌else◌, List, [], ◌∷◌, arith, Bool-cases, ==_iff, ==_refl, Option,
  none, some, for_each, for_each-find, for_each-Mem, Perm-Mem,
}
use ep_demo.Kernel.{
  Config, owner, local_index, num_bytes_per_slot, combine_dst_ptr, combine_src_ptr,
  global_expert_idx,
}
use ep_demo.Kernel.Memory.{Write, Memory, writes, writes-lem, Agrees}
use ep_demo.Kernel.Receive.{unpack2}
use ep_demo.Kernel.Slots.{IsConfig}
use ep_demo.Kernel.Rows.{
  global-owner-local, combine_dst_lem, row_offset-le, combine_meets, combine_apart, slot_bytes,
}
use ep_demo.Kernel.Flow.{Fleet, rdma_recv_data_buffer, target_ptr, Message, Topk}
use ep_demo.Kernel.Flow.Gather.{Packed}
use ep_demo.Kernel.Flow.Place.{IsFleet, data_buffer_low, target_ptr_lem}

-- How the rows go out: the argument `zero_copy`, `nvlink_available` of each rank, and the rows of each
-- expert that stand in its owner's `rdma_send_data_buffer` when the kernel starts.
pub record Sending (B : Type 0) : Type 0 where
  pub zero_copy : Bool
  pub nvlink_available : ℕ → ℕ → Bool
  pub rdma_send_row : ℕ → ℕ → B

-- The row goes over RDMA, which reads the send buffer, to another rank without NVLink.
abbrev pub over_rdma : {B : Type 0} → Sending B → ℕ → ℕ → Bool
over_rdma s rank dst_rank = not (dst_rank == rank) && not (s.nvlink_available rank dst_rank)

-- `output e row` is the row that the caller computes for expert `e` from a row of the packed output.
module _ {A B : Type 0} (c : Config) (f : Fleet) (s : Sending B) (output : ℕ → A → B)
    (packed : ℕ → Packed (Message A)) where
  -- The write of row `token_idx` of an expert's part to the rank that the row came from. With `zero_copy`
  -- the row is not copied to the send buffer: what RDMA sends is what the buffer already holds.
  abbrev pub row_write : ℕ → ℕ → ℕ → Write B
  row_write expert_idx dst_rank token_idx =
      let message : Message A = (packed expert_idx).rows token_idx in
      let rank = owner c expert_idx in
      let global = global_expert_idx c rank (local_index c expert_idx) in
      record {
        rank = dst_rank;
        address =
            target_ptr f rank dst_rank
              (combine_dst_ptr c (rdma_recv_data_buffer f rank) global message.src_idx);
        value =
            if s.zero_copy && over_rdma s rank dst_rank
            then s.rdma_send_row expert_idx token_idx
            else output expert_idx message.row;
      }

  -- The rows of one source of an expert: `layout_range` says which they are.
  abbrev pub source_writes : ℕ → ℕ → List (Write B)
  source_writes expert_idx dst_rank =
      let layout = unpack2 ((packed expert_idx).layout_range dst_rank) in
      for_each layout.0 (λ i. row_write expert_idx dst_rank (layout.1 + i) ∷ [])

  -- The work of all ranks: each expert's owner sends the rows of each source back.
  abbrev pub all_writes : List (Write B)
  all_writes = for_each c.num_experts (λ e. for_each c.num_ranks (source_writes e))

-- The operations on `float` and `nv_bfloat16` that the sum of a token uses.
pub record Float (S B W R : Type 0) : Type 0 where
  pub zero_value : S
  pub multiply_add : S → B → W → S
  pub round : S → R

module _ {S B W R : Type 0} (o : Float S B W R) where
  -- `combined_values += x_bf16 * reg_topk_weights[i]`, if the entry is not below 0.
  abbrev pub add_entry : S → (ℕ → B) → Option ℕ → W → S
  add_entry acc value none w = acc
  add_entry acc value (some e) w = o.multiply_add acc (value e) w

  abbrev pub add_entries : (ℕ → B) → (ℕ → Option ℕ) → (ℕ → W) → ℕ → S
  add_entries value topk weights zero = o.zero_value
  add_entries value topk weights (suc i) =
      add_entry (add_entries value topk weights i) value (topk i) (weights i)

  -- `combined_x` of a token of a rank, read from the rank's memory.
  abbrev pub combined : Config → Fleet → Topk → (ℕ → ℕ → ℕ → W) → Memory B → ℕ → ℕ → R
  combined c f k weights memory rank token_idx =
      let row : ℕ → B =
        λ e. memory rank (combine_src_ptr c (rdma_recv_data_buffer f rank) e token_idx) in
      o.round (add_entries row (k.topk_idx rank token_idx) (weights rank token_idx) k.num_topk)

  pub add_entries-same :
      (value value' : ℕ → B) (topk : ℕ → Option ℕ) (weights : ℕ → W) (n : ℕ)
      → ((i e : ℕ) → i < n → topk i ≡ some e → value e ≡ value' e)
      → add_entries value topk weights n ≡ add_entries value' topk weights n
  add_entries-same value value' topk weights zero h = refl
  add_entries-same value value' topk weights (suc n) h =
      ap (λ acc. add_entry acc value (topk n) (weights n))
        (add_entries-same value value' topk weights n (λ i e lt. h i e (omega (arith, lt))))
      ∙ entry (topk n) (h n)
    where
      entry :
          (q : Option ℕ)
          → ((e : ℕ) → n < suc n → q ≡ some e → value e ≡ value' e)
          → add_entry (add_entries value' topk weights n) value q (weights n)
            ≡ add_entry (add_entries value' topk weights n) value' q (weights n)
      entry none g = refl
      entry (some e) g =
          ap (λ v. o.multiply_add (add_entries value' topk weights n) v (weights n))
            (g e (omega arith) refl)

abbrev pub first_row : {M : Type 0} → (ℕ → Packed M) → ℕ → ℕ → ℕ
first_row packed e r = (unpack2 ((packed e).layout_range r)).1

-- What `zero_copy` asks of the caller: the row of each token to send stands in the send buffer already.
abbrev pub IsSent :
    {A B : Type 0} → Config → Sending B → (ℕ → A → B) → (ℕ → Packed (Message A)) → Type 0
IsSent c s output packed =
    (e r i : ℕ)
    → e < c.num_experts
    → r < c.num_ranks
    → i < (unpack2 ((packed e).layout_range r)).0
    → s.zero_copy ≡ true
    → s.rdma_send_row e (first_row packed e r + i)
      ≡ output e ((packed e).rows (first_row packed e r + i)).row

-- What is known of the packed rows: row `i` of source `r` for expert `e` is the row of a token
-- `token e r i` of the source, which is below the maximum.
pub record IsPacked {A : Type 0} (c : Config) (x : ℕ → ℕ → A) (packed : ℕ → Packed (Message A))
    (num : ℕ → ℕ → ℕ) (token : ℕ → ℕ → ℕ → ℕ) : Type 0 where
  pub count :
      (e r : ℕ)
      → e < c.num_experts
      → r < c.num_ranks
      → (unpack2 ((packed e).layout_range r)).0 ≡ num e r
  pub row :
      (e r i : ℕ)
      → e < c.num_experts
      → r < c.num_ranks
      → i < num e r
      → (packed e).rows (first_row packed e r + i)
        ≡ record { src_idx = token e r i; row = x r (token e r i) }
  pub small :
      (e r i : ℕ)
      → e < c.num_experts
      → r < c.num_ranks
      → i < num e r
      → token e r i < c.num_max_dispatch_tokens_per_rank
