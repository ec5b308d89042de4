-- ===== src/Tests/Flow.antt =====
-- Two ranks with two tokens and four experts: a dispatch and a combine, out of order.
use mathlib.Core.List.{Permᴰ, Memᴰ}
use mathlib.Core.List.Permᴰ
use ep_demo.Prelude.{
  ℕ, zero, suc, ◌+◌, ◌*◌, ◌%◌, ◌<◌, ◌≤◌, ◌≡◌, refl, true, false, Option, none, some, List, [], ◌∷◌,
  map, arith, if◌then◌else◌, ◌==◌,
}
use ep_demo.Kernel.{
  Config, num_bytes_per_msg, num_bytes_per_slot, owner, local_index, dispatch_src_ptr,
}
use ep_demo.Kernel.Slots.{IsConfig}
use ep_demo.Kernel.Memory.{Memory, Write, writes}
use ep_demo.Kernel.Flow.{
  Fleet, rdma_recv_data_buffer, Claim, Message, message_write, assign, Topk, all_claims,
}
use ep_demo.Kernel.Flow.Entries.{IsTopk, all_claims-IsClaims}
use ep_demo.Kernel.Flow.Place.{IsFleet, dispatch_delivers}
use ep_demo.Kernel.Flow.Count.{num_tokens_sent}
use ep_demo.Kernel.Flow.Gather.{Packed, Gathered, receive_sources, receive_sources-Gathered}
use ep_demo.Kernel.Flow.Combine.{Float, Sending, add_entries, combined, all_writes}
use ep_demo.Kernel.Flow.Trip.{upto, packed_output}
use ep_demo.Kernel.Flow.Trip.Whole.{dispatch-combine, packed_output_fits}
use ep_demo.Kernel.Receive.{unpack2}

abbrev two_ranks : Config
two_ranks = record {
  num_experts = 4;
  num_ranks = 2;
  num_max_dispatch_tokens_per_rank = 2;
  hidden = 2048;
  use_fp8 = false;
}

two_ranks-IsConfig : IsConfig two_ranks
two_ranks-IsConfig = record {
  some_rank = omega arith;
  divides = refl;
  few_slots = omega arith;
  few_experts = omega arith;
  small_hidden = omega arith;
}

abbrev buffers : Fleet
buffers = record { mxa_buffer = λ r. if r == 0 then 65536 else 1048576; data_offset = 4096 }

buffers-IsFleet : IsFleet buffers
buffers-IsFleet = record { buffers = λ r. ground arith; offset = omega arith }

-- Token `t` of rank `r` goes to experts `r + t` and `r + t + 1`, modulo 4.
abbrev entry : ℕ → ℕ → ℕ → Option ℕ
entry r t zero = some ((r + t) % 4)
entry r t (suc zero) = some ((r + t + 1) % 4)
entry r t (suc (suc i)) = none

abbrev gate : Topk
gate = record { topk_idx = entry; num_tokens = λ r. 2; num_topk = 2 }

gate-IsTopk : IsTopk two_ranks gate
gate-IsTopk = record { experts = in_range; distinct = apart; tokens = λ r. omega arith }
  where
    given : (a e : ℕ) → some a ≡ some e → a ≡ e
    given a e h = cc h

    in_range : (r t i e : ℕ) → entry r t i ≡ some e → e < 4
    in_range r t zero e h = omega (arith, given ((r + t) % 4) e h)
    in_range r t (suc zero) e h = omega (arith, given ((r + t + 1) % 4) e h)
    in_range r t (suc (suc i)) e h = cc h

    apart : (r t i j e : ℕ) → entry r t i ≡ some e → entry r t j ≡ some e → i ≡ j
    apart r t zero zero e g h = refl
    apart r t (suc zero) (suc zero) e g h = refl
    apart r t zero (suc zero) e g h =
        absurd (omega (arith, given ((r + t) % 4) e g, given ((r + t + 1) % 4) e h))
    apart r t (suc zero) zero e g h =
        absurd (omega (arith, given ((r + t) % 4) e h, given ((r + t + 1) % 4) e g))
    apart r t (suc (suc i)) j e g h = cc g
    apart r t i (suc (suc j)) e g h = cc h

abbrev rows : ℕ → ℕ → ℕ
rows r t = 10 * r + t + 1

abbrev nothing : Message ℕ
nothing = record { src_idx = 0; row = 0 }

abbrev claims : List Claim
claims = all_claims gate 2

abbrev messages : List (Write (Message ℕ))
messages = map (message_write two_ranks buffers rows) (assign (λ _ _. 0) claims)

abbrev empty_part : ℕ → Packed (Message ℕ)
empty_part e = record { rows = λ i. nothing; layout_range = λ r. 0; recv_count = 0 }

abbrev arrived : ℕ → List ℕ
arrived e = 1 ∷ 0 ∷ []

arrived-once : (e : ℕ) → Permᴰ (upto 2) (arrived e)
arrived-once e = Permᴰ.swap refl refl

abbrev expert_output : ℕ → ℕ → ℕ
expert_output e row = row * (e + 1)

abbrev numbers : Float ℕ ℕ ℕ ℕ
numbers = record { zero_value = 0; multiply_add = λ a b w. a + b * w; round = λ a. a }

abbrev memory_after : Memory (Message ℕ)
memory_after = writes (num_bytes_per_msg two_ranks) nothing (λ r q. nothing) messages

-- The rows stand in the send buffers, and no rank has NVLink.
abbrev sending : Sending ℕ
sending = record {
  zero_copy = true;
  nvlink_available = λ rank dst_rank. false;
  rdma_send_row = λ e i.
      expert_output e
        ((packed_output two_ranks buffers gate memory_after empty_part arrived e).rows i).row;
}

abbrev sent_back : List (Write ℕ)
sent_back =
    all_writes two_ranks buffers sending expert_output
      (packed_output two_ranks buffers gate memory_after empty_part arrived)

dispatch-combine_example :
    combined numbers two_ranks buffers gate
      (λ r t i. i + 1)
      (writes (num_bytes_per_slot two_ranks) 0 (λ r q. 0) sent_back)
      1
      1
    ≡ add_entries numbers (λ e. expert_output e (rows 1 1)) (entry 1 1) (λ i. i + 1) 2
dispatch-combine_example =
    dispatch-combine two_ranks buffers gate numbers rows sending expert_output (λ r t i. i + 1)
      nothing (λ r q. nothing) empty_part 0 (λ r q. 0) claims messages arrived sent_back 1 1
      two_ranks-IsConfig (omega arith) buffers-IsFleet gate-IsTopk (Permᴰ.refl claims)
      (Permᴰ.refl messages) arrived-once (λ e. refl) (Permᴰ.refl sent_back)
      (λ e r i le lr li z. refl) (omega arith) (omega arith)

-- Rank 1's two claims for expert 2 are its tokens 0 and 1.
dispatch_delivers_example :
    memory_after 1 (
      dispatch_src_ptr two_ranks
        (rdma_recv_data_buffer buffers (owner two_ranks 2))
        (local_index two_ranks 2)
        1
        1)
    ≡ record { src_idx = 1; row = rows 1 1 }
dispatch_delivers_example =
    dispatch_delivers two_ranks buffers rows nothing claims (λ r q. nothing) messages 1 2 1 1
      two_ranks-IsConfig buffers-IsFleet
      (all_claims-IsClaims two_ranks gate claims gate-IsTopk (Permᴰ.refl claims))
      (Permᴰ.refl messages) refl

receive_sources-Gathered_example :
    Gathered
      (λ src i. 10 * src + i)
      (λ src. src + 1)
      0
      (receive_sources
        (λ src i. 10 * src + i)
        (λ src. src + 1)
        (record { rows = λ i. 0; layout_range = λ r. 0; recv_count = 0 })
        (1 ∷ 0 ∷ []))
receive_sources-Gathered_example =
    receive_sources-Gathered (λ src i. 10 * src + i) (λ src. src + 1) 0
      (record { rows = λ i. 0; layout_range = λ r. 0; recv_count = 0 }) (1 ∷ 0 ∷ []) (omega arith)
      (Memᴰ.tail (Memᴰ.head refl))

packed_output_fits_example :
    let layout =
      unpack2
        ((packed_output two_ranks buffers gate memory_after empty_part arrived 2).layout_range 1) in
    (layout.0 ≡ num_tokens_sent gate 1 2) × (layout.1 + layout.0 ≤ 2 * 2)
packed_output_fits_example =
    packed_output_fits two_ranks buffers gate memory_after empty_part claims arrived 2 1
      two_ranks-IsConfig gate-IsTopk (Permᴰ.refl claims) (arrived-once 2) refl (omega arith)
      (omega arith)
