-- ===== src/Kernel/Waits.antt =====
-- src/ep_kernel.cu: the loops in which the receive phases of `dispatch` and `combine` wait for the
-- signals of all experts. The waiting threads share `active_ranks`; each access is one step, in any order,
-- between the signals of the peers.
pub mod Numbers
pub mod Ends
pub mod Reuse
use ep_demo.Prelude.{
  ℕ, ◌+◌, ◌*◌, ◌/◌, ◌%◌, ◌-◌, ◌^◌, ◌<◌, ◌==◌, ◌≡◌, ◌≢◌, Bool, true, if◌then◌else◌,
}
use ep_demo.Kernel.{Config, num_local_experts}
use ep_demo.Kernel.Receive.{signal_value}

-- Where the thread that waits for an expert stands: it reads the signal; it has read 0 and looks at the
-- time; it looks at `active_ranks`; it has left the loop with a number of tokens.
pub data Wait : Type 0 where
  polling late_or_not decided : Wait
  finished : ℕ → Wait

pub record Waits : Type 0 where
  pub signals : ℕ → ℕ
  pub active_ranks : ℕ → ℕ
  pub wait : ℕ → Wait

-- The kernel: for an expert's thread the word that it reads and the rank that it waits for; for the peers,
-- which word rank `rank` writes for the receiver's local expert `local_idx`, or in `combine` for its own, and
-- what; and whether `timeout_ticks` is not -1.
pub record Receiver : Type 0 where
  pub num_experts : ℕ
  pub num_ranks : ℕ
  pub num_local_experts : ℕ
  pub signal_index : ℕ → ℕ
  pub src_rank : ℕ → ℕ
  pub sent_index : (rank local_idx : ℕ) → ℕ
  pub written : (rank local_idx : ℕ) → ℕ
  pub has_timeout : Bool

abbrev pub put_at : {A : Type 0} → (ℕ → A) → ℕ → A → ℕ → A
put_at f i x j = if i == j then x else f j

-- The signal buffer is clean at the launch.
abbrev pub start : (ℕ → ℕ) → Waits
start active_ranks = record { signals = λ _. 0; active_ranks = active_ranks; wait = λ _. polling }

-- `break` leaves -1 in `num_recv_tokens`, of which the line after the loop makes 0. `combine` does not
-- use the number.
pub data WaitStep (r : Receiver) (s : Waits) : Waits → Type 0 where
  peer_signals :
      (rank local_idx : ℕ)
      → rank < r.num_ranks
      → local_idx < r.num_local_experts
      → s.signals (r.sent_index rank local_idx) ≡ 0
      → WaitStep r s (record s {
        signals = put_at s.signals (r.sent_index rank local_idx) (r.written rank local_idx);
      })
  reads_signal :
      (e : ℕ)
      → e < r.num_experts
      → s.wait e ≡ polling
      → s.signals (r.signal_index e) ≢ 0
      → WaitStep r s (record s {
        wait = put_at s.wait e (finished (signal_value (s.signals (r.signal_index e))));
      })
  reads_none :
      (e : ℕ)
      → e < r.num_experts
      → s.wait e ≡ polling
      → s.signals (r.signal_index e) ≡ 0
      → WaitStep r s (record s { wait = put_at s.wait e late_or_not })
  in_time :
      (e : ℕ) → s.wait e ≡ late_or_not → WaitStep r s (record s { wait = put_at s.wait e decided })
  over_time :
      (e : ℕ)
      → s.wait e ≡ late_or_not
      → r.has_timeout ≡ true
      → WaitStep r s (record s {
        active_ranks = put_at s.active_ranks (r.src_rank e) 0;
        wait = put_at s.wait e decided;
      })
  goes_on :
      (e : ℕ)
      → s.wait e ≡ decided
      → s.active_ranks (r.src_rank e) ≢ 0
      → WaitStep r s (record s { wait = put_at s.wait e polling })
  breaks :
      (e : ℕ)
      → s.wait e ≡ decided
      → s.active_ranks (r.src_rank e) ≡ 0
      → WaitStep r s (record s { wait = put_at s.wait e (finished (signal_value (2 ^ 32 - 1))) })

-- A run from one state to another.
pub data WaitRun (r : Receiver) (s : Waits) : Waits → Type 0 where
  no_step : WaitRun r s s
  then_step : {t u : Waits} → WaitRun r s t → WaitStep r t u → WaitRun r s u

-- The word that rank `rank` writes for the receiver's local expert `dst_expert_local_idx` in `dispatch`.
abbrev pub dispatch_signal_index : Config → ℕ → ℕ → ℕ
dispatch_signal_index c rank dst_expert_local_idx = dst_expert_local_idx * c.num_ranks + rank

-- `global_expert_idx`, the word that rank `rank` writes in `combine` for its own local expert.
abbrev pub combine_signal_index : Config → ℕ → ℕ → ℕ
combine_signal_index c rank local_expert_idx = rank * num_local_experts c + local_expert_idx

-- The receive phase of `dispatch` on a rank: rank `rank` has sent `sent rank local_idx` tokens to the rank's
-- local expert `local_idx`, and writes -1 less their number.
abbrev pub dispatch_receiver : Config → (ℕ → ℕ → ℕ) → Bool → Receiver
dispatch_receiver c sent has_timeout = record {
  num_experts = c.num_experts;
  num_ranks = c.num_ranks;
  num_local_experts = num_local_experts c;
  signal_index = λ e. e % num_local_experts c * c.num_ranks + e / num_local_experts c;
  src_rank = λ e. e / num_local_experts c;
  sent_index = dispatch_signal_index c;
  written = λ rank local_idx. signal_value (sent rank local_idx);
  has_timeout = has_timeout;
}

-- The one of `combine`: rank `rank` writes for its local expert `local_idx` the word of the expert's index
-- among all.
abbrev pub combine_receiver : Config → Bool → Receiver
combine_receiver c has_timeout = record {
  num_experts = c.num_experts;
  num_ranks = c.num_ranks;
  num_local_experts = num_local_experts c;
  signal_index = λ e. e;
  src_rank = λ e. e / num_local_experts c;
  sent_index = combine_signal_index c;
  written = λ rank local_idx. 1;
  has_timeout = has_timeout;
}
