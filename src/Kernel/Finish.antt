-- ===== src/Kernel/Finish.antt =====
-- src/ep_kernel.cu, `dispatch`: the two counters of one expert, which the warps of a launch change in
-- any order. `n` warps have a message for the expert; `sum`, which the counting warp adds up, is `n`.
pub mod Inv
pub mod Done
pub mod Ends
pub mod Order
use ep_demo.Prelude.{
  ℕ, ◌+◌, ◌-◌, ◌*◌, ◌<◌, ◌≡◌, ◌^◌, Bool, true, false, ◌==◌, if◌then◌else◌, add32, sub32,
}

-- `FINISHED_SUM_TAG` of include/ep_configs.cuh.
abbrev pub finished_sum_tag : ℕ
finished_sum_tag = 1024

-- How far the message with a slot is: its warp has taken the slot, has sent the message, and has
-- added 1 to the finish counter.
pub data Phase : Type 0 where
  unclaimed claimed sent reported : Phase

abbrev pub update : (ℕ → Phase) → ℕ → Phase → ℕ → Phase
update f i p j = if i == j then p else f j

pub record Counters : Type 0 where
  pub atomic_counter : ℕ  -- atomic_counter_per_expert[e]
  pub atomic_finish_counter : ℕ  -- atomic_finish_counter_per_expert[e], a bit pattern
  pub waiting : ℕ  -- warps that have a message for the expert and have not taken a slot
  pub phase : ℕ → Phase
  pub cleaned : Bool  -- SM 0 has added its tag
  pub counted : Bool  -- the expert's SM has added FINISHED_SUM_TAG - sum
  pub signalled : Bool  -- the receiver's signal is written, and the counters are reset

-- `workspace` starts at zero, and each launch leaves it so.
abbrev pub start : ℕ → Counters
start n = record {
  atomic_counter = 0;
  atomic_finish_counter = 0;
  waiting = n;
  phase = λ _. unclaimed;
  cleaned = false;
  counted = false;
  signalled = false;
}

abbrev pub finish_add : Counters → ℕ → ℕ
finish_add s v = add32 s.atomic_finish_counter v

-- `signal` stands behind `__syncthreads()`, which the counting warp of the same block has passed.
pub data Step (n : ℕ) (s : Counters) : Counters → Type 0 where
  claim :
      0 < s.waiting
      → Step n s (record s {
        waiting = s.waiting - 1;
        atomic_counter = s.atomic_counter + 1;
        phase = update s.phase s.atomic_counter claimed;
      })
  send : (i : ℕ) → s.phase i ≡ claimed → Step n s (record s { phase = update s.phase i sent })
  report :
      (i : ℕ)
      → s.phase i ≡ sent
      → Step n s
          (record s { phase = update s.phase i reported; atomic_finish_counter = finish_add s 1 })
  clean :
      s.cleaned ≡ false
      → Step n s
          (record s { cleaned = true; atomic_finish_counter = finish_add s finished_sum_tag })
  count :
      s.counted ≡ false
      → Step n s (record s {
        counted = true;
        atomic_finish_counter = finish_add s (sub32 finished_sum_tag n);
      })
  signal :
      s.counted ≡ true
      → s.signalled ≡ false
      → s.atomic_finish_counter ≡ finished_sum_tag * 2
      → Step n s (record s { signalled = true; atomic_counter = 0; atomic_finish_counter = 0 })

pub data Reach (n : ℕ) : Counters → Type 0 where
  here : Reach n (start n)
  next : {s t : Counters} → Reach n s → Step n s t → Reach n t
