-- ===== src/Tests/Finish.antt =====
-- A launch in which one warp has a message for the expert, from the start to the receiver's signal.
use mathlib.Core.List.{Memᴰ}
use ep_demo.Prelude.{[], ◌∷◌, arith, refl, true, ℕ, ◌*◌, ◌+◌, ◌<◌, ◌≤◌, ◌≡◌}
use ep_demo.Kernel.Finish.{
  Counters, Reach, Step, claim, claimed, clean, count, here, next, report, reported, send, sent,
  signal, start, unclaimed, update,
}
use ep_demo.Kernel.Finish.Done.{signal_complete, signal_progress}
use ep_demo.Kernel.Finish.Order.{
  Queued, empty, step, shared, all_of, message_entry, signal_entry, other_entry,
  signal_after_messages,
}
use ep_demo.Kernel.Finish.Ends.{steps_bounded, steps_taken}

abbrev launch : Counters
launch = record {
  atomic_counter = 0;
  atomic_finish_counter = 0;
  waiting = 0;
  phase = update (update (update (λ _. unclaimed) 0 claimed) 0 sent) 0 reported;
  cleaned = true;
  counted = true;
  signalled = true;
}

launch-Reach : Reach 1 launch
launch-Reach =
    next
      (next
        (next (next (next (next here (claim (omega arith))) (count refl)) (send 0 refl))
          (clean refl))
        (report 0 refl))
      (signal refl refl refl)

signal_complete_example :
    (launch.waiting ≡ 0)
    × (launch.cleaned ≡ true)
    × ((i : ℕ) → i < 1 → launch.phase i ≡ reported)
    × (launch.atomic_counter ≡ 0)
    × (launch.atomic_finish_counter ≡ 0)
signal_complete_example = signal_complete (omega arith) launch-Reach refl

signal_progress_example : (t : Counters) × Step 1 (start 1) t
signal_progress_example = signal_progress {n = 1} (omega arith) here refl

steps_bounded_example :
    (steps_taken launch-Reach ≤ 1 * 3 + 3)
    × (((t : Counters) → Step 1 launch t → ⊥) → launch.signalled ≡ true)
    × (launch.signalled ≡ true → steps_taken launch-Reach ≡ 1 * 3 + 3)
steps_bounded_example = steps_bounded (omega arith) launch-Reach

-- The same launch with an entry of another expert between the message and the signal, all executed.
launch-Queued : Queued 1 launch (signal_entry ∷ other_entry 4 ∷ message_entry 0 ∷ [])
launch-Queued =
    step
      (shared 4 (
        step
          (step (step (step (step empty (claim (omega arith))) (count refl)) (send 0 refl))
            (clean refl))
          (report 0 refl)))
      (signal refl refl refl)

signal_after_messages_example :
    Memᴰ (message_entry 0) (signal_entry ∷ other_entry 4 ∷ message_entry 0 ∷ [])
signal_after_messages_example =
    signal_after_messages (omega arith) launch-Queued all_of (Memᴰ.head refl) 0 (omega arith)
