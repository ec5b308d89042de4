-- ===== src/Kernel/Finish/Order.antt =====
-- src/ep_kernel.cu, `dispatch`: the entries that the warps of an expert post to its queue pair. A message
-- and the signal of an expert go to the same queue pair, which other experts share; the network adapter
-- executes the entries of a queue pair in order.
use mathlib.Core.List.{Memᴰ}
use mathlib.Core.List.Memᴰ
use ep_demo.Prelude.{
  ℕ, ◌*◌, ◌<◌, ◌≡◌, ◌^◌, ◌⊎◌, inl, inr, refl, sym, ap, Bool, true, false, ◌==◌, Bool-cases, ==_iff,
  List, [], ◌∷◌,
}
use ep_demo.Kernel.Finish.{
  finished_sum_tag, Phase, claimed, sent, reported, update, Counters, start, Step, claim, send,
  report, clean, count, signal, Reach, here, next,
}
use ep_demo.Kernel.Finish.Done.{signal_complete}

-- A work queue entry: of a message by its slot, of the expert's signal, or of another expert.
pub data WorkEntry : Type 0 where
  message_entry : ℕ → WorkEntry
  signal_entry : WorkEntry
  other_entry : ℕ → WorkEntry

-- What a step posts. The newest entry is the first of the list.
abbrev pub posted : {n : ℕ} {s t : Counters} → Step n s t → List WorkEntry → List WorkEntry
posted (claim w) q = q
posted (send i p) q = message_entry i ∷ q
posted (report i p) q = q
posted (clean p) q = q
posted (count p) q = q
posted (signal c p e) q = signal_entry ∷ q

-- The counters and the queue that a launch comes to, with other experts' entries in between.
pub data Queued (n : ℕ) : Counters → List WorkEntry → Type 0 where
  empty : Queued n (start n) []
  step :
      {s t : Counters} {q : List WorkEntry}
      → Queued n s q
      → (st : Step n s t) → Queued n t (posted st q)
  shared :
      {s : Counters} {q : List WorkEntry} (k : ℕ) → Queued n s q → Queued n s (other_entry k ∷ q)

-- The entries that are executed: all but some of the newest.
pub data Executed (d : List WorkEntry) : List WorkEntry → Type 0 where
  all_of : Executed d d
  all_but : {e : WorkEntry} {q : List WorkEntry} → Executed d q → Executed d (e ∷ q)

Queued-Reach : {n : ℕ} {s : Counters} {q : List WorkEntry} → Queued n s q → Reach n s
Queued-Reach empty = here
Queued-Reach (step r st) = next (Queued-Reach r) st
Queued-Reach (shared k r) = Queued-Reach r

-- The message is handed to the adapter.
abbrev is_out : Phase → Bool
is_out sent = true
is_out reported = true
is_out _ = false

updated :
    (f : ℕ → Phase) (j i : ℕ) (p : Phase)
    → is_out (update f j p i) ≡ true
    → ((j ≡ i) × (is_out p ≡ true)) ⊎ (is_out (f i) ≡ true)
updated f j i p h = elim (Bool-cases (j == i)) [
  | inl e ↦ inl ((==_iff j i).0 e, rw (update, e) at h)
  | inr e ↦ inr (rw (update, e) at h)
]

out_in :
    {n : ℕ} {s : Counters} {q : List WorkEntry}
    → Queued n s q
    → (i : ℕ) → is_out (s.phase i) ≡ true
    → Memᴰ (message_entry i) q
out_in empty i h = cc h
out_in (step {s} r (claim w)) i h = elim (updated s.phase s.atomic_counter i claimed h) [
  | inl e ↦ cc (e.1)
  | inr old ↦ out_in r i old
]
out_in (step {s} r (send j p)) i h = elim (updated s.phase j i sent h) [
  | inl e ↦ Memᴰ.head (ap message_entry (sym e.0))
  | inr old ↦ Memᴰ.tail (out_in r i old)
]
out_in (step {s} r (report j p)) i h = elim (updated s.phase j i reported h) [
  | inl e ↦ out_in r i (rw (sym e.0, p) refl)
  | inr old ↦ out_in r i old
]
out_in (step r (clean p)) i h = out_in r i h
out_in (step r (count p)) i h = out_in r i h
out_in (step r (signal c p e)) i h = Memᴰ.tail (out_in r i h)
out_in (shared k r) i h = Memᴰ.tail (out_in r i h)

older :
    {x : WorkEntry} {q : List WorkEntry}
    → ¬ (signal_entry ≡ x)
    → Memᴰ signal_entry (x ∷ q)
    → Memᴰ signal_entry q
older ne m = elim (Memᴰ.cases_cons m) [ inl e ↦ absurd (ne e) | inr t ↦ t ]

-- At the signal every message is reported.
last_reported :
    {n : ℕ} {s : Counters}
    → n < 2 ^ 31
    → Reach n s
    → s.counted ≡ true
    → s.signalled ≡ false
    → s.atomic_finish_counter ≡ finished_sum_tag * 2
    → (i : ℕ) → i < n
    → s.phase i ≡ reported
last_reported {n} {s} small r c p e i lt =
    (signal_complete small (next r (signal c p e)) refl).2 i lt

-- When the signal of an expert with `n` messages, fewer than 2 ^ 31, is executed, every message of the
-- expert is executed before it: among the executed entries of the queue pair stand, with the signal, the
-- entries of all `n` messages.
pub signal_after_messages :
    {n : ℕ} {s : Counters} {q d : List WorkEntry}
    → n < 2 ^ 31
    → Queued n s q
    → Executed d q
    → Memᴰ signal_entry d
    → (i : ℕ) → i < n
    → Memᴰ (message_entry i) d
signal_after_messages small empty all_of m i lt = absurd (Memᴰ.not-nil m)
signal_after_messages small (shared k r) (all_but x) m i lt = signal_after_messages small r x m i lt
signal_after_messages small (shared k r) all_of m i lt =
    Memᴰ.tail (signal_after_messages small r all_of (older (λ e. cc e) m) i lt)
signal_after_messages small (step r (claim w)) x m i lt = signal_after_messages small r x m i lt
signal_after_messages small (step r (report j p)) x m i lt = signal_after_messages small r x m i lt
signal_after_messages small (step r (clean p)) x m i lt = signal_after_messages small r x m i lt
signal_after_messages small (step r (count p)) x m i lt = signal_after_messages small r x m i lt
signal_after_messages small (step r (send j p)) (all_but x) m i lt =
    signal_after_messages small r x m i lt
signal_after_messages small (step r (send j p)) all_of m i lt =
    Memᴰ.tail (signal_after_messages small r all_of (older (λ e. cc e) m) i lt)
signal_after_messages small (step r (signal c p e)) (all_but x) m i lt =
    signal_after_messages small r x m i lt
signal_after_messages small (step r (signal c p e)) all_of m i lt =
    Memᴰ.tail (out_in r i (rw (last_reported small (Queued-Reach r) c p e i lt) refl))
