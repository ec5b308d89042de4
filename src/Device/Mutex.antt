-- ===== src/Device/Mutex.antt =====
-- src/ep_kernel.cu: `device_mutex_lock_system` and `device_mutex_unlock_system`, and the warps that
-- take a queue pair's mutex before they write to the queue.
use ep_demo.Prelude.{ℕ, ◌≡◌, ◌≢◌, refl, ◌==◌, if◌then◌else◌, arith}

-- Where a thread stands: elsewhere, in the loop of the lock, or between lock and unlock.
pub data Pc : Type 0 where
  outside spinning inside : Pc

pub record Shared : Type 0 where
  pub mutex : ℕ
  pub pc : ℕ → Pc

abbrev pub move : (ℕ → Pc) → ℕ → Pc → ℕ → Pc
move f i p j = if i == j then p else f j

-- One atomic access of thread `i`: an exchange with 1 that returns the old value, or a store of 0.
pub data Step (s : Shared) : Shared → Type 0 where
  enter : (i : ℕ) → s.pc i ≡ outside → Step s (record s { pc = move s.pc i spinning })
  exchange_busy : (i : ℕ) → s.pc i ≡ spinning → s.mutex ≢ 0 → Step s (record s { mutex = 1 })
  exchange_free :
      (i : ℕ)
      → s.pc i ≡ spinning
      → s.mutex ≡ 0
      → Step s (record { mutex = 1; pc = move s.pc i inside })
  store : (i : ℕ) → s.pc i ≡ inside → Step s (record { mutex = 0; pc = move s.pc i outside })

-- The queue pairs' contexts are copied to the device with the mutex at 0.
abbrev pub start : Shared
start = record { mutex = 0; pc = λ _. outside }

pub data Reach : Shared → Type 0 where
  here : Reach start
  next : {s t : Shared} → Reach s → Step s t → Reach t

pub record Inv (s : Shared) : Type 0 where
  pub held : (i : ℕ) → s.pc i ≡ inside → s.mutex ≡ 1
  pub single : (i j : ℕ) → s.pc i ≡ inside → s.pc j ≡ inside → i ≡ j

Step-Inv : {s t : Shared} → Step s t → Inv s → Inv t
Step-Inv (enter i p) v = record {
  held = λ k h. ground (arith, v.held k);
  single = λ j k g h. ground (arith, v.single j k);
}
Step-Inv (exchange_busy i p q) v = record { held = λ k h. refl; single = v.single }
Step-Inv (exchange_free i p q) v = record {
  held = λ k h. refl;
  single = λ j k g h. ground (arith, v.held j, v.held k);
}
Step-Inv (store i p) v = record {
  held = λ k h. ground (arith, v.single i k);
  single = λ j k g h. ground (arith, v.single j k);
}

Reach-Inv : {s : Shared} → Reach s → Inv s
Reach-Inv here = record { held = λ i h. cc; single = λ i j g h. cc }
Reach-Inv (next r st) = Step-Inv st (Reach-Inv r)

-- Two threads are never between lock and unlock together, and while one is there the mutex is 1.
pub mutual_exclusion :
    {s : Shared} → Reach s → (i j : ℕ) → s.pc i ≡ inside → s.pc j ≡ inside → (i ≡ j) × (s.mutex ≡ 1)
mutual_exclusion r i j p q = ((Reach-Inv r).single i j p q, (Reach-Inv r).held i p)
