-- ===== src/Lock.antt =====
-- libs/lock.c and include/lock.h: the spin lock, and processors that take it in any order.
-- Each access of the counter is a step of its own. `cmpxchg` of include/atomic.h compares and writes
-- in one step and gives the value that it found.
pub mod Exclusion
pub mod Progress
mod Tests
use oh_my_os.Base.{ℕ, ◌+◌, ◌<◌, ◌≤◌, ◌≡◌, ◌≢◌, Bool, true, false, ◌==◌, if◌then◌else◌}

-- Where a processor stands in `spin_lock`: before the call, in front of a test of the loop with the
-- value of `count`, in front of `cmpxchg`, holding the lock, or halted by the assertion.
pub data Pc : Type 0 where
  outside : Pc
  testing : ℕ → Pc
  trying : ℕ → Pc
  holding : Pc
  halted : Pc

-- the bound of the assertion in the loop
abbrev pub max_spins : ℕ
max_spins = 10000000

-- The counter of the lock and the processors.
pub record System : Type 0 where
  pub counter : ℕ
  pub pc : ℕ → Pc

abbrev pub at : (ℕ → Pc) → ℕ → Pc → ℕ → Pc
at pc i p k = if k == i then p else pc k

-- `spinlock_init`, with no processor in `spin_lock`
abbrev pub spinlock_init : System
spinlock_init = record { counter = 0; pc = λ _. outside }

-- one access of the counter by a processor, and where it leaves it
pub data Move : ℕ → Pc → ℕ → Pc → Type 0 where
  call : {c : ℕ} → Move c outside c (testing 0)
  see_free : {c n : ℕ} → c ≡ 0 → Move c (testing n) c (trying n)
  see_taken : {c n : ℕ} → c ≢ 0 → n < max_spins → Move c (testing n) c (testing (n + 1))
  give_up : {c n : ℕ} → c ≢ 0 → max_spins ≤ n → Move c (testing n) c halted
  win : {c n d : ℕ} → c ≡ 0 → d ≡ 1 → Move c (trying n) d holding
  lose : {c n : ℕ} → c ≢ 0 → Move c (trying n) c (testing n)
  spin_unlock : {c d : ℕ} → d ≡ 0 → Move c holding d outside

pub data Step (s : System) : System → Type 0 where
  step :
      (i : ℕ) {d : ℕ} {p : Pc}
      → Move s.counter (s.pc i) d p
      → Step s (record { counter = d; pc = at s.pc i p })

pub data Reach : System → Type 0 where
  start : Reach spinlock_init
  later : {s t : System} → Reach s → Step s t → Reach t
