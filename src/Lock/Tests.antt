-- ===== src/Lock/Tests.antt =====
-- Two processors at one lock.
use oh_my_os.Base.{ℕ, ◌≡◌, ◌⊎◌, inl, refl}
use oh_my_os.Lock.{
  testing, trying, holding, System, at, spinlock_init, call, see_free, win, step, Reach, start,
  later,
}
use oh_my_os.Lock.Exclusion.{IsConsistent, Reach-IsConsistent}
use oh_my_os.Lock.Progress.{Alone, spin_lock_no_deadlock}

-- Processor 0 takes the lock, and processor 1 comes to its loop.
abbrev taken : System
taken = record {
  counter = 1;
  pc = at (at (at (at spinlock_init.pc 0 (testing 0)) 0 (trying 0)) 0 holding) 1 (testing 0);
}

Reach-taken : Reach taken
Reach-taken =
    later
      (later (later (later start (step 0 call)) (step 0 (see_free refl))) (step 0 (win refl refl)))
      (step 1 call)

Reach-IsConsistent_example : IsConsistent taken
Reach-IsConsistent_example = Reach-IsConsistent Reach-taken

spin_lock_no_deadlock_example :
    ((j : ℕ) × (taken.pc j ≡ holding)) ⊎ ((t : System) × Alone 1 taken t × (t.pc 1 ≡ holding))
spin_lock_no_deadlock_example = spin_lock_no_deadlock 1 0 Reach-taken (inl refl)
