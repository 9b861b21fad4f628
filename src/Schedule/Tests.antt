-- ===== src/Schedule/Tests.antt =====
-- Threads at work, and the theorems about `schedule` on a queue of two threads.
use oh_my_os.Base.{ℕ, ◌≡◌, refl, arith, false, eq→==, ne→==, [], ◌∷◌, update}
use oh_my_os.Links.{Links, list_init, list_insert, list_insert_before, list_empty}
use oh_my_os.Links.Ring.{list_init-IsRing, list_insert_before-IsRing}
use oh_my_os.Schedule.{
  Sched, thread_runnable, thread_running, thread_sleeping, has_exited, schedule, switch,
  thread_wakeup,
}
use native.Mathlib.Decide.{ℕ_discrete}
use oh_my_os.Schedule.Turns.{IsQueue, Switched, schedule-Switched, turns, turns_lem}

abbrev blank : Links
blank = record { next = λ _. 0; prev = λ _. 0 }

-- the thread 1 runs, and 2 and 3 wait in the queue of the head 9
abbrev three : Sched
three = record {
  state = update (λ _. thread_runnable) 1 thread_running;
  current = 1;
  queue = list_insert_before 9 3 (list_insert_before 9 2 (list_init 9 blank));
  group = blank;
}

three-IsQueue : IsQueue 9 three (2 ∷ 3 ∷ [])
three-IsQueue = record {
  ring =
      list_insert_before-IsRing (list_insert_before 9 2 (list_init 9 blank)) 9 3 (2 ∷ [])
        (list_insert_before-IsRing (list_init 9 blank) 9 2 [] (list_init-IsRing blank 9)
          (λ e. absurd (omega (arith, e)), tt))
        (λ e. absurd (omega (arith, e)), (λ e. absurd (omega (arith, e)), tt));
  running = (
    λ e. absurd (omega (arith, e)),
    (λ e. absurd (omega (arith, e)), (λ e. absurd (omega (arith, e)), tt)),
  );
}

schedule-Switched_example : Switched 9 2 (3 ∷ []) three (schedule 9 three)
schedule-Switched_example = schedule-Switched 9 2 (3 ∷ []) three three-IsQueue

-- In `three`, each state is one of the living.
all_alive : (t : ℕ) → has_exited (three.state t) ≡ false
all_alive t = elim (ℕ_discrete t 1) [
  | yes e ↦ rw (eq→== t 1 e) refl
  | no ne ↦ rw (ne→== t 1 ne) refl
]

turns_lem_example : (turns 9 2 three).current ≡ 3
turns_lem_example = turns_lem 9 3 (2 ∷ []) [] three three-IsQueue all_alive

-- A thread that goes to sleep as `msleep` does, and then calls `schedule`, is in the queue again.
run_asleep :
    (schedule 9 (record three { state = update three.state 1 thread_sleeping })).state 1
    ≡ thread_runnable
unfolding schedule switch list_init list_insert_before list_empty
run_asleep = refl

-- `thread_wakeup` of a thread that is in no list: the head no longer leads to the threads of the queue.
run_wakeup : (thread_wakeup 9 5 three).queue.next 9 ≡ 0
unfolding thread_wakeup list_init list_insert_before list_insert
run_wakeup = refl
