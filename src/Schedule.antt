-- ===== src/Schedule.antt =====
-- schedule/schedule.c: the run queue of one processor and the states of the threads. A thread is its
-- number, and so are its nodes `sched_node` in the run queue and `node` in the group of its process.
-- `sched_lock`, which each call takes and gives back, and the switch of the registers have no counterpart.
pub mod Turns
mod Tests
use oh_my_os.Base.{ℕ, zero, suc, Bool, true, false, ◌==◌, if◌then◌else◌, update}
use oh_my_os.Links.{Links, list_init, list_insert, list_insert_before, list_remove, list_empty}

pub data ThreadState : Type 0 where
  thread_inactive : ThreadState
  thread_sleeping : ThreadState
  thread_runnable : ThreadState
  thread_running : ThreadState
  thread_exited : ThreadState

-- `state` of each thread, `current`, and the links of the run queue and of the group of the process
pub record Sched : Type 0 where
  pub state : ℕ → ThreadState
  pub current : ℕ
  pub queue : Links
  pub group : Links

abbrev pub has_exited : ThreadState → Bool
has_exited thread_inactive = false
has_exited thread_sleeping = false
has_exited thread_runnable = false
has_exited thread_running = false
has_exited thread_exited = true

-- `schedule` once `next` is chosen; `head` is the head of the run queue
pub switch : ℕ → ℕ → Sched → Sched
switch head next s =
    let prev = s.current in
    let queue = list_remove next s.queue in
    if has_exited (s.state prev)
    then record s { current = next; queue = queue; group = list_remove prev s.group }
    else record s {
      current = next;
      queue = list_insert_before head prev queue;
      state = update (update s.state prev thread_runnable) next thread_running;
    }

pub schedule : ℕ → Sched → Sched
unfolding switch
schedule head s =
    if list_empty head s.queue
    then s
    else if s.current == s.queue.next head
    then s
    else switch head (s.queue.next head) s

pub thread_exit : ℕ → Sched → Sched
unfolding schedule
thread_exit head s = schedule head (record s { state = update s.state s.current thread_exited })

pub thread_sleep : ℕ → Sched → Sched
thread_sleep thread s = record s {
  state = update s.state thread thread_sleeping;
  queue = list_remove thread s.queue;
}

-- The arguments of `list_insert` are in the order of the source.
pub thread_wakeup : ℕ → ℕ → Sched → Sched
thread_wakeup head thread s = record s {
  state = update s.state thread thread_runnable;
  queue = list_insert thread head s.queue;
}

-- the part of `thread_run` that makes the new thread `t` known, `group` being the head of the group
pub add_thread : ℕ → ℕ → ℕ → Sched → Sched
add_thread head group t s = record s {
  state = update s.state t thread_runnable;
  group = list_insert group t s.group;
  queue = list_insert head t s.queue;
}

-- `schedule_init` of the processor 0 with its idle thread
pub schedule_init : ℕ → ℕ → ℕ → Sched → Sched
schedule_init head group idle s = record s {
  state = update s.state idle thread_running;
  current = idle;
  queue = list_init head s.queue;
  group = list_insert group idle (list_init group s.group);
}
