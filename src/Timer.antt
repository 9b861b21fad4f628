-- ===== src/Timer.antt =====
-- kernel/timer.c: the time of day, counted in ticks of 10 ms, and the scan of the timers.
pub mod Clock
pub mod Scan
mod Tests
use oh_my_os.Base.{
  ℕ, zero, suc, ◌+◌, ◌*◌, ◌/◌, ◌%◌, Bool, true, false, Option, none, some, List, [], ◌∷◌, ltb, leb,
  ◌==◌, if◌then◌else◌, add32, mul32,
}
use oh_my_os.Links.{Links}

-- `struct time`
pub record Time : Type 0 where
  pub hours : ℕ
  pub minutes : ℕ
  pub seconds : ℕ
  pub msecs : ℕ
  pub ticks : ℕ

-- ticks in a second
abbrev pub tick_num : ℕ
tick_num = 100

pub time_cmp : Time → Time → Bool
time_cmp t1 t2 =
    if ltb t2.hours t1.hours
    then true
    else if ltb t1.hours t2.hours
    then false
    else if ltb t2.minutes t1.minutes
    then true
    else if ltb t1.minutes t2.minutes
    then false
    else if leb (add32 (mul32 t2.seconds 1000) t2.msecs) (add32 (mul32 t1.seconds 1000) t1.msecs)
    then true
    else false

pub time_add_ms : Time → ℕ → Time
time_add_ms t msecs =
    let ms = add32 t.msecs msecs in
    let s = add32 t.seconds (ms / 1000) in
    let m = add32 t.minutes (s / 60) in
    record t {
      msecs = ms % 1000;
      seconds = s % 60;
      minutes = m % 60;
      hours = add32 t.hours (m / 60);
    }

pub time_add : Time → ℕ → Time
unfolding time_add_ms
time_add t seconds = time_add_ms t (mul32 seconds 1000)

pub time_ms : Time → ℕ
time_ms t =
    add32 (mul32 (add32 (mul32 (add32 (mul32 t.hours 60) t.minutes) 60) t.seconds) 1000) t.msecs

-- the part of `timer_irq_handler` that moves the time on
pub count_tick : Time → Time
unfolding time_add
count_tick t =
    let ticks = add32 t.ticks 1 in
    let t' = record t { ticks = ticks; msecs = ticks % 100 * 10 } in
    if ticks % tick_num == 0 then time_add t' 1 else t'

-- The loop over the timers from `node` on, which ends at NULL. `expired` gives the time of a timer;
-- the result is the timers whose threads are woken, and `none` that the fuel ran out.
pub scan : ℕ → Links → (ℕ → Time) → Time → ℕ → Option (List ℕ)
unfolding time_cmp
scan zero s expired t node = none
scan (suc f) s expired t node = elim (node == 0) [
  | true ↦ some []
  | false ↦ elim (scan f s expired t (s.next node)) [
    | none ↦ none
    | some woken ↦ some (if time_cmp (expired node) t then node ∷ woken else woken)
  ]
]

-- `timer_irq_handler`: the time that it leaves, the timers whose threads it wakes, and whether it
-- goes on to `schedule`.
pub timer_irq_handler : ℕ → Links → (ℕ → Time) → ℕ → Time → Option (Time × List ℕ × Bool)
timer_irq_handler fuel s expired head t =
    let t' = count_tick t in
    if t'.ticks == 0
    then elim (scan fuel s expired t' (s.next head)) [
      | none ↦ none
      | some woken ↦ some (t', woken, true)
    ]
    else some (t', [], false)
