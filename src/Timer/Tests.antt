-- ===== src/Timer/Tests.antt =====
-- Runs of the clock, and its theorems at concrete times.
use oh_my_os.Base.{◌+◌, ◌<◌, ◌≡◌, refl, false, none, some, [], arith}
use oh_my_os.Links.{Links}
use oh_my_os.Timer.{Time, time_add_ms, time_ms, count_tick, timer_irq_handler}
use oh_my_os.Timer.Clock.{InStep, total, time_add_ms_lem}
use oh_my_os.Timer.Scan.{timer_irq_handler-count_tick, timer_irq_handler_hangs}

-- 1:59:59.990, and the ticks that make it
abbrev late : Time
late = record { hours = 1; minutes = 59; seconds = 59; msecs = 990; ticks = 719999 }

abbrev late-InStep : InStep late
late-InStep = omega arith

on_the_hour : (time_ms (count_tick late) ≡ 7200000) × ((count_tick late).hours ≡ 2)
unfolding count_tick time_ms
on_the_hour = (refl, refl)

time_add_ms_lem_example :
    let t' = time_add_ms late 20 in
    (total t' ≡ total late + 20)
    × (t'.minutes < 60)
    × (t'.seconds < 60)
    × (t'.msecs < 1000)
    × (t'.ticks ≡ late.ticks)
time_add_ms_lem_example = time_add_ms_lem late 20 late-InStep.normal (omega arith)

-- a ring without timers at 16, and the last tick before the count wraps
abbrev alone : Links
alone = record { next = λ _. 16; prev = λ _. 16 }

abbrev last_tick : Time
last_tick = record late { ticks = 4294967295 }

timer_irq_handler-count_tick_example :
    (timer_irq_handler 5 alone (λ _. late) 16 late ≡ some (count_tick late, [], false))
    × InStep (count_tick late)
timer_irq_handler-count_tick_example =
    timer_irq_handler-count_tick 5 alone (λ _. late) 16 late late-InStep (omega arith)

timer_irq_handler_hangs_example : timer_irq_handler 1000000 alone (λ _. late) 16 last_tick ≡ none
timer_irq_handler_hangs_example =
    timer_irq_handler_hangs alone (λ _. late) 16 [] last_tick
      (record { chain = (refl, refl); distinct = (tt, tt) }) ((λ e. absurd (omega (arith, e))), tt)
      refl 1000000
