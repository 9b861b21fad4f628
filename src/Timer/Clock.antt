-- ===== src/Timer/Clock.antt =====
-- The time that the ticks make.
use oh_my_os.Base.{
  ℕ, ◌+◌, ◌*◌, ◌%◌, ◌^◌, ◌≤◌, ◌<◌, ◌≡◌, ◌≢◌, ◌↔◌, refl, Bool-cases, inl, inr, ==→eq, ==→ne, true,
  ◌==◌, arith, add32,
}
use oh_my_os.Timer.{Time, time_cmp, time_add_ms, time_add, count_tick}

-- The smaller units are below the larger ones, and fewer than 2 ^ 31 hours have passed.
pub record IsNormal (t : Time) : Type 0 where
  pub hours_lt : t.hours < 2 ^ 31
  pub minutes_lt : t.minutes < 60
  pub seconds_lt : t.seconds < 60
  pub msecs_lt : t.msecs < 1000

-- the milliseconds of a time, without a bound
abbrev pub total : Time → ℕ
total t = ((t.hours * 60 + t.minutes) * 60 + t.seconds) * 1000 + t.msecs

-- On a normal time `time_add_ms` adds its milliseconds, whatever they carry into the larger units,
-- and leaves a normal time but for the bound on the hours, and the ticks as they were.
pub time_add_ms_lem :
    (t : Time) (msecs : ℕ)
    → IsNormal t
    → msecs < 2 ^ 31
    → let t' = time_add_ms t msecs in
      (total t' ≡ total t + msecs)
      × (t'.minutes < 60)
      × (t'.seconds < 60)
      × (t'.msecs < 1000)
      × (t'.ticks ≡ t.ticks)
unfolding time_add_ms
time_add_ms_lem t msecs n small = (omega arith, omega arith, omega arith, omega arith, refl)

-- On normal times `time_cmp t1 t2` tells that `t1` is not before `t2`.
pub time_cmp_iff :
    (t1 t2 : Time) → IsNormal t1 → IsNormal t2 → (time_cmp t1 t2 ≡ true) ↔ (total t2 ≤ total t1)
unfolding time_cmp
time_cmp_iff t1 t2 n1 n2 = (λ h. ground arith, λ h. ground arith)

-- The time of day is that of the ticks: 10 ms each.
pub record InStep (t : Time) : Type 0 where
  pub normal : IsNormal t
  pub counted : total t ≡ t.ticks * 10

-- the time with the new count of ticks, before a full second is added
abbrev counted : Time → Time
counted t = record t { ticks = t.ticks + 1; msecs = (t.ticks + 1) % 100 * 10 }

not_carried :
    (t : Time)
    → InStep t
    → t.ticks + 1 < 2 ^ 32
    → (t.ticks + 1) % 100 ≢ 0
    → InStep (counted t) × ((counted t).ticks ≡ t.ticks + 1)
not_carried t i h part = (
  record {
    normal = record {
      hours_lt = i.normal.hours_lt;
      minutes_lt = i.normal.minutes_lt;
      seconds_lt = i.normal.seconds_lt;
      msecs_lt = omega arith;
    };
    counted = omega (arith, i.counted, i.normal.msecs_lt);
  },
  refl,
)

carried :
    (t : Time)
    → InStep t
    → t.ticks + 1 < 2 ^ 32
    → (t.ticks + 1) % 100 ≡ 0
    → InStep (time_add (counted t) 1) × ((time_add (counted t) 1).ticks ≡ t.ticks + 1)
unfolding time_add
carried t i h full =
    let n : IsNormal (counted t) = record {
      hours_lt = i.normal.hours_lt;
      minutes_lt = i.normal.minutes_lt;
      seconds_lt = i.normal.seconds_lt;
      msecs_lt = omega arith;
    } in
    let (sum, m, s, ms, same) = time_add_ms_lem (counted t) 1000 n (omega arith) in
    (
      record {
        normal = record {
          hours_lt = omega (arith, sum, i.counted);
          minutes_lt = m;
          seconds_lt = s;
          msecs_lt = ms;
        };
        counted = omega (arith, sum, i.counted, i.normal.msecs_lt, same);
      },
      same,
    )

-- A tick keeps the time of day in step with the ticks, as long as the count of ticks does not wrap.
pub count_tick-InStep :
    (t : Time)
    → InStep t
    → t.ticks + 1 < 2 ^ 32
    → InStep (count_tick t) × ((count_tick t).ticks ≡ t.ticks + 1)
unfolding count_tick
count_tick-InStep t i h =
    let e : add32 t.ticks 1 ≡ t.ticks + 1 = omega arith in
    elim (Bool-cases ((t.ticks + 1) % 100 == 0)) [
      | inl full ↦ rw e (rw full (carried t i h (==→eq ((t.ticks + 1) % 100) 0 full)))
      | inr part ↦ rw e (rw part (not_carried t i h (==→ne ((t.ticks + 1) % 100) 0 part)))
    ]

pub count_tick_wraps : (t : Time) → t.ticks + 1 ≡ 2 ^ 32 → (count_tick t).ticks ≡ 0
unfolding count_tick
count_tick_wraps t e = let z : add32 t.ticks 1 ≡ 0 = omega arith in rw z refl
