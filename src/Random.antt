-- ===== src/Random.antt =====
-- libs/math.c: the pseudo-random numbers. `do_div` of include/x86.h divides 64 bits by 32 and gives
-- the remainder.
pub mod Cycle
mod Tests
use oh_my_os.Base.{ℕ, ◌+◌, ◌*◌, ◌/◌, ◌%◌, ◌^◌}

abbrev pub rand_max : ℕ
rand_max = 0x7fff

-- the variable `next`, which is 1 at the start
abbrev pub initial : ℕ
initial = 1

pub next_state : ℕ → ℕ
next_state next = (next * 0x5DEECE66D + 0xB) % 2 ^ 64 % 2 ^ 48

-- The number, and the new value of `next`.
pub rand : ℕ → ℕ × ℕ
unfolding next_state
rand next = let next' = next_state next in (next' / 2 ^ 12 % (rand_max + 1), next')

-- `srand` leaves its argument, a word of 32 bits, as `next`.
pub srand : ℕ → ℕ
srand seed = seed
