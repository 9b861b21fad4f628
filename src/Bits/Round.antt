-- ===== src/Bits/Round.antt =====
-- `round_down` and `round_up` of include/stdlib.h.
use oh_my_os.Base.{ℕ, ◌+◌, ◌-◌, ◌*◌, ◌/◌, ◌^◌, ◌≤◌, ◌<◌, ◌≡◌, arith, add32, sub32}
use oh_my_os.Bits.{round_down, round_up}
use native.Mathlib.Nat.{div-add-mod, mod-lt}

-- `round_down a n` is the greatest multiple of `n` up to `a`, for `n` other than 0.
pub round_down_bounds :
    (a n : ℕ)
    → 0 < n
    → (round_down a n ≡ n * (a / n)) × (round_down a n ≤ a) × (a < round_down a n + n)
unfolding round_down
round_down_bounds a n h = (omega (arith, div-add-mod a n), omega arith, omega (arith, mod-lt a h))

-- `round_up a n` is the least multiple of `n` from `a` on, for `n` other than 0 and as long as
-- `a + n` fits in a word.
pub round_up_bounds :
    (a n : ℕ)
    → 0 < n
    → a + n < 2 ^ 32
    → (round_up a n ≡ n * ((a + n - 1) / n)) × (a ≤ round_up a n) × (round_up a n < a + n)
unfolding round_up
round_up_bounds a n h fits =
    let e : sub32 (add32 a n) 1 ≡ a + n - 1 = omega arith in
    let (multiple, low, high) = round_down_bounds (a + n - 1) n h in
    rw e (multiple, omega arith, omega arith)
