-- ===== src/Bits.antt =====
-- include/bitops.h, include/log2.h and the rounding macros of include/stdlib.h.
pub mod Length
pub mod Power
pub mod Round
mod Tests
use oh_my_os.Base.{
  ℕ, ◌+◌, ◌-◌, ◌*◌, ◌/◌, ◌%◌, ◌^◌, Bool, bit_and, ◌==◌, ◌&&◌, not, if◌then◌else◌, add32, sub32,
  u32_mod,
}

-- `x & mask` with a mask of `k` ones above `k` zeros, moved down
abbrev pub upper : ℕ → ℕ → ℕ
upper k x = x / 2 ^ k % 2 ^ k

-- one halving of `fls`: the word `x` that is left and the bits `r` that are counted
unfoldable pub narrow : ℕ → ℕ × ℕ → ℕ × ℕ
narrow k (x, r) = if upper k x == 0 then (x, r) else (x / 2 ^ k, r + k)

-- The number of the highest bit that is set, from 1, and 0 for 0. The masks are 0xffff0000,
-- 0xff00, 0xf0, 0xc and 0x2.
unfoldable pub fls : ℕ → ℕ
fls x =
    let (x', r) = narrow 1 (narrow 2 (narrow 4 (narrow 8 (narrow 16 (x, 0))))) in
    if x == 0 then 0 else if x' % 2 == 0 then r else r + 1

unfoldable pub ilog2_roundup : ℕ → ℕ
ilog2_roundup n = if n == 0 then 0 else fls (n - 1)

-- `fls(n) - 1`, an `int` that becomes `unsigned long`
unfoldable pub ilog2_rounddown : ℕ → ℕ
ilog2_rounddown n = sub32 (fls n) 1

pub roundup_pow_of_two : ℕ → ℕ
roundup_pow_of_two n = 2 ^ ilog2_roundup n % u32_mod

pub rounddown_pow_of_two : ℕ → ℕ
rounddown_pow_of_two n = 2 ^ ilog2_rounddown n % u32_mod

pub round_down : ℕ → ℕ → ℕ
round_down a n = a - a % n

pub round_up : ℕ → ℕ → ℕ
round_up a n = round_down (sub32 (add32 a n) 1) n
