-- ===== src/Bits/Power.antt =====
-- Logarithms and powers of two from include/log2.h.
use oh_my_os.Base.{ℕ, zero, suc, ◌+◌, ◌-◌, ◌*◌, ◌%◌, ◌^◌, ◌≤◌, ◌<◌, ◌≡◌, refl, arith, ne→==, sub32}
use oh_my_os.Bits.{fls, ilog2_roundup, ilog2_rounddown, roundup_pow_of_two}
use oh_my_os.Bits.Length.{fls_bounds}
use native.Mathlib.Nat.{pow-le-pow_right, pow-suc}
use native.Mathlib.Decide.{dec_lt}

-- A power of two below another has the smaller exponent.
exp_lt : (a b : ℕ) → 2 ^ a < 2 ^ b → a < b
exp_lt a b h = elim (dec_lt a b) [
  | yes lt ↦ lt
  | no ge ↦
      absurd (omega (arith, pow-le-pow_right {n = 2} (omega arith) {i = b} {j = a} (omega arith)))
]

fls_zero : fls 0 ≡ 0
unfolding fls
fls_zero = refl

fls-le_width : (n w : ℕ) → 0 < n → n < 2 ^ 32 → n < 2 ^ w → fls n ≤ w
fls-le_width n w pos lt h =
    let (_, low, _) = fls_bounds n pos lt in omega (arith, exp_lt (fls n - 1) w (omega arith))

-- For `1 ≤ n ≤ 2 ^ 32`, `ilog2_roundup n` is the least exponent whose power of two is at least `n`.
pub ilog2_roundup_least :
    (n : ℕ)
    → 0 < n
    → n ≤ 2 ^ 32
    → (n ≤ 2 ^ ilog2_roundup n) × ((k : ℕ) → n ≤ 2 ^ k → ilog2_roundup n ≤ k)
unfolding ilog2_roundup
ilog2_roundup_least n pos le = rw (ne→== n 0 (omega arith)) (elim (dec_lt 1 n) [
  | yes big ↦ (
    omega (arith, (fls_bounds (n - 1) (omega arith) (omega arith)).2),
    λ k h. fls-le_width (n - 1) k (omega arith) (omega arith) (omega arith),
  )
  | no one ↦ let e : n - 1 ≡ 0 = omega arith in rw (e, fls_zero) (omega arith, λ k h. omega arith)
])

-- For a 32-bit word other than 0, `ilog2` is the exponent of the greatest power of two up to it.
pub ilog2_rounddown_greatest :
    (n : ℕ) → 0 < n → n < 2 ^ 32 → (2 ^ ilog2_rounddown n ≤ n) × (n < 2 ^ (ilog2_rounddown n + 1))
unfolding ilog2_rounddown
ilog2_rounddown_greatest n pos lt =
    let (some_bit, low, high) = fls_bounds n pos lt in
    let e : sub32 (fls n) 1 ≡ fls n - 1 = omega (arith, fls-le_width n 32 pos lt lt) in
    let f : fls n - 1 + 1 ≡ fls n = omega arith in rw e (low, rw f high)

-- For `1 ≤ n ≤ 2 ^ 31`, `roundup_pow_of_two n` is a power of two, at least `n` and below `2 * n`.
pub roundup_pow_of_two_bounds :
    (n : ℕ)
    → 0 < n
    → n ≤ 2 ^ 31
    → (roundup_pow_of_two n ≡ 2 ^ ilog2_roundup n)
      × (n ≤ roundup_pow_of_two n)
      × (roundup_pow_of_two n < 2 * n)
unfolding roundup_pow_of_two
roundup_pow_of_two_bounds n pos le =
    let l = ilog2_roundup n in
    let (up, least) = ilog2_roundup_least n pos (omega arith) in
    let small : 2 ^ l ≤ 2 ^ 31 = pow-le-pow_right (omega arith) (least 31 le) in
    let e : 2 ^ l % 2 ^ 32 ≡ 2 ^ l = omega arith in rw e (refl, up, below l up least)
  where
    below : (l : ℕ) → n ≤ 2 ^ l → ((k : ℕ) → n ≤ 2 ^ k → l ≤ k) → 2 ^ l < 2 * n
    below zero up least = omega arith
    below (suc l) up least = elim (dec_lt (2 ^ l) n) [
      | yes lt ↦ omega (arith, pow-suc 2 l)
      | no ge ↦ absurd (omega (arith, least l (omega arith)))
    ]
