-- ===== src/PageTable/Or.antt =====
-- The bitwise or of words without a common bit.
use oh_my_os.Base.{
  ℕ, zero, suc, ◌+◌, ◌-◌, ◌*◌, ◌/◌, ◌%◌, ◌^◌, ◌<◌, ◌≤◌, ◌≡◌, ap, arith, eq→==, ne→==,
}
use oh_my_os.PageTable.{page_size, pte_p, or_bits, or32}
use native.Mathlib.Nat.{pow-suc}
use native.Mathlib.Decide.{ℕ_discrete}

or_zero : (n a : ℕ) → a < 2 ^ n → or_bits n a 0 ≡ a
unfolding or_bits
or_zero zero a h = omega (arith, h)
or_zero (suc n) a h =
    let rest = or_zero n (a / 2) (omega (arith, h, pow-suc 2 n)) in
    elim (ℕ_discrete (a % 2) 0) [
      | yes e ↦ rw (eq→== (a % 2) 0 e) (omega (arith, rest, e))
      | no ne ↦ rw (ne→== (a % 2) 0 ne) (omega (arith, rest, ne))
    ]

-- A multiple of a power of two and a number below the power have no common bit.
pub or-sum : (k n m a b : ℕ) → a < 2 ^ n → a ≡ m * 2 ^ k → b < 2 ^ k → k ≤ n → or_bits n a b ≡ a + b
unfolding or_bits
or-sum zero n m a b h e lt le =
    let z : b ≡ 0 = omega (arith, lt) in rw z (omega (arith, or_zero n a h))
or-sum (suc k) zero m a b h e lt le = absurd (omega (arith, le))
or-sum (suc k) (suc n) m a b h e lt le =
    let twice : a ≡ 2 * (m * 2 ^ k) = omega (arith, e, ap (λ t. m * t) (pow-suc 2 k)) in
    let even : a % 2 ≡ 0 = omega (arith, twice) in
    let rest =
      or-sum k n m (a / 2) (b / 2) (omega (arith, h, pow-suc 2 n)) (omega (arith, twice))
        (omega (arith, lt, pow-suc 2 k)) (omega (arith, le)) in
    rw (eq→== (a % 2) 0 even) (omega (arith, rest, even))

-- The lowest bit set, whatever it was.
pub or_one : (n a : ℕ) → a < 2 ^ suc n → or_bits (suc n) a 1 ≡ a - a % 2 + 1
unfolding or_bits
or_one n a h =
    let rest = or_zero n (a / 2) (omega (arith, h, pow-suc 2 n)) in
    elim (ℕ_discrete (a % 2) 0) [
      | yes e ↦ rw (eq→== (a % 2) 0 e) (omega (arith, rest, e))
      | no ne ↦ rw (ne→== (a % 2) 0 ne) (omega (arith, rest, ne))
    ]

-- An entry is the address of its page, the flags, and PTE_P.
pub entry_value :
    (pa flag : ℕ)
    → pa % page_size ≡ 0
    → pa < 2 ^ 32
    → flag < page_size
    → or32 (or32 pa flag) pte_p ≡ pa + (flag - flag % 2) + 1
entry_value pa flag aligned word small =
    let sum =
      or-sum 12 32 (pa / page_size) pa flag word (omega (arith, aligned)) small (omega arith) in
    rw sum (omega (arith, or_one 31 (pa + flag) (omega (arith, aligned, word, small)), aligned))
