-- ===== src/Base/Wrap.antt =====
-- Indices that go round a ring once.
use Prim.Native.Nat.{ℕ, ◌+◌, ◌-◌, ◌%◌, ◌^◌, ◌<◌, ◌≤◌}
use mathlib.Core.Path.{◌≡◌, sym}
use mathlib.Core.Logic.{◌⊎◌, inl, inr}
use oh_my_os.Base.Tests.{leb, if◌then◌else◌}
use oh_my_os.Base.Words.{add32, sub32}
use native.Mathlib.Decide.{dec_lt}
use native.Mathlib.Nat.{mod-eq_of_lt, mod-eq-sub-mod}
use native.Mathlib.Omega.{arith}

-- `j` is where the index `k` comes to lie in a ring of `size` places, after at most one round.
abbrev pub WrapsTo : ℕ → ℕ → ℕ → Type 0
WrapsTo size k j = (k ≡ j) ⊎ (k ≡ j + size)

pub mod-WrapsTo : (size k : ℕ) → k < size + size → WrapsTo size k (k % size)
mod-WrapsTo size k h = elim (dec_lt k size) [
  | yes lt ↦ inl (sym (mod-eq_of_lt lt))
  | no ge ↦ inr (
      omega (
        arith,
        mod-eq-sub-mod {n = k} {m = size} (omega arith),
        mod-eq_of_lt {n = k - size} {m = size} (omega arith),
      ))
]

-- how many places lie from `front` up to `rear`
abbrev pub ring_len : ℕ → ℕ → ℕ → ℕ
ring_len size rear front = if leb front rear then rear - front else rear + size - front

module _ (size rear front : ℕ) (rear_lt : rear < size) (front_lt : front < size) where
  pub ring_len-lt : ring_len size rear front < size
  ring_len-lt = ground arith

  -- The two ways in which the places can lie.
  pub ring_len-cases :
      (front + ring_len size rear front ≡ rear)
      ⊎ ((front + ring_len size rear front ≡ rear + size) × (rear < front))
  ring_len-cases = elim (dec_lt rear front) [
    | yes lt ↦ inr (ground arith)
    | no ge ↦ inl (ground arith)
  ]

  -- The source's expression for it, where no sum wraps.
  pub ring_len-eq : size ≤ 2 ^ 31 → sub32 (add32 rear size) front % size ≡ ring_len size rear front
  ring_len-eq h = ground (arith, mod-WrapsTo size (rear + size - front))

  pub ring_len-suc :
      ring_len size rear front + 1 < size
      → ring_len size ((rear + 1) % size) front ≡ ring_len size rear front + 1
  ring_len-suc h = ground (arith, mod-WrapsTo size (rear + 1))

  pub ring_len-pred :
      0 < ring_len size rear front
      → ring_len size rear ((front + 1) % size) + 1 ≡ ring_len size rear front
  ring_len-pred h = ground (arith, mod-WrapsTo size (front + 1))
