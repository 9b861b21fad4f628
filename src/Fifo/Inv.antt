-- ===== src/Fifo/Inv.antt =====
-- The invariant of `struct fifo`, and its length without wrap-around.
use oh_my_os.Base.{
  ℕ, ◌+◌, ◌-◌, ◌^◌, ◌≤◌, ◌<◌, ◌≡◌, ◌↔◌, true, ◌⊎◌, inl, inr, arith, leb, if◌then◌else◌,
}
use oh_my_os.Fifo.{Fifo, fifo_len, fifo_avail, fifo_is_empty, fifo_is_full}
use oh_my_os.Base.Wrap.{mod-WrapsTo}
use native.Mathlib.Decide.{dec_lt}

-- Up to half the address space no index wraps.
pub record IsValid (f : Fifo) : Type 0 where
  pub nonempty : 0 < f.size
  pub small : f.size ≤ 2 ^ 31
  pub in_lt : f.in_pos < f.size
  pub out_lt : f.out_pos < f.size

abbrev pub len : Fifo → ℕ
len f = if leb f.out_pos f.in_pos then f.in_pos - f.out_pos else f.in_pos + f.size - f.out_pos

pub fifo_len-len : (f : Fifo) → IsValid f → fifo_len f ≡ len f
unfolding fifo_len
fifo_len-len f v = ground (arith, mod-WrapsTo f.size (f.in_pos + f.size - f.out_pos))

pub fifo_avail-len : (f : Fifo) → IsValid f → (len f < f.size) × (fifo_avail f + len f + 1 ≡ f.size)
unfolding fifo_avail fifo_len
fifo_avail-len f v = ground (arith, mod-WrapsTo f.size (f.in_pos + f.size - f.out_pos))

-- The two ways in which the bytes can lie.
pub len-cases :
    (f : Fifo)
    → IsValid f
    → (f.out_pos + len f ≡ f.in_pos)
      ⊎ ((f.out_pos + len f ≡ f.in_pos + f.size) × (f.in_pos < f.out_pos))
len-cases f v = elim (dec_lt f.in_pos f.out_pos) [
  | yes lt ↦ inr (ground arith)
  | no ge ↦ inl (ground arith)
]

-- A fifo with the invariant is empty exactly if its length is 0.
pub fifo_is_empty_iff : (f : Fifo) → IsValid f → (fifo_is_empty f ≡ true) ↔ (fifo_len f ≡ 0)
unfolding fifo_is_empty
fifo_is_empty_iff f v = let e = fifo_len-len f v in (λ h. ground (arith, e), λ h. ground (arith, e))

-- A fifo with the invariant is full exactly if no room is left.
pub fifo_is_full_iff : (f : Fifo) → IsValid f → (fifo_is_full f ≡ true) ↔ (fifo_avail f ≡ 0)
unfolding fifo_is_full
fifo_is_full_iff f v =
    let e = fifo_avail-len f v in
    let w = mod-WrapsTo f.size (f.in_pos + 1) (omega arith) in
    (λ h. ground (arith, e, w), λ h. ground (arith, e, w))
