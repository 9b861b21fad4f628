-- ===== src/Kmalloc/Size.antt =====
-- How many bytes a caller of `kmalloc` gets.
use oh_my_os.Base.{ℕ, ◌+◌, ◌*◌, ◌/◌, ◌^◌, ◌≤◌, ◌<◌, ◌≡◌, Bool-cases, inl, inr, arith, leb, leb→le}
use oh_my_os.Bits.{ilog2_roundup, round_up}
use oh_my_os.Bits.Length.{pow-pos}
use oh_my_os.Bits.Power.{ilog2_roundup_least}
use oh_my_os.Bits.Round.{round_up_bounds}
use oh_my_os.Kmalloc.{Request, cache, pages, bytes_of, request, early_order, kmem_cache_max_order}
use native.Mathlib.Nat.{pow-le-pow_right}

-- The cache of a request exists.
abbrev pub HasCache : Request → Type 0
HasCache (cache order) = order ≤ kmem_cache_max_order
HasCache (pages order) = Unit {0}

units_of_8 :
    (size : ℕ)
    → 0 < size
    → size ≤ 2 ^ 31
    → let order = ilog2_roundup (round_up size 8 / 8) in
      (size ≤ 8 * 2 ^ order) × ((k : ℕ) → size ≤ 8 * 2 ^ k → order ≤ k)
units_of_8 size pos le =
    let (multiple, low, _) = round_up_bounds size 8 (omega arith) (omega arith) in
    let n = round_up size 8 / 8 in
    let (up, least) = ilog2_roundup_least n (omega arith) (omega arith) in
    (omega arith, λ k h. least k (omega arith))

units_of_4096 :
    (size : ℕ)
    → 0 < size
    → size ≤ 2 ^ 31
    → size ≤ 4096 * 2 ^ ilog2_roundup (round_up size 4096 / 4096)
units_of_4096 size pos le =
    let (multiple, low, _) = round_up_bounds size 4096 (omega arith) (omega arith) in
    let (up, _) = ilog2_roundup_least (round_up size 4096 / 4096) (omega arith) (omega arith) in
    omega arith

-- For every size other than 0 up to 2 GB, `kmalloc` asks for at least that many bytes, and a size
-- that it serves from a cache has one.
pub request_fits :
    (size : ℕ)
    → 0 < size
    → size ≤ 2 ^ 31
    → (size ≤ bytes_of (request size)) × HasCache (request size)
unfolding request
request_fits size pos le = elim (Bool-cases (leb size 1024)) [
  | inl small ↦
      let (fits, least) = units_of_8 size pos le in
      rw small (fits, least 7 (leb→le size 1024 small))
  | inr large ↦ rw large (units_of_4096 size pos le, tt)
]

-- The block of `kmalloc_early` is too small for each size that is above a power of two of units by
-- less than a unit: the division drops the remainder before it is rounded up.
pub early_order_too_small :
    (k size : ℕ)
    → k < 28
    → 8 * 2 ^ k < size
    → size < 8 * 2 ^ k + 8
    → 8 * 2 ^ early_order size < size
unfolding early_order
early_order_too_small k size lt lo hi =
    let e : size / 8 ≡ 2 ^ k = omega arith in
    let bound : 2 ^ k ≤ 2 ^ 27 = pow-le-pow_right (omega arith) {i = k} {j = 27} (omega arith) in
    let order : ilog2_roundup (2 ^ k) ≤ k =
      (ilog2_roundup_least (2 ^ k) (pow-pos k) (omega arith)).1 k (omega arith) in
    rw e (omega (arith, pow-le-pow_right {n = 2} (omega arith) order))
