-- ===== src/Memory/Elements.antt =====
-- Arrays of elements of `es` bytes each, as libs/queue.c and libs/vector.c lay them out.
use oh_my_os.Base.{ℕ, ◌+◌, ◌*◌, ◌≤◌, ◌<◌, ◌≡◌, ap, ◌≢◌, ◌⊎◌, inl, inr, List, arith}
use oh_my_os.Memory.{Mem, slice, memcpy}
use oh_my_os.Memory.Slice.{slice_frame, slice_shift}
use oh_my_os.Memory.Copy.{Disjoint, memcpy_inside, memcpy-Outside}
use native.Mathlib.Nat.{add_assoc}
use native.Mathlib.Decide.{dec_lt}

-- the bytes of element `i` of the array at `base`
abbrev pub element : Mem → ℕ → ℕ → ℕ → List ℕ
element m base es i = slice m (base + es * i) es

-- An element lies inside an array that is longer than its index.
pub element_in : (es i n : ℕ) → i < n → es * i + es ≤ es * n
element_in es i n h = grind arith

pub element_apart : (es i j : ℕ) → i ≢ j → (es * i + es ≤ es * j) ⊎ (es * j + es ≤ es * i)
element_apart es i j h = elim (dec_lt i j) [
  | yes lt ↦ inl (element_in es i j lt)
  | no ge ↦ inr (element_in es j i (omega arith))
]

-- Memory that keeps what it held from `p` on for `n` bytes keeps the elements there.
pub element_frame :
    (m m' : Mem) (base es i : ℕ)
    → ((a : ℕ) → base + es * i ≤ a → a < base + es * i + es → m' a ≡ m a)
    → element m' base es i ≡ element m base es i
element_frame m m' base es i same = slice_frame m m' (base + es * i) es same

-- Counting from element `k` on.
pub element-add :
    (m : Mem) (base es k i : ℕ) → element m (base + es * k) es i ≡ element m base es (k + i)
element-add m base es k i =
    let e : base + es * k + es * i ≡ base + es * (k + i) = omega arith in ap (λ p. slice m p es) e

-- `memcpy` of one element into place `k`
module _ (m : Mem) (base es k src : ℕ) (apart : Disjoint src es (base + es * k) es) where
  pub element-memcpy_self : element (memcpy m (base + es * k) src es) base es k ≡ slice m src es
  element-memcpy_self =
      slice_shift m (memcpy m (base + es * k) src es) (base + es * k) src es
        (memcpy_inside m (base + es * k) src es apart)

  pub element-memcpy_ne :
      (i : ℕ) → i ≢ k → element (memcpy m (base + es * k) src es) base es i ≡ element m base es i
  element-memcpy_ne i ne = element_frame m (memcpy m (base + es * k) src es) base es i λ a lo hi.
      memcpy-Outside m (base + es * k) src es apart a (omega (arith, element_apart es i k ne))

-- `memcpy` of a run of `n` elements
module _ (m : Mem) (dst src es n : ℕ) (apart : Disjoint src (es * n) dst (es * n)) where
  pub element-memcpy_run :
      (i : ℕ) → i < n → element (memcpy m dst src (es * n)) dst es i ≡ element m src es i
  element-memcpy_run i h =
      slice_shift m (memcpy m dst src (es * n)) (dst + es * i) (src + es * i) es λ b lt.
        rw (add_assoc dst (es * i) b, add_assoc src (es * i) b)
          (memcpy_inside m dst src (es * n) apart (es * i + b) (omega (arith, element_in es i n h)))

  pub element-memcpy_apart :
      (base i : ℕ)
      → Disjoint (base + es * i) es dst (es * n)
      → element (memcpy m dst src (es * n)) base es i ≡ element m base es i
  element-memcpy_apart base i out =
      element_frame m (memcpy m dst src (es * n)) base es i
        λ a lo hi. memcpy-Outside m dst src (es * n) apart a (omega arith)
