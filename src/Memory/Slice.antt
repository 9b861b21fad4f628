-- ===== src/Memory/Slice.antt =====
-- Runs of bytes in memory, and of the values of any function of an index.
use oh_my_os.Base.{
  ℕ, zero, suc, ◌+◌, ◌-◌, ◌<◌, ◌≤◌, ◌≡◌, refl, ap, ap₂, ◌∙◌, [], ◌∷◌, ◌++◌, arith, length, take,
  drop,
}
use oh_my_os.Memory.{slice}
use native.Mathlib.Nat.{zero-add}

module _ {ℓ} {A : Type ℓ} where
  pub length-slice : (m : ℕ → A) (p n : ℕ) → length (slice m p n) ≡ n
  unfolding slice
  length-slice m p zero = refl
  length-slice m p (suc n) = ap suc (length-slice m (p + 1) n)

  -- A run of bytes depends on its own addresses only.
  pub slice_frame :
      (m m' : ℕ → A) (p n : ℕ)
      → ((a : ℕ) → p ≤ a → a < p + n → m' a ≡ m a)
      → slice m' p n ≡ slice m p n
  unfolding slice
  slice_frame m m' p zero same = refl
  slice_frame m m' p (suc n) same =
      ground
        (arith, same p, slice_frame m m' (p + 1) n (λ a lo hi. same a (omega arith) (omega arith)))

  -- A run of bytes equals a run elsewhere that agrees with it place by place.
  pub slice_shift :
      (m m' : ℕ → A) (p q n : ℕ)
      → ((i : ℕ) → i < n → m' (p + i) ≡ m (q + i))
      → slice m' p n ≡ slice m q n
  unfolding slice
  slice_shift m m' p q zero same = refl
  slice_shift m m' p q (suc n) same =
      ap₂ ◌∷◌ (ground (arith, same 0))
        (slice_shift m m' (p + 1) (q + 1) n λ i lt. ground (arith, same (suc i)))

  pub slice-append : (m : ℕ → A) (p n k : ℕ) → slice m p (n + k) ≡ slice m p n ++ slice m (p + n) k
  unfolding slice
  slice-append m p zero k = ground arith
  slice-append m p (suc n) k =
      let e : suc n + k ≡ suc (n + k) = omega arith in
      rw e (ground (arith, slice-append m (p + 1) n k))

  pub take-slice : (m : ℕ → A) (p n k : ℕ) → n ≤ k → take n (slice m p k) ≡ slice m p n
  unfolding slice
  take-slice m p zero k h = refl
  take-slice m p (suc n) zero h = absurd (omega arith)
  take-slice m p (suc n) (suc k) h = ap (λ r. m p ∷ r) (take-slice m (p + 1) n k (omega arith))

  pub drop-slice : (m : ℕ → A) (p n k : ℕ) → n ≤ k → drop n (slice m p k) ≡ slice m (p + n) (k - n)
  unfolding slice
  drop-slice m p zero k h = ground arith
  drop-slice m p (suc n) zero h = absurd (omega arith)
  drop-slice m p (suc n) (suc k) h = ground (arith, drop-slice m (p + 1) n k)

  -- One value more at the end.
  pub slice-snoc :
      (m m' : ℕ → A) (n : ℕ) {x : A}
      → ((i : ℕ) → i < n → m' i ≡ m i)
      → m' n ≡ x
      → slice m' 0 (n + 1) ≡ slice m 0 n ++ (x ∷ [])
  unfolding slice
  slice-snoc m m' n same last =
      slice-append m' 0 n 1
      ∙ ap₂ ◌++◌ (slice_shift m m' 0 0 n λ i lt. rw zero-add (same i lt))
          (rw zero-add (ap (λ x. x ∷ []) last))

  pub slice-cons : (m : ℕ → A) (p n : ℕ) → 0 < n → slice m p n ≡ m p ∷ slice m (p + 1) (n - 1)
  unfolding slice
  slice-cons m p zero h = absurd (omega arith)
  slice-cons m p (suc n) h = ap (λ k. m p ∷ slice m (p + 1) k) (omega arith)

  pub slice_zero : (m : ℕ → A) (p : ℕ) → slice m p 0 ≡ []
  unfolding slice
  slice_zero m p = refl
