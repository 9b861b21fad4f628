-- ===== src/CString/Copy.antt =====
-- `strcpy` and `strncpy`.
use oh_my_os.Base.{
  ℕ, zero, suc, ◌+◌, ◌<◌, ◌≤◌, ◌≡◌, ◌⊎◌, ◌∙◌, refl, ap, ap₂, sym, false, eq→==, ne→==, some, List,
  [], ◌∷◌, length, arith, ◌==◌, if◌then◌else◌,
}
use oh_my_os.Memory.{Mem, slice, memcpy, write}
use oh_my_os.Memory.Copy.{Disjoint, Outside, write_self, write_ne}
use oh_my_os.Memory.Slice.{slice_zero}
use oh_my_os.CString.{IsString, strcpy, strncpy}

-- A string stays where its own bytes are not written.
pub IsString-frame :
    (m m' : Mem) (p : ℕ) (xs : List ℕ)
    → ((a : ℕ) → p ≤ a → a ≤ p + length xs → m' a ≡ m a)
    → IsString m p xs
    → IsString m' p xs
IsString-frame m m' p [] same h = same p (omega arith) (omega arith) ∙ h
IsString-frame m m' p (x ∷ xs) same h = (
  same p (omega arith) (omega arith) ∙ h.0,
  h.1,
  IsString-frame m m' (p + 1) xs (λ a lo hi. same a (omega arith) (omega arith)) h.2,
)

write-IsString :
    (m : Mem) (d v p : ℕ) (xs : List ℕ)
    → (d < p) ⊎ (p + length xs < d)
    → IsString m p xs
    → IsString (write m d v) p xs
unfolding write
write-IsString m d v p xs out h = IsString-frame m (write m d v) p xs (λ a lo hi. ground arith) h

-- With more fuel than the string at `src` has bytes, and room for it and its NUL at `dst` apart
-- from it, `strcpy` does what `memcpy` of the string and its NUL does.
pub strcpy-memcpy :
    (f : ℕ) (m : Mem) (dst src : ℕ) (xs : List ℕ)
    → IsString m src xs
    → length xs < f
    → Disjoint src (length xs + 1) dst (length xs + 1)
    → strcpy f m dst src ≡ some (memcpy m dst src (length xs + 1))
unfolding strcpy memcpy
strcpy-memcpy zero m dst src xs h lt apart = absurd (omega arith)
strcpy-memcpy (suc f) m dst src [] h lt apart =
    rw (eq→== (write m dst (m src) dst) 0 (write_self m dst (m src) ∙ h), strcpy) refl
strcpy-memcpy (suc f) m dst src (x ∷ xs) h lt apart =
    let m₁ = write m dst (m src) in
    let more : (m₁ dst == 0) ≡ false =
      ne→== (m₁ dst) 0 (λ e. h.1 (sym h.0 ∙ sym (write_self m dst (m src)) ∙ e)) in
    let n : suc (length xs) + 1 ≡ suc (length xs + 1) = omega arith in
    rw (n, more, strcpy)
      (strcpy-memcpy f m₁ (dst + 1) (src + 1) xs
        (write-IsString m dst (m src) (src + 1) xs (omega arith) h.2) (omega arith) (omega arith))

-- The first `n` of the bytes `xs`, filled up with zeros.
abbrev pub pad : ℕ → List ℕ → List ℕ
pad zero xs = []
pad (suc n) [] = 0 ∷ pad n []
pad (suc n) (x ∷ xs) = x ∷ pad n xs

strncpy_frame :
    (len : ℕ) (m : Mem) (dst src : ℕ) (a : ℕ) → Outside a dst len → strncpy m dst src len a ≡ m a
unfolding strncpy write
strncpy_frame zero m dst src a out = refl
strncpy_frame (suc len) m dst src a out =
    strncpy_frame len (write m dst (m src)) (dst + 1) _ a (omega arith) ∙ ground arith

strncpy-suc :
    (len : ℕ) (m : Mem) (dst src : ℕ)
    → slice (strncpy m dst src (suc len)) dst (suc len)
      ≡ m src
        ∷ slice
            (strncpy (write m dst (m src)) (dst + 1) (if m src == 0 then src else src + 1) len)
            (dst + 1)
            len
unfolding slice strncpy
strncpy-suc len m dst src =
    let m₁ = write m dst (m src) in
    ap₂ ◌∷◌ (strncpy_frame len m₁ (dst + 1) _ dst (omega arith) ∙ write_self m dst (m src)) (
      ap (λ k. slice (strncpy m₁ (dst + 1) (if k == 0 then src else src + 1) len) (dst + 1) len)
        (write_self m dst (m src)))

strncpy-slice :
    (len : ℕ) (m : Mem) (dst src : ℕ) (xs : List ℕ)
    → IsString m src xs
    → Disjoint src (length xs + 1) dst len
    → slice (strncpy m dst src len) dst len ≡ pad len xs
strncpy-slice zero m dst src xs h apart = slice_zero _ dst
strncpy-slice (suc len) m dst src [] h apart =
    strncpy-suc len m dst src
    ∙ rw (eq→== (m src) 0 h) (
        ap₂ ◌∷◌ h (
          strncpy-slice len (write m dst (m src)) (dst + 1) src []
            (write_ne m dst (m src) src (omega arith) ∙ h) (omega arith)))
strncpy-slice (suc len) m dst src (x ∷ xs) h apart =
    strncpy-suc len m dst src
    ∙ rw (ne→== (m src) 0 (λ e. h.1 (sym h.0 ∙ e))) (
        ap₂ ◌∷◌ h.0 (
          strncpy-slice len (write m dst (m src)) (dst + 1) (src + 1) xs
            (write-IsString m dst (m src) (src + 1) xs (omega arith) h.2) (omega arith)))

-- With a string at `src` that the `len` bytes at `dst` do not touch, `strncpy` leaves at `dst` its
-- first `len` bytes, filled up with zeros, and writes nowhere else.
pub strncpy-pad :
    (len : ℕ) (m : Mem) (dst src : ℕ) (xs : List ℕ)
    → IsString m src xs
    → Disjoint src (length xs + 1) dst len
    → (slice (strncpy m dst src len) dst len ≡ pad len xs)
      × ((a : ℕ) → Outside a dst len → strncpy m dst src len a ≡ m a)
strncpy-pad len m dst src xs h apart =
    (strncpy-slice len m dst src xs h apart, strncpy_frame len m dst src)
