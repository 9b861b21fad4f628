-- ===== src/CString/Compare.antt =====
-- `strcmp`, `strncmp` and `memcmp`.
use oh_my_os.Base.{
  ℕ, zero, suc, ◌+◌, ◌<◌, ◌≡◌, ◌≢◌, ◌↔◌, ◌⊎◌, refl, ap₂, ==→eq, ==→ne, eq→==, Bool-cases, inl, inr,
  Bool, true, false, some, List, [], ◌∷◌, length, take, arith, ◌==◌, if◌then◌else◌,
}
use oh_my_os.Base.Int.{ℤ, pos, negsuc, sub_ℕ, sub_ℕ-eq_zero}
use oh_my_os.Memory.{Mem, slice}
use oh_my_os.CString.{IsString, strcmp, strncmp, memcmp}

-- The difference of the first bytes in which two strings differ, the NUL included.
abbrev pub diff : List ℕ → List ℕ → ℤ
diff [] [] = pos 0
diff [] (y ∷ ys) = sub_ℕ 0 y
diff (x ∷ xs) [] = sub_ℕ x 0
diff (x ∷ xs) (y ∷ ys) = if x == y then diff xs ys else sub_ℕ x y

-- Dictionary order.
abbrev pub LexLt : List ℕ → List ℕ → Type 0
LexLt [] [] = ⊥
LexLt [] (y ∷ ys) = Unit
LexLt (x ∷ xs) [] = ⊥
LexLt (x ∷ xs) (y ∷ ys) = (x < y) ⊎ ((x ≡ y) × LexLt xs ys)

abbrev pub is_neg : ℤ → Bool
is_neg (pos n) = false
is_neg (negsuc n) = true

abbrev pub NonZero : List ℕ → Type 0
NonZero [] = Unit
NonZero (x ∷ xs) = (x ≢ 0) × NonZero xs

IsString-NonZero : (m : Mem) (p : ℕ) (xs : List ℕ) → IsString m p xs → NonZero xs
IsString-NonZero m p [] h = tt
IsString-NonZero m p (x ∷ xs) h = (h.1, IsString-NonZero m (p + 1) xs h.2)

-- What the sign of the difference says of two strings.
abbrev pub Compares : ℤ → List ℕ → List ℕ → Type 0
Compares r xs ys = ((r ≡ pos 0) ↔ (xs ≡ ys)) × ((is_neg r ≡ true) ↔ LexLt xs ys)

-- One byte more in front of both.
Compares-cons :
    (x y : ℕ) (r : ℤ) (xs ys : List ℕ)
    → Compares r xs ys
    → Compares (if x == y then r else sub_ℕ x y) (x ∷ xs) (y ∷ ys)
Compares-cons x y r xs ys ((to, from), (neg, lex)) = (
  (
    (λ h. elim (Bool-cases (x == y)) [
      | inl e ↦ ap₂ ◌∷◌ (==→eq x y e) (to (rw e at h))
      | inr ne ↦ absurd (==→ne x y ne ((sub_ℕ-eq_zero x y).0 (rw ne at h)))
    ]),
    (λ h. ground (arith, from, (λ (e : xs ≡ ys). from e))),
  ),
  (
    (λ h. elim (Bool-cases (x == y)) [
      | inl e ↦ inr (==→eq x y e, neg (rw e at h))
      | inr ne ↦ inl (ground arith)
    ]),
    (λ h. elim h [ inl lt ↦ ground arith | inr (e, l) ↦ rw (eq→== x y e) (lex l) ]),
  ),
)

diff-Compares : (xs ys : List ℕ) → NonZero xs → NonZero ys → Compares (diff xs ys) xs ys
diff-Compares [] [] p q = (((λ _. refl), (λ _. refl)), ((λ h. cc), (λ h. absurd h)))
diff-Compares [] (y ∷ ys) p q = (((λ h. ground arith), (λ h. cc)), ((λ h. tt), (λ h. ground arith)))
diff-Compares (x ∷ xs) [] p q =
    (((λ h. ground arith), (λ h. cc)), ((λ h. ground arith), (λ h. absurd h)))
diff-Compares (x ∷ xs) (y ∷ ys) p q =
    Compares-cons x y (diff xs ys) xs ys (diff-Compares xs ys p.1 q.1)

strcmp-diff :
    (f : ℕ) (m : Mem) (s1 s2 : ℕ) (xs ys : List ℕ)
    → IsString m s1 xs
    → IsString m s2 ys
    → length xs < f
    → strcmp f m s1 s2 ≡ some (diff xs ys)
unfolding strcmp
strcmp-diff zero m s1 s2 xs ys p q lt = absurd (omega arith)
strcmp-diff (suc f) m s1 s2 [] [] p q lt = ground arith
strcmp-diff (suc f) m s1 s2 [] (y ∷ ys) p q lt = ground arith
strcmp-diff (suc f) m s1 s2 (x ∷ xs) [] p q lt = ground arith
strcmp-diff (suc f) m s1 s2 (x ∷ xs) (y ∷ ys) p q lt =
    ground (arith, strcmp-diff f m (s1 + 1) (s2 + 1) xs ys p.2 q.2)

strncmp-diff :
    (n : ℕ) (m : Mem) (s1 s2 : ℕ) (xs ys : List ℕ)
    → IsString m s1 xs
    → IsString m s2 ys
    → strncmp m s1 s2 n ≡ diff (take n xs) (take n ys)
unfolding strncmp
strncmp-diff zero m s1 s2 xs ys p q = refl
strncmp-diff (suc n) m s1 s2 [] [] p q = ground arith
strncmp-diff (suc n) m s1 s2 [] (y ∷ ys) p q = ground arith
strncmp-diff (suc n) m s1 s2 (x ∷ xs) [] p q = ground arith
strncmp-diff (suc n) m s1 s2 (x ∷ xs) (y ∷ ys) p q =
    ground (arith, strncmp-diff n m (s1 + 1) (s2 + 1) xs ys p.2 q.2)

take-NonZero : (n : ℕ) (xs : List ℕ) → NonZero xs → NonZero (take n xs)
take-NonZero zero xs h = tt
take-NonZero (suc n) [] h = tt
take-NonZero (suc n) (x ∷ xs) h = (h.0, take-NonZero n xs h.1)

module _ (m : Mem) (s1 s2 : ℕ) (xs ys : List ℕ) (p : IsString m s1 xs) (q : IsString m s2 ys) where
  -- On two strings that end with a NUL, with more fuel than the first has bytes, `strcmp` ends, answers 0
  -- exactly for equal strings, and a negative number exactly if the first comes before the second in
  -- dictionary order.
  pub strcmp-Compares :
      (fuel : ℕ) → length xs < fuel → (r : ℤ) × (strcmp fuel m s1 s2 ≡ some r) × Compares r xs ys
  strcmp-Compares fuel lt = (
    diff xs ys,
    strcmp-diff fuel m s1 s2 xs ys p q lt,
    diff-Compares xs ys (IsString-NonZero m s1 xs p) (IsString-NonZero m s2 ys q),
  )

  -- `strncmp` compares the first `n` bytes of the strings in that way.
  pub strncmp-Compares : (n : ℕ) → Compares (strncmp m s1 s2 n) (take n xs) (take n ys)
  strncmp-Compares n = rw (strncmp-diff n m s1 s2 xs ys p q) (
      diff-Compares (take n xs) (take n ys) (take-NonZero n xs (IsString-NonZero m s1 xs p))
        (take-NonZero n ys (IsString-NonZero m s2 ys q)))

-- `memcmp` of two blocks of `n` bytes answers 0 exactly if they are equal, and a negative number
-- exactly if the first comes before the second in dictionary order.
pub memcmp-Compares :
    (n : ℕ) (m : Mem) (v1 v2 : ℕ) → Compares (memcmp m v1 v2 n) (slice m v1 n) (slice m v2 n)
unfolding memcmp slice
memcmp-Compares zero m v1 v2 = (((λ _. refl), (λ _. refl)), ((λ h. cc), (λ h. absurd h)))
memcmp-Compares (suc n) m v1 v2 =
    Compares-cons (m v1) (m v2) (memcmp m (v1 + 1) (v2 + 1) n) (slice m (v1 + 1) n)
      (slice m (v2 + 1) n) (memcmp-Compares n m (v1 + 1) (v2 + 1))
