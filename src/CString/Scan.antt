-- ===== src/CString/Scan.antt =====
-- `strlen`, `strnlen`, `strchr` and `strfind`.
use oh_my_os.Base.{
  ℕ, zero, suc, ◌+◌, ◌<◌, ◌≡◌, Option, none, some, List, [], ◌∷◌, length, min, arith, ◌==◌,
  if◌then◌else◌,
}
use oh_my_os.Memory.{Mem}
use oh_my_os.CString.{IsString, strlen_loop, strlen, strnlen_loop, strnlen, strchr, strfind}

strlen_loop_lem :
    (f : ℕ) (m : Mem) (s cnt : ℕ) (xs : List ℕ)
    → IsString m s xs
    → length xs < f
    → strlen_loop f m s cnt ≡ some (cnt + length xs)
unfolding strlen_loop
strlen_loop_lem zero m s cnt xs h lt = absurd (omega arith)
strlen_loop_lem (suc f) m s cnt [] h lt = ground arith
strlen_loop_lem (suc f) m s cnt (x ∷ xs) h lt =
    ground (arith, strlen_loop_lem f m (s + 1) (cnt + 1) xs h.2)

-- With more fuel than the string has bytes `strlen` is their number.
pub strlen_lem :
    (fuel : ℕ) (m : Mem) (s : ℕ) (xs : List ℕ)
    → IsString m s xs
    → length xs < fuel
    → strlen fuel m s ≡ some (length xs)
unfolding strlen
strlen_lem fuel m s xs h lt = ground (arith, strlen_loop_lem fuel m s 0 xs h lt)

strnlen_loop_lem :
    (len : ℕ) (m : Mem) (s cnt : ℕ) (xs : List ℕ)
    → IsString m s xs
    → strnlen_loop len m s cnt ≡ cnt + min len (length xs)
unfolding strnlen_loop
strnlen_loop_lem zero m s cnt xs h = omega arith
strnlen_loop_lem (suc len) m s cnt [] h = ground arith
strnlen_loop_lem (suc len) m s cnt (x ∷ xs) h =
    ground (arith, strnlen_loop_lem len m (s + 1) (cnt + 1) xs h.2)

-- `strnlen` is the length of the string, or `len` if that is less.
pub strnlen_lem :
    (m : Mem) (s len : ℕ) (xs : List ℕ) → IsString m s xs → strnlen m s len ≡ min len (length xs)
unfolding strnlen
strnlen_lem m s len xs h = ground (arith, strnlen_loop_lem len m s 0 xs h)

-- the place of the first `c`, if there is one
abbrev pub index_of : ℕ → List ℕ → Option ℕ
index_of c [] = none
index_of c (x ∷ xs) =
    if x == c then some 0 else elim (index_of c xs) [ none ↦ none | some i ↦ some (i + 1) ]

abbrev pub offset : ℕ → Option ℕ → Option ℕ
offset s none = none
offset s (some i) = some (s + i)

-- With enough fuel `strchr` is the address of the first `c` of the string, or NULL if it has none.
pub strchr_lem :
    (fuel : ℕ) (m : Mem) (s c : ℕ) (xs : List ℕ)
    → IsString m s xs
    → length xs < fuel
    → strchr fuel m s c ≡ some (offset s (index_of c xs))
unfolding strchr
strchr_lem zero m s c xs h lt = absurd (omega arith)
strchr_lem (suc f) m s c [] h lt = ground arith
strchr_lem (suc f) m s c (x ∷ xs) h lt = ground (arith, strchr_lem f m (s + 1) c xs h.2)

-- With enough fuel `strfind` is the address of the first `c` of the string, or of its NUL.
pub strfind_lem :
    (fuel : ℕ) (m : Mem) (s c : ℕ) (xs : List ℕ)
    → IsString m s xs
    → length xs < fuel
    → strfind fuel m s c ≡ some (s + elim (index_of c xs) [ none ↦ length xs | some i ↦ i ])
unfolding strfind
strfind_lem zero m s c xs h lt = absurd (omega arith)
strfind_lem (suc f) m s c [] h lt = ground arith
strfind_lem (suc f) m s c (x ∷ xs) h lt = ground (arith, strfind_lem f m (s + 1) c xs h.2)
