-- ===== src/CString.antt =====
-- The functions of libs/string.c on NUL-terminated strings, and `memcmp`.
-- A loop that runs up to the NUL takes fuel, and `none` is its running out.
mod Tests
pub mod Compare
pub mod Copy
pub mod Scan
use oh_my_os.Base.{
  ℕ, zero, suc, ◌+◌, ◌≡◌, ◌≢◌, Bool, true, false, ◌&&◌, not, Option, none, some, List, [], ◌∷◌, ltb,
  ◌==◌, if◌then◌else◌,
}
use oh_my_os.Base.Int.{ℤ, pos, sub_ℕ}
use oh_my_os.Memory.{Mem, write}

-- From `p` on the memory holds the bytes `xs`, none of them 0, and a 0.
abbrev pub IsString : Mem → ℕ → List ℕ → Type 0
IsString m p [] = m p ≡ 0
IsString m p (x ∷ xs) = (m p ≡ x) × (x ≢ 0) × IsString m (p + 1) xs

strlen_loop : ℕ → Mem → ℕ → ℕ → Option ℕ
strlen_loop zero m s cnt = none
strlen_loop (suc f) m s cnt = elim (m s == 0) [
  | true ↦ some cnt
  | false ↦ strlen_loop f m (s + 1) (cnt + 1)
]

pub strlen : ℕ → Mem → ℕ → Option ℕ
unfolding strlen_loop
strlen fuel m s = strlen_loop fuel m s 0

strnlen_loop : ℕ → Mem → ℕ → ℕ → ℕ
strnlen_loop zero m s cnt = cnt
strnlen_loop (suc len) m s cnt = if m s == 0 then cnt else strnlen_loop len m (s + 1) (cnt + 1)

pub strnlen : Mem → ℕ → ℕ → ℕ
unfolding strnlen_loop
strnlen m s len = strnlen_loop len m s 0

-- The memory behind `while ((*p++ = *src++) != '\0')`.
pub strcpy : ℕ → Mem → ℕ → ℕ → Option Mem
strcpy zero m dst src = none
strcpy (suc f) m dst src =
    let m' = write m dst (m src) in
    elim (m' dst == 0) [ true ↦ some m' | false ↦ strcpy f m' (dst + 1) (src + 1) ]

-- `src` stays on the NUL, so that the rest is padded.
pub strncpy : Mem → ℕ → ℕ → ℕ → Mem
strncpy m dst src zero = m
strncpy m dst src (suc len) =
    let m' = write m dst (m src) in strncpy m' (dst + 1) (if m' dst == 0 then src else src + 1) len

pub strcmp : ℕ → Mem → ℕ → ℕ → Option ℤ
strcmp zero m s1 s2 = none
strcmp (suc f) m s1 s2 = elim (not (m s1 == 0) && (m s1 == m s2)) [
  | true ↦ strcmp f m (s1 + 1) (s2 + 1)
  | false ↦ some (sub_ℕ (m s1) (m s2))
]

pub strncmp : Mem → ℕ → ℕ → ℕ → ℤ
strncmp m s1 s2 zero = pos 0
strncmp m s1 s2 (suc n) =
    let rest = strncmp m (s1 + 1) (s2 + 1) n in
    if not (m s1 == 0) && (m s1 == m s2) then rest else sub_ℕ (m s1) (m s2)

-- The inner `none` is NULL.
pub strchr : ℕ → Mem → ℕ → ℕ → Option (Option ℕ)
strchr zero m s c = none
strchr (suc f) m s c = elim (m s == 0) [
  | true ↦ some none
  | false ↦ elim (m s == c) [ true ↦ some (some s) | false ↦ strchr f m (s + 1) c ]
]

pub strfind : ℕ → Mem → ℕ → ℕ → Option ℕ
strfind zero m s c = none
strfind (suc f) m s c = elim (m s == 0) [
  | true ↦ some s
  | false ↦ elim (m s == c) [ true ↦ some s | false ↦ strfind f m (s + 1) c ]
]

pub memcmp : Mem → ℕ → ℕ → ℕ → ℤ
memcmp m v1 v2 zero = pos 0
memcmp m v1 v2 (suc n) =
    let rest = memcmp m (v1 + 1) (v2 + 1) n in if m v1 == m v2 then rest else sub_ℕ (m v1) (m v2)
