-- ===== src/Memory.antt =====
-- The byte memory of libs/string.c, and its `memset`, `memcpy` and `memmove`.
-- A pointer is its address, and the memory gives each address its byte.
pub mod Slice
pub mod Copy
pub mod Elements
mod Tests
use oh_my_os.Base.{ℕ, zero, suc, ◌+◌, ◌-◌, ◌&&◌, List, [], ◌∷◌, ltb, ◌==◌, if◌then◌else◌}

abbrev pub Mem : Type 0
Mem = ℕ → ℕ

-- `*p = v`
unfoldable pub write : Mem → ℕ → ℕ → Mem
write m p v a = if a == p then v else m a

-- The loop `while (n-- > 0) *p++ = c;`.
unfoldable pub memset : Mem → ℕ → ℕ → ℕ → Mem
memset m s c zero = m
memset m s c (suc n) = memset (write m s c) (s + 1) c n

-- The loop `while (n-- > 0) *d++ = *s++;`.
unfoldable pub memcpy : Mem → ℕ → ℕ → ℕ → Mem
memcpy m d s zero = m
memcpy m d s (suc n) = memcpy (write m d (m s)) (d + 1) (s + 1) n

-- The loop `while (n-- > 0) *--d = *--s;`, from one past the end of both areas.
unfoldable pub copy_backwards : Mem → ℕ → ℕ → ℕ → Mem
copy_backwards m d s zero = m
copy_backwards m d s (suc n) = copy_backwards (write m (d - 1) (m (s - 1))) (d - 1) (s - 1) n

unfoldable pub memmove : Mem → ℕ → ℕ → ℕ → Mem
unfolding memcpy copy_backwards
memmove m d s n =
    if ltb s d && ltb d (s + n) then copy_backwards m (d + n) (s + n) n else memcpy m d s n

-- the `n` bytes from `p`, and likewise a run of the values of any function of an index
unfoldable pub slice {ℓ} : {A : Type ℓ} → (ℕ → A) → ℕ → ℕ → List A
slice m p zero = []
slice m p (suc n) = m p ∷ slice m (p + 1) n
