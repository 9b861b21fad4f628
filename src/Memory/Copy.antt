-- ===== src/Memory/Copy.antt =====
-- What `memset`, `memcpy` and `memmove` leave in memory.
use oh_my_os.Base.{
  ℕ, zero, suc, ◌+◌, ◌-◌, ◌≤◌, ◌<◌, ◌≡◌, ◌≢◌, ◌⊎◌, ◌&&◌, arith, ltb, leb, if◌then◌else◌,
}
use oh_my_os.Memory.{Mem, write, memset, memcpy, copy_backwards, memmove}

-- `n` bytes from `s` on, read in `m`, laid over `m` from `d` on
abbrev pub moved : Mem → ℕ → ℕ → ℕ → Mem
moved m d s n a = if leb d a && ltb a (d + n) then m (s + (a - d)) else m a

-- `memset` writes its byte to the `n` addresses from `s` on, and to no other.
pub memset_lem :
    (m : Mem) (s c n a : ℕ) → memset m s c n a ≡ (if leb s a && ltb a (s + n) then c else m a)
unfolding memset write
memset_lem m s c zero a = ground arith
memset_lem m s c (suc n) a = ground (arith, memset_lem (write m s c) (s + 1) c n a)

pub memcpy_lem :
    (m : Mem) (d s n a : ℕ) → (d ≤ s) ⊎ (s + n ≤ d) → memcpy m d s n a ≡ moved m d s n a
unfolding memcpy write
memcpy_lem m d s zero a h = ground arith
memcpy_lem m d s (suc n) a h = ground (arith, memcpy_lem (write m d (m s)) (d + 1) (s + 1) n a)

-- the same, from one past the end of the areas
back_moved :
    (m : Mem) (d s n a : ℕ) → s ≤ d → copy_backwards m (d + n) (s + n) n a ≡ moved m d s n a
unfolding copy_backwards write
back_moved m d s zero a h = ground arith
back_moved m d s (suc n) a h = ground (arith, back_moved (write m (d + n) (m (s + n))) d s n a)

-- `memmove` leaves the `n` bytes that stood from `s` on at `d`, and all else as it was, however the
-- two areas overlap.
pub memmove_lem : (m : Mem) (d s n a : ℕ) → memmove m d s n a ≡ moved m d s n a
unfolding memmove
memmove_lem m d s n a = ground (arith, memcpy_lem m d s n a, back_moved m d s n a)

-- The areas `[p, p + n)` and `[q, q + k)` share no address.
abbrev pub Disjoint : ℕ → ℕ → ℕ → ℕ → Type 0
Disjoint p n q k = (p + n ≤ q) ⊎ (q + k ≤ p)

-- `a` lies outside `[p, p + n)`.
abbrev pub Outside : ℕ → ℕ → ℕ → Type 0
Outside a p n = (a < p) ⊎ (p + n ≤ a)

module _ (m : Mem) (d s n : ℕ) (apart : Disjoint s n d n) where
  pub memcpy_inside : (i : ℕ) → i < n → memcpy m d s n (d + i) ≡ m (s + i)
  memcpy_inside i h = ground (arith, memcpy_lem m d s n (d + i))

  pub memcpy-Outside : (a : ℕ) → Outside a d n → memcpy m d s n a ≡ m a
  memcpy-Outside a h = ground (arith, memcpy_lem m d s n a)

pub write_self : (m : Mem) (p v : ℕ) → write m p v p ≡ v
unfolding write
write_self m p v = ground arith

pub write_ne : (m : Mem) (p v a : ℕ) → a ≢ p → write m p v a ≡ m a
unfolding write
write_ne m p v a h = ground arith
