-- ===== src/KString.antt =====
-- The growing string of libs/string.c: one character at a time.
pub mod Append
mod Tests
use oh_my_os.Base.{
  ℕ, ◌+◌, ◌-◌, ◌<◌, Bool, Option, none, some, ltb, leb, ◌==◌, if◌then◌else◌, add32, Status, success,
  enomem,
}
use oh_my_os.Memory.{Mem, write}
use oh_my_os.CString.{strncpy}
use oh_my_os.Bits.{roundup_pow_of_two}

-- `struct string`
pub record KString : Type 0 where
  pub str : ℕ
  pub length : ℕ
  pub capacity : ℕ

-- What `kmalloc` answers for a size.
abbrev pub Alloc : Type 0
Alloc = ℕ → Option ℕ

pub ksinit : ℕ → ℕ → KString
ksinit buf size = record { str = buf; length = 0; capacity = size }

-- the copy to the new bytes and the NUL behind the old ones
pub move_bytes : Mem → KString → ℕ → Mem
move_bytes m s str =
    if s.str == 0 then m else write (strncpy m str s.str s.length) (s.str + s.length) 0

-- the part of `string_try_expand` behind the assertion
pub expand_to : Alloc → Mem → KString → ℕ → Status × Mem × KString
expand_to alloc m s size = elim (alloc size) [
  | none ↦ (enomem, m, s)
  | some str ↦ (success, move_bytes m s str, record s { str = str; capacity = size })
]

-- `none` is the failed assertion, which halts.
pub string_try_expand : Alloc → Mem → KString → ℕ → Option (Status × Mem × KString)
string_try_expand alloc m s size =
    let rounded = roundup_pow_of_two (add32 size 1) in
    if leb size s.capacity
    then some (success, m, s)
    else if ltb s.capacity rounded
    then some (expand_to alloc m s rounded)
    else none

-- the part of `ksappend_char` behind the expansion
pub put_char : Mem → KString → ℕ → Mem × KString
put_char m s c =
    let length = add32 s.length 1 in
    (write (write m (s.str + s.length) c) (s.str + length) 0, record s { length = length })

-- `ksappend_char` behind its call of `string_try_expand`, whose error it passes on
pub append_expanded : ℕ → Option (Status × Mem × KString) → Option (Status × Mem × KString)
append_expanded c none = none
append_expanded c (some (success, m, s)) = let (m', s') = put_char m s c in some (success, m', s')
append_expanded c (some (e, m, s)) = some (e, m, s)

pub ksappend_char : Alloc → Mem → KString → ℕ → Option (Status × Mem × KString)
ksappend_char alloc m s c = append_expanded c (string_try_expand alloc m s (add32 s.length 1))

-- The character, and what is left of the string; 0 for an empty one.
pub kspop_char : Mem → KString → ℕ × Mem × KString
kspop_char m s =
    let length = s.length - 1 in
    if s.length == 0
    then (0, m, s)
    else (m (s.str + length), write m (s.str + length) 0, record s { length = length })
