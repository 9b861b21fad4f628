-- ===== src/Number.antt =====
-- The hexadecimal numbers of libs/string.c.
pub mod Digits
pub mod Hex
mod Tests
use oh_my_os.Base.{
  ℕ, zero, suc, ◌+◌, ◌-◌, ◌*◌, ◌/◌, ◌%◌, Bool, true, false, ◌&&◌, ◌||◌, not, Option, none, some,
  ltb, leb, ◌==◌, if◌then◌else◌, add32, mul32,
}
use oh_my_os.Memory.{Mem, write}

-- The loop runs while `i < j`, for which half of `j` rounds are enough.
pub reverse_loop : ℕ → Mem → ℕ → ℕ → ℕ → Mem
reverse_loop zero m buf i j = m
reverse_loop (suc f) m buf i j = elim (ltb i j) [
  | true ↦
      reverse_loop f (write (write m (buf + i) (m (buf + j))) (buf + j) (m (buf + i))) buf (i + 1)
        (j - 1)
  | false ↦ m
]

pub reverse_str : Mem → ℕ → ℕ → ℕ → Mem
unfolding reverse_loop
reverse_str m buf i j = reverse_loop j m buf i j

-- `__str_hex[d]`
abbrev pub hex_char : ℕ → ℕ
hex_char d = if ltb d 10 then b'0' + d else b'a' + d - 10

-- `while (val > 0)`, which a word of eight digits leaves after eight rounds, and the next index
pub hex_digits : ℕ → Mem → ℕ → ℕ → ℕ → Mem × ℕ
hex_digits zero m buf i val = (m, i)
hex_digits (suc f) m buf i val = elim (val == 0) [
  | true ↦ (m, i)
  | false ↦ hex_digits f (write m (buf + i) (hex_char (val % 16))) buf (i + 1) (val / 16)
]

-- The loop `while (i < 10) buf[i++] = '0';`, by the number of its rounds.
pub pad_zeros : ℕ → Mem → ℕ → ℕ → Mem
pad_zeros zero m buf i = m
pad_zeros (suc n) m buf i = pad_zeros n (write m (buf + i) b'0') buf (i + 1)

-- The memory behind `to_hex`, and its answer.
pub to_hex : Mem → ℕ → ℕ → Mem × ℕ
unfolding reverse_str
to_hex m val buf =
    let (m', i) = hex_digits 8 (write (write m buf b'0') (buf + 1) b'x') buf 2 val in
    let j = i + (10 - i) in (reverse_str (pad_zeros (10 - i) m' buf i) buf 2 (j - 1), j)

abbrev pub is_num : ℕ → Bool
is_num c = leb b'0' c && leb c b'9'

abbrev pub is_digit : ℕ → Bool
is_digit c = is_num c || (leb b'a' c && leb c b'f')

-- The loop from `i` on, with `rounds` places before 10; `none` is the answer -1. The value is a word.
pub hex_loop : ℕ → Mem → ℕ → ℕ → ℕ → ℕ → Option ℕ
hex_loop zero m str length i v = some v
hex_loop (suc rounds) m str length i v =
    let c = m (str + i) in
    elim (ltb i length) [
      | true ↦ elim (is_digit c) [
        | true ↦
            hex_loop rounds m str length (i + 1)
              (add32 (mul32 v 16) (if is_num c then c - b'0' else 10 + c - b'a'))
        | false ↦ none
      ]
      | false ↦ some v
    ]

-- `hex_to_value` of the string of `length` bytes at `str`.
pub hex_to_value : Mem → ℕ → ℕ → Option ℕ
unfolding hex_loop
hex_to_value m str length =
    if not (m str == b'0') || not (m (str + 1) == b'x') then none else hex_loop 8 m str length 2 0
