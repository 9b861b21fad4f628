-- ===== src/Number/Hex.antt =====
-- `to_hex` prints a word and `hex_to_value` reads it back.
use oh_my_os.Base.{
  ℕ, zero, suc, ◌+◌, ◌-◌, ◌/◌, ◌%◌, ◌^◌, ◌≤◌, ◌<◌, ◌≡◌, ◌∙◌, refl, sym, ap, true, some, ltb, ◌==◌,
  if◌then◌else◌, add32, mul32, arith, lt→ltb, eq→==,
}
use native.Mathlib.Nat.{div-div-eq-div-mul, pow-suc, div-le_self}
use oh_my_os.Memory.{Mem, write}
use oh_my_os.Memory.Copy.{Outside}
use oh_my_os.Number.{
  reverse_str, hex_char, hex_digits, pad_zeros, to_hex, hex_loop, hex_to_value, is_num, is_digit,
}
use oh_my_os.Number.Digits.{mirrored, reverse_loop_lem, HasDigits, hex_digits-HasDigits}

-- The ten bytes at `buf` are "0x" and the digits of `val`, the last one the units.
pub record IsHex (m : Mem) (buf val : ℕ) : Type 0 where
  pub zero_first : m buf ≡ b'0'
  pub x_second : m (buf + 1) ≡ b'x'
  pub digit : (k : ℕ) → k < 8 → m (buf + 9 - k) ≡ hex_char (val / 16 ^ k % 16)

-- `buf[0] = '0'; buf[1] = 'x';`
abbrev prefixed : Mem → ℕ → Mem
prefixed m buf = write (write m buf b'0') (buf + 1) b'x'

prefixed_lem :
    (m : Mem) (buf : ℕ)
    → (prefixed m buf buf ≡ b'0')
      × (prefixed m buf (buf + 1) ≡ b'x')
      × ((a : ℕ) → Outside a buf 10 → prefixed m buf a ≡ m a)
unfolding write
prefixed_lem m buf = (ground arith, ground arith, λ a out. ground arith)

mirrored-Outside :
    (m : Mem) (buf a : ℕ) → Outside a (buf + 2) 8 → mirrored m (buf + 2) (buf + 9) a ≡ m a
mirrored-Outside m buf a h = ground arith

mirrored_digit :
    (m : Mem) (buf k : ℕ) → k < 8 → mirrored m (buf + 2) (buf + 9) (buf + 9 - k) ≡ m (buf + 2 + k)
mirrored_digit m buf k h =
    let e : buf + 2 + (buf + 9) - (buf + 9 - k) ≡ buf + 2 + k = omega arith in rw e (ground arith)

finish :
    (m : Mem) (buf val : ℕ) (r : Mem × ℕ)
    → HasDigits 8 (prefixed m buf) buf 2 val r
    → let (m', i) = r in
      let t = reverse_str (pad_zeros (10 - i) m' buf i) buf 2 (i + (10 - i) - 1) in
      IsHex t buf val × ((a : ℕ) → Outside a buf 10 → t a ≡ m a) × (i + (10 - i) ≡ 10)
unfolding reverse_str
finish m buf val (m', i) (lo, hi, digits, rest) =
    let p = pad_zeros (10 - i) m' buf i in
    let e : i + (10 - i) ≡ 10 = omega arith in
    let (z, x, out) = prefixed_lem m buf in
    let r : (a : ℕ) → reverse_str p buf 2 9 a ≡ mirrored p (buf + 2) (buf + 9) a =
      λ a. reverse_loop_lem 9 p buf 2 9 a (omega arith) in
    let keep : (a : ℕ) → Outside a (buf + 2) 8 → reverse_str p buf 2 9 a ≡ prefixed m buf a =
      λ a h. r a ∙ mirrored-Outside p buf a h ∙ rest a h in
    rw e (
      record {
        zero_first = keep buf (omega arith) ∙ z;
        x_second = keep (buf + 1) (omega arith) ∙ x;
        digit = λ k lt. r (buf + 9 - k) ∙ mirrored_digit p buf k lt ∙ digits k lt;
      },
      (λ a h. keep a (omega arith) ∙ out a h),
      refl,
    )

-- For a word `val` the answer of `to_hex` is 10, and it leaves at `buf` "0x" with the eight
-- hexadecimal digits of `val`, leading zeros included, and writes nowhere else.
pub to_hex_lem :
    (m : Mem) (val buf : ℕ)
    → val < 2 ^ 32
    → let (m', n) = to_hex m val buf in
      (n ≡ 10) × IsHex m' buf val × ((a : ℕ) → Outside a buf 10 → m' a ≡ m a)
unfolding to_hex
to_hex_lem m val buf h =
    let (hex, out, e) =
      finish m buf val (hex_digits 8 (prefixed m buf) buf 2 val)
        (hex_digits-HasDigits 8 (prefixed m buf) buf 2 val (omega arith)) in
    (e, hex, out)

-- what `hex_to_value` makes of a byte that is a digit
abbrev char_value : ℕ → ℕ
char_value c = if is_num c then c - b'0' else 10 + c - b'a'

char_value-hex_char :
    (d : ℕ) → d < 16 → (is_digit (hex_char d) ≡ true) × (char_value (hex_char d) ≡ d)
char_value-hex_char d h = (ground arith, ground arith)

-- One more digit.
horner :
    (val n : ℕ)
    → val < 2 ^ 32
    → add32 (mul32 (val / 16 ^ suc n) 16) (val / 16 ^ n % 16) ≡ val / 16 ^ n
horner val n h =
    let e : val / 16 ^ suc n ≡ val / 16 ^ n / 16 =
      ap (λ (t : ℕ). val / t) (pow-suc 16 n) ∙ sym (div-div-eq-div-mul val (16 ^ n) 16) in
    rw e (omega (arith, div-le_self val (16 ^ n)))

hex_loop_lem :
    (n : ℕ) (m : Mem) (buf length val : ℕ)
    → n ≤ 8
    → 10 ≤ length
    → val < 2 ^ 32
    → IsHex m buf val
    → hex_loop n m buf length (10 - n) (val / 16 ^ n) ≡ some val
unfolding hex_loop
hex_loop_lem zero m buf length val le len lt h = ap some (omega arith)
hex_loop_lem (suc n) m buf length val le len lt h =
    let d = val / 16 ^ n % 16 in
    let (digit, value) = char_value-hex_char d (omega arith) in
    let at_c : m (buf + (10 - suc n)) ≡ hex_char d = ap m (omega arith) ∙ h.digit n (omega arith) in
    let before : ltb (10 - suc n) length ≡ true = lt→ltb (10 - suc n) length (omega arith) in
    let next : 10 - suc n + 1 ≡ 10 - n = omega arith in
    let v : add32 (mul32 (val / 16 ^ suc n) 16) (char_value (m (buf + (10 - suc n))))
        ≡ val / 16 ^ n =
      ap (add32 (mul32 (val / 16 ^ suc n) 16)) (ap char_value at_c ∙ value) ∙ horner val n lt in
    rw (before, hex_loop)
      (rw (ap is_digit at_c ∙ digit)
        (rw (next, v) (hex_loop_lem n m buf length val (omega arith) len lt h)))

-- `hex_to_value` reads the ten bytes that `to_hex` leaves as the word that was printed, whatever
-- follows them.
pub hex_to_value-to_hex :
    (m : Mem) (val buf length : ℕ)
    → val < 2 ^ 32
    → 10 ≤ length
    → hex_to_value (to_hex m val buf).0 buf length ≡ some val
unfolding hex_to_value
hex_to_value-to_hex m val buf length h len =
    let t = (to_hex m val buf).0 in
    let (_, hex, _) = to_hex_lem m val buf h in
    let first : (t buf == b'0') ≡ true = eq→== (t buf) b'0' hex.zero_first in
    let second : (t (buf + 1) == b'x') ≡ true = eq→== (t (buf + 1)) b'x' hex.x_second in
    let e : 0 ≡ val / 16 ^ 8 = omega arith in
    rw (first, second)
      (ap (hex_loop 8 t buf length 2) e ∙ hex_loop_lem 8 t buf length val (omega arith) len h hex)
