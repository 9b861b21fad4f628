-- ===== src/Number/Digits.antt =====
-- The loops of `reverse_str`, `to_hex` and `hex_to_value`.
use oh_my_os.Base.{
  ℕ, zero, suc, ◌+◌, ◌-◌, ◌*◌, ◌/◌, ◌%◌, ◌^◌, ◌≤◌, ◌<◌, ◌≡◌, ◌∙◌, sym, ap, Bool-cases, inl, inr,
  ◌&&◌, ltb, leb, ◌==◌, if◌then◌else◌, arith, ltb→lt, ltb→ge, ap₂, ==→eq,
}
use oh_my_os.Memory.{Mem, write}
use oh_my_os.Memory.Copy.{Outside, write_self, write_ne}
use native.Mathlib.Nat.{zero-div, div-div-eq-div-mul, pow-suc, pow-succ'}
use oh_my_os.Number.{reverse_loop, hex_char, hex_digits, pad_zeros}

-- the bytes from `p` to `q` in the opposite order
abbrev pub mirrored : Mem → ℕ → ℕ → Mem
mirrored m p q a = if leb p a && leb a q then m (p + q - a) else m a

abbrev swapped : Mem → ℕ → ℕ → Mem
swapped m p q = write (write m p (m q)) q (m p)

mirrored-swapped :
    (m : Mem) (p q a : ℕ) → p < q → mirrored (swapped m p q) (p + 1) (q - 1) a ≡ mirrored m p q a
unfolding write
mirrored-swapped m p q a h = let e : p + 1 + (q - 1) ≡ p + q = omega arith in rw e (ground arith)

pub reverse_loop_lem :
    (f : ℕ) (m : Mem) (buf i j a : ℕ)
    → j ≤ i + 2 * f
    → reverse_loop f m buf i j a ≡ mirrored m (buf + i) (buf + j) a
unfolding reverse_loop
reverse_loop_lem zero m buf i j a h = ground arith
reverse_loop_lem (suc f) m buf i j a h = elim (Bool-cases (ltb i j)) [
  | inr stop ↦ rw (stop, reverse_loop) (ground (arith, ltb→ge i j stop))
  | inl more ↦
      let lt = ltb→lt i j more in
      let e : buf + i + 1 ≡ buf + (i + 1) = omega arith in
      let e' : buf + j - 1 ≡ buf + (j - 1) = omega arith in
      rw (more, reverse_loop)
        (reverse_loop_lem f (swapped m (buf + i) (buf + j)) buf (i + 1) (j - 1) a (omega arith)
          ∙ ap₂ (λ p q. mirrored (swapped m (buf + i) (buf + j)) p q a) (sym e) (sym e')
          ∙ mirrored-swapped m (buf + i) (buf + j) a (omega arith))
]

pad_zeros_lem :
    (n : ℕ) (m : Mem) (buf i a : ℕ)
    → pad_zeros n m buf i a ≡ (if leb (buf + i) a && ltb a (buf + i + n) then b'0' else m a)
unfolding pad_zeros write
pad_zeros_lem zero m buf i a = ground arith
pad_zeros_lem (suc n) m buf i a =
    ground (arith, pad_zeros_lem n (write m (buf + i) b'0') buf (i + 1) a)

-- After the digits, which end before `i`, zeros up to `f` places leave the `f` digits of `val`.
abbrev pub HasDigits : ℕ → Mem → ℕ → ℕ → ℕ → Mem × ℕ → Type 0
HasDigits f m buf s val (m', i) =
    (s ≤ i)
    × (i ≤ s + f)
    × ((k : ℕ)
        → k < f
        → pad_zeros (s + f - i) m' buf i (buf + s + k) ≡ hex_char (val / 16 ^ k % 16))
    × ((a : ℕ) → Outside a (buf + s) f → pad_zeros (s + f - i) m' buf i a ≡ m a)

zero-HasDigits : (f : ℕ) (m : Mem) (buf s : ℕ) → HasDigits f m buf s 0 (m, s)
zero-HasDigits f m buf s =
    let e : s + f - s ≡ f = omega arith in
    rw e (
      omega arith,
      omega arith,
      (λ k lt.
          let z : 0 / 16 ^ k ≡ 0 = zero-div (16 ^ k) in
          rw z (pad_zeros_lem f m buf s (buf + s + k) ∙ ground arith)),
      λ a out. pad_zeros_lem f m buf s a ∙ ground arith,
    )

suc-HasDigits :
    (f : ℕ) (m : Mem) (buf s val : ℕ) (r : Mem × ℕ)
    → HasDigits f (write m (buf + s) (hex_char (val % 16))) buf (s + 1) (val / 16) r
    → HasDigits (suc f) m buf s val r
suc-HasDigits f m buf s val (m', i) (lo, hi, digits, rest) =
    let e : s + suc f - i ≡ s + 1 + f - i = omega arith in
    rw e (
      omega arith,
      omega arith,
      digit,
      λ a out. rest a (omega arith) ∙ write_ne m (buf + s) (hex_char (val % 16)) a (omega arith),
    )
  where
    digit :
        (k : ℕ)
        → k < suc f
        → pad_zeros (s + 1 + f - i) m' buf i (buf + s + k) ≡ hex_char (val / 16 ^ k % 16)
    digit zero lt =
        let e : val / 1 ≡ val = omega arith in
        let a : buf + s + 0 ≡ buf + s = omega arith in
        rw (a, e) (rest (buf + s) (omega arith) ∙ write_self m (buf + s) (hex_char (val % 16)))
    digit (suc k) lt =
        let a : buf + s + suc k ≡ buf + (s + 1) + k = omega arith in
        let e : val / 16 ^ suc k ≡ val / 16 / 16 ^ k =
          ap (λ (t : ℕ). val / t) (pow-succ' 16 k) ∙ sym (div-div-eq-div-mul val 16 (16 ^ k)) in
        rw (a, e) (digits k (omega arith))

-- Eight rounds are enough for a word: `f` rounds leave the `f` digits of `val < 16 ^ f`.
pub hex_digits-HasDigits :
    (f : ℕ) (m : Mem) (buf s val : ℕ)
    → val < 16 ^ f
    → HasDigits f m buf s val (hex_digits f m buf s val)
unfolding hex_digits
hex_digits-HasDigits zero m buf s val h =
    let z : val ≡ 0 = omega arith in rw z (zero-HasDigits 0 m buf s)
hex_digits-HasDigits (suc f) m buf s val h = elim (Bool-cases (val == 0)) [
  | inl z ↦ rw (z, hex_digits) (rw (==→eq val 0 z) (zero-HasDigits (suc f) m buf s))
  | inr nz ↦
      rw (nz, hex_digits)
        (suc-HasDigits f m buf s val
          (hex_digits f (write m (buf + s) (hex_char (val % 16))) buf (s + 1) (val / 16))
          (hex_digits-HasDigits f (write m (buf + s) (hex_char (val % 16))) buf (s + 1) (val / 16)
            (omega (arith, pow-suc 16 f))))
]
