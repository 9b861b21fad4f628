-- ===== src/Bits/Length.antt =====
-- `fls` is the length of a word in bits.
use oh_my_os.Base.{
  ℕ, zero, suc, ◌+◌, ◌-◌, ◌*◌, ◌/◌, ◌%◌, ◌^◌, ◌≤◌, ◌<◌, ◌≡◌, ap, Bool-cases, inl, inr, arith, ◌==◌,
  if◌then◌else◌, tests, ==→ne, ne→==, ==→eq,
}
use oh_my_os.Bits.{narrow, fls, upper}
use native.Mathlib.Nat.{
  pow-suc, add-zero, mod-eq_of_lt, div-mul-le_self, lt-div-mul-add, div-lt_iff_lt-mul,
}

pub pow-add : (a b : ℕ) → 2 ^ (a + b) ≡ 2 ^ a * 2 ^ b
pow-add a zero = ground (arith, add-zero a)
pow-add a (suc b) =
    let e : a + suc b ≡ suc (a + b) = omega arith in
    rw e (
      omega (
        arith,
        pow-suc 2 (a + b),
        ap (λ (t : ℕ). 2 ^ a * t) (pow-suc 2 b),
        ap (λ (t : ℕ). t * 2) (pow-add a b),
      ))

pub pow-pos : (a : ℕ) → 0 < 2 ^ a
pow-pos zero = omega arith
pow-pos (suc a) = rw pow-suc (omega (arith, pow-pos a))

-- `x` is what is left of the word `w` when its `r` lowest bits are dropped, and has up to `k` bits.
record Left (w k : ℕ) (s : ℕ × ℕ) : Type 0 where
  pos : 0 < s.0
  short : s.0 < 2 ^ k
  low : s.0 * 2 ^ s.1 ≤ w
  high : w < (s.0 + 1) * 2 ^ s.1

mul_mono : (a b t : ℕ) → a ≤ b → a * t ≤ b * t
mul_mono a b t h = grind arith

div-bounds : (x p : ℕ) → 0 < p → (x / p * p ≤ x) × (x < (x / p + 1) * p)
div-bounds x p h = (div-mul-le_self x p, omega (arith, lt-div-mul-add {a = x} {b = p} h))

narrow-Left : (w k : ℕ) (s : ℕ × ℕ) → Left w (k + k) s → Left w k (narrow k s)
unfolding narrow
narrow-Left w k (x, r) l =
    let p = 2 ^ k in
    let short : x / p < p =
      (div-lt_iff_lt-mul (pow-pos k)).1 (omega (arith, l.short, pow-add k k)) in
    let e : upper k x ≡ x / p = mod-eq_of_lt short in
    rw e (elim (Bool-cases (x / p == 0)) [
      | inl small ↦
          let less : x < p = omega (
            arith,
            ap (λ (t : ℕ). (t + 1) * p) (==→eq (x / p) 0 small),
            (div-bounds x p (pow-pos k)).1,
          ) in
          rw small (record { pos = l.pos; short = less; low = l.low; high = l.high })
      | inr big ↦ rw big (record {
        pos = omega (tests, ==→ne (x / p) 0 big);
        short = short;
        low = omega (
          arith,
          l.low,
          ap (λ (t : ℕ). x / p * t) (pow-add r k),
          mul_mono (x / p * p) x (2 ^ r) (div-bounds x p (pow-pos k)).0,
        );
        high = omega (
          arith,
          l.high,
          ap (λ (t : ℕ). (x / p + 1) * t) (pow-add r k),
          mul_mono (x + 1) ((x / p + 1) * p) (2 ^ r)
              (omega (arith, (div-bounds x p (pow-pos k)).1)),
        );
      })
    ])

-- One bit is left, and it is counted.
last_bit :
    (w : ℕ) (s : ℕ × ℕ)
    → Left w 1 s
    → let n = (if s.0 % 2 == 0 then s.1 else s.1 + 1) in (0 < n) × (2 ^ (n - 1) ≤ w) × (w < 2 ^ n)
last_bit w (x, r) l =
    let one : x ≡ 1 = omega (arith, l.pos, l.short) in
    let n : r + 1 - 1 ≡ r = omega arith in
    let low : 2 ^ (r + 1 - 1) ≤ w = rw n (omega (arith, l.low, ap (λ (t : ℕ). t * 2 ^ r) one)) in
    let high : w < 2 ^ (r + 1) =
      omega (arith, l.high, ap (λ (t : ℕ). (t + 1) * 2 ^ r) one, pow-add r 1) in
    rw one (omega arith, low, high)

-- `fls` of a 32-bit word other than 0 is its length: the least `r` with `x < 2 ^ r`.
pub fls_bounds :
    (x : ℕ) → 0 < x → x < 2 ^ 32 → (0 < fls x) × (2 ^ (fls x - 1) ≤ x) × (x < 2 ^ fls x)
unfolding fls
fls_bounds x pos short =
    let start : Left x 32 (x, 0) = record {
      pos = pos;
      short = short;
      low = omega arith;
      high = omega arith;
    } in
    let l₂ = narrow-Left x 2 _ (narrow-Left x 4 _ (narrow-Left x 8 _ (narrow-Left x 16 _ start))) in
    let l = narrow-Left x 1 _ l₂ in rw (ne→== x 0 (omega arith)) (last_bit x _ l)
