-- ===== src/Kmalloc/Early/Inv.antt =====
-- The invariant of the free lists, and that of a block while it is being split.
use oh_my_os.Base.{
  ℕ, suc, ◌+◌, ◌*◌, ◌/◌, ◌%◌, ◌^◌, ◌≤◌, ◌≡◌, ◌≢◌, ◌∙◌, ap, refl, true, List, [], ◌∷◌, arith, ◌==◌,
  eq→==,
}
use oh_my_os.Kmalloc.Early.{Blocks, flip_bit}
use oh_my_os.Kmalloc.Early.Cover.{in_block, cover_list, cover, in_block_self}
use oh_my_os.Bits.Length.{pow-pos}
use native.Mathlib.Nat.{two-pow-succ, div-add-mod, mul-mod_right, mul-div_cancel_left}

module _ (max_order total : ℕ) where
  -- `b` may stand in the free list of order `o`.
  pub record IsListed (s : Blocks) (o b : ℕ) : Type 0 where
    pub aligned : b % 2 ^ o ≡ 0
    pub ordered : s.order b ≡ o
    pub marked : s.free b ≡ true
    pub inside : b + 2 ^ o ≤ total

  abbrev pub AllListed : Blocks → ℕ → List ℕ → Type 0
  AllListed s o [] = Unit
  AllListed s o (b ∷ bs) = IsListed s o b × AllListed s o bs

  pub record IsValid (s : Blocks) : Type 0 where
    pub listed : (o : ℕ) → o ≤ max_order → AllListed s o (s.lists o)
    pub once : (x : ℕ) → cover max_order x s.lists ≤ 1

  -- The block `b` of order `k` is out of the lists, and no listed block meets it.
  pub record Holding (s : Blocks) (b k : ℕ) : Type 0 where
    pub listed : (o : ℕ) → o ≤ max_order → AllListed s o (s.lists o)
    pub once : (x : ℕ) → cover max_order x s.lists + in_block x k b ≤ 1
    pub aligned : b % 2 ^ k ≡ 0
    pub ordered : s.order b ≡ k
    pub inside : b + 2 ^ k ≤ total
    pub bounded : k ≤ max_order

  -- Entries stay listed where the units `b` and `c`, which alone are written, are not covered.
  pub keep_listed :
      (s s' : Blocks) (b c o : ℕ) (bs : List ℕ)
      → ((d : ℕ) → d ≢ b → d ≢ c → (s'.order d ≡ s.order d) × (s'.free d ≡ s.free d))
      → cover_list b o bs ≡ 0
      → cover_list c o bs ≡ 0
      → AllListed s o bs
      → AllListed s' o bs
  keep_listed s s' b c o [] same hb hc h = tt
  keep_listed s s' b c o (d ∷ bs) same hb hc (hd, hs) =
      let db : d ≢ b = λ e. absurd (omega (arith, in_block_self b o, ap (in_block b o) e)) in
      let dc : d ≢ c = λ e. absurd (omega (arith, in_block_self c o, ap (in_block c o) e)) in
      let (eo, ef) = same d db dc in
      (
        record {
          aligned = hd.aligned;
          ordered = eo ∙ hd.ordered;
          marked = ef ∙ hd.marked;
          inside = hd.inside;
        },
        keep_listed s s' b c o bs same (omega arith) (omega arith) hs,
      )

-- An aligned block starts at an even multiple of half its size.
even_multiple : (o b : ℕ) → b % 2 ^ suc o ≡ 0 → b ≡ 2 ^ o * (2 * (b / 2 ^ suc o))
even_multiple o b h =
    omega (arith, div-add-mod b (2 ^ suc o), ap (λ (t : ℕ). t * (b / 2 ^ suc o)) (two-pow-succ o))

-- The buddy of the lower half is the upper half.
pub flip_bit_aligned : (o b : ℕ) → b % 2 ^ suc o ≡ 0 → flip_bit o b ≡ b + 2 ^ o
flip_bit_aligned o b h =
    let q = b / 2 ^ suc o in
    let e : b / 2 ^ o ≡ 2 * q =
      ap (λ (t : ℕ). t / 2 ^ o) (even_multiple o b h) ∙ mul-div_cancel_left (2 * q) (pow-pos o) in
    let even : (b / 2 ^ o % 2 == 0) ≡ true = eq→== (b / 2 ^ o % 2) 0 (omega arith) in rw even refl

pub aligned_half : (o b : ℕ) → b % 2 ^ suc o ≡ 0 → (b % 2 ^ o ≡ 0) × ((b + 2 ^ o) % 2 ^ o ≡ 0)
aligned_half o b h =
    let q = b / 2 ^ suc o in
    let e : b + 2 ^ o ≡ 2 ^ o * (2 * q + 1) = omega (arith, even_multiple o b h) in
    (
      ap (λ (t : ℕ). t % 2 ^ o) (even_multiple o b h) ∙ mul-mod_right (2 ^ o) (2 * q),
      ap (λ (t : ℕ). t % 2 ^ o) e ∙ mul-mod_right (2 ^ o) (2 * q + 1),
    )
