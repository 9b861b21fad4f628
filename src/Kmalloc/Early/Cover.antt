-- ===== src/Kmalloc/Early/Cover.antt =====
-- Which units the free lists cover, and how often.
use oh_my_os.Base.{
  ℕ, zero, suc, ◌+◌, ◌^◌, ◌≤◌, ◌<◌, ◌≡◌, refl, sym, ap, ap₂, List, [], ◌∷◌, arith, ltb, leb, ◌&&◌,
  if◌then◌else◌, update, update_ne, update_self,
}
use native.Mathlib.Nat.{two-pow-succ}
use oh_my_os.Bits.Length.{pow-pos}
use native.Mathlib.Decide.{ℕ_discrete}

-- 1 for a unit `x` of the block `b` of order `o`
abbrev pub in_block : ℕ → ℕ → ℕ → ℕ
in_block x o b = if leb b x && ltb x (b + 2 ^ o) then 1 else 0

abbrev pub cover_list : ℕ → ℕ → List ℕ → ℕ
cover_list x o [] = 0
cover_list x o (b ∷ bs) = in_block x o b + cover_list x o bs

-- how often the lists below `n` cover the unit `x`
abbrev pub cover_below : ℕ → ℕ → (ℕ → List ℕ) → ℕ
cover_below x zero lists = 0
cover_below x (suc n) lists = cover_list x n (lists n) + cover_below x n lists

cover_below-update_above :
    (x n o : ℕ) (lists : ℕ → List ℕ) (bs : List ℕ)
    → n ≤ o
    → cover_below x n (update lists o bs) ≡ cover_below x n lists
cover_below-update_above x zero o lists bs h = refl
cover_below-update_above x (suc n) o lists bs h =
    ap₂ ◌+◌ (ap (cover_list x n) (update_ne lists o bs n (omega arith)))
      (cover_below-update_above x n o lists bs (omega arith))

-- Writing one list changes the count by what the list covers.
cover_below-update :
    (x n o : ℕ) (lists : ℕ → List ℕ) (bs : List ℕ)
    → o < n
    → cover_below x n (update lists o bs) + cover_list x o (lists o)
      ≡ cover_below x n lists + cover_list x o bs
cover_below-update x zero o lists bs h = absurd (omega arith)
cover_below-update x (suc n) o lists bs h = elim (ℕ_discrete o n) [
  | yes e ↦ rw e (
      omega (
        arith,
        ap (cover_list x n) (update_self lists n bs),
        cover_below-update_above x n n lists bs (omega arith),
      ))
  | no ne ↦ omega (
    arith,
    ap (cover_list x n) (update_ne lists o bs n (λ e. ne (sym e))),
    cover_below-update x n o lists bs (omega arith),
  )
]

cover_list-le-cover_below :
    (x n o : ℕ) (lists : ℕ → List ℕ) → o < n → cover_list x o (lists o) ≤ cover_below x n lists
cover_list-le-cover_below x zero o lists h = absurd (omega arith)
cover_list-le-cover_below x (suc n) o lists h = elim (ℕ_discrete o n) [
  | yes e ↦ rw e (omega arith)
  | no ne ↦ omega (arith, cover_list-le-cover_below x n o lists (omega arith))
]

cover_below_empty : (x n : ℕ) → cover_below x n (λ _. []) ≡ 0
cover_below_empty x zero = refl
cover_below_empty x (suc n) = omega (arith, cover_below_empty x n)

module _ (max_order : ℕ) where
  -- how often the free lists cover the unit `x`
  pub cover : ℕ → (ℕ → List ℕ) → ℕ
  cover x lists = cover_below x (suc max_order) lists

  pub cover-update :
      (x o : ℕ) (lists : ℕ → List ℕ) (bs : List ℕ)
      → o ≤ max_order
      → cover x (update lists o bs) + cover_list x o (lists o) ≡ cover x lists + cover_list x o bs
  unfolding cover
  cover-update x o lists bs h = cover_below-update x (suc max_order) o lists bs (omega arith)

  pub cover_list-le-cover :
      (x o : ℕ) (lists : ℕ → List ℕ) → o ≤ max_order → cover_list x o (lists o) ≤ cover x lists
  unfolding cover
  cover_list-le-cover x o lists h =
      cover_list-le-cover_below x (suc max_order) o lists (omega arith)

  -- One free block covers its own units once, and nothing else.
  pub init_cover : (x : ℕ) → cover x (update (λ _. []) max_order (0 ∷ [])) ≡ in_block x max_order 0
  unfolding cover
  init_cover x = omega (
    arith,
    cover-update x max_order (λ _. []) (0 ∷ []) (omega arith),
    cover_below_empty x (suc max_order),
  )

-- A block covers its own first unit.
pub in_block_self : (b o : ℕ) → in_block b o b ≡ 1
in_block_self b o = ground (arith, pow-pos o)

pub in_block_le : (x o b : ℕ) → in_block x o b ≤ 1
in_block_le x o b = ground arith

-- The two halves of a block cover what it covers.
pub in_block_halves : (x o b : ℕ) → in_block x o b + in_block x o (b + 2 ^ o) ≡ in_block x (suc o) b
in_block_halves x o b = ground (arith, two-pow-succ o, pow-pos o)
