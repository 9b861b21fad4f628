-- ===== src/Kmalloc/Early/Served.antt =====
-- Runs of `kmalloc_early`: the blocks that are handed out are apart.
use oh_my_os.Base.{
  ℕ, ◌+◌, ◌≤◌, ◌≡◌, ◌∙◌, refl, Bool-cases, leb→le, le→leb, subst, inl, inr, arith, Option, some,
  none, List, [], ◌∷◌, ltb, leb, if◌then◌else◌, update_ne,
}
use oh_my_os.Kmalloc.{early_order}
use oh_my_os.Kmalloc.Early.{units, Blocks, alloc_blocks, kmalloc_early, kmalloc_early_init}
use oh_my_os.Kmalloc.Early.Cover.{in_block, in_block_le, cover, init_cover}
use oh_my_os.Kmalloc.Early.Inv.{IsValid}
use oh_my_os.Kmalloc.Early.Alloc.{HandedOut, alloc_blocks_cases}
use native.Mathlib.Decide.{ℕ_discrete}

-- The calls that reach a state from another, with the size and the block of each that got one,
-- the newest first. A size above 12 orders fails the assertion, so that no call follows it.
pub data Served : Blocks → List (ℕ × ℕ) → Blocks → Type 0 where
  start : {s : Blocks} → Served s [] s
  served :
      {s s' t : Blocks} {gone : List (ℕ × ℕ)} (size b : ℕ)
      → Served s gone s'
      → kmalloc_early size s' ≡ some (some b, t)
      → Served s ((size, b) ∷ gone) t
  refused :
      {s s' t : Blocks} {gone : List (ℕ × ℕ)} (size : ℕ)
      → Served s gone s'
      → kmalloc_early size s' ≡ some (none, t)
      → Served s gone t

-- how often the blocks handed out cover the unit `x`
abbrev pub cover_gone : ℕ → List (ℕ × ℕ) → ℕ
cover_gone x [] = 0
cover_gone x ((size, b) ∷ gone) = in_block x (early_order size) b + cover_gone x gone

-- `t` keeps the invariant, and its lists with the blocks handed out cover what `s` covers.
abbrev Accounts : Blocks → List (ℕ × ℕ) → Blocks → Type 0
Accounts s gone t =
    IsValid 12 units t × ((x : ℕ) → cover 12 x t.lists + cover_gone x gone ≡ cover 12 x s.lists)

within_orders :
    (size : ℕ) (s : Blocks) (r : Option ℕ × Blocks)
    → kmalloc_early size s ≡ some r
    → early_order size ≤ 12
unfolding kmalloc_early alloc_blocks
within_orders size s r e = elim (Bool-cases (leb (early_order size) 12)) [
  | inl le ↦ leb→le (early_order size) 12 le
  | inr gt ↦ let never : kmalloc_early size s ≡ none = rw gt refl in cc
]

some-Accounts :
    (s s' t : Blocks) (gone : List (ℕ × ℕ)) (size b : ℕ)
    → Accounts s gone s'
    → kmalloc_early size s' ≡ some (some b, t)
    → Accounts s ((size, b) ∷ gone) t
unfolding kmalloc_early
some-Accounts s s' t gone size b (valid, e) run =
    elim (alloc_blocks_cases (early_order size) s' valid (within_orders size s' (some b, t) run)) [
      | inl (null, _) ↦ cc
      | inr (b', t', run', out) ↦
          let eb : b' ≡ b = cc in
          let et : t' ≡ t = cc in
          let out' : HandedOut 12 units (early_order size) s' b t =
            subst (λ x. HandedOut 12 units (early_order size) s' x t) eb
              (subst (HandedOut 12 units (early_order size) s' b') et out) in
          (out'.valid, λ x. omega (arith, out'.exact x, e x))
    ]

none-Accounts :
    (s s' t : Blocks) (gone : List (ℕ × ℕ)) (size : ℕ)
    → Accounts s gone s'
    → kmalloc_early size s' ≡ some (none, t)
    → Accounts s gone t
unfolding kmalloc_early
none-Accounts s s' t gone size h run =
    elim (alloc_blocks_cases (early_order size) s' h.0 (within_orders size s' (none, t) run)) [
      | inl (null, _) ↦ let et : s' ≡ t = cc in subst (Accounts s gone) et h
      | inr (b', t', run', out) ↦ cc
    ]

Served-Accounts :
    (s t : Blocks) (gone : List (ℕ × ℕ)) → IsValid 12 units s → Served s gone t → Accounts s gone t
Served-Accounts s t gone valid start = (valid, λ x. omega arith)
Served-Accounts s t gone valid (served {s' = s'} {gone = g} size b run step) =
    some-Accounts s s' t g size b (Served-Accounts s s' g valid run) step
Served-Accounts s t gone valid (refused {s' = s'} size run step) =
    none-Accounts s s' t gone size (Served-Accounts s s' gone valid run) step

pub init-IsValid : IsValid 12 units kmalloc_early_init
unfolding kmalloc_early_init
init-IsValid = record {
  listed = λ o le. elim (ℕ_discrete o 12) [
    | yes e ↦
        rw e (record { aligned = refl; ordered = refl; marked = refl; inside = omega arith }, tt)
    | no ne ↦ rw (update_ne {A = List ℕ} (λ _. []) 12 (0 ∷ []) o ne) tt
  ];
  once = λ x. omega (arith, init_cover 12 x, in_block_le x 12 0);
}

-- From the state of `kmalloc_early_init` on, after any run of calls of `kmalloc_early`, no unit of
-- the buffer is in two of the blocks handed out, nor in one of them and in a free list, and each of
-- the 4096 units is in one or the other: blocks do not overlap and nothing is lost.
pub blocks_apart :
    (gone : List (ℕ × ℕ)) (t : Blocks)
    → Served kmalloc_early_init gone t
    → IsValid 12 units t
      × ((x : ℕ) → cover 12 x t.lists + cover_gone x gone ≡ (if ltb x 4096 then 1 else 0))
unfolding kmalloc_early_init
blocks_apart gone t run =
    let (valid, e) = Served-Accounts kmalloc_early_init t gone init-IsValid run in
    (valid, λ x. e x ∙ init_cover 12 x ∙ rw (le→leb 0 x (omega arith)) refl)
