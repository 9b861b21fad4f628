-- ===== src/Page/Refine.antt =====
-- `alloc_pages` hands out pages as the block allocator does blocks.
use oh_my_os.Base.{
  ℕ, zero, suc, ◌+◌, ◌-◌, ◌≤◌, ◌<◌, ◌≡◌, ◌⊎◌, ◌∙◌, sym, ap, refl, subst, arith, Bool, true, false,
  Bool-cases, inl, inr, Option, none, some, List, ◌∷◌, ltb, ◌==◌, eq→==, ge→ltb, ltb→lt, ltb→ge,
  update,
}
use oh_my_os.Kmalloc.Early.{Blocks, split, split_loop, take_block, alloc_from}
use oh_my_os.Kmalloc.Early.Cover.{in_block_halves, in_block_le}
use oh_my_os.Kmalloc.Early.Inv.{Holding}
use oh_my_os.Kmalloc.Early.Split.{split-halves, split-Holding}
use oh_my_os.Kmalloc.Early.Alloc.{
  taken_cover, taken-Holding, HandedOut, NoneFrom, list_cases, alloc_from_cases,
}
use oh_my_os.Page.{
  Zone, max_order, total_pages, lists_of, set_lists, split_pages, take_page, find_page, alloc_pages,
}
use oh_my_os.Page.Kinds.{IsZone, KeptKinds, kept_kinds}
use oh_my_os.Page.View.{
  view, IsOf, SameElse, same_else, SameElse-trans, view-set_lists, view-fields, split_page-view,
}

IsOf-half :
    (h : Bool) (z z' : Zone) (b o : ℕ) → SameElse h z z' → IsOf h z b (suc o) → IsOf h z' b o
IsOf-half h z z' b o same of x i =
    let (there, kind) = of x (omega (arith, in_block_halves x o b, i, in_block_le x (suc o) b)) in
    (ap (λ (f : ℕ → Bool). f x) same.valid ∙ there, ap (λ (f : ℕ → Bool). f x) same.highmem ∙ kind)

-- What a loop that splits does to the zone: it is the loop of the blocks, in the view.
abbrev Splits : Bool → Zone → Option Zone → Blocks → Type 0
Splits h z r s = (z' : Zone) × (r ≡ some z') × (view h z' ≡ s) × SameElse h z z'

split_pages-view :
    (fuel order b k : ℕ) (h : Bool) (z : Zone)
    → Holding max_order total_pages (view h z) b k
    → IsOf h z b k
    → Splits h z (split_pages fuel order b z) (split_loop fuel order b (view h z))
unfolding split_pages split_loop
split_pages-view zero order b k h z held of = (z, refl, refl, same_else h z)
split_pages-view (suc f) order b zero h z held of =
    let stop : ltb order (z.order b) ≡ false =
      ge→ltb order (z.order b) (omega (arith, held.ordered)) in
    rw (stop, split_pages, split_loop) (z, refl, refl, same_else h z)
split_pages-view (suc f) order b (suc o) h z held of = elim (Bool-cases (ltb order (z.order b))) [
  | inr stop ↦ rw (stop, split_pages, split_loop) (z, refl, refl, same_else h z)
  | inl more ↦
      let (z₁, run, seen, same) = split_page-view h b o z held of in
      let held₁ : Holding max_order total_pages (split b (view h z)) b o =
        rw (split-halves max_order total_pages (view h z) b o held)
          (split-Holding max_order total_pages (view h z) b o held) in
      let (z₂, run₂, seen₂, same₂) =
        split_pages-view f order b o h z₁
          (subst (λ s. Holding max_order total_pages s b o) (sym seen) held₁)
          (IsOf-half h z z₁ b o same of) in
      rw (more, split_pages, split_loop)
        (rw (run, split_pages)
          (
            z₂,
            run₂,
            seen₂ ∙ ap (λ s. split_loop f order b s) seen,
            SameElse-trans h z z₁ z₂ same same₂,
          ))
]

-- Both hand out the same block, and end alike.
abbrev BothTake : Bool → Zone → Option (Option ℕ × Zone) → Option (Option ℕ × Blocks) → Type 0
BothTake h z r q =
    (b : ℕ) × (z' : Zone) × (r ≡ some (some b, z'))
    × (q ≡ some (some b, view h z'))
    × SameElse h z z'

take_page-take_block :
    (h : Bool) (z : Zone)
    → IsZone h z
    → (order i b : ℕ) (rest : List ℕ) → lists_of h z i ≡ b ∷ rest
    → i ≤ max_order
    → BothTake h z (take_page h order i b rest z) (take_block order i b rest (view h z))
unfolding take_page take_block
take_page-take_block h z zone order i b rest first le =
    let s = view h z in
    let lists = update (lists_of h z) i rest in
    let z₀ = set_lists h lists z in
    let (seen₀, same₀) = view-set_lists h lists z in
    let held = taken-Holding max_order total_pages s zone.valid i b rest first le in
    let of₀ : IsOf h z₀ b i = λ x e.
      let (there, kind) = zone.kinds x (
        omega (
          arith,
          taken_cover max_order total_pages s zone.valid i b rest first le x,
          e,
          zone.valid.once x,
        )) in
      (
        ap (λ (f : ℕ → Bool). f x) same₀.valid ∙ there,
        ap (λ (f : ℕ → Bool). f x) same₀.highmem ∙ kind,
      ) in
    let (z₁, run, seen₁, same₁) =
      split_pages-view (z.order b) order b i h z₀
        (subst (λ t. Holding max_order total_pages t b i) (sym seen₀) held) of₀ in
    let (seen₂, same₂) = view-fields h z₁ z₁.order (update z₁.free b false) in
    let z₂ : Zone = record z₁ { free = update z₁.free b false } in
    let e : (i == z.order b) ≡ true = eq→== i (z.order b) (sym held.ordered) in
    rw (e, take_page, take_block)
      (rw (run, take_page)
        (
          b,
          z₂,
          refl,
          ap (λ t. some (some b, t))
              (sym (
                seen₂
                ∙ ap (λ (t : Blocks). record t { free = update t.free b false })
                    (seen₁ ∙ ap (λ t. split_loop (z.order b) order b t) seen₀))),
          SameElse-trans h z z₁ z₂ (SameElse-trans h z z₀ z₁ same₀ same₁) same₂,
        ))

find_page-alloc_from :
    (rounds : ℕ) (h : Bool) (order i : ℕ) (z : Zone)
    → IsZone h z
    → rounds + i ≡ suc max_order
    → ((find_page rounds h order i z ≡ some (none, z))
        × (alloc_from rounds order i (view h z) ≡ some (none, view h z)))
      ⊎ BothTake h z (find_page rounds h order i z) (alloc_from rounds order i (view h z))
unfolding find_page alloc_from
find_page-alloc_from zero h order i z zone e = inl (refl, refl)
find_page-alloc_from (suc n) h order i z zone e = elim (list_cases (lists_of h z i)) [
  | inl empty ↦
      rw (empty, find_page, alloc_from)
        (find_page-alloc_from n h order (i + 1) z zone (omega arith))
  | inr (b, rest, first) ↦
      rw (first, find_page, alloc_from)
        (inr (take_page-take_block h z zone order i b rest first (omega arith)))
]

-- What `alloc_pages` may answer: NULL, or a block that the invariant's lists lose, all else kept.
abbrev pub Answers : Bool → ℕ → Zone → Option (Option ℕ × Zone) → Type 0
Answers h order z r =
    ((r ≡ some (none, z)) × NoneFrom max_order total_pages order (view h z))
    ⊎ ((b : ℕ) × (z' : Zone) × (r ≡ some (some b, z'))
        × HandedOut max_order total_pages order (view h z) b (view h z')
        × SameElse h z z'
        × KeptKinds h z b z')

find_page-Answers :
    (h : Bool) (order : ℕ) (z : Zone)
    → IsZone h z
    → order ≤ max_order
    → Answers h order z (find_page (11 - order) h order order z)
find_page-Answers h order z zone le =
    elim (find_page-alloc_from (11 - order) h order order z zone (omega arith)) [
      | inl (r, q) ↦
          elim (alloc_from_cases max_order total_pages (11 - order) order order (view h z)
            zone.valid (omega arith) (omega arith)) [
              | inl (_, none_above) ↦ inl (r, none_above)
              | inr (b, s', found, _) ↦ cc
            ]
      | inr (b, z', r, q, same) ↦
          elim (alloc_from_cases max_order total_pages (11 - order) order order (view h z)
            zone.valid (omega arith) (omega arith)) [
              | inl (null, _) ↦ cc
              | inr (b', s', found, out) ↦
                  let eb : b' ≡ b = cc in
                  let es : s' ≡ view h z' = cc in
                  let handed : HandedOut max_order total_pages order (view h z) b (view h z') =
                    subst (λ t. HandedOut max_order total_pages order (view h z) b t) es
                      (subst (λ t. HandedOut max_order total_pages order (view h z) t s') eb out) in
                  inr (
                    b,
                    z',
                    r,
                    handed,
                    same,
                    kept_kinds h z b z' zone same handed.apart handed.valid
                        (λ x. omega (arith, handed.exact x)),
                  )
            ]
    ]

-- For an order above 10 `alloc_pages` answers NULL. For another, on a zone with the invariant, it passes
-- its assertions and answers NULL, the zone unchanged, where no list of the kind from the order on has a
-- page, or it hands out a block of the order as the allocator of mm/kmalloc.c would: aligned, in range,
-- marked as taken, of pages that were free and are free no more, while every other page stays as free
-- as it was. Then the flags that say which pages there are, the lists of the other kind, and the order
-- and the mark of every page outside the free block that it was cut from are as they were, the invariant
-- holds again, and it holds for the other kind if it did before.
pub alloc_pages_cases :
    (h : Bool) (order : ℕ) (z : Zone)
    → IsZone h z
    → ((10 < order) × (alloc_pages h order z ≡ some (none, z)))
      ⊎ ((order ≤ 10) × Answers h order z (alloc_pages h order z))
unfolding alloc_pages
alloc_pages_cases h order z zone = elim (Bool-cases (ltb 10 order)) [
  | inl more ↦ rw (more, alloc_pages) (inl (ltb→lt 10 order more, refl))
  | inr fits ↦
      let le : order ≤ 10 = ltb→ge 10 order fits in
      rw (fits, alloc_pages) (inr (le, find_page-Answers h order z zone le))
]
