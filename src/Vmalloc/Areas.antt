-- ===== src/Vmalloc/Areas.antt =====
-- The state of mm/vmalloc.c between two calls.
use oh_my_os.Base.{
  ℕ, zero, suc, ◌+◌, ◌-◌, ◌*◌, ◌^◌, ◌<◌, ◌≤◌, ◌≡◌, ◌≢◌, ◌⊎◌, inl, inr, ◌∙◌, sym, ap, refl, arith,
  true, false, Option, none, some, List, [], ◌∷◌, eq→==, ne→==,
}
use oh_my_os.RbTree.Shape.{Tree, IsIn}
use oh_my_os.RbTree.Turn.{one, one_self}
use oh_my_os.RbTree.Order.{occurs}
use oh_my_os.RbTree.Insert.Correct.{IsRbTree}
use oh_my_os.Slab.{unlink}
use oh_my_os.Vmalloc.{page_size, vmalloc_start, vmalloc_end, Vmas, first_free}
use oh_my_os.Vmalloc.Tiles.{Tiles}
use native.Mathlib.Decide.{ℕ_discrete}

-- A free list holds free areas that are large enough for its order; the area `v` is left out.
abbrev pub Listed : Vmas → (ℕ → Type 0) → Type 0
Listed s P =
    (i z : ℕ)
    → P z
    → 0 < occurs z (s.free_vma_lists i)
    → (0 < occurs z s.vma_list) × (s.free z ≡ true) × (2 ^ i * page_size ≤ s.end z - s.start z)

-- The areas cover the addresses from VMALLOC_START to VMALLOC_END without gaps and overlaps, and the
-- ranges in the tree are those of the areas that are not free.
pub record IsMapped (s : Vmas) (t : Tree) : Type 0 where
  pub tiles : Tiles s.start s.end vmalloc_start s.vma_list vmalloc_end
  pub once : (z : ℕ) → occurs z s.vma_list ≤ 1
  pub listed_once : (i z : ℕ) → occurs z (s.free_vma_lists i) ≤ 1
  pub tree : IsRbTree s.vma_tree t
  pub used :
      (n : ℕ)
      → IsIn n t
      → (0 < occurs (s.vma_tree.value n) s.vma_list)
        × (s.free (s.vma_tree.value n) ≡ false)
        × (s.vma_tree.start n ≡ s.start (s.vma_tree.value n))
        × (s.vma_tree.end n + 1 ≡ s.end (s.vma_tree.value n))
  pub stored :
      (z : ℕ)
      → 0 < occurs z s.vma_list
      → s.free z ≡ false
      → (n : ℕ) × IsIn n t × (s.vma_tree.value n ≡ z)

-- The state between two calls.
pub record IsVmalloc (s : Vmas) (t : Tree) : Type 0 where
  pub mapped : IsMapped s t
  pub listed : Listed s (λ _. Unit)
  pub unlocked : s.locked ≡ false

pub occurs-unlink : (z v : ℕ) (xs : List ℕ) → occurs z (unlink v xs) ≤ occurs z xs
occurs-unlink z v [] = omega arith
occurs-unlink z v (x ∷ xs) = elim (ℕ_discrete x v) [
  | yes e ↦ rw (eq→== x v e) (omega arith)
  | no ne ↦ rw (ne→== x v ne) (omega (arith, occurs-unlink z v xs))
]

pub ne→one : (z x : ℕ) → z ≢ x → one z x ≡ 0
ne→one z x ne = rw (ne→== z x ne) refl

pub unlink_once : (v : ℕ) (xs : List ℕ) → occurs v xs ≤ 1 → occurs v (unlink v xs) ≡ 0
unlink_once v [] h = refl
unlink_once v (x ∷ xs) h = elim (ℕ_discrete x v) [
  | yes e ↦ rw (eq→== x v e) (omega (arith, h, ap (one v) e, one_self v))
  | no ne ↦
      rw (ne→== x v ne)
        (omega (arith, unlink_once v xs (omega (arith, h)), ne→one v x (λ q. ne (sym q))))
]

-- The outcome of the search of the free lists.
abbrev Search : ℕ → ℕ → (ℕ → List ℕ) → Option ℕ → Type 0
Search n i lists r =
    ((r ≡ none) × ((j : ℕ) → i ≤ j → j < i + n → lists j ≡ []))
    ⊎ ((v : ℕ) × (r ≡ some v) × ((j : ℕ) × (i ≤ j) × (0 < occurs v (lists j))))

go_on :
    (n i : ℕ) (lists : ℕ → List ℕ) (r : Option ℕ)
    → lists i ≡ []
    → Search n (i + 1) lists r
    → Search (suc n) i lists r
go_on n i lists r e (inl (q, empty)) = inl (
  q,
  λ j le lt. elim (ℕ_discrete j i) [
    | yes p ↦ ap lists p ∙ e
    | no ne ↦ empty j (omega (arith, le, ne)) (omega (arith, lt))
  ],
)
go_on n i lists r e (inr (v, q, (j, le, h))) = inr (v, q, (j, omega (arith, le), h))

at_list :
    (n i : ℕ) (lists : ℕ → List ℕ) (xs : List ℕ)
    → lists i ≡ xs
    → Search n (i + 1) lists (first_free n (i + 1) lists)
    → Search (suc n) i lists (first_free (suc n) i lists)
unfolding first_free
at_list n i lists [] e rest =
    rw (e, first_free) (go_on n i lists (first_free n (i + 1) lists) e rest)
at_list n i lists (v ∷ xs) e rest =
    rw (e, first_free) (inr (v, refl, (i, omega arith, omega (arith, ap (occurs v) e, one_self v))))

pub first_free-Search : (n i : ℕ) (lists : ℕ → List ℕ) → Search n i lists (first_free n i lists)
unfolding first_free
first_free-Search zero i lists = inl (refl, λ j le lt. absurd (omega (arith, le, lt)))
first_free-Search (suc n) i lists =
    at_list n i lists (lists i) refl (first_free-Search n (i + 1) lists)
