-- ===== src/Vmalloc/Free.antt =====
-- `free_vma` of mm/vmalloc.c.
use oh_my_os.Base.{
  ℕ, zero, suc, ◌+◌, Bool, true, false, not, ◌&&◌, ◌||◌, ltb, leb, Option, none, some, List, [],
  ◌∷◌, ◌==◌, if◌then◌else◌, update,
}
use oh_my_os.RbTree.Remove.{rb_tree_remove}
use oh_my_os.Slab.{unlink}
use oh_my_os.Vmalloc.{
  vmalloc_start, vmalloc_end, max_vma_order, Vmas, vma_prev, vma_next, lock, unlock,
}

-- whether an area is in a list
pub is_in : ℕ → List ℕ → Bool
is_in z [] = false
is_in z (x ∷ xs) = x == z || is_in z xs

-- whether it is in one of the free lists from the order `i` on, over `n` orders
pub is_listed : ℕ → ℕ → ℕ → (ℕ → List ℕ) → Bool
is_listed zero i z lists = false
is_listed (suc n) i z lists = is_in z (lists i) || is_listed n (i + 1) z lists

-- A free neighbour out of the list of areas and out of its free list; `none` is an area that is in no
-- free list, whose node `list_remove` would unlink by the neighbours that it had once.
unfoldable pub drop_area : ℕ → Vmas → Option Vmas
unfolding is_in is_listed
drop_area vma s =
    if not (is_listed (max_vma_order + 1) 0 vma s.free_vma_lists)
    then none
    else some (record s {
      vma_list = unlink vma s.vma_list;
      free_vma_lists = λ i. unlink vma (s.free_vma_lists i);
    })

-- The loops over the free neighbours; `none` is a failed assertion, the fuel run out, or as above.
unfoldable pub merge_prev : ℕ → ℕ → Vmas → Option Vmas
merge_prev zero vma s = none
merge_prev (suc f) vma s =
    let prev = vma_prev vma s in
    if prev == 0 || not (s.free prev)
    then some s
    else if not (s.end prev == s.start vma)
    then none
    else elim (drop_area prev (record s { start = update s.start vma (s.start prev) })) [
      | none ↦ none
      | some s₁ ↦ merge_prev f vma s₁
    ]

unfoldable pub merge_next : ℕ → ℕ → Vmas → Option Vmas
merge_next zero vma s = none
merge_next (suc f) vma s =
    let next = vma_next vma s in
    if next == 0 || not (s.free next)
    then some s
    else if not (s.end vma == s.start next)
    then none
    else elim (drop_area next (record s { end = update s.end vma (s.end next) })) [
      | none ↦ none
      | some s₁ ↦ merge_next f vma s₁
    ]

-- the part under the lock
unfoldable pub give_back : ℕ → ℕ → Vmas → Option Vmas
give_back fuel vma s = elim (rb_tree_remove fuel (s.start vma) s.vma_tree) [
  | none ↦ none
  | some (_, tree) ↦ elim (merge_prev fuel vma (record s { vma_tree = tree })) [
    | none ↦ none
    | some s₁ ↦ elim (merge_next fuel vma s₁) [
      | none ↦ none
      | some s₂ ↦ some (unlock (record s₂ { free = update s₂.free vma true }))
    ]
  ]
]

unfoldable pub free_vma : ℕ → ℕ → Vmas → Option Vmas
free_vma fuel vma s =
    if not (not (vma == 0) && (leb vmalloc_start (s.start vma) && ltb (s.end vma) vmalloc_end))
    then none
    else elim (lock s) [ none ↦ none | some s₁ ↦ give_back fuel vma s₁ ]
