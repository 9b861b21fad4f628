-- ===== src/Vmalloc.antt =====
-- mm/vmalloc.c: areas of virtual addresses. An area is the address of its `struct vm_area`, 0 being NULL,
-- and each field is a function from addresses. The list of all areas and the free lists are sequences,
-- the first node after the head first, and the allocated areas are in a tree of ranges.
pub mod Areas
pub mod Tiles
pub mod Alloc
pub mod Free
pub mod Start
pub mod Use
mod Tests
use oh_my_os.Base.{
  ℕ, zero, suc, ◌+◌, ◌-◌, ◌/◌, Bool, true, false, not, ◌&&◌, ◌||◌, Option, none, some, List, [],
  ◌∷◌, ltb, leb, ◌==◌, if◌then◌else◌, update, add32, sub32,
}
use oh_my_os.Bits.{ilog2_roundup, ilog2_rounddown}
use oh_my_os.Slab.{unlink}
use oh_my_os.RbTree.{RbTree, rb_tree_search, rb_node_value}
use oh_my_os.RbTree.Insert.{rb_tree_insert}
use oh_my_os.RbTree.Validate.{rb_tree_create}

abbrev pub page_size : ℕ
page_size = 4096

abbrev pub vmalloc_start : ℕ
vmalloc_start = page_size

-- KERNEL_VIRT_BASE
abbrev pub vmalloc_end : ℕ
vmalloc_end = 3221225472

abbrev pub max_vma_order : ℕ
max_vma_order = 20

-- the fields of the areas, `vma_list`, `free_vma_lists`, `vma_tree` and `vma_lock`
pub record Vmas : Type 0 where
  pub start : ℕ → ℕ
  pub end : ℕ → ℕ
  pub free : ℕ → Bool
  pub vma_list : List ℕ
  pub free_vma_lists : ℕ → List ℕ
  pub vma_tree : RbTree
  pub locked : Bool

unfoldable pub vma_length : ℕ → Vmas → ℕ
vma_length vma s = sub32 (s.end vma) (s.start vma)

-- `vma_prev` and `vma_next`, 0 for NULL
pub vma_prev_after : ℕ → ℕ → List ℕ → ℕ
vma_prev_after vma prev [] = 0
vma_prev_after vma prev (x ∷ xs) = if x == vma then prev else vma_prev_after vma x xs

pub vma_prev : ℕ → Vmas → ℕ
unfolding vma_prev_after
vma_prev vma s = vma_prev_after vma 0 s.vma_list

pub next_in : ℕ → List ℕ → ℕ
next_in vma [] = 0
next_in vma (x ∷ []) = 0
next_in vma (x ∷ y ∷ xs) = if x == vma then y else next_in vma (y ∷ xs)

pub vma_next : ℕ → Vmas → ℕ
unfolding next_in
vma_next vma s = next_in vma s.vma_list

-- `spin_lock`: a lock that this processor holds itself is never given back, and the assertion on the
-- number of rounds ends the wait.
unfoldable pub lock : Vmas → Option Vmas
lock s = if s.locked then none else some (record s { locked = true })

unfoldable pub unlock : Vmas → Vmas
unlock s = record s { locked = false }

-- `none` is a failed assertion or the fuel run out.
unfoldable pub find_vma : ℕ → ℕ → Vmas → Option (ℕ × Vmas)
find_vma fuel va s =
    if ltb va vmalloc_start || not (ltb va vmalloc_end) then none else elim (lock s) [
      | none ↦ none
      | some s₁ ↦ elim (rb_tree_search fuel s₁.vma_tree va) [
        | none ↦ none
        | some node ↦
            if node == 0 || rb_node_value node s₁.vma_tree == 0 then none else elim (lock s₁) [
              | none ↦ none
              | some s₂ ↦ some (rb_node_value node s₁.vma_tree, s₂)
            ]
      ]
    ]

-- the list with a node after another
abbrev pub insert_after : ℕ → ℕ → List ℕ → List ℕ
insert_after cur node [] = []
insert_after cur node (x ∷ xs) = if x == cur then x ∷ node ∷ xs else x ∷ insert_after cur node xs

-- What `alloc_vma` returns: an area, NULL, or the pointer that it never set.
pub data Answer : Type 0 where
  area : ℕ → Answer
  null : Answer
  unset : Answer

-- The loop that looks for a free list with an area, from the order `i` on over `n` orders.
unfoldable pub first_free : ℕ → ℕ → (ℕ → List ℕ) → Option ℕ
first_free zero i lists = none
first_free (suc n) i lists = elim (lists i) [ [] ↦ first_free n (i + 1) lists | vma ∷ _ ↦ some vma ]

-- the split: what is above `len` bytes becomes the free area `buddy`
unfoldable pub split_vma : ℕ → ℕ → ℕ → Vmas → Option Vmas
split_vma len vma buddy s =
    let cut = add32 (s.start vma) len in
    let buddy_order = ilog2_rounddown (sub32 (s.end vma) cut / page_size) in
    if ltb max_vma_order buddy_order
    then none
    else some (record s {
      end = update (update s.end buddy (s.end vma)) vma cut;
      start = update s.start buddy cut;
      free = update s.free buddy true;
      vma_list = insert_after vma buddy s.vma_list;
      free_vma_lists = update s.free_vma_lists buddy_order (buddy ∷ s.free_vma_lists buddy_order);
    })

-- the area out of its free list and into the tree; the answer of `rb_tree_insert` is not looked at
unfoldable pub take_vma : ℕ → Option ℕ → ℕ → Vmas → Option (Answer × Vmas)
take_vma fuel node vma s =
    elim (rb_tree_insert fuel node (s.start vma) (sub32 (s.end vma) 1) vma s.vma_tree) [
      | none ↦ none
      | some (_, tree) ↦ some (
        area vma,
        unlock (record s {
          free_vma_lists = λ i. unlink vma (s.free_vma_lists i);
          free = update s.free vma false;
          vma_tree = tree;
        }),
      )
    ]

-- the body of the loop at the area that it found
unfoldable pub serve : ℕ → Option ℕ → Option ℕ → ℕ → ℕ → Vmas → Option (Answer × Vmas)
serve fuel buddy node len vma s =
    if not (s.free vma && leb len (sub32 (s.end vma) (s.start vma)))
    then none
    else if ltb (vma_length vma s) (add32 len page_size)
    then take_vma fuel node vma s
    else elim buddy [
      | none ↦ some (null, unlock s)
      | some b ↦ elim (split_vma len vma b s) [ none ↦ none | some s₁ ↦ take_vma fuel node vma s₁ ]
    ]

-- `buddy` and `node` are the answers of `kmalloc` for the area that is left and for the node of the tree.
unfoldable pub alloc_vma : ℕ → Option ℕ → Option ℕ → ℕ → Vmas → Option (Answer × Vmas)
alloc_vma fuel buddy node len s =
    let order = ilog2_roundup (len / page_size) in
    elim (lock s) [
      | none ↦ none
      | some s₁ ↦ elim (first_free (max_vma_order + 1 - order) order s₁.free_vma_lists) [
        | none ↦ some (unset, unlock s₁)
        | some vma ↦ serve fuel buddy node len vma s₁
      ]
    ]

-- `answer` is that of `kmalloc`; the tree is the memory for the new one.
unfoldable pub vmalloc_init : Option ℕ → Vmas → Option Vmas
vmalloc_init none s = none
vmalloc_init (some vma) s =
    let order = ilog2_rounddown (sub32 vmalloc_end vmalloc_start / page_size) in
    some (record {
      start = update s.start vma vmalloc_start;
      end = update s.end vma vmalloc_end;
      free = update s.free vma true;
      vma_list = vma ∷ [];
      free_vma_lists = update (λ _. []) order (vma ∷ []);
      vma_tree = rb_tree_create s.vma_tree;
      locked = false;
    })
