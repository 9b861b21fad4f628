-- ===== src/Vmalloc/Tests.antt =====
-- The areas at work, from their start on, and their theorems there.
use oh_my_os.Base.{
  ℕ, ◌/◌, ◌≤◌, ◌≡◌, ◌⊎◌, inl, inr, sym, refl, arith, true, false, Option, none, some, [], ◌∷◌,
}
use oh_my_os.RbTree.{rb_tree_search, search_loop, is_black}
use oh_my_os.RbTree.Shape.{leaf}
use oh_my_os.Bits.{ilog2_roundup, ilog2_rounddown, fls, narrow}
use oh_my_os.RbTree.Validate.{rb_tree_validate, tree_validate, node_validate, rb_tree_create}
use oh_my_os.RbTree.Insert.{rb_tree_insert, find_place, insert_below}
use oh_my_os.RbTree.Remove.{rb_tree_remove, spliced, unlink_node}
use oh_my_os.Vmalloc.{
  page_size, max_vma_order, Vmas, Answer, null, unset, find_vma, alloc_vma, lock, unlock,
  first_free, serve, vma_length, split_vma, take_vma, vma_prev, vma_next,
}
use oh_my_os.Vmalloc.Free.{free_vma, give_back, merge_prev, merge_next, drop_area}
use oh_my_os.PageTable.Walk.{IsDirectory}
use oh_my_os.Vmalloc.Use.{Mappings, vmap}
use oh_my_os.Vmalloc.Use.Mapped.{IsVmapped, vmap-IsVmapped}
use oh_my_os.RbTree.Color.{true-false}
use oh_my_os.RbTree.Order.{occurs_cons}
use oh_my_os.Vmalloc.Start.{started, started-IsVmalloc, find_vma_halts}
use oh_my_os.Vmalloc.Alloc.{Granted, alloc_vma-Granted}

-- nothing set up yet
abbrev blank : Vmas
blank = record {
  start = λ _. 0;
  end = λ _. 0;
  free = λ _. false;
  vma_list = [];
  free_vma_lists = λ _. [];
  vma_tree = record {
    total = 0;
    root = 0;
    id = λ _. 0;
    start = λ _. 0;
    end = λ _. 0;
    value = λ _. 0;
    red = λ _. false;
    parent = λ _. 0;
    child = λ _ _. 0;
  };
  locked = false;
}

abbrev ready : Vmas
ready = started 64 blank

-- an empty directory, and two pages for tables
abbrev bare : Mappings
bare = record {
  tables = record { word = λ _. 0; pages = 8192 ∷ 12288 ∷ [] };
  pages = λ _. 0;
  nr_pages = λ _. 0;
}

empty-IsDirectory : IsDirectory 4096 1003 bare.tables
empty-IsDirectory = record {
  aligned = refl;
  off = λ i lt ne e. absurd (true-false (sym e));
  apart = λ i j li lj ni nj ne ei ej. absurd (true-false (sym ei));
  once = λ p. ground arith;
  fresh = λ p i. elim (occurs_cons p 8192 (12288 ∷ []) i) [
    | inl e ↦ (
      omega (arith, e),
      omega (arith, e),
      (λ q. absurd (omega (arith, e, q))),
      λ j lt ne h. absurd (true-false (sym h)),
    )
    | inr r ↦ elim (occurs_cons p 12288 [] r) [
      | inl e ↦ (
        omega (arith, e),
        omega (arith, e),
        (λ q. absurd (omega (arith, e, q))),
        λ j lt ne h. absurd (true-false (sym h)),
      )
      | inr n ↦ absurd (omega (arith, n))
    ]
  ];
}

find_vma_halts_example : find_vma 9 8192 ready ≡ none
find_vma_halts_example = find_vma_halts 9 8192 ready

alloc_vma-Granted_example :
    ((alloc_vma 9 (some 72) (some 80) 8192 ready ≡ some (unset, ready))
      × ((i : ℕ)
          → ilog2_roundup (8192 / page_size) ≤ i
          → i ≤ max_vma_order
          → ready.free_vma_lists i ≡ []))
    ⊎ Granted ready 8192 (alloc_vma 9 (some 72) (some 80) 8192 ready)
alloc_vma-Granted_example =
    alloc_vma-Granted 9 72 80 8192 ready leaf (started-IsVmalloc 64 blank) (omega arith) refl
      (omega arith) refl (λ e. absurd (omega (arith, e))) refl (omega arith)

abbrev after_alloc : Option (Answer × Vmas) → Vmas
after_alloc none = blank
after_alloc (some (answer, s)) = s

abbrev after_free : Option Vmas → Vmas
after_free none = blank
after_free (some s) = s

abbrev answer_of : Option (Answer × Vmas) → Answer
answer_of none = null
answer_of (some (answer, s)) = answer

vmap-IsVmapped_example :
    ((vmap 9 (some 72) (some 80) 4096 300 (65536 ∷ 131072 ∷ []) ready bare ≡ none)
      × ((i : ℕ) → ilog2_roundup 2 ≤ i → i ≤ max_vma_order → ready.free_vma_lists i ≡ []))
    ⊎ IsVmapped 4096 1003
        (65536 ∷ 131072 ∷ [])
        ready
        bare
        (vmap 9 (some 72) (some 80) 4096 300 (65536 ∷ 131072 ∷ []) ready bare)
vmap-IsVmapped_example =
    vmap-IsVmapped 4096 1003 9 72 80 300 (65536 ∷ 131072 ∷ []) ready leaf bare
      (started-IsVmalloc 64 blank) empty-IsDirectory (omega arith)
      (refl, omega arith, (refl, omega arith, tt)) (omega arith) (omega arith) (omega arith) refl
      (λ e. absurd (omega (arith, e))) refl (omega arith)

-- Two pages come from the start of the only area.
abbrev taken : Vmas
taken = after_alloc (alloc_vma 9 (some 72) (some 80) 8192 ready)

run_alloc :
    (taken.start 64 ≡ 4096)
    × (taken.end 64 ≡ 12288)
    × (taken.start 72 ≡ 12288)
    × (taken.free_vma_lists 19 ≡ 72 ∷ [])
unfolding alloc_vma lock unlock first_free serve vma_length split_vma take_vma ilog2_roundup fls
    narrow ilog2_rounddown rb_tree_insert find_place insert_below rb_tree_validate tree_validate
    node_validate is_black rb_tree_create
run_alloc = (refl, refl, refl, refl)

-- Given back, they join the rest to one free area again, which is in no free list: nothing is left to
-- allocate.
abbrev freed : Vmas
freed = after_free (free_vma 9 64 taken)

run_free :
    (freed.vma_list ≡ 64 ∷ [])
    × (freed.free 64 ≡ true)
    × (freed.free_vma_lists 19 ≡ [])
    × (answer_of (alloc_vma 9 (some 72) (some 80) 8192 freed) ≡ unset)
unfolding alloc_vma lock unlock first_free serve vma_length split_vma take_vma ilog2_roundup fls
    narrow ilog2_rounddown rb_tree_insert find_place insert_below rb_tree_validate tree_validate
    node_validate is_black free_vma give_back merge_prev merge_next drop_area rb_tree_remove
    rb_tree_search search_loop spliced unlink_node rb_tree_create vma_prev vma_next
run_free = (refl, refl, refl, refl)
