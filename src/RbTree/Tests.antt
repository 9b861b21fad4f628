-- ===== src/RbTree/Tests.antt =====
-- Red-black trees at work, and their theorems on a tree of two nodes.
use oh_my_os.Base.{
  ℕ, ◌+◌, ◌<◌, ◌≤◌, ◌≡◌, ◌≢◌, ◌⊎◌, inl, ◌↔◌, refl, subst, arith, true, false, Option, none, some,
  List, [], ◌∷◌, ◌==◌, if◌then◌else◌, update, Status,
}
use oh_my_os.RbTree.{Side, left, right, pick, RbTree, rb_tree_search, search_loop, rotate, is_black}
use oh_my_os.RbTree.Shape.{Tree, leaf, fork, count, inorder, Shape, Distinct}
use oh_my_os.RbTree.Search.{IsOrdered, Found, rb_tree_search-Found}
use oh_my_os.RbTree.Rotate.{Rotated, rotate-Rotated}
use oh_my_os.RbTree.Validate.{rb_tree_validate, rb_tree_iterate, tree_validate, node_validate}
use oh_my_os.RbTree.Validate.Iterate.{visit, rb_tree_iterate-visit}
use oh_my_os.RbTree.Validate.RedBlack.{IsRedBlack, rb_tree_validate_iff}
use oh_my_os.RbTree.Insert.{find_place, insert_below, rb_tree_insert}
use oh_my_os.RbTree.Insert.Overlap.{Overlaps, IsClear}
use oh_my_os.RbTree.Color.{top_red, Colored}
use oh_my_os.RbTree.Insert.Correct.{
  IsRbTree, Inserted, rb_tree_insert_answers, rb_tree_insert-Inserted,
}
use oh_my_os.RbTree.Remove.{rb_tree_remove, spliced, unlink_node}

-- the node 8 of the range from 10 to 19, and its right child 16 of the one from 20 to 29
abbrev two : RbTree
two = record {
  total = 2;
  root = 8;
  id = update (λ _. 0) 16 1;
  start = update (update (λ _. 0) 8 10) 16 20;
  end = update (update (λ _. 0) 8 19) 16 29;
  value = λ _. 0;
  red = update (λ _. false) 16 true;
  parent = update (λ _. 0) 16 8;
  child = λ z d. if z == 8 then pick left 0 16 d else 0;
}

abbrev upper : Tree
upper = fork 16 (pick left leaf leaf)

abbrev both : Tree
both = fork 8 (pick left leaf upper)

leaves : (d : Side) → Shape two (two.child 16 d) 16 (pick left leaf leaf d)
leaves left = refl
leaves right = refl

below : (d : Side) → Shape two (two.child 8 d) 8 (pick left leaf upper d)
below left = refl
below right = (refl, λ e. absurd (omega (arith, e)), refl, leaves)

shape : Shape two 8 0 both
shape = (refl, λ e. absurd (omega (arith, e)), refl, below)

apart : Distinct both
apart z = ground arith

no_ranges : (d : Side) → IsOrdered two (pick left leaf leaf d)
no_ranges left = tt
no_ranges right = tt

upper_range : (d : Side) → IsOrdered two (pick left leaf upper d)
upper_range left = tt
upper_range right =
    (omega arith, λ z i. absurd (omega (arith, i)), λ z i. absurd (omega (arith, i)), no_ranges)

ordered : IsOrdered two both
ordered = (omega arith, λ z i. absurd (omega (arith, i)), λ z i. ground (arith, i), upper_range)

rotate-Rotated_example : Rotated left two (rotate left 8 two) 8 16 0 leaf leaf leaf
rotate-Rotated_example = rotate-Rotated left two 8 16 0 leaf leaf leaf shape apart refl

rb_tree_search-Found_example : Found two 25 both (rb_tree_search 3 two 25)
rb_tree_search-Found_example = rb_tree_search-Found 3 two 25 both shape ordered (omega arith)

-- a callback that adds up the starts of the ranges
abbrev sum : ℕ → ℕ → ℕ × ℕ
sum node total = (0, total + two.start node)

rb_tree_iterate-visit_example : rb_tree_iterate 3 two sum 0 ≡ some (visit sum (inorder both) 0)
rb_tree_iterate-visit_example = rb_tree_iterate-visit sum 3 two both 0 shape (omega arith)

rb_tree_validate_iff_example :
    rb_tree_validate 3 two ≡ true
    ↔ ((two.root ≢ 0 → is_black two.root two ≡ true) × ((h : ℕ) × IsRedBlack two both h))
rb_tree_validate_iff_example = rb_tree_validate_iff 3 two both shape (omega arith)

no_color : (d : Side) → top_red two.red (pick left leaf leaf d) ≡ false
no_color left = refl
no_color right = refl

no_height : (d : Side) → Colored two.red (pick left leaf leaf d) 0
no_height left = refl
no_height right = refl

two_colors : (d : Side) → Colored two.red (pick left leaf upper d) 0
two_colors left = refl
two_colors right = (0, refl, (λ _ d. no_color d), λ d. no_height d)

colors : Colored two.red both 1
colors = (0, refl, (λ e. cc), two_colors)

no_neighbour : IsClear two 30 39 both
no_neighbour z i = inl (ground (arith, i))

two-IsRbTree : IsRbTree two both
two-IsRbTree = record {
  shape = shape;
  apart = apart;
  ordered = ordered;
  colored = (1, colors);
  black = refl;
}

rb_tree_insert-Inserted_example :
    (s' : RbTree) × (t' : Tree) × (rb_tree_insert 9 (some 24) 30 39 7 two ≡ some (24, s'))
    × Inserted two both 24 30 39 7 s' t'
rb_tree_insert-Inserted_example =
    rb_tree_insert-Inserted 9 two both 24 30 39 7 two-IsRbTree (λ e. absurd (omega (arith, e))) refl
      (omega arith) no_neighbour (omega arith)

abbrev some_24 : Option ℕ
some_24 = some 24

new_node : (n : ℕ) → some_24 ≡ some n → (n ≢ 0) × (count n both ≡ 0)
new_node n e =
    let at : 24 ≡ n = cc in
    subst (λ v. (v ≢ 0) × (count v both ≡ 0)) at (λ z. absurd (omega (arith, z)), refl)

rb_tree_insert_answers_example :
    ((rb_tree_insert 9 (some 24) 30 39 7 two ≡ some (0, two))
      × ((39 < 30) ⊎ (Overlaps two 30 39 both ⊎ (some_24 ≡ none))))
    ⊎ ((30 ≤ 39)
        × IsClear two 30 39 both
        × ((n : ℕ) × (s' : RbTree) × (t' : Tree) × (some_24 ≡ some n)
            × (rb_tree_insert 9 (some 24) 30 39 7 two ≡ some (n, s'))
            × Inserted two both n 30 39 7 s' t'))
rb_tree_insert_answers_example =
    rb_tree_insert_answers 9 (some 24) 30 39 7 two both two-IsRbTree new_node (omega arith)

abbrev after_insert : Option (ℕ × RbTree) → RbTree
after_insert none = two
after_insert (some (node, s)) = s

abbrev after_remove : Option (Status × RbTree) → RbTree
after_remove none = two
after_remove (some (e, s)) = s

abbrev starts : Option (ℕ × List ℕ) → List ℕ
starts none = []
starts (some (ret, xs)) = xs

-- the starts of the ranges, the last one first
abbrev listed : RbTree → List ℕ
listed s = starts (rb_tree_iterate 9 s (λ node xs. (0, s.start node ∷ xs)) [])

-- A third range makes the tree rotate; the removals that follow leave the rest in order.
abbrev three : RbTree
three = after_insert (rb_tree_insert 9 (some 24) 30 39 0 two)

abbrev six : RbTree
six = after_insert (
    rb_tree_insert 9 (some 48) 60 69 0 (
      after_insert (
        rb_tree_insert 9 (some 40) 50 59 0
          (after_insert (rb_tree_insert 9 (some 32) 40 49 0 three)))))

run_insert : (three.root ≡ 16) × (listed six ≡ 60 ∷ 50 ∷ 40 ∷ 30 ∷ 20 ∷ 10 ∷ [])
unfolding rb_tree_insert rb_tree_iterate find_place insert_below rb_tree_validate is_black
    tree_validate node_validate
run_insert = (refl, refl)

run_remove :
    (listed (after_remove (rb_tree_remove 9 25 six)) ≡ 60 ∷ 50 ∷ 40 ∷ 30 ∷ 10 ∷ [])
    × (listed (after_remove (rb_tree_remove 9 65 (after_remove (rb_tree_remove 9 10 six))))
        ≡ 50 ∷ 40 ∷ 30 ∷ 20 ∷ [])
unfolding rb_tree_insert rb_tree_remove rb_tree_iterate rb_tree_search search_loop find_place
    insert_below rb_tree_validate is_black tree_validate node_validate spliced unlink_node
run_remove = (refl, refl)
