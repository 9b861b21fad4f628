-- ===== src/RbTree/Validate.antt =====
-- `rb_tree_validate`, `rb_tree_iterate`, `rb_tree_create` and `rb_tree_delete` of libs/rb_tree.c. The
-- recursions follow pointers and take fuel; an outer `none` is a failed assertion or the fuel run out.
pub mod Iterate
pub mod RedBlack
use oh_my_os.Base.{
  ℕ, zero, suc, ◌+◌, Bool, true, false, not, ◌&&◌, ◌||◌, Option, none, some, List, [], ◌∷◌, ◌++◌,
  ltb, ◌==◌, if◌then◌else◌,
}
use oh_my_os.RbTree.{RbTree, left, right, is_red, is_black}

-- whether the assertions of `node_validate` hold of a node
unfoldable pub node_validate : ℕ → RbTree → Bool
node_validate node s =
    let l = s.child node left in
    let r = s.child node right in
    node == 0
    || (((l == 0 || (ltb (s.end l) (s.start node) && s.parent l == node))
          && (r == 0 || (ltb (s.end node) (s.start r) && s.parent r == node)))
        && (not (is_red node s && is_red l s) && not (is_red node s && is_red r s)))

-- The number of black nodes on each way down, or EINVAL, an inner `none`; and `fail_node`.
unfoldable pub tree_validate : ℕ → RbTree → ℕ → ℕ → Option (Option ℕ × ℕ)
tree_validate zero s node fail_node = none
tree_validate (suc f) s node fail_node =
    if node == 0
    then some (some 0, fail_node)
    else if not (fail_node == 0)
    then some (none, fail_node)
    else if not (node_validate node s)
    then none
    else elim (tree_validate f s (s.child node left) fail_node) [
      | none ↦ none
      | some (none, fail₁) ↦ some (none, fail₁)
      | some (some l, fail₁) ↦ elim (tree_validate f s (s.child node right) fail₁) [
        | none ↦ none
        | some (none, fail₂) ↦ some (none, fail₂)
        | some (some r, fail₂) ↦
            if l == r
            then some (some (l + (if is_black node s then 1 else 0)), fail₂)
            else some (none, node)
      ]
    ]

-- whether `rb_tree_validate` passes its assertions
unfoldable pub rb_tree_validate : ℕ → RbTree → Bool
rb_tree_validate fuel s =
    if s.root == 0
    then true
    else if not (is_black s.root s)
    then false
    else elim (tree_validate fuel s s.root 0) [
      | none ↦ false
      | some (none, fail_node) ↦ false
      | some (some height, fail_node) ↦ true
    ]

-- `tree_iterate`, with a callback that answers a number and changes a state
pub tree_iterate : {A : Type 0} → ℕ → RbTree → (ℕ → A → ℕ × A) → ℕ → A → Option (ℕ × A)
tree_iterate zero s callback node priv = none
tree_iterate (suc f) s callback node priv =
    if node == 0
    then some (0, priv)
    else elim (tree_iterate f s callback (s.child node left) priv) [
      | none ↦ none
      | some (ret, priv₁) ↦
          if not (ret == 0)
          then some (ret, priv₁)
          else (let (ret₂, priv₂) = callback node priv₁ in
              if not (ret₂ == 0)
              then some (ret₂, priv₂)
              else tree_iterate f s callback (s.child node right) priv₂)
    ]

unfoldable pub rb_tree_iterate : {A : Type 0} → ℕ → RbTree → (ℕ → A → ℕ × A) → A → Option (ℕ × A)
unfolding tree_iterate
rb_tree_iterate fuel s callback priv = tree_iterate fuel s callback s.root priv

-- The nodes that `tree_delete` frees, in this order.
pub tree_delete : ℕ → RbTree → ℕ → Option (List ℕ)
tree_delete zero s node = none
tree_delete (suc f) s node =
    if node == 0 then some [] else elim (tree_delete f s (s.child node left)) [
      | none ↦ none
      | some ls ↦ elim (tree_delete f s (s.child node right)) [
        | none ↦ none
        | some rs ↦ some (ls ++ (rs ++ (node ∷ [])))
      ]
    ]

-- `rb_tree_create`, with the memory of `kmalloc` at hand
unfoldable pub rb_tree_create : RbTree → RbTree
rb_tree_create s = record s { total = 0; root = 0 }
