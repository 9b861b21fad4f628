-- ===== src/RbTree/Remove.antt =====
-- `rb_tree_remove` of libs/rb_tree.c.
use oh_my_os.Base.{
  ℕ, zero, suc, true, false, not, ◌&&◌, ◌||◌, Option, none, some, ◌==◌, if◌then◌else◌, update,
  Status, success, einval,
}
use oh_my_os.RbTree.{
  Side, left, right, other, RbTree, set_child, set_parent, set_red, set_black, is_red, is_black,
  rotate, rb_tree_search,
}
use oh_my_os.RbTree.Validate.{rb_tree_validate}

-- the last part of a round of `remove_fixup`, with a nephew that is red
pub borrow : Side → ℕ → ℕ → RbTree → ℕ × RbTree
unfolding set_red set_black is_red is_black rotate
borrow d parent nodey s =
    let inner = is_red (s.child nodey d) s && is_black (s.child nodey (other d)) s in
    let s₁ =
      if inner then rotate (other d) nodey (set_black (s.child nodey d) (set_red nodey s)) else s in
    let nodey' = if inner then s₁.child parent (other d) else nodey in
    let s₂ = record s₁ { red = update s₁.red nodey' (s₁.red parent) } in
    let s₃ = set_black parent s₂ in
    let s₄ = rotate d parent (set_black (s₃.child nodey' (other d)) s₃) in (s₄.root, s₄)

-- One round of `remove_fixup` below a parent, with the node on its side `d`: the next node.
pub fix_remove : Side → ℕ → RbTree → ℕ × RbTree
unfolding borrow
fix_remove d parent s =
    let sibling = s.child parent (other d) in
    let s₁ =
      if is_red sibling s then rotate d parent (set_red parent (set_black sibling s)) else s in
    let nodey = if is_red sibling s then s₁.child parent (other d) else sibling in
    if nodey == 0 || (is_black (s₁.child nodey left) s₁ && is_black (s₁.child nodey right) s₁)
    then (parent, set_red nodey s₁)
    else borrow d parent nodey s₁

-- `none` is the failed assertion or the fuel run out.
pub remove_fixup : ℕ → ℕ → ℕ → RbTree → Option RbTree
unfolding fix_remove
remove_fixup zero parent nodex s = none
remove_fixup (suc f) parent nodex s = elim (not (nodex == s.root) && is_black nodex s) [
  | true ↦ elim (parent == 0) [
    | true ↦ if nodex == 0 then none else remove_fixup f parent nodex s
    | false ↦
        (let d = if nodex == s.child parent left then left else right in
          let (nodex', s') = fix_remove d parent s in remove_fixup f (s'.parent nodex') nodex' s')
  ]
  | false ↦ some (set_black nodex s)
]

-- `while (nodey->left) nodey = nodey->left;`
pub leftmost : ℕ → RbTree → ℕ → Option ℕ
leftmost zero s nodey = none
leftmost (suc f) s nodey = elim (s.child nodey left == 0) [
  | true ↦ some nodey
  | false ↦ leftmost f s (s.child nodey left)
]

-- The node that leaves its place: the node itself, or the next one in order where it has two children.
unfoldable pub spliced : ℕ → RbTree → ℕ → Option ℕ
unfolding leftmost
spliced fuel s nodez =
    if s.child nodez left == 0 || s.child nodez right == 0
    then some nodez
    else leftmost fuel s (s.child nodez right)

-- the link to `old`, in its parent or in the tree, turned to `new`
pub relink : ℕ → ℕ → ℕ → RbTree → RbTree
relink up old new s =
    if up == 0
    then record s { root = new }
    else if old == s.child up left
    then set_child left up new s
    else set_child right up new s

-- `nodey` takes the place of `nodez`.
pub take_place : ℕ → ℕ → RbTree → RbTree
unfolding relink
take_place nodey nodez s =
    let s₁ = relink (s.parent nodez) nodez nodey (set_parent nodey (s.parent nodez) s) in
    let s₂ = record s₁ {
      red = update s₁.red nodey (s₁.red nodez);
      child = update s₁.child nodey (s₁.child nodez);
    } in
    let l = s₂.child nodez left in
    let s₃ = if l == 0 then s₂ else set_parent l nodey s₂ in
    let r = s₃.child nodez right in if r == 0 then s₃ else set_parent r nodey s₃

-- The part of `rb_tree_remove` that takes `nodez` out, `nodey` being the node that leaves its place.
unfoldable pub unlink_node : ℕ → ℕ → ℕ → RbTree → Option RbTree
unfolding take_place remove_fixup
unlink_node fuel nodey nodez s =
    let nodex = if s.child nodey left == 0 then s.child nodey right else s.child nodey left in
    let s₁ = if nodex == 0 then s else set_parent nodex (s.parent nodey) s in
    let s₂ = relink (s₁.parent nodey) nodey nodex s₁ in
    let fixup = is_black nodey s₂ in
    let up = s₂.parent nodey in
    let moved = not (nodey == nodez) in
    let s₃ = if moved then take_place nodey nodez s₂ else s₂ in
    let nodex_parent = if moved && up == nodez then nodey else up in
    if fixup then remove_fixup fuel nodex_parent nodex s₃ else some s₃

-- `none` is a failed assertion or the fuel run out.
unfoldable pub rb_tree_remove : ℕ → ℕ → RbTree → Option (Status × RbTree)
rb_tree_remove fuel key s = elim (rb_tree_search fuel s key) [
  | none ↦ none
  | some nodez ↦ if nodez == 0 then some (einval, s) else elim (spliced fuel s nodez) [
    | none ↦ none
    | some nodey ↦ elim (unlink_node fuel nodey nodez s) [
      | none ↦ none
      | some s' ↦ if rb_tree_validate fuel s' then some (success, s') else none
    ]
  ]
]
