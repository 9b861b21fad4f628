-- ===== src/RbTree/Insert.antt =====
-- `rb_tree_insert` of libs/rb_tree.c.
pub mod Overlap
pub mod Broken
pub mod Fixup
pub mod Loop
pub mod Way
pub mod Hang
pub mod Correct
use oh_my_os.Base.{
  ℕ, zero, suc, Bool, true, false, not, ◌&&◌, Option, none, some, ltb, ◌==◌, if◌then◌else◌, update,
  add32,
}
use oh_my_os.RbTree.{
  Side, left, right, other, RbTree, set_child, set_red, set_black, is_red, rotate,
}
use oh_my_os.RbTree.Validate.{rb_tree_validate}

-- The loop that looks for the place, from a node and its parent on: the parent, or an inner `none` for
-- a node that overlaps. An outer `none` is the fuel run out.
unfoldable pub find_place : ℕ → RbTree → ℕ → ℕ → ℕ → ℕ → Option (Option ℕ)
find_place zero s start end node parent = none
find_place (suc f) s start end node parent =
    if node == 0 then some (some parent) else elim (ltb (s.end node) start) [
      | true ↦ find_place f s start end (s.child node right) node
      | false ↦ elim (ltb end (s.start node)) [
        | true ↦ find_place f s start end (s.child node left) node
        | false ↦ some none
      ]
    ]

-- One round of `insert_fixup`; the node and its parent are on the side `d` of the grandparent.
pub fix_insert : Side → ℕ → RbTree → ℕ × RbTree
unfolding set_red set_black is_red rotate
fix_insert d nodex s =
    let grand = s.parent (s.parent nodex) in
    let nodey = s.child grand (other d) in
    if is_red nodey s
    then (grand, set_red grand (set_black (s.parent nodex) (set_black nodey s)))
    else (let inner = nodex == s.child (s.parent nodex) (other d) in
        let node' = if inner then s.parent nodex else nodex in
        let s₁ = if inner then rotate d node' s else s in
        let s₂ = set_black (s₁.parent node') s₁ in
        let s₃ = set_red (s₂.parent (s₂.parent node')) s₂ in
        (node', rotate (other d) (s₃.parent (s₃.parent node')) s₃))

pub insert_fixup : ℕ → ℕ → RbTree → Option RbTree
unfolding fix_insert
insert_fixup zero nodex s = none
insert_fixup (suc f) nodex s = elim (not (nodex == s.root) && is_red (s.parent nodex) s) [
  | true ↦
      (let d = if s.parent nodex == s.child (s.parent (s.parent nodex)) left then left else right in
        let (nodex', s') = fix_insert d nodex s in insert_fixup f nodex' s')
  | false ↦ some (set_black s.root s)
]

-- the new node at the address `new_node`, red and without children
pub init_node : ℕ → ℕ → ℕ → ℕ → ℕ → RbTree → RbTree
unfolding set_red
init_node new_node start end value parent s = set_red new_node (record s {
  id = update s.id new_node s.total;
  total = add32 s.total 1;
  start = update s.start new_node start;
  end = update s.end new_node end;
  parent = update s.parent new_node parent;
  child = update s.child new_node (λ _. 0);
  value = update s.value new_node value;
})

-- `link_node` hangs the new node below its parent; `none` is the branch to `fail`.
pub link_node : ℕ → ℕ → RbTree → Option RbTree
link_node new_node parent s =
    if parent == 0
    then some (record s { root = new_node })
    else if ltb (s.end new_node) (s.start parent)
    then some (set_child left parent new_node s)
    else if ltb (s.end parent) (s.start new_node)
    then some (set_child right parent new_node s)
    else none

-- what follows once the place below `parent` is found; `answer` is that of `kmalloc`
unfoldable pub insert_below : ℕ → Option ℕ → ℕ → ℕ → ℕ → ℕ → RbTree → Option (ℕ × RbTree)
unfolding init_node link_node insert_fixup
insert_below fuel none start end value parent s = some (0, s)
insert_below fuel (some new_node) start end value parent s =
    let s₁ = init_node new_node start end value parent s in
    elim (link_node new_node parent s₁) [
      | none ↦ some (0, s₁)
      | some s₂ ↦ elim (insert_fixup fuel new_node s₂) [
        | none ↦ none
        | some s₃ ↦ if rb_tree_validate fuel s₃ then some (new_node, s₃) else none
      ]
    ]

-- The node, 0 for NULL; `none` is a failed assertion or the fuel run out.
unfoldable pub rb_tree_insert : ℕ → Option ℕ → ℕ → ℕ → ℕ → RbTree → Option (ℕ × RbTree)
rb_tree_insert fuel answer start end value s =
    if ltb end start then some (0, s) else elim (find_place fuel s start end s.root 0) [
      | none ↦ none
      | some none ↦ some (0, s)
      | some (some parent) ↦ insert_below fuel answer start end value parent s
    ]
