-- ===== src/RbTree.antt =====
-- libs/rb_tree.c: red-black trees of ranges. A node is its address, 0 being NULL, and each field of
-- `struct rb_node` is a function from addresses, which reads the same at 0 as elsewhere. What the code
-- writes twice, once for the left and once for the right, is one definition for both sides.
pub mod Validate
pub mod Insert
pub mod Remove
pub mod Shape
pub mod Search
pub mod Turn
pub mod Rotate
pub mod Order
pub mod Path
pub mod Color
mod Tests
use oh_my_os.Base.{
  ℕ, zero, suc, Bool, true, false, not, ◌&&◌, Option, none, some, ltb, ◌==◌, if◌then◌else◌, update,
}

pub data Side : Type 0 where
  left : Side
  right : Side

abbrev pub other : Side → Side
other left = right
other right = left

-- the first value on the side itself, the second on the other one
abbrev pub pick {ℓ} : {A : Type ℓ} → Side → A → A → Side → A
pick left a b left = a
pick left a b right = b
pick right a b left = b
pick right a b right = a

-- `struct rb_tree` and the fields of the nodes
pub record RbTree : Type 0 where
  pub total : ℕ
  pub root : ℕ
  pub id : ℕ → ℕ
  pub start : ℕ → ℕ
  pub end : ℕ → ℕ
  pub value : ℕ → ℕ
  pub red : ℕ → Bool
  pub parent : ℕ → ℕ
  pub child : ℕ → Side → ℕ

abbrev pub set_child : Side → ℕ → ℕ → RbTree → RbTree
set_child d node v s = record s { child = update s.child node (pick d v (s.child node (other d))) }

abbrev pub set_parent : ℕ → ℕ → RbTree → RbTree
set_parent node v s = record s { parent = update s.parent node v }

pub set_red : ℕ → RbTree → RbTree
set_red node s = if node == 0 then s else record s { red = update s.red node true }

pub set_black : ℕ → RbTree → RbTree
set_black node s = if node == 0 then s else record s { red = update s.red node false }

pub is_red : ℕ → RbTree → Bool
is_red node s = not (node == 0) && s.red node

unfoldable pub is_black : ℕ → RbTree → Bool
unfolding is_red
is_black node s = not (is_red node s)

pub rb_node_key_start : ℕ → RbTree → ℕ
rb_node_key_start node s = s.start node

pub rb_node_key_end : ℕ → RbTree → ℕ
rb_node_key_end node s = s.end node

pub rb_node_value : ℕ → RbTree → ℕ
rb_node_value node s = s.value node

-- The loop of `rb_tree_search` from a node on; `none` is the fuel run out.
unfoldable pub search_loop : ℕ → RbTree → ℕ → ℕ → Option ℕ
search_loop zero s key node = none
search_loop (suc f) s key node = if node == 0 then some 0 else elim (ltb key (s.start node)) [
  | true ↦ search_loop f s key (s.child node left)
  | false ↦ elim (ltb (s.end node) key) [
    | true ↦ search_loop f s key (s.child node right)
    | false ↦ some node
  ]
]

unfoldable pub rb_tree_search : ℕ → RbTree → ℕ → Option ℕ
rb_tree_search fuel s key = search_loop fuel s key s.root

-- the link to `nodex`, in the tree or in its parent, that a rotation turns to `nodey`
pub replace_child : ℕ → ℕ → RbTree → RbTree
replace_child nodex nodey s =
    if nodex == s.root
    then record s { root = nodey }
    else if nodex == s.child (s.parent nodex) left
    then set_child left (s.parent nodex) nodey s
    else set_child right (s.parent nodex) nodey s

-- the rotation of `nodex` to a side
pub rotate : Side → ℕ → RbTree → RbTree
unfolding replace_child
rotate d nodex s =
    let nodey = s.child nodex (other d) in
    let s₁ = set_child (other d) nodex (s.child nodey d) s in
    let inner = s₁.child nodey d in
    let s₂ = if inner == 0 then s₁ else set_parent inner nodex s₁ in
    let s₃ = set_parent nodey (s₂.parent nodex) s₂ in
    let s₄ = replace_child nodex nodey s₃ in set_parent nodex nodey (set_child d nodey nodex s₄)

pub rotate_left : ℕ → RbTree → RbTree
unfolding rotate
rotate_left nodex s = rotate left nodex s

pub rotate_right : ℕ → RbTree → RbTree
unfolding rotate
rotate_right nodex s = rotate right nodex s
