-- ===== src/Links.antt =====
-- include/list.h: circular doubly linked lists. A node is its address, and the store gives each
-- address its two links.
pub mod Ring
pub mod Remove
mod Tests
use oh_my_os.Base.{ℕ, zero, suc, ◌+◌, Bool, true, false, Option, none, some, ◌==◌, if◌then◌else◌}

-- the fields `next` and `prev` of every `struct list_node`
pub record Links : Type 0 where
  pub next : ℕ → ℕ
  pub prev : ℕ → ℕ

-- `node->next = v` and `node->prev = v`
pub set_next : ℕ → ℕ → Links → Links
set_next node v s = record s { next = λ a. if a == node then v else s.next a }

pub set_prev : ℕ → ℕ → Links → Links
set_prev node v s = record s { prev = λ a. if a == node then v else s.prev a }

unfoldable pub list_init : ℕ → Links → Links
unfolding set_next set_prev
list_init head s = set_prev head head (set_next head head s)

unfoldable pub list_insert_before : ℕ → ℕ → Links → Links
unfolding set_next set_prev
list_insert_before cur node s =
    let s₁ = set_next (s.prev cur) node s in
    let s₂ = set_next node cur s₁ in let s₃ = set_prev node (s₂.prev cur) s₂ in set_prev cur node s₃

unfoldable pub list_insert : ℕ → ℕ → Links → Links
unfolding set_next set_prev
list_insert cur node s =
    let s₁ = set_prev (s.next cur) node s in
    let s₂ = set_next node (s₁.next cur) s₁ in let s₃ = set_prev node cur s₂ in set_next cur node s₃

pub list_remove : ℕ → Links → Links
unfolding set_next set_prev
list_remove node s =
    let s₁ = set_next (s.prev node) (s.next node) s in set_prev (s₁.next node) (s₁.prev node) s₁

unfoldable pub list_empty : ℕ → Links → Bool
list_empty head s = s.next head == head

-- The loop of `list_size`; `none` is its fuel running out.
pub size_loop : ℕ → ℕ → Links → ℕ → ℕ → Option ℕ
size_loop zero head s node size = none
size_loop (suc f) head s node size = elim (node == head) [
  | true ↦ some size
  | false ↦ size_loop f head s (s.next node) (size + 1)
]

pub list_size : ℕ → ℕ → Links → Option ℕ
unfolding size_loop
list_size fuel head s = size_loop fuel head s (s.next head) 0
