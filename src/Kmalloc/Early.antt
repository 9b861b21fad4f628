-- ===== src/Kmalloc/Early.antt =====
-- The buddy allocator of mm/kmalloc.c behind `kmalloc_early`: 4096 units of 8 bytes. A block is the
-- index of its first unit, and a free list is the list of its blocks, the newest first: inserting
-- puts in front, and removing takes a block out.
pub mod Cover
pub mod Alloc
pub mod Served
pub mod Inv
pub mod Split
mod Tests
use oh_my_os.Base.{
  ℕ, zero, suc, ◌+◌, ◌-◌, ◌*◌, ◌/◌, ◌%◌, ◌^◌, ◌<◌, Bool, true, false, not, Option, none, some, List,
  [], ◌∷◌, ltb, leb, ◌==◌, if◌then◌else◌, update,
}
use oh_my_os.Kmalloc.{early_order}

abbrev pub max_order : ℕ
max_order = 12

-- the units of the buffer, `1 << MAX_ORDER`
abbrev pub units : ℕ
units = 4096

-- `order` and `free` of the array `blocks`, and `free_lists`
pub record Blocks : Type 0 where
  pub order : ℕ → ℕ
  pub free : ℕ → Bool
  pub lists : ℕ → List ℕ

-- `x ^ (1 << k)`
abbrev pub flip_bit : ℕ → ℕ → ℕ
flip_bit k x = if x / 2 ^ k % 2 == 0 then x + 2 ^ k else x - 2 ^ k

abbrev pub block_buddy : Blocks → ℕ → ℕ
block_buddy s block = flip_bit (s.order block) block

abbrev pub remove : ℕ → List ℕ → List ℕ
remove b [] = []
remove b (x ∷ xs) = if x == b then xs else x ∷ remove b xs

unfoldable pub list_insert : Blocks → ℕ → ℕ → Blocks
list_insert s o b = record s { lists = update s.lists o (b ∷ s.lists o) }

-- one round of the splitting loop: the upper half becomes a free block
unfoldable pub split : ℕ → Blocks → Blocks
unfolding list_insert
split block s =
    let o = s.order block - 1 in
    let buddy = flip_bit o block in
    list_insert
      (record s {
        order = update (update s.order block o) buddy o;
        free = update s.free buddy true;
      })
      o buddy

-- `while (block->order > order)`, with the block's order as fuel
unfoldable pub split_loop : ℕ → ℕ → ℕ → Blocks → Blocks
split_loop zero order block s = s
split_loop (suc f) order block s = elim (ltb order (s.order block)) [
  | true ↦ split_loop f order block (split block s)
  | false ↦ s
]

-- what follows once the list `i` has a first block; `none` is the failed assertion, which halts
unfoldable pub take_block : ℕ → ℕ → ℕ → List ℕ → Blocks → Option (Option ℕ × Blocks)
unfolding split_loop split
take_block order i block rest s =
    if i == s.order block
    then (let s₁ =
          split_loop (s.order block) order block (record s { lists = update s.lists i rest }) in
        some (some block, record s₁ { free = update s₁.free block false }))
    else none

-- The search from the list `i` on, with `rounds` lists left; the inner `none` is NULL.
unfoldable pub alloc_from : ℕ → ℕ → ℕ → Blocks → Option (Option ℕ × Blocks)
unfolding take_block
alloc_from zero order i s = some (none, s)
alloc_from (suc rounds) order i s = elim (s.lists i) [
  | [] ↦ alloc_from rounds order (i + 1) s
  | block ∷ rest ↦ take_block order i block rest s
]

pub alloc_blocks : ℕ → Blocks → Option (Option ℕ × Blocks)
unfolding alloc_from
alloc_blocks order s =
    if leb order max_order then alloc_from (max_order + 1 - order) order order s else none

-- one round of the merging loop: the buddy leaves its list, and the lower of the two grows
pub merge : ℕ → ℕ → Blocks → ℕ × Blocks
merge block buddy s =
    let lower = if ltb buddy block then buddy else block in
    (
      lower,
      record s {
        lists = update s.lists (s.order buddy) (remove buddy (s.lists (s.order buddy)));
        order = update s.order lower (s.order lower + 1);
      },
    )

-- `while (block->order < MAX_ORDER)`, with fuel
pub merge_loop : ℕ → ℕ → Blocks → ℕ × Blocks
unfolding merge
merge_loop zero block s = (block, s)
merge_loop (suc f) block s = elim (ltb (s.order block) max_order) [
  | true ↦ elim (s.free (block_buddy s block)) [
    | true ↦ (let (block', s') = merge block (block_buddy s block) s in merge_loop f block' s')
    | false ↦ (block, s)
  ]
  | false ↦ (block, s)
]

pub free_blocks : ℕ → Blocks → Blocks
unfolding merge_loop list_insert
free_blocks block s =
    let (b, s') = merge_loop (max_order + 1) block s in
    list_insert (record s' { free = update s'.free b true }) (s'.order b) b

pub kmalloc_early : ℕ → Blocks → Option (Option ℕ × Blocks)
unfolding alloc_blocks
kmalloc_early size s = alloc_blocks (early_order size) s

-- `kmalloc_early_init`: one free block of all units
pub kmalloc_early_init : Blocks
kmalloc_early_init = record {
  order = update (λ _. 0) 0 max_order;
  free = update (λ _. false) 0 true;
  lists = update (λ _. []) max_order (0 ∷ []);
}
