-- ===== src/Page.antt =====
-- mm/page.c: the buddy allocator of pages. A page is its frame number; the linear and the high memory
-- have free lists of their own, and a page goes to the list of its own flag. The flags are Booleans,
-- which `set_bit` and `clear_bit` write. `page_lock`, which each call takes and gives back, has no
-- counterpart.
pub mod View
pub mod Kinds
pub mod Refine
mod Tests
use oh_my_os.Base.{
  ℕ, zero, suc, ◌+◌, ◌-◌, ◌^◌, Bool, true, false, ◌&&◌, not, Option, none, some, List, [], ◌∷◌, ltb,
  leb, ◌==◌, if◌then◌else◌, update,
}
use oh_my_os.Bits.{round_up, round_down}
use oh_my_os.Kmalloc.Early.{flip_bit, remove}

abbrev pub max_order : ℕ
max_order = 10

abbrev pub total_pages : ℕ
total_pages = 1048576

-- `order` and the flags PAGE_FREE, PAGE_VALID and PAGE_HIGHMEM of `pages`, and the free lists
pub record Zone : Type 0 where
  pub order : ℕ → ℕ
  pub free : ℕ → Bool
  pub valid : ℕ → Bool
  pub highmem : ℕ → Bool
  pub free_lists : ℕ → List ℕ
  pub highmem_free_lists : ℕ → List ℕ

pub page_buddy : Zone → ℕ → ℕ
page_buddy z page = flip_bit (z.order page) page

pub free_page : ℕ → ℕ → Zone → Zone
free_page page order z =
    let z' = record z { free = update z.free page true; order = update z.order page order } in
    if z.highmem page
    then record z' {
      highmem_free_lists = update z.highmem_free_lists order (page ∷ z.highmem_free_lists order);
    }
    else record z' { free_lists = update z.free_lists order (page ∷ z.free_lists order) }

-- The loop of `init_free_pages` from `count` on; `none` is the failed assertion behind it. As many
-- rounds as pages are enough.
pub init_loop : ℕ → ℕ → ℕ → ℕ → ℕ → Zone → Option Zone
unfolding free_page
init_loop zero start nr order count z = if count == nr then some z else none
init_loop (suc f) start nr order count z = elim (ltb count nr) [
  | true ↦ init_loop f start nr order (count + 2 ^ order) (free_page (start + count) order z)
  | false ↦ if count == nr then some z else none
]

pub init_free_pages : ℕ → ℕ → ℕ → Zone → Option Zone
init_free_pages start nr order z = init_loop nr start nr order 0 z

-- The loop that marks the pages of a range, by the number of its rounds.
pub mark_pages : ℕ → ℕ → Bool → Zone → Zone
mark_pages zero pfn high z = z
mark_pages (suc n) pfn high z = mark_pages n (pfn + 1) high (record z {
  valid = update z.valid pfn true;
  highmem = if high then update z.highmem pfn true else z.highmem;
})

-- `add_free_pages` of a range that lies on one side of the start of the high memory
pub add_range : ℕ → ℕ → Bool → Zone → Option Zone
unfolding mark_pages init_free_pages
add_range start end high z =
    let z' = mark_pages (end - start) start high z in
    let split_start = round_up start (2 ^ max_order) in
    let split_end = round_down end (2 ^ max_order) in
    if leb split_end split_start
    then init_free_pages start (end - start) 0 z'
    else elim (init_free_pages start (split_start - start) 0 z') [
      | none ↦ none
      | some z₁ ↦ elim (init_free_pages split_start (split_end - split_start) max_order z₁) [
        | none ↦ none
        | some z₂ ↦ init_free_pages split_end (end - split_end) 0 z₂
      ]
    ]

-- The first argument is `highmem_start_pfn`; the two calls for a range across it do not recur.
pub add_free_pages : ℕ → ℕ → ℕ → Zone → Option Zone
unfolding add_range
add_free_pages high start end z =
    if not (leb start end)
    then none
    else if leb high start
    then add_range start end true z
    else if leb end high
    then add_range start end false z
    else elim (add_range start high false z) [ none ↦ none | some z' ↦ add_range high end true z' ]

-- one of the two families of free lists, for `gfp_mask & GFP_HIGHMEM`
abbrev pub lists_of : Bool → Zone → ℕ → List ℕ
lists_of true z = z.highmem_free_lists
lists_of false z = z.free_lists

abbrev pub set_lists : Bool → (ℕ → List ℕ) → Zone → Zone
set_lists true lists z = record z { highmem_free_lists = lists }
set_lists false lists z = record z { free_lists = lists }

-- one round of the splitting loop; `none` is the failed assertion
pub split_page : ℕ → Zone → Option Zone
unfolding free_page
split_page page z =
    let o = z.order page - 1 in
    let buddy = flip_bit o page in
    if z.valid buddy
    then some (free_page buddy o (record z { order = update z.order page o }))
    else none

-- `while (page->order > order)`, with the page's order as fuel
pub split_pages : ℕ → ℕ → ℕ → Zone → Option Zone
split_pages zero order page z = some z
split_pages (suc f) order page z = elim (ltb order (z.order page)) [
  | true ↦ elim (split_page page z) [ none ↦ none | some z' ↦ split_pages f order page z' ]
  | false ↦ some z
]

-- what follows once the list `i` has a first page
pub take_page : Bool → ℕ → ℕ → ℕ → List ℕ → Zone → Option (Option ℕ × Zone)
take_page high order i page rest z =
    if i == z.order page
    then (elim (split_pages (z.order page) order page
        (set_lists high (update (lists_of high z) i rest) z)) [
          | none ↦ none
          | some z₁ ↦ some (some page, record z₁ { free = update z₁.free page false })
        ])
    else none

-- The search from the list `i` on, with `rounds` lists left; the inner `none` is NULL.
pub find_page : ℕ → Bool → ℕ → ℕ → Zone → Option (Option ℕ × Zone)
find_page zero high order i z = some (none, z)
find_page (suc rounds) high order i z = elim (lists_of high z i) [
  | [] ↦ find_page rounds high order (i + 1) z
  | page ∷ rest ↦ take_page high order i page rest z
]

-- The Boolean is `gfp_mask & GFP_HIGHMEM`.
pub alloc_pages : Bool → ℕ → Zone → Option (Option ℕ × Zone)
alloc_pages high order z =
    if ltb max_order order
    then some (none, z)
    else find_page (max_order + 1 - order) high order order z

-- `list_remove` of a page, which stands in the list of its order and its flag
pub unlink_page : ℕ → Zone → Zone
unlink_page page z =
    let high = z.highmem page in
    let o = z.order page in
    set_lists high (update (lists_of high z) o (remove page (lists_of high z o))) z

-- one round of the merging loop
pub merge_page : ℕ → ℕ → Zone → ℕ × Zone
unfolding unlink_page
merge_page page buddy z =
    let z' = unlink_page buddy z in
    let lower = if ltb buddy page then buddy else page in
    (lower, record z' { order = update z'.order lower (z'.order lower + 1) })

-- `while (page->order < MAX_ORDER)`, with fuel
pub merge_pages : ℕ → ℕ → Zone → ℕ × Zone
unfolding merge_page page_buddy
merge_pages zero page z = (page, z)
merge_pages (suc f) page z = elim (ltb (z.order page) max_order) [
  | true ↦ elim (z.valid (page_buddy z page) && z.free (page_buddy z page)) [
    | true ↦ (let (page', z') = merge_page page (page_buddy z page) z in merge_pages f page' z')
    | false ↦ (page, z)
  ]
  | false ↦ (page, z)
]

pub free_pages : ℕ → Zone → Zone
unfolding merge_pages free_page
free_pages page z =
    let (page', z') = merge_pages (max_order + 1) page z in free_page page' (z'.order page') z'

-- `page_init` empties the lists.
pub page_init : Zone → Zone
page_init z = record z { free_lists = λ _. []; highmem_free_lists = λ _. [] }
