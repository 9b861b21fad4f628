-- ===== src/PageTable.antt =====
-- mm/page_table.c: the two levels of page tables. The store maps the physical address of a word to the
-- word; the code reaches it through the linear map. The answers of `alloc_page` are a list of the physical
-- addresses of pages.
pub mod Or
pub mod Walk
pub mod Entry
pub mod Fresh
pub mod Map
mod Tests
use oh_my_os.Base.{
  ℕ, zero, suc, ◌+◌, ◌-◌, ◌*◌, ◌/◌, ◌%◌, Bool, true, false, not, ◌&&◌, Option, none, some, List, [],
  ◌∷◌, ltb, leb, ◌==◌, if◌then◌else◌, update, add32,
}

abbrev pub page_size : ℕ
page_size = 4096

abbrev pub pte_p : ℕ
pte_p = 1

abbrev pub pte_w : ℕ
pte_w = 2

-- `a | b` of two words, over their `n` lowest bits
unfoldable pub or_bits : ℕ → ℕ → ℕ → ℕ
or_bits zero a b = 0
or_bits (suc n) a b = (if a % 2 == 0 then b % 2 else 1) + 2 * or_bits n (a / 2) (b / 2)

abbrev pub or32 : ℕ → ℕ → ℕ
or32 a b = or_bits 32 a b

abbrev pub pde_index : ℕ → ℕ
pde_index va = va / 4194304 % 1024

abbrev pub pte_index : ℕ → ℕ
pte_index va = va / page_size % 1024

abbrev pub page_base : ℕ → ℕ
page_base x = x - x % page_size

abbrev pub round_down_page : ℕ → ℕ
round_down_page x = x - x % page_size

-- whether PTE_P is set
abbrev pub is_present : ℕ → Bool
is_present w = not (w % 2 == 0)

pub record Tables : Type 0 where
  pub word : ℕ → ℕ
  pub pages : List ℕ

unfoldable pub set_pde : ℕ → ℕ → ℕ → Tables → Tables
set_pde pde pa flag s = record s { word = update s.word pde (or32 (or32 pa flag) pte_p) }

-- `memset` of a page with zeros
unfoldable pub clear_page : ℕ → Tables → Tables
clear_page pa s = record s {
  word = λ a. if leb pa a && ltb a (pa + page_size) then 0 else s.word a;
}

-- The address of the entry; `none` is where `alloc_page` has no page, which the code does not ask.
unfoldable pub get_pte : ℕ → ℕ → Tables → Option (ℕ × Tables)
get_pte pgdir va s =
    let pde = pgdir + 4 * pde_index va in
    if is_present (s.word pde)
    then some (page_base (s.word pde) + 4 * pte_index va, s)
    else elim s.pages [
      | [] ↦ none
      | pa ∷ rest ↦
          (let s₁ = set_pde pde pa (or32 pte_p pte_w) (clear_page pa (record s { pages = rest })) in
            some (page_base (s₁.word pde) + 4 * pte_index va, s₁))
    ]

-- `*pte = entry` for the entry of an address
unfoldable pub put_entry : ℕ → ℕ → ℕ → Tables → Option Tables
put_entry pgdir va entry s = elim (get_pte pgdir va s) [
  | none ↦ none
  | some (pte, s₁) ↦ some (record s₁ { word = update s₁.word pte entry })
]

-- The loops from `offset` on; `none` is also the fuel run out.
unfoldable pub map_loop : ℕ → ℕ → ℕ → ℕ → ℕ → ℕ → ℕ → Tables → Option Tables
map_loop zero pgdir va pa offset size flag s = none
map_loop (suc f) pgdir va pa offset size flag s = elim (ltb offset size) [
  | false ↦ some s
  | true ↦ elim (put_entry pgdir va (or32 (or32 pa flag) pte_p) s) [
    | none ↦ none
    | some s₁ ↦
        map_loop f pgdir (add32 va page_size) (add32 pa page_size) (add32 offset page_size) size
          flag s₁
  ]
]

unfoldable pub page_map : ℕ → ℕ → ℕ → ℕ → ℕ → ℕ → Tables → Option Tables
page_map fuel pgdir va pa size flag s =
    map_loop fuel pgdir (round_down_page va) (round_down_page pa) 0 size flag s

unfoldable pub unmap_loop : ℕ → ℕ → ℕ → ℕ → ℕ → Tables → Option Tables
unmap_loop zero pgdir va offset size s = none
unmap_loop (suc f) pgdir va offset size s = elim (ltb offset size) [
  | false ↦ some s
  | true ↦ elim (put_entry pgdir va 0 s) [
    | none ↦ none
    | some s₁ ↦ unmap_loop f pgdir (add32 va page_size) (add32 offset page_size) size s₁
  ]
]

unfoldable pub page_unmap : ℕ → ℕ → ℕ → ℕ → Tables → Option Tables
page_unmap fuel pgdir va size s = unmap_loop fuel pgdir (round_down_page va) 0 size s
