-- ===== src/Vmalloc/Use.antt =====
-- `vmap` of mm/vmalloc.c, over the areas and the page tables.
pub mod Mapped
use oh_my_os.Base.{
  ℕ, zero, suc, ◌+◌, ◌*◌, ◌%◌, Option, none, some, List, [], ◌∷◌, length, update, add32, mul32,
}
use oh_my_os.PageTable.{page_size, pte_w, Tables, page_map}
use oh_my_os.Vmalloc.{Vmas, Answer, area, null, unset, alloc_vma}

-- the page tables, and the fields `pages` and `nr_pages` of the areas
pub record Mappings : Type 0 where
  pub tables : Tables
  pub pages : ℕ → ℕ
  pub nr_pages : ℕ → ℕ

-- The loop of `map_vm_area`: `kernel_map` is `page_map` with the directory of the kernel. The pages are
-- given by their physical addresses.
unfoldable pub map_pages : ℕ → ℕ → ℕ → List ℕ → Tables → Option Tables
map_pages fuel pgdir va [] s = some s
map_pages fuel pgdir va (pa ∷ rest) s = elim (page_map fuel pgdir va pa page_size pte_w s) [
  | none ↦ none
  | some s₁ ↦ map_pages fuel pgdir (add32 va page_size) rest s₁
]

-- `array` is the address of the array with the pages `frames`.
unfoldable pub map_vm_area : ℕ → ℕ → ℕ → ℕ → List ℕ → Vmas → Mappings → Option Mappings
map_vm_area fuel pgdir vma array frames s m =
    elim (map_pages fuel pgdir (s.start vma) frames m.tables) [
      | none ↦ none
      | some t ↦ some (record {
        tables = t;
        pages = update m.pages vma array;
        nr_pages = update m.nr_pages vma (length frames);
      })
    ]

-- what `vmap` does with the answer of `alloc_vma`; `none` is also the use of a pointer that was never set
unfoldable pub map_answer :
    ℕ → ℕ → ℕ → List ℕ → Answer → Vmas → Mappings → Option (ℕ × Vmas × Mappings)
map_answer fuel pgdir array frames null s m = some (0, s, m)
map_answer fuel pgdir array frames unset s m = none
map_answer fuel pgdir array frames (area vma) s m =
    elim (map_vm_area fuel pgdir vma array frames s m) [
      | none ↦ none
      | some m₁ ↦ some (s.start vma, s, m₁)
    ]

unfoldable pub vmap :
    ℕ → Option ℕ → Option ℕ → ℕ → ℕ → List ℕ → Vmas → Mappings → Option (ℕ × Vmas × Mappings)
vmap fuel buddy node pgdir array frames s m =
    elim (alloc_vma fuel buddy node (mul32 (length frames) page_size) s) [
      | none ↦ none
      | some (answer, s₁) ↦ map_answer fuel pgdir array frames answer s₁ m
    ]
