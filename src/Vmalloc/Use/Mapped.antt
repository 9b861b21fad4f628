-- ===== src/Vmalloc/Use/Mapped.antt =====
-- What `vmap` maps.
use oh_my_os.Base.{
  ℕ, zero, suc, ◌+◌, ◌*◌, ◌/◌, ◌%◌, ◌^◌, ◌<◌, ◌≤◌, ◌≡◌, ◌≢◌, ◌⊎◌, inl, inr, ◌∙◌, sym, ap, refl,
  subst, arith, Option, none, some, List, [], ◌∷◌, length, add32, mul32, update,
}
use oh_my_os.RbTree.Shape.{Tree, count, size}
use oh_my_os.RbTree.Order.{occurs}
use oh_my_os.Bits.{ilog2_roundup}
use oh_my_os.PageTable.{page_size, pte_w, pde_index, round_down_page, Tables}
use oh_my_os.PageTable.Walk.{walk, IsDirectory}
use oh_my_os.PageTable.Entry.{SamePage}
use oh_my_os.PageTable.Map.{page_entry, Mapped, one_more, entry_present, page_map-Mapped}
use oh_my_os.Vmalloc.{vmalloc_start, vmalloc_end, max_vma_order, Vmas, area, unset, alloc_vma}
use oh_my_os.Vmalloc.Tiles.{Tiles-bounds}
use oh_my_os.Vmalloc.Areas.{IsVmalloc}
use oh_my_os.Vmalloc.Alloc.{IsGranted, alloc_vma-Granted}
use oh_my_os.Vmalloc.Use.{Mappings, map_pages, map_vm_area, map_answer, vmap}

-- The entries that the pages of an array get, one after the other.
abbrev pub frame_entries : List ℕ → ℕ → Option ℕ
frame_entries [] i = none
frame_entries (pa ∷ rest) zero = some (page_entry pa pte_w)
frame_entries (pa ∷ rest) (suc i) = frame_entries rest i

-- Frames are pages of the physical memory.
abbrev pub AreFrames : List ℕ → Type 0
AreFrames [] = Unit
AreFrames (pa ∷ rest) = (pa % page_size ≡ 0) × (pa + page_size < 2 ^ 32) × AreFrames rest

vmap_run :
    (fuel pgdir array v : ℕ) (buddy answer : Option ℕ) (frames : List ℕ) (s s' : Vmas)
    (m : Mappings) (tables : Tables)
    → alloc_vma fuel buddy answer (mul32 (length frames) page_size) s ≡ some (area v, s')
    → map_pages fuel pgdir (s'.start v) frames m.tables ≡ some tables
    → vmap fuel buddy answer pgdir array frames s m
      ≡ some (
        s'.start v,
        s',
        record {
          tables = tables;
          pages = update m.pages v array;
          nr_pages = update m.nr_pages v (length frames);
        },
      )
unfolding vmap map_answer map_vm_area
vmap_run fuel pgdir array v buddy answer frames s s' m tables e f =
    rw (e, vmap, map_answer, map_vm_area, f) refl

vmap_unset :
    (fuel pgdir array : ℕ) (buddy answer : Option ℕ) (frames : List ℕ) (s s' : Vmas) (m : Mappings)
    → alloc_vma fuel buddy answer (mul32 (length frames) page_size) s ≡ some (unset, s')
    → vmap fuel buddy answer pgdir array frames s m ≡ none
unfolding vmap map_answer
vmap_unset fuel pgdir array buddy answer frames s s' m e = rw (e, vmap) refl

module _ (pgdir self fuel : ℕ) (two : 1 < fuel) (high : 768 ≤ self) where
  map_pages-Mapped :
      (frames : List ℕ) (va : ℕ) (s : Tables)
      → IsDirectory pgdir self s
      → AreFrames frames
      → va % page_size ≡ 0
      → va + length frames * page_size ≤ vmalloc_end
      → length frames ≤ length s.pages
      → Mapped pgdir self
          (length frames)
          va
          (frame_entries frames)
          s
          (map_pages fuel pgdir va frames s)
  unfolding map_pages
  map_pages-Mapped [] va s dir good al top pages =
      (s, refl, dir, (λ i lt. absurd (omega (arith, lt))), (λ va' ne apart. refl), omega arith)
  map_pages-Mapped (pa ∷ rest) va s dir (alp, word, good) al top pages =
      let base : round_down_page va ≡ va = omega (arith, al) in
      let frame : round_down_page pa + 0 * page_size ≡ pa = omega (arith, alp) in
      let low : pde_index va ≢ self = λ e. absurd (omega (arith, e, high, top)) in
      let (s₁, run, dir₁, at, others, left_over) =
        page_map-Mapped pgdir self 1 fuel va pa page_size pte_w s dir (omega (arith, top))
          (omega (arith, word)) (omega arith) (omega arith) (omega arith)
          (λ i lt e. absurd (omega (arith, e, lt, high, top, al))) (omega (arith, pages))
          (omega (arith, two)) in
      let next : add32 va page_size ≡ va + page_size = omega (arith, top) in
      let start : round_down_page va + 0 * page_size ≡ va = omega (arith, al) in
      rw (run, map_pages, next)
        (one_more pgdir self (length rest) va (page_entry pa pte_w) (frame_entries (pa ∷ rest)) s s₁
          (map_pages fuel pgdir (va + page_size) rest s₁) al (omega (arith, top)) low
          (sym (entry_present pgdir self (page_entry pa pte_w) (omega (arith, alp))))
          (ap (λ a. walk pgdir a s₁.word) (sym start)
            ∙ at 0 (omega arith)
            ∙ ap (λ a. some (page_entry a pte_w)) frame
            ∙ sym (entry_present pgdir self (page_entry pa pte_w) (omega (arith, alp))))
          (λ va' ne other.
            others va' ne
              (λ i lt same. other (subst (λ a. SamePage a va') (omega (arith, lt, al)) same)))
          left_over
          (map_pages-Mapped rest (va + page_size) s₁ dir₁ good (omega (arith, al))
            (omega (arith, top)) (omega (arith, pages, left_over))))

-- What `vmap` gives: an area of the length of the array, mapped to the pages of the array.
abbrev pub IsVmapped : ℕ → ℕ → List ℕ → Vmas → Mappings → Option (ℕ × Vmas × Mappings) → Type 0
IsVmapped pgdir self frames s m r =
    (v : ℕ) × (s' : Vmas) × (t' : Tree) × (m' : Mappings) × (r ≡ some (s'.start v, s', m'))
    × IsVmalloc s' t'
    × IsGranted s s' v (length frames * page_size)
    × Mapped pgdir self (length frames) (s'.start v) (frame_entries frames) m.tables
        (some m'.tables)

-- For an array of pages of the physical memory that is not empty and not longer than the addresses, in a
-- state of the areas and of the page tables that is in order, with a page for a table at hand for each
-- of them, with the addresses that `kmalloc` gives not in use, and with fuel above the number of nodes
-- of the tree and one more, `vmap` uses a pointer that was never set, where no free list from the order on has
-- an area; else it returns the start of an area that was free and has the length of the array. The processor
-- then finds the pages of the array there, one after the other and writable, and for every other address
-- what it found before, and both states are in order again. The directory maps itself above the areas.
pub vmap-IsVmapped :
    (pgdir self fuel b n array : ℕ) (frames : List ℕ) (s : Vmas) (t : Tree) (m : Mappings)
    → IsVmalloc s t
    → IsDirectory pgdir self m.tables
    → 768 ≤ self
    → AreFrames frames
    → 0 < length frames
    → length frames < 2 ^ 20
    → length frames ≤ length m.tables.pages
    → occurs b s.vma_list ≡ 0
    → n ≢ 0
    → count n t ≡ 0
    → size t + 1 < fuel
    → ((vmap fuel (some b) (some n) pgdir array frames s m ≡ none)
        × ((i : ℕ)
            → ilog2_roundup (length frames) ≤ i
            → i ≤ max_vma_order
            → s.free_vma_lists i ≡ []))
      ⊎ IsVmapped pgdir self frames s m (vmap fuel (some b) (some n) pgdir array frames s m)
vmap-IsVmapped pgdir self fuel b n array frames s t m good dir high frames_good some_frames few
      pages area_fresh n_ne node_fresh enough =
    let len : mul32 (length frames) page_size ≡ length frames * page_size = omega (arith, few) in
    let count_pages : length frames * page_size / page_size ≡ length frames = omega arith in
    elim (alloc_vma-Granted fuel b n (length frames * page_size) s t good
      (omega (arith, some_frames)) (omega arith) (omega (arith, few)) area_fresh n_ne node_fresh
      enough) [
        | inl (e, empty) ↦ inl (
          vmap_unset fuel pgdir array (some b) (some n) frames s s m
              (ap (λ l. alloc_vma fuel (some b) (some n) l s) len ∙ e),
          λ i le top. empty i (subst (λ c. ilog2_roundup c ≤ i) (sym count_pages) le) top,
        )
        | inr (v, s', t', e, good', g) ↦
            (let (_, lt, top, low_al, _) =
                Tiles-bounds s'.start s'.end vmalloc_start s'.vma_list vmalloc_end refl
                  good'.mapped.tiles v g.is_taken.0 in
              let (tables, run, dir', at, others, left_over) =
                map_pages-Mapped pgdir self fuel (omega (arith, enough)) high frames (s'.start v)
                  m.tables dir frames_good low_al (omega (arith, top, g.length)) pages in
              inr (
                v,
                s',
                t',
                record {
                  tables = tables;
                  pages = update m.pages v array;
                  nr_pages = update m.nr_pages v (length frames);
                },
                vmap_run fuel pgdir array v (some b) (some n) frames s s' m tables
                    (ap (λ l. alloc_vma fuel (some b) (some n) l s) len ∙ e) run,
                good',
                g,
                (tables, refl, dir', at, others, left_over),
              ))
      ]
