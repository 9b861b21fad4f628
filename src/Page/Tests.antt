-- ===== src/Page/Tests.antt =====
-- The page allocator on a zone with one free block, and its theorem there.
use oh_my_os.Base.{
  ℕ, ◌≤◌, ◌<◌, ◌≡◌, ◌⊎◌, refl, arith, true, false, Option, some, none, List, [], ◌∷◌, update,
  update_ne,
}
use oh_my_os.Kmalloc.Early.Cover.{in_block_le, init_cover}
use oh_my_os.Kmalloc.Early.Inv.{IsValid}
use oh_my_os.Page.{
  Zone, total_pages, alloc_pages, free_pages, find_page, take_page, split_pages, split_page,
}
use oh_my_os.Page.View.{view}
use oh_my_os.Page.Kinds.{IsZone}
use oh_my_os.Page.Refine.{Answers, alloc_pages_cases}
use native.Mathlib.Decide.{ℕ_discrete}

-- 1024 pages of low memory, in one block
abbrev one_block : Zone
one_block = record {
  order = update (λ _. 0) 0 10;
  free = update (λ _. false) 0 true;
  valid = λ _. true;
  highmem = λ _. false;
  free_lists = update (λ _. []) 10 (0 ∷ []);
  highmem_free_lists = λ _. [];
}

one_block-IsValid : IsValid 10 total_pages (view false one_block)
one_block-IsValid = record {
  listed = λ o le. elim (ℕ_discrete o 10) [
    | yes e ↦
        rw e (record { aligned = refl; ordered = refl; marked = refl; inside = omega arith }, tt)
    | no ne ↦ rw (update_ne {A = List ℕ} (λ _. []) 10 (0 ∷ []) o ne) tt
  ];
  once = λ x. omega (arith, init_cover 10 x, in_block_le x 10 0);
}

one_block-IsZone : IsZone false one_block
one_block-IsZone = record { valid = one_block-IsValid; kinds = λ x e. (refl, refl) }

abbrev answer_of : Option (Option ℕ × Zone) → Option ℕ
answer_of none = none
answer_of (some (r, z)) = r

abbrev state_of : Option (Option ℕ × Zone) → Zone
state_of none = one_block
state_of (some (r, z)) = z

-- Four single pages, of which 2, 0 and 1 are given back: the next four pages are handed out over 3, which
-- is still in use.
abbrev four : Zone
four = state_of (
    alloc_pages false 0 (
      state_of (
        alloc_pages false 0
          (state_of (alloc_pages false 0 (state_of (alloc_pages false 0 one_block)))))))

overlap :
    (four.free 3 ≡ false)
    × (answer_of (alloc_pages false 2 (free_pages 1 (free_pages 0 (free_pages 2 four)))) ≡ some 0)
unfolding alloc_pages free_pages find_page take_page split_pages split_page
overlap = (refl, refl)

alloc_pages_cases_example :
    ((10 < 3) × (alloc_pages false 3 one_block ≡ some (none, one_block)))
    ⊎ ((3 ≤ 10) × Answers false 3 one_block (alloc_pages false 3 one_block))
alloc_pages_cases_example = alloc_pages_cases false 3 one_block one_block-IsZone
