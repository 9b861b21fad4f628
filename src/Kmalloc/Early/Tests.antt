-- ===== src/Kmalloc/Early/Tests.antt =====
-- Runs of the block allocator, and its theorems at concrete states.
use oh_my_os.Base.{
  ℕ, ◌+◌, ◌≡◌, ◌⊎◌, refl, arith, Option, some, none, Bool, [], ◌∷◌, ltb, if◌then◌else◌,
}
use oh_my_os.Bits.{ilog2_roundup, fls, narrow}
use oh_my_os.Kmalloc.{early_order}
use oh_my_os.Kmalloc.Early.{
  units, Blocks, alloc_blocks, free_blocks, kmalloc_early, kmalloc_early_init,
}
use oh_my_os.Kmalloc.Early.Cover.{cover}
use oh_my_os.Kmalloc.Early.Inv.{IsValid}
use oh_my_os.Kmalloc.Early.Alloc.{HandedOut, NoneFrom, alloc_blocks_cases}
use oh_my_os.Kmalloc.Early.Served.{start, served, cover_gone, init-IsValid, blocks_apart}

abbrev state_of : Option (Option ℕ × Blocks) → Blocks
state_of none = kmalloc_early_init
state_of (some (r, s)) = s

abbrev answer_of : Option (Option ℕ × Blocks) → Option ℕ
answer_of none = none
answer_of (some (r, s)) = r

-- behind `kmalloc_early(24)`
abbrev after_24 : Blocks
after_24 = state_of (kmalloc_early 24 kmalloc_early_init)

run_24 : kmalloc_early 24 kmalloc_early_init ≡ some (some 0, after_24)
unfolding kmalloc_early kmalloc_early_init alloc_blocks early_order ilog2_roundup fls narrow
run_24 = refl

alloc_blocks_cases_example :
    ((alloc_blocks 3 kmalloc_early_init ≡ some (none, kmalloc_early_init))
      × NoneFrom 12 units 3 kmalloc_early_init)
    ⊎ ((b : ℕ) × (s' : Blocks) × (alloc_blocks 3 kmalloc_early_init ≡ some (some b, s'))
        × HandedOut 12 units 3 kmalloc_early_init b s')
alloc_blocks_cases_example = alloc_blocks_cases 3 kmalloc_early_init init-IsValid (omega arith)

blocks_apart_example :
    IsValid 12 units after_24
    × ((x : ℕ)
        → cover 12 x after_24.lists + cover_gone x ((24, 0) ∷ []) ≡ (if ltb x 4096 then 1 else 0))
blocks_apart_example = blocks_apart ((24, 0) ∷ []) after_24 (served 24 0 start run_24)

-- Four blocks of one unit are handed out, and 2, 0 and 1 are given back: 3 is still in use, and the
-- next block of four units is handed out over it, since merging does not look at the buddy's order.
abbrev four : Blocks
four = state_of (
    alloc_blocks 0 (
      state_of (
        alloc_blocks 0 (state_of (alloc_blocks 0 (state_of (alloc_blocks 0 kmalloc_early_init)))))))

overlap :
    (four.free 3 ≡ Bool.false)
    × (answer_of (alloc_blocks 2 (free_blocks 1 (free_blocks 0 (free_blocks 2 four)))) ≡ some 0)
unfolding kmalloc_early_init alloc_blocks free_blocks
overlap = (refl, refl)
