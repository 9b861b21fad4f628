-- ===== src/PageTable/Tests.antt =====
-- Page tables at work: a directory that maps itself and no other page.
use oh_my_os.Base.{
  ℕ, ◌+◌, ◌*◌, ◌≡◌, ◌≢◌, inl, inr, ◌∙◌, sym, ap, refl, arith, true, Option, none, some, [], ◌∷◌,
  update, update_ne,
}
use oh_my_os.RbTree.Color.{true-false}
use oh_my_os.RbTree.Order.{occurs_cons}
use oh_my_os.PageTable.{
  page_size, pte_w, is_present, round_down_page, Tables, page_map, page_unmap, map_loop, unmap_loop,
  put_entry, get_pte, set_pde, clear_page, or_bits,
}
use oh_my_os.PageTable.Walk.{walk, IsDirectory}
use oh_my_os.PageTable.Map.{page_entry, Mapped, page_map-Mapped, page_unmap-Mapped}

abbrev start : Tables
start = record { word = update (λ _. 0) (4096 + 4 * 1003) 4099; pages = 8192 ∷ 12288 ∷ [] }

empty : (i : ℕ) → i ≢ 1003 → is_present (start.word (4096 + 4 * i)) ≡ true → ⊥
empty i ne e = true-false (
    sym e
    ∙ ap is_present (
        update_ne (λ _. 0) (4096 + 4 * 1003) 4099 (4096 + 4 * i)
          (λ q. absurd (omega (arith, q, ne)))))

start-IsDirectory : IsDirectory 4096 1003 start
start-IsDirectory = record {
  aligned = refl;
  off = λ i lt ne e. absurd (empty i ne e);
  apart = λ i j li lj ni nj ne ei ej. absurd (empty i ni ei);
  once = λ p. ground arith;
  fresh = λ p i. elim (occurs_cons p 8192 (12288 ∷ []) i) [
    | inl e ↦ (
      omega (arith, e),
      omega (arith, e),
      (λ q. absurd (omega (arith, e, q))),
      λ j lt ne h. absurd (empty j ne h),
    )
    | inr r ↦ elim (occurs_cons p 12288 [] r) [
      | inl e ↦ (
        omega (arith, e),
        omega (arith, e),
        (λ q. absurd (omega (arith, e, q))),
        λ j lt ne h. absurd (empty j ne h),
      )
      | inr n ↦ absurd (omega (arith, n))
    ]
  ];
}

-- Two pages on the two sides of the end of a table.
page_map-Mapped_example :
    Mapped 4096 1003 2
      (round_down_page 4190208)
      (λ i. some (page_entry (round_down_page 65536 + i * page_size) pte_w))
      start
      (page_map 9 4096 4190208 65536 8192 pte_w start)
page_map-Mapped_example =
    page_map-Mapped 4096 1003 2 9 4190208 65536 8192 pte_w start start-IsDirectory (omega arith)
      (omega arith) (omega arith) (omega arith) (omega arith)
      (λ i lt e. absurd (omega (arith, lt, e))) (omega arith) (omega arith)

page_unmap-Mapped_example :
    Mapped 4096 1003 2
      (round_down_page 4190208)
      (λ i. none)
      start
      (page_unmap 9 4096 4190208 8192 start)
page_unmap-Mapped_example =
    page_unmap-Mapped 4096 1003 2 9 4190208 8192 start start-IsDirectory (omega arith) (omega arith)
      (omega arith) (λ i lt e. absurd (omega (arith, lt, e))) (omega arith) (omega arith)

abbrev after : Option Tables → Tables
after none = start
after (some s) = s

abbrev mapped : Tables
mapped = after (page_map 9 4096 4190208 65536 8192 pte_w start)

run_map :
    (walk 4096 4190208 mapped.word ≡ some 65539)
    × (walk 4096 4194304 mapped.word ≡ some 69635)
    × (mapped.pages ≡ [])
    × (walk 4096 4190208 (after (page_unmap 9 4096 4190208 4096 mapped)).word ≡ none)
unfolding page_map map_loop page_unmap unmap_loop put_entry get_pte set_pde clear_page or_bits
run_map = (refl, refl, refl, refl)
