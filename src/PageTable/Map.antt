-- ===== src/PageTable/Map.antt =====
-- `page_map` and `page_unmap` of mm/page_table.c over a range of pages.
use oh_my_os.Base.{
  ℕ, zero, suc, ◌+◌, ◌-◌, ◌*◌, ◌%◌, ◌^◌, ◌<◌, ◌≤◌, ◌≡◌, ◌≢◌, ◌∙◌, sym, ap, refl, subst, arith,
  lt→ltb, ge→ltb, Option, none, some, length, add32,
}
use oh_my_os.PageTable.{
  page_size, pte_p, or32, pde_index, Tables, map_loop, page_map, unmap_loop, page_unmap,
  round_down_page,
}
use oh_my_os.PageTable.Or.{entry_value}
use oh_my_os.PageTable.Walk.{entry_of, walk, IsDirectory}
use oh_my_os.PageTable.Entry.{SamePage, KeepsWalks}
use oh_my_os.PageTable.Fresh.{put_entry-Put}

-- the entry of the page at `pa`
abbrev pub page_entry : ℕ → ℕ → ℕ
page_entry pa flag = pa + (flag - flag % 2) + 1

pages_differ :
    (a b : ℕ) → a % page_size ≡ 0 → b % page_size ≡ 0 → a < b → b < 2 ^ 32 → ¬ SamePage a b
pages_differ a b ha hb lt word (e, f) = absurd (omega (arith, ha, hb, lt, word, e, f))

module _ (pgdir self : ℕ) where
  -- The `n` pages from `va` on have the entries of `entry`, and every other page keeps its own.
  abbrev pub Mapped : ℕ → ℕ → (ℕ → Option ℕ) → Tables → Option Tables → Type 0
  Mapped n va entry s r =
      (s' : Tables) × (r ≡ some s')
      × IsDirectory pgdir self s'
      × ((i : ℕ) → i < n → walk pgdir (va + i * page_size) s'.word ≡ entry i)
      × ((va' : ℕ)
          → pde_index va' ≢ self
          → ((i : ℕ) → i < n → ¬ SamePage (va + i * page_size) va')
          → walk pgdir va' s'.word ≡ walk pgdir va' s.word)
      × (length s.pages ≤ length s'.pages + n)

  -- One page, and the rest.
  pub one_more :
      (n va e : ℕ) (entry : ℕ → Option ℕ) (s s₁ : Tables) (r : Option Tables)
      → va % page_size ≡ 0
      → va + suc n * page_size < 2 ^ 32
      → pde_index va ≢ self
      → entry 0 ≡ entry_of e
      → walk pgdir va s₁.word ≡ entry_of e
      → KeepsWalks pgdir self va s.word s₁.word
      → length s.pages ≤ length s₁.pages + 1
      → Mapped n (va + page_size) (λ i. entry (suc i)) s₁ r
      → Mapped (suc n) va entry s r
  one_more n va e entry s s₁ r al top low first found kept left_over
        (s', run, dir, at, others, more) =
      (
        s',
        run,
        dir,
        at_page,
        λ va' ne apart.
            others va' ne
              (λ i lt. subst (λ a. ¬ SamePage a va') (next i) (apart (suc i) (omega (arith, lt))))
            ∙ kept va' ne (subst (λ a. ¬ SamePage a va') zeroth (apart 0 (omega arith))),
        omega (arith, left_over, more),
      )
    where
      next : (i : ℕ) → va + suc i * page_size ≡ va + page_size + i * page_size
      next i = omega arith

      zeroth : va + 0 * page_size ≡ va
      zeroth = omega arith

      at_page : (i : ℕ) → i < suc n → walk pgdir (va + i * page_size) s'.word ≡ entry i
      at_page zero lt =
          ap (λ a. walk pgdir a s'.word) zeroth
          ∙ others va low (λ i lt' same.
            pages_differ va (va + page_size + i * page_size) al (omega (arith, al)) (omega arith)
              (omega (arith, top, lt')) (sym same.0, sym same.1))
          ∙ found
          ∙ sym first
      at_page (suc i) lt = ap (λ a. walk pgdir a s'.word) (next i) ∙ at i (omega (arith, lt))

  relabel :
      (n va : ℕ) (entry entry' : ℕ → Option ℕ) (s : Tables) (r : Option Tables)
      → ((i : ℕ) → entry i ≡ entry' i)
      → Mapped n va entry s r
      → Mapped n va entry' s r
  relabel n va entry entry' s r same (s', run, dir, at, others, more) =
      (s', run, dir, (λ i lt. at i lt ∙ same i), others, more)

  shift : (a i : ℕ) → a + page_size + i * page_size ≡ a + suc i * page_size
  shift a i = omega arith

  pub entry_present : (v : ℕ) → v % 2 ≡ 1 → entry_of v ≡ some v
  entry_present v odd = rw odd refl

  map_loop-Mapped :
      (n fuel va pa offset size flag : ℕ) (s : Tables)
      → IsDirectory pgdir self s
      → va % page_size ≡ 0
      → pa % page_size ≡ 0
      → va + n * page_size < 2 ^ 32
      → pa + n * page_size < 2 ^ 32
      → flag < page_size
      → size ≤ offset + n * page_size
      → offset + n * page_size < size + page_size
      → offset + n * page_size < 2 ^ 32
      → ((i : ℕ) → i < n → pde_index (va + i * page_size) ≢ self)
      → n ≤ length s.pages
      → n < fuel
      → Mapped n va
          (λ i. some (page_entry (pa + i * page_size) flag))
          s
          (map_loop fuel pgdir va pa offset size flag s)
  unfolding map_loop
  map_loop-Mapped n zero va pa offset size flag s dir al alp top topp small up lo word low pages
        enough =
      absurd (omega (arith, enough))
  map_loop-Mapped zero (suc f) va pa offset size flag s dir al alp top topp small up lo word low
        pages enough =
      rw (ge→ltb offset size (omega (arith, up)), map_loop)
        (s, refl, dir, (λ i lt. absurd (omega (arith, lt))), (λ va' ne apart. refl), omega arith)
  map_loop-Mapped (suc n) (suc f) va pa offset size flag s dir al alp top topp small up lo word low
        pages enough =
      let low₀ : pde_index va ≢ self =
        subst (λ a. pde_index a ≢ self) (omega arith) (low 0 (omega arith)) in
      let value : or32 (or32 pa flag) pte_p ≡ page_entry pa flag =
        entry_value pa flag alp (omega (arith, topp)) small in
      let (s₁, run, dir₁, found, kept, left_over) =
        put_entry-Put pgdir self va (page_entry pa flag) low₀ s dir (omega (arith, pages)) in
      let next_va : add32 va page_size ≡ va + page_size = omega (arith, top) in
      let next_pa : add32 pa page_size ≡ pa + page_size = omega (arith, topp) in
      let next_offset : add32 offset page_size ≡ offset + page_size = omega (arith, word) in
      rw
        (
          lt→ltb offset size (omega (arith, lo)),
          map_loop,
          value,
          run,
          map_loop,
          next_va,
          next_pa,
          next_offset,
        )
        (let zeroth : pa + 0 * page_size ≡ pa = omega arith in
          one_more n va (page_entry pa flag) (λ i. some (page_entry (pa + i * page_size) flag)) s s₁
            (map_loop f pgdir (va + page_size) (pa + page_size) (offset + page_size) size flag s₁)
            al top low₀
            (ap (λ a. some (page_entry a flag)) zeroth
              ∙ sym (entry_present (page_entry pa flag) (omega (arith, alp))))
            found kept left_over
            (relabel n (va + page_size)
              (λ i. some (page_entry (pa + page_size + i * page_size) flag))
              (λ i. some (page_entry (pa + suc i * page_size) flag)) s₁
              (map_loop f pgdir (va + page_size) (pa + page_size) (offset + page_size) size flag s₁)
              (λ i. ap (λ a. some (page_entry a flag)) (shift pa i))
              (map_loop-Mapped n f (va + page_size) (pa + page_size) (offset + page_size) size flag
                s₁ dir₁ (omega (arith, al)) (omega (arith, alp)) (omega (arith, top))
                (omega (arith, topp)) small (omega (arith, up)) (omega (arith, lo))
                (omega (arith, word))
                (λ i lt.
                  subst (λ a. pde_index a ≢ self) (sym (shift va i))
                    (low (suc i) (omega (arith, lt))))
                (omega (arith, pages, left_over)) (omega (arith, enough)))))

  unmap_loop-Mapped :
      (n fuel va offset size : ℕ) (s : Tables)
      → IsDirectory pgdir self s
      → va % page_size ≡ 0
      → va + n * page_size < 2 ^ 32
      → size ≤ offset + n * page_size
      → offset + n * page_size < size + page_size
      → offset + n * page_size < 2 ^ 32
      → ((i : ℕ) → i < n → pde_index (va + i * page_size) ≢ self)
      → n ≤ length s.pages
      → n < fuel
      → Mapped n va (λ i. none) s (unmap_loop fuel pgdir va offset size s)
  unfolding unmap_loop
  unmap_loop-Mapped n zero va offset size s dir al top up lo word low pages enough =
      absurd (omega (arith, enough))
  unmap_loop-Mapped zero (suc f) va offset size s dir al top up lo word low pages enough =
      rw (ge→ltb offset size (omega (arith, up)), unmap_loop)
        (s, refl, dir, (λ i lt. absurd (omega (arith, lt))), (λ va' ne apart. refl), omega arith)
  unmap_loop-Mapped (suc n) (suc f) va offset size s dir al top up lo word low pages enough =
      let low₀ : pde_index va ≢ self =
        subst (λ a. pde_index a ≢ self) (omega arith) (low 0 (omega arith)) in
      let (s₁, run, dir₁, found, kept, left_over) =
        put_entry-Put pgdir self va 0 low₀ s dir (omega (arith, pages)) in
      let next_va : add32 va page_size ≡ va + page_size = omega (arith, top) in
      let next_offset : add32 offset page_size ≡ offset + page_size = omega (arith, word) in
      rw (lt→ltb offset size (omega (arith, lo)), unmap_loop, run, unmap_loop, next_va, next_offset)
        (one_more n va 0 (λ i. none) s s₁
          (unmap_loop f pgdir (va + page_size) (offset + page_size) size s₁) al top low₀ refl found
          kept left_over
          (unmap_loop-Mapped n f (va + page_size) (offset + page_size) size s₁ dir₁
            (omega (arith, al)) (omega (arith, top)) (omega (arith, up)) (omega (arith, lo))
            (omega (arith, word))
            (λ i lt.
              subst (λ a. pde_index a ≢ self) (sym (shift va i)) (low (suc i) (omega (arith, lt))))
            (omega (arith, pages, left_over)) (omega (arith, enough))))

-- In a directory whose tables are apart, with a page at hand for each page of the range, with fuel above
-- their number and without an overflow of the addresses, `page_map` maps exactly the `n` pages of the
-- range: the processor finds for each the page at the same distance from `pa`, with the flags and
-- PTE_P, every other address keeps its entry, and the tables stay apart. The addresses are those that do
-- not go through the entry of the directory that maps itself.
pub page_map-Mapped :
    (pgdir self n fuel va pa size flag : ℕ) (s : Tables)
    → IsDirectory pgdir self s
    → va + n * page_size < 2 ^ 32
    → pa + n * page_size < 2 ^ 32
    → flag < page_size
    → size ≤ n * page_size
    → n * page_size < size + page_size
    → ((i : ℕ) → i < n → pde_index (round_down_page va + i * page_size) ≢ self)
    → n ≤ length s.pages
    → n < fuel
    → Mapped pgdir self n
        (round_down_page va)
        (λ i. some (page_entry (round_down_page pa + i * page_size) flag))
        s
        (page_map fuel pgdir va pa size flag s)
unfolding page_map
page_map-Mapped pgdir self n fuel va pa size flag s dir top topp small up lo low pages enough =
    map_loop-Mapped pgdir self n fuel (round_down_page va) (round_down_page pa) 0 size flag s dir
      (omega arith) (omega arith) (omega (arith, top)) (omega (arith, topp)) small
      (omega (arith, up)) (omega (arith, lo)) (omega (arith, top)) low pages enough

-- Under the same conditions `page_unmap` leaves the processor no entry for each of the `n` pages of the
-- range, every other address its entry, and the tables apart.
pub page_unmap-Mapped :
    (pgdir self n fuel va size : ℕ) (s : Tables)
    → IsDirectory pgdir self s
    → va + n * page_size < 2 ^ 32
    → size ≤ n * page_size
    → n * page_size < size + page_size
    → ((i : ℕ) → i < n → pde_index (round_down_page va + i * page_size) ≢ self)
    → n ≤ length s.pages
    → n < fuel
    → Mapped pgdir self n (round_down_page va) (λ i. none) s (page_unmap fuel pgdir va size s)
unfolding page_unmap
page_unmap-Mapped pgdir self n fuel va size s dir top up lo low pages enough =
    unmap_loop-Mapped pgdir self n fuel (round_down_page va) 0 size s dir (omega arith)
      (omega (arith, top)) (omega (arith, up)) (omega (arith, lo)) (omega (arith, top)) low pages
      enough
