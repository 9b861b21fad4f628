-- ===== src/PageTable/Fresh.antt =====
-- A new table, and the write of an entry as a whole.
use oh_my_os.Base.{
  ℕ, ◌+◌, ◌*◌, ◌%◌, ◌^◌, ◌<◌, ◌≤◌, ◌≡◌, ◌≢◌, ◌⊎◌, inl, inr, ◌∙◌, sym, ap, refl, arith, true, false,
  Bool-cases, ◌&&◌, leb, ltb, le→leb, lt→ltb, ge→ltb, Option, some, List, [], ◌∷◌, length,
  if◌then◌else◌, update, update_ne, update_self,
}
use oh_my_os.RbTree.Turn.{one, one_self}
use oh_my_os.RbTree.Order.{occurs}
use oh_my_os.PageTable.{
  page_size, pte_p, pte_w, or_bits, or32, pde_index, pte_index, page_base, is_present, Tables,
  set_pde, clear_page, get_pte, put_entry,
}
use oh_my_os.PageTable.Or.{entry_value}
use oh_my_os.PageTable.Walk.{entry_of, walk, IsDirectory, same_entry, page_base_aligned}
use oh_my_os.PageTable.Entry.{
  KeepsWalks, walk_congruence, written, slot, written-IsDirectory, finds, keeps,
}
use native.Mathlib.Decide.{ℕ_discrete, dec_lt}

abbrev cleared : ℕ → (ℕ → ℕ) → ℕ → ℕ
cleared p word a = if leb p a && ltb a (p + page_size) then 0 else word a

gt→leb : (a b : ℕ) → b < a → leb a b ≡ false
gt→leb a b h = ground arith

inside_cleared : (p a : ℕ) (word : ℕ → ℕ) → p ≤ a → a < p + page_size → cleared p word a ≡ 0
inside_cleared p a word lo hi = rw (le→leb p a lo, lt→ltb a (p + page_size) hi) refl

outside_cleared :
    (p a : ℕ) (word : ℕ → ℕ) → (a < p) ⊎ (p + page_size ≤ a) → cleared p word a ≡ word a
outside_cleared p a word (inl lt) = rw (gt→leb p a lt) refl
outside_cleared p a word (inr ge) =
    rw (ge→ltb a (p + page_size) ge)
      (elim (Bool-cases (leb p a)) [ inl e ↦ rw e refl | inr e ↦ rw e refl ])

-- Pages are apart.
apart_pages :
    (p q k : ℕ)
    → p % page_size ≡ 0
    → q % page_size ≡ 0
    → q ≢ p
    → k < 1024
    → (q + 4 * k < p) ⊎ (p + page_size ≤ q + 4 * k)
apart_pages p q k ap aq ne lt = elim (dec_lt q p) [
  | yes less ↦ inl (omega (arith, ap, aq, lt, less))
  | no more ↦ inr (omega (arith, ap, aq, lt, more, ne))
]

module _ (pgdir self : ℕ) (s : Tables) (p : ℕ) (rest : List ℕ) (dir : IsDirectory pgdir self s)
    (pages : s.pages ≡ p ∷ rest) (va : ℕ) (low : pde_index va ≢ self)
    (absent : is_present (s.word (pgdir + 4 * pde_index va)) ≡ false) where
  abbrev pde : ℕ
  pde = pgdir + 4 * pde_index va

  abbrev grown : Tables
  grown = record { word = update (cleared p s.word) pde (p + 3); pages = rest }

  p_fresh :
      (p % page_size ≡ 0)
      × (p < 2 ^ 32)
      × (p ≢ pgdir)
      × ((i : ℕ)
          → i < 1024
          → i ≢ self
          → is_present (s.word (pgdir + 4 * i)) ≡ true
          → page_base (s.word (pgdir + 4 * i)) ≢ p)
  p_fresh = dir.fresh p (omega (arith, ap (occurs p) pages, one_self p))

  at_pde : grown.word pde ≡ p + 3
  at_pde = update_self (cleared p s.word) pde (p + 3)

  elsewhere :
      (q k : ℕ)
      → q % page_size ≡ 0
      → k < 1024
      → q ≢ p
      → (q ≡ pgdir → k ≢ pde_index va)
      → grown.word (q + 4 * k) ≡ s.word (q + 4 * k)
  elsewhere q k al lt ne apart =
      update_ne (cleared p s.word) pde (p + 3) (q + 4 * k) (λ e.
        let (same, i) = same_entry q pgdir k (pde_index va) al dir.aligned lt (omega arith) e in
        apart same i)
      ∙ outside_cleared p (q + 4 * k) s.word (apart_pages p q k p_fresh.0 al ne lt)

  directory_word :
      (j : ℕ) → j < 1024 → j ≢ pde_index va → grown.word (pgdir + 4 * j) ≡ s.word (pgdir + 4 * j)
  directory_word j lt ne = elsewhere pgdir j dir.aligned lt (λ e. p_fresh.2 (sym e)) (λ _. ne)

  zeroed : (k : ℕ) → k < 1024 → grown.word (p + 4 * k) ≡ 0
  zeroed k lt =
      update_ne (cleared p s.word) pde (p + 3) (p + 4 * k) (λ e.
        let (same, _) =
          same_entry p pgdir k (pde_index va) p_fresh.0 dir.aligned lt (omega arith) e in
        p_fresh.2 same)
      ∙ inside_cleared p (p + 4 * k) s.word (omega arith) (omega (arith, lt))

  base_new : page_base (grown.word pde) ≡ p
  base_new = omega (arith, at_pde, p_fresh.0)

  present_new : is_present (grown.word pde) ≡ true
  present_new = let odd : grown.word pde % 2 ≡ 1 = omega (arith, at_pde, p_fresh.0) in rw odd refl

  -- A present entry of the new directory is the new table's or an old one.
  abbrev NewOrOld : ℕ → Type 0
  NewOrOld j =
      ((j ≡ pde_index va) × (page_base (grown.word (pgdir + 4 * j)) ≡ p))
      ⊎ ((is_present (s.word (pgdir + 4 * j)) ≡ true)
          × (page_base (grown.word (pgdir + 4 * j)) ≡ page_base (s.word (pgdir + 4 * j))))

  new_or_old : (j : ℕ) → j < 1024 → is_present (grown.word (pgdir + 4 * j)) ≡ true → NewOrOld j
  new_or_old j lt e = elim (ℕ_discrete j (pde_index va)) [
    | yes q ↦ inl (q, ap (λ i. page_base (grown.word (pgdir + 4 * i))) q ∙ base_new)
    | no ne ↦
        inr
          (ap is_present (sym (directory_word j lt ne)) ∙ e, ap page_base (directory_word j lt ne))
  ]

  grown-apart :
      (i j : ℕ)
      → i < 1024
      → j < 1024
      → i ≢ self
      → j ≢ self
      → i ≢ j
      → NewOrOld i
      → NewOrOld j
      → page_base (grown.word (pgdir + 4 * i)) ≢ page_base (grown.word (pgdir + 4 * j))
  grown-apart i j li lj ni nj ne (inl (q, _)) (inl (q', _)) e = ne (q ∙ sym q')
  grown-apart i j li lj ni nj ne (inl (_, b)) (inr (old, same)) e =
      p_fresh.3 j lj nj old (sym same ∙ sym e ∙ b)
  grown-apart i j li lj ni nj ne (inr (old, same)) (inl (_, b)) e =
      p_fresh.3 i li ni old (sym same ∙ e ∙ b)
  grown-apart i j li lj ni nj ne (inr (old, same)) (inr (old', same')) e =
      dir.apart i j li lj ni nj ne old old' (sym same ∙ e ∙ same')

  grown-off :
      (i : ℕ) → i < 1024 → i ≢ self → NewOrOld i → page_base (grown.word (pgdir + 4 * i)) ≢ pgdir
  grown-off i lt ne (inl (_, b)) e = p_fresh.2 (sym b ∙ e)
  grown-off i lt ne (inr (old, same)) e = dir.off i lt ne old (sym same ∙ e)

  grown-fresh :
      (q i : ℕ)
      → 0 < occurs q rest
      → i < 1024
      → i ≢ self
      → NewOrOld i
      → page_base (grown.word (pgdir + 4 * i)) ≢ q
  grown-fresh q i there lt ne (inl (_, b)) e =
      absurd
        (omega (arith, there, dir.once q, ap (occurs q) pages, ap (one q) (sym b ∙ e), one_self q))
  grown-fresh q i there lt ne (inr (old, same)) e =
      (dir.fresh q (omega (arith, there, ap (occurs q) pages))).3 i lt ne old (sym same ∙ e)

  grown-IsDirectory : IsDirectory pgdir self grown
  grown-IsDirectory = record {
    aligned = dir.aligned;
    off = λ i lt ne e. grown-off i lt ne (new_or_old i lt e);
    apart = λ i j li lj ni nj ne ei ej.
        grown-apart i j li lj ni nj ne (new_or_old i li ei) (new_or_old j lj ej);
    once = λ q. omega (arith, dir.once q, ap (occurs q) pages);
    fresh = λ q there.
        let (al, word, off, _) = dir.fresh q (omega (arith, there, ap (occurs q) pages)) in
        (al, word, off, λ i lt ne e. grown-fresh q i there lt ne (new_or_old i lt e));
  }

  -- The new table has no entry yet.
  grown_walks : (va' : ℕ) → pde_index va' ≢ self → walk pgdir va' grown.word ≡ walk pgdir va' s.word
  grown_walks va' ne = elim (ℕ_discrete (pde_index va') (pde_index va)) [
    | yes q ↦
        (let here : grown.word (pgdir + 4 * pde_index va') ≡ grown.word pde =
            ap (λ i. grown.word (pgdir + 4 * i)) q in
          let old : is_present (s.word (pgdir + 4 * pde_index va')) ≡ false =
            ap (λ i. is_present (s.word (pgdir + 4 * i))) q ∙ absent in
          rw (ap is_present here ∙ present_new, old)
            (ap entry_of (
              ap (λ b. grown.word (b + 4 * pte_index va')) (ap page_base here ∙ base_new)
              ∙ zeroed (pte_index va') (omega arith))))
    | no other ↦
        walk_congruence pgdir self va' s.word grown.word
          (directory_word (pde_index va') (omega arith) other)
          (λ e.
            elsewhere (page_base (s.word (pgdir + 4 * pde_index va'))) (pte_index va')
              (page_base_aligned (s.word (pgdir + 4 * pde_index va'))) (omega arith)
              (p_fresh.3 (pde_index va') (omega arith) ne e)
              (λ same. absurd (dir.off (pde_index va') (omega arith) ne e same)))
  ]

-- What a write of the entry of an address does.
abbrev pub Put : ℕ → ℕ → ℕ → ℕ → Tables → Option Tables → Type 0
Put pgdir self va entry s r =
    (s' : Tables) × (r ≡ some s')
    × IsDirectory pgdir self s'
    × (walk pgdir va s'.word ≡ entry_of entry)
    × KeepsWalks pgdir self va s.word s'.word
    × (length s.pages ≤ length s'.pages + 1)

get_pte_old :
    (pgdir va : ℕ) (s : Tables)
    → is_present (s.word (pgdir + 4 * pde_index va)) ≡ true
    → get_pte pgdir va s
      ≡ some (page_base (s.word (pgdir + 4 * pde_index va)) + 4 * pte_index va, s)
unfolding get_pte
get_pte_old pgdir va s here = rw (here) refl

get_pte_new :
    (pgdir va p : ℕ) (rest : List ℕ) (s s₁ : Tables)
    → is_present (s.word (pgdir + 4 * pde_index va)) ≡ false
    → s.pages ≡ p ∷ rest
    → set_pde
        (pgdir + 4 * pde_index va)
        p
        (or32 pte_p pte_w)
        (clear_page p (record s { pages = rest }))
      ≡ s₁
    → get_pte pgdir va s
      ≡ some (page_base (s₁.word (pgdir + 4 * pde_index va)) + 4 * pte_index va, s₁)
unfolding get_pte
get_pte_new pgdir va p rest s s₁ absent pages made =
    rw (absent, pages, get_pte)
      (ap
        (λ (t : Tables). some (page_base (t.word (pgdir + 4 * pde_index va)) + 4 * pte_index va, t))
        made)

put_run :
    (pgdir va entry pte : ℕ) (s s₁ : Tables)
    → get_pte pgdir va s ≡ some (pte, s₁)
    → put_entry pgdir va entry s ≡ some (record s₁ { word = update s₁.word pte entry })
unfolding put_entry
put_run pgdir va entry pte s s₁ e = rw (e, put_entry) refl

flags : or32 pte_p pte_w ≡ 3
unfolding or_bits
flags = refl

set_pde_value :
    (dir_entry p : ℕ) (rest : List ℕ) (s : Tables)
    → p % page_size ≡ 0
    → p < 2 ^ 32
    → set_pde dir_entry p (or32 pte_p pte_w) (clear_page p (record s { pages = rest }))
      ≡ record { word = update (cleared p s.word) dir_entry (p + 3); pages = rest }
unfolding set_pde clear_page
set_pde_value dir_entry p rest s al word =
    ap
      (λ v. record {
        word = update (cleared p s.word) dir_entry (or32 (or32 p v) pte_p);
        pages = rest;
      })
      flags
    ∙ ap (λ v. record { word = update (cleared p s.word) dir_entry v; pages = rest })
        (omega (arith, entry_value p 3 al word (omega arith)))

first_page : (xs : List ℕ) → 0 < length xs → (p : ℕ) × (rest : List ℕ) × (xs ≡ p ∷ rest)
first_page [] h = absurd (omega (arith, h))
first_page (p ∷ rest) h = (p, rest, refl)

module _ (pgdir self va entry : ℕ) (low : pde_index va ≢ self) where
  Put-old :
      (s : Tables)
      → IsDirectory pgdir self s
      → is_present (s.word (pgdir + 4 * pde_index va)) ≡ true
      → Put pgdir self va entry s (put_entry pgdir va entry s)
  Put-old s dir here = (
    written pgdir self s dir va entry low here,
    put_run pgdir va entry (slot pgdir self s dir va entry low here) s s
        (get_pte_old pgdir va s here),
    written-IsDirectory pgdir self s dir va entry low here,
    finds pgdir self s dir va entry low here,
    keeps pgdir self s dir va entry low here,
    omega arith,
  )

  Put-new :
      (s : Tables) (p : ℕ) (rest : List ℕ)
      → IsDirectory pgdir self s
      → s.pages ≡ p ∷ rest
      → is_present (s.word (pgdir + 4 * pde_index va)) ≡ false
      → Put pgdir self va entry s (put_entry pgdir va entry s)
  Put-new s p rest dir pages absent =
      let g = grown pgdir self s p rest dir pages va low absent in
      let gdir = grown-IsDirectory pgdir self s p rest dir pages va low absent in
      let here = present_new pgdir self s p rest dir pages va low absent in
      let (al, word, _, _) = dir.fresh p (omega (arith, ap (occurs p) pages, one_self p)) in
      (
        written pgdir self g gdir va entry low here,
        put_run pgdir va entry (slot pgdir self g gdir va entry low here) s g (
            get_pte_new pgdir va p rest s g absent pages
              (set_pde_value (pgdir + 4 * pde_index va) p rest s al word)),
        written-IsDirectory pgdir self g gdir va entry low here,
        finds pgdir self g gdir va entry low here,
        λ va' ne other.
            keeps pgdir self g gdir va entry low here va' ne other
            ∙ grown_walks pgdir self s p rest dir pages va low absent va' ne,
        omega (arith, ap length pages),
      )

  -- With a page at hand the entry of an address is written, and every other address keeps its entry.
  pub put_entry-Put :
      (s : Tables)
      → IsDirectory pgdir self s
      → 0 < length s.pages
      → Put pgdir self va entry s (put_entry pgdir va entry s)
  put_entry-Put s dir some_page =
      elim (Bool-cases (is_present (s.word (pgdir + 4 * pde_index va)))) [
        | inl here ↦ Put-old s dir here
        | inr absent ↦
            (let (p, rest, e) = first_page s.pages some_page in Put-new s p rest dir e absent)
      ]
