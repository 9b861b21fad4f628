-- ===== src/PageTable/Entry.antt =====
-- One entry of the tables: `get_pte` and the write behind it.
use oh_my_os.Base.{
  ℕ, ◌+◌, ◌*◌, ◌%◌, ◌<◌, ◌≡◌, ◌≢◌, inl, inr, ◌∙◌, sym, ap, refl, arith, true, Bool-cases, none,
  if◌then◌else◌, update, update_ne, update_self,
}
use oh_my_os.PageTable.{page_size, pde_index, pte_index, page_base, is_present, Tables}
use oh_my_os.PageTable.Walk.{entry_of, walk, IsDirectory, same_entry, page_base_aligned}
use native.Mathlib.Decide.{ℕ_discrete}

-- Two addresses are on the same page of the address space of 4 GB.
abbrev pub SamePage : ℕ → ℕ → Type 0
SamePage va va' = (pde_index va ≡ pde_index va') × (pte_index va ≡ pte_index va')

module _ (pgdir self : ℕ) where
  -- The other addresses have the entries that they had.
  abbrev pub KeepsWalks : ℕ → (ℕ → ℕ) → (ℕ → ℕ) → Type 0
  KeepsWalks va word word' =
      (va' : ℕ)
      → pde_index va' ≢ self
      → ¬ SamePage va va'
      → walk pgdir va' word' ≡ walk pgdir va' word

  pub walk_congruence :
      (va : ℕ) (word word' : ℕ → ℕ)
      → word' (pgdir + 4 * pde_index va) ≡ word (pgdir + 4 * pde_index va)
      → (is_present (word (pgdir + 4 * pde_index va)) ≡ true
          → word' (page_base (word (pgdir + 4 * pde_index va)) + 4 * pte_index va)
            ≡ word (page_base (word (pgdir + 4 * pde_index va)) + 4 * pte_index va))
      → walk pgdir va word' ≡ walk pgdir va word
  walk_congruence va word word' e same =
      ap (λ w. if is_present w then entry_of (word' (page_base w + 4 * pte_index va)) else none) e
      ∙ elim (Bool-cases (is_present (word (pgdir + 4 * pde_index va)))) [
        | inl here ↦ rw here (ap entry_of (same here))
        | inr absent ↦ rw absent refl
      ]

  module _ (s : Tables) (dir : IsDirectory pgdir self s) (va entry : ℕ) (low : pde_index va ≢ self)
      (here : is_present (s.word (pgdir + 4 * pde_index va)) ≡ true) where
    abbrev pub table : ℕ
    table = page_base (s.word (pgdir + 4 * pde_index va))

    abbrev pub slot : ℕ
    slot = table + 4 * pte_index va

    abbrev pub written : Tables
    written = record s { word = update s.word slot entry }

    not_slot :
        (q k : ℕ)
        → q % page_size ≡ 0
        → k < 1024
        → ((q ≡ table) → k ≢ pte_index va)
        → update s.word slot entry (q + 4 * k) ≡ s.word (q + 4 * k)
    not_slot q k al lt apart = update_ne s.word slot entry (q + 4 * k) (λ e.
        let (p, i) =
          same_entry q table k (pte_index va) al
            (page_base_aligned (s.word (pgdir + 4 * pde_index va))) lt (omega arith) e in
        apart p i)

    same_directory : (j : ℕ) → j < 1024 → written.word (pgdir + 4 * j) ≡ s.word (pgdir + 4 * j)
    same_directory j lt =
        not_slot pgdir j dir.aligned lt
          (λ e. absurd (dir.off (pde_index va) (omega arith) low here (sym e)))

    was_present :
        (j : ℕ)
        → j < 1024
        → is_present (written.word (pgdir + 4 * j)) ≡ true
        → is_present (s.word (pgdir + 4 * j)) ≡ true
    was_present j lt e = ap is_present (sym (same_directory j lt)) ∙ e

    pub written-IsDirectory : IsDirectory pgdir self written
    written-IsDirectory = record {
      aligned = dir.aligned;
      off = λ i lt ne e q.
          dir.off i lt ne (was_present i lt e) (ap page_base (sym (same_directory i lt)) ∙ q);
      apart = λ i j li lj ni nj ne ei ej q.
          dir.apart i j li lj ni nj ne (was_present i li ei) (was_present j lj ej)
            (ap page_base (sym (same_directory i li)) ∙ q ∙ ap page_base (same_directory j lj));
      once = dir.once;
      fresh = λ p i.
          let (al, word, ne, apart) = dir.fresh p i in
          (
            al,
            word,
            ne,
            λ j lt nj e q.
                apart j lt nj (was_present j lt e) (ap page_base (sym (same_directory j lt)) ∙ q),
          );
    }

    pub finds : walk pgdir va written.word ≡ entry_of entry
    finds =
        ap
          (λ w.
            if is_present w then entry_of (written.word (page_base w + 4 * pte_index va)) else none)
          (same_directory (pde_index va) (omega arith))
        ∙ rw here (ap entry_of (update_self s.word slot entry))

    pub keeps : KeepsWalks va s.word written.word
    keeps va' ne other =
        walk_congruence va' s.word written.word (same_directory (pde_index va') (omega arith)) (λ e.
          not_slot (page_base (s.word (pgdir + 4 * pde_index va'))) (pte_index va')
            (page_base_aligned (s.word (pgdir + 4 * pde_index va'))) (omega arith)
            (λ same_table k. elim (ℕ_discrete (pde_index va') (pde_index va)) [
              | yes i ↦ other (sym i, sym k)
              | no apart ↦
                  dir.apart (pde_index va') (pde_index va) (omega arith) (omega arith) ne low apart
                    e here same_table
            ]))
