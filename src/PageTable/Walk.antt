-- ===== src/PageTable/Walk.antt =====
-- The walk of the processor through the tables, and what makes a page directory.
use oh_my_os.Base.{
  ℕ, ◌+◌, ◌*◌, ◌%◌, ◌^◌, ◌<◌, ◌≤◌, ◌≡◌, ◌≢◌, ap, arith, true, Option, none, some, if◌then◌else◌,
}
use oh_my_os.RbTree.Order.{occurs}
use oh_my_os.PageTable.{page_size, pde_index, pte_index, page_base, is_present, Tables}

-- The entry that the processor finds for an address.
abbrev pub entry_of : ℕ → Option ℕ
entry_of w = if is_present w then some w else none

abbrev pub walk : ℕ → ℕ → (ℕ → ℕ) → Option ℕ
walk pgdir va word =
    let pde = word (pgdir + 4 * pde_index va) in
    if is_present pde then entry_of (word (page_base pde + 4 * pte_index va)) else none

-- The tables of the directory, but for the entry `self` that maps the directory itself, and the pages to
-- come are on pages of their own.
pub record IsDirectory (pgdir self : ℕ) (s : Tables) : Type 0 where
  pub aligned : pgdir % page_size ≡ 0
  pub off :
      (i : ℕ)
      → i < 1024
      → i ≢ self
      → is_present (s.word (pgdir + 4 * i)) ≡ true
      → page_base (s.word (pgdir + 4 * i)) ≢ pgdir
  pub apart :
      (i j : ℕ)
      → i < 1024
      → j < 1024
      → i ≢ self
      → j ≢ self
      → i ≢ j
      → is_present (s.word (pgdir + 4 * i)) ≡ true
      → is_present (s.word (pgdir + 4 * j)) ≡ true
      → page_base (s.word (pgdir + 4 * i)) ≢ page_base (s.word (pgdir + 4 * j))
  pub once : (p : ℕ) → occurs p s.pages ≤ 1
  pub fresh :
      (p : ℕ)
      → 0 < occurs p s.pages
      → (p % page_size ≡ 0)
        × (p < 2 ^ 32)
        × (p ≢ pgdir)
        × ((i : ℕ)
            → i < 1024
            → i ≢ self
            → is_present (s.word (pgdir + 4 * i)) ≡ true
            → page_base (s.word (pgdir + 4 * i)) ≢ p)

-- Two entries on pages are the same where the pages and the indices are.
pub same_entry :
    (p q i j : ℕ)
    → p % page_size ≡ 0
    → q % page_size ≡ 0
    → i < 1024
    → j < 1024
    → p + 4 * i ≡ q + 4 * j
    → (p ≡ q) × (i ≡ j)
same_entry p q i j ap aq hi hj e =
    (omega (arith, ap, aq, hi, hj, e), omega (arith, ap, aq, hi, hj, e))

pub page_base_aligned : (w : ℕ) → page_base w % page_size ≡ 0
page_base_aligned w = omega arith
