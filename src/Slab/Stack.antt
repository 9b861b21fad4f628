-- ===== src/Slab/Stack.antt =====
-- The free objects of a page are a stack of indices behind `active`.
use oh_my_os.Base.{
  ℕ, ◌+◌, ◌-◌, ◌*◌, ◌≤◌, ◌<◌, ◌≡◌, ◌≢◌, ◌⊎◌, inl, inr, ◌∙◌, sym, ap, subst, refl, arith,
}
use oh_my_os.Memory.{Mem, write}
use oh_my_os.Memory.Copy.{write_self, write_ne}
use oh_my_os.Slab.{SlabPage}
use native.Mathlib.Decide.{ℕ_discrete}

-- A page in use by a cache of objects of `size` bytes: an index fits in a byte, the objects end before
-- the free list, and the indices from `active` on are distinct objects.
pub record IsSlab (size : ℕ) (m : Mem) (p : SlabPage) : Type 0 where
  pub sized : 0 < size
  pub few : p.total ≤ 256
  pub fits : p.s_mem + size * p.total ≤ p.freelist
  pub active_le : p.active ≤ p.total
  pub range : (i : ℕ) → p.active ≤ i → i < p.total → m (p.freelist + i) < p.total
  pub distinct :
      (i j : ℕ) → p.active ≤ i → i < j → j < p.total → m (p.freelist + i) ≢ m (p.freelist + j)

-- The object of the index `k` is free, or is not.
abbrev pub IsFree : Mem → SlabPage → ℕ → Type 0
IsFree m p k = (i : ℕ) × (p.active ≤ i) × (i < p.total) × (m (p.freelist + i) ≡ k)

abbrev pub NotFree : Mem → SlabPage → ℕ → Type 0
NotFree m p k = (i : ℕ) → p.active ≤ i → i < p.total → m (p.freelist + i) ≢ k

abbrev pub popped : SlabPage → SlabPage
popped p = record p { active = p.active + 1 }

abbrev pub pushed : SlabPage → SlabPage
pushed p = record p { active = p.active - 1 }

-- What an allocation does to a page: the object `k` was free and is not, the others stay as they were.
pub record Allocated (size : ℕ) (m : Mem) (p : SlabPage) (k : ℕ) : Type 0 where
  pub slab : IsSlab size m (popped p)
  pub in_range : k < p.total
  pub was_free : IsFree m p k
  pub is_taken : NotFree m (popped p) k
  pub others : (j : ℕ) → j ≢ k → IsFree m p j → IsFree m (popped p) j
  pub no_more : (j : ℕ) → IsFree m (popped p) j → IsFree m p j

pub pop_lem :
    (size : ℕ) (m : Mem) (p : SlabPage)
    → IsSlab size m p
    → p.active < p.total
    → Allocated size m p (m (p.freelist + p.active))
pop_lem size m p v lt = record {
  slab = record {
    sized = v.sized;
    few = v.few;
    fits = v.fits;
    active_le = omega arith;
    range = λ i lo hi. v.range i (omega arith) hi;
    distinct = λ i j lo ij hi. v.distinct i j (omega arith) ij hi;
  };
  in_range = v.range p.active (omega arith) lt;
  was_free = (p.active, omega arith, lt, refl);
  is_taken = λ i lo hi e. v.distinct p.active i (omega arith) (omega arith) hi (sym e);
  others = λ j ne (i, lo, hi, e). elim (ℕ_discrete i p.active) [
    | yes same ↦ absurd (ne (sym e ∙ ap (λ t. m (p.freelist + t)) same))
    | no other ↦ (i, omega arith, hi, e)
  ];
  no_more = λ j (i, lo, hi, e). (i, omega arith, hi, e);
}

-- the memory with the index `k` on top of the stack
abbrev pub stacked : Mem → SlabPage → ℕ → Mem
stacked m p k = write m (p.freelist + (p.active - 1)) k

-- What giving an object back does to a page.
pub record Freed (size : ℕ) (m : Mem) (p : SlabPage) (k : ℕ) : Type 0 where
  pub slab : IsSlab size (stacked m p k) (pushed p)
  pub is_free : IsFree (stacked m p k) (pushed p) k
  pub others : (j : ℕ) → IsFree m p j → IsFree (stacked m p k) (pushed p) j
  pub no_more : (j : ℕ) → j ≢ k → IsFree (stacked m p k) (pushed p) j → IsFree m p j

module _ (size : ℕ) (m : Mem) (p : SlabPage) (k : ℕ) (v : IsSlab size m p)
    (some_taken : 0 < p.active) where
  -- the entries of the stack: the new one and the old ones
  top : stacked m p k (p.freelist + (p.active - 1)) ≡ k
  top = write_self m (p.freelist + (p.active - 1)) k

  below : (i : ℕ) → p.active ≤ i → stacked m p k (p.freelist + i) ≡ m (p.freelist + i)
  below i lo =
      write_ne m (p.freelist + (p.active - 1)) k (p.freelist + i) (λ e. absurd (omega (arith, e)))

  top_or_below :
      (i : ℕ)
      → p.active - 1 ≤ i
      → ((i ≡ p.active - 1) × (stacked m p k (p.freelist + i) ≡ k))
        ⊎ ((p.active ≤ i) × (stacked m p k (p.freelist + i) ≡ m (p.freelist + i)))
  top_or_below i lo = elim (ℕ_discrete i (p.active - 1)) [
    | yes e ↦ inl (e, ap (λ t. stacked m p k (p.freelist + t)) e ∙ top)
    | no ne ↦ let lo' : p.active ≤ i = omega arith in inr (lo', below i lo')
  ]

  push_distinct :
      NotFree m p k
      → (i j : ℕ) → p.active - 1 ≤ i
      → i < j
      → j < p.total
      → stacked m p k (p.freelist + i) ≢ stacked m p k (p.freelist + j)
  push_distinct taken i j lo ij hi =
      let at_j = below j (omega arith) in
      elim (top_or_below i lo) [
        | inl (_, e) ↦ λ r. taken j (omega arith) hi (sym at_j ∙ sym r ∙ e)
        | inr (lo', e) ↦ λ r. v.distinct i j lo' ij hi (sym e ∙ r ∙ at_j)
      ]

  pub push_lem : k < p.total → NotFree m p k → Freed size m p k
  push_lem lt taken = record {
    slab = record {
      sized = v.sized;
      few = v.few;
      fits = v.fits;
      active_le = omega (arith, v.active_le);
      range = λ i lo hi. elim (top_or_below i lo) [
        | inl (_, e) ↦ subst (λ t. t < p.total) (sym e) lt
        | inr (lo', e) ↦ subst (λ t. t < p.total) (sym e) (v.range i lo' hi)
      ];
      distinct = push_distinct taken;
    };
    is_free = (p.active - 1, omega arith, omega (arith, v.active_le), top);
    others = λ j (i, lo, hi, e). (i, omega arith, hi, below i lo ∙ e);
    no_more = λ j ne (i, lo, hi, e). elim (top_or_below i lo) [
      | inl (_, e') ↦ absurd (ne (sym e ∙ e'))
      | inr (lo', e') ↦ (i, lo', hi, sym e' ∙ e)
    ];
  }
