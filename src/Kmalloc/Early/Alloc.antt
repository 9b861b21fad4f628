-- ===== src/Kmalloc/Early/Alloc.antt =====
-- `alloc_blocks` hands out a free aligned block of the order, and loses or doubles no unit.
use oh_my_os.Base.{
  ℕ, zero, suc, ◌+◌, ◌-◌, ◌%◌, ◌^◌, ◌≤◌, ◌<◌, ◌≡◌, ◌≢◌, ◌⊎◌, inl, inr, subst, le→leb, ◌∙◌, sym, ap,
  refl, Bool-cases, ltb→lt, ltb→ge, ge→ltb, eq→==, Option, some, none, true, false, List, [], ◌∷◌,
  arith, ltb, ◌==◌, update, update_ne, update_self,
}
use oh_my_os.Kmalloc.Early.{Blocks, units, split, split_loop, take_block, alloc_from, alloc_blocks}
use oh_my_os.Kmalloc.Early.Cover.{
  in_block, cover_list, cover, cover-update, in_block_self, in_block_halves,
}
use oh_my_os.Kmalloc.Early.Inv.{AllListed, IsValid, Holding, keep_listed}
use oh_my_os.Kmalloc.Early.Split.{
  IsApart, uncovered, split-halves, split-cover, split-Holding, split-IsApart,
}
use native.Mathlib.Decide.{ℕ_discrete}

pub list_cases : (bs : List ℕ) → (bs ≡ []) ⊎ ((b : ℕ) × (rest : List ℕ) × (bs ≡ b ∷ rest))
list_cases [] = inl refl
list_cases (b ∷ rest) = inr (b, rest, refl)

module _ (max_order total : ℕ) where
  -- `s'` holds `b` as a block of order `order`, no unit went astray since `s`, and nothing is written of
  -- the units outside the block of order `k`.
  abbrev IsSplit : ℕ → ℕ → ℕ → Blocks → Blocks → Type 0
  IsSplit b k order s s' =
      Holding max_order total s' b order
      × ((x : ℕ)
          → cover max_order x s'.lists + in_block x order b
            ≡ cover max_order x s.lists + in_block x k b)
      × IsApart b k s s'

  split-IsSplit :
      (s : Blocks) (b o : ℕ)
      → Holding max_order total s b (suc o)
      → IsSplit b (suc o) o s (split b s)
  split-IsSplit s b o h = rw (split-halves max_order total s b o h) (
    split-Holding max_order total s b o h,
    split-cover max_order total s b o h,
    split-IsApart max_order total s b o h,
  )

  IsSplit-step :
      (s s' : Blocks) (b k o : ℕ)
      → IsSplit b (suc o) o s s'
      → (t : Blocks) → IsSplit b o k s' t
      → IsSplit b (suc o) k s t
  IsSplit-step s s' b k o (_, e, apart) t (h, e', apart') = (
    h,
    λ x. omega (arith, e x, e' x),
    λ x out.
        let (order, free) = apart x out in
        let (order', free') = apart' x (omega (arith, out, in_block_halves x o b)) in
        (order' ∙ order, free' ∙ free),
  )

  pub split_loop-Holding :
      (fuel order b k : ℕ) (s : Blocks)
      → Holding max_order total s b k
      → order ≤ k
      → k ≤ fuel + order
      → IsSplit b k order s (split_loop fuel order b s)
  unfolding split_loop
  split_loop-Holding zero order b k s h le enough =
      let e : k ≡ order = omega arith in rw (sym e) (h, (λ x. refl), λ x out. (refl, refl))
  split_loop-Holding (suc f) order b zero s h le enough =
      let e : order ≡ 0 = omega arith in
      let stop : ltb order (s.order b) ≡ false =
        ge→ltb order (s.order b) (omega (arith, h.ordered)) in
      rw (stop, split_loop) (rw e (h, (λ x. refl), λ x out. (refl, refl)))
  split_loop-Holding (suc f) order b (suc o) s h le enough =
      elim (Bool-cases (ltb order (s.order b))) [
        | inl more ↦
            let lt : order < suc o = omega (arith, ltb→lt order (s.order b) more, h.ordered) in
            let step = split-IsSplit s b o h in
            rw (more, split_loop)
              (IsSplit-step s (split b s) b order o step (split_loop f order b (split b s))
                (split_loop-Holding f order b o (split b s) step.0 (omega arith) (omega arith)))
        | inr stop ↦
            let e : order ≡ suc o = omega (arith, ltb→ge order (s.order b) stop, h.ordered) in
            rw (stop, split_loop) (rw e (h, (λ x. refl), λ x out. (refl, refl)))
      ]

  -- Taking the first block out of its list puts it in hand.
  with_lists :
      (s : Blocks) (lists : ℕ → List ℕ) (o : ℕ) (bs : List ℕ)
      → AllListed max_order total s o bs
      → AllListed max_order total (record s { lists = lists }) o bs
  with_lists s lists o [] h = tt
  with_lists s lists o (b ∷ bs) (h, hs) = (
    record { aligned = h.aligned; ordered = h.ordered; marked = h.marked; inside = h.inside },
    with_lists s lists o bs hs,
  )

  module _ (s : Blocks) (valid : IsValid max_order total s) (i b : ℕ) (rest : List ℕ)
      (first : s.lists i ≡ b ∷ rest) (le : i ≤ max_order) where
    abbrev pub taken : Blocks
    taken = record s { lists = update s.lists i rest }

    head_listed : AllListed max_order total s i (b ∷ rest)
    head_listed = subst (AllListed max_order total s i) first (valid.listed i le)

    taken_listed : (o : ℕ) → o ≤ max_order → AllListed max_order total taken o (taken.lists o)
    taken_listed o h = elim (ℕ_discrete o i) [
      | yes e ↦
          rw e (rw (update_self s.lists i rest) (with_lists s taken.lists i rest head_listed.1))
      | no ne ↦
          rw (update_ne s.lists i rest o ne)
            (with_lists s taken.lists o (s.lists o) (valid.listed o h))
    ]

    pub taken_cover :
        (x : ℕ) → cover max_order x taken.lists + in_block x i b ≡ cover max_order x s.lists
    taken_cover x =
        omega (arith, cover-update max_order x i s.lists rest le, ap (cover_list x i) first)

    pub taken-Holding : Holding max_order total taken b i
    taken-Holding = record {
      listed = taken_listed;
      once = λ x. omega (arith, taken_cover x, valid.once x);
      aligned = head_listed.0.aligned;
      ordered = head_listed.0.ordered;
      inside = head_listed.0.inside;
      bounded = le;
    }

  -- `b` is handed out as a block of order `order`: it is aligned, in range and marked as taken, the
  -- invariant holds, the lists cover what they covered but the units of the block, and nothing is
  -- written of the units outside one free block.
  pub record HandedOut (order : ℕ) (s : Blocks) (b : ℕ) (s' : Blocks) : Type 0 where
    pub valid : IsValid max_order total s'
    pub aligned : b % 2 ^ order ≡ 0
    pub inside : b + 2 ^ order ≤ total
    pub ordered : s'.order b ≡ order
    pub taken : s'.free b ≡ false
    pub exact :
        (x : ℕ) → cover max_order x s'.lists + in_block x order b ≡ cover max_order x s.lists
    -- the free block that it was cut from, outside of which nothing is written
    pub apart : (k : ℕ) × ((x : ℕ) → in_block x k b ≤ cover max_order x s.lists) × IsApart b k s s'

  -- Marking the block in hand as taken.
  marked-IsValid :
      (s : Blocks) (b k : ℕ)
      → Holding max_order total s b k
      → IsValid max_order total (record s { free = update s.free b false })
  marked-IsValid s b k h =
      let s' = record s { free = update s.free b false } in
      record {
        listed = λ o le.
            keep_listed max_order total s s' b b o (s.lists o)
              (λ d ne _. (refl, update_ne s.free b false d ne))
              (uncovered max_order total s b k b o h (in_block_self b k) le)
              (uncovered max_order total s b k b o h (in_block_self b k) le) (h.listed o le);
        once = λ x. omega (arith, h.once x);
      }

  abbrev Found : ℕ → Blocks → Option (Option ℕ × Blocks) → Type 0
  Found order s r = (b : ℕ) × (s' : Blocks) × (r ≡ some (some b, s')) × HandedOut order s b s'

  take_block-Found :
      (s : Blocks)
      → IsValid max_order total s
      → (i b : ℕ) (rest : List ℕ) → s.lists i ≡ b ∷ rest
      → i ≤ max_order
      → (order : ℕ) → order ≤ i
      → Found order s (take_block order i b rest s)
  unfolding take_block
  take_block-Found s valid i b rest first le order lo =
      let h = taken-Holding s valid i b rest first le in
      let same : (i == s.order b) ≡ true = eq→== i (s.order b) (sym h.ordered) in
      let s₁ = split_loop (s.order b) order b (taken s valid i b rest first le) in
      let (h₁, e, apart) =
        split_loop-Holding (s.order b) order b i (taken s valid i b rest first le) h lo
          (omega (arith, h.ordered)) in
      (
        b,
        record s₁ { free = update s₁.free b false },
        rw same refl,
        record {
          valid = marked-IsValid s₁ b order h₁;
          aligned = h₁.aligned;
          inside = h₁.inside;
          ordered = h₁.ordered;
          taken = update_self s₁.free b false;
          exact = λ x. omega (arith, e x, taken_cover s valid i b rest first le x);
          apart = (
            i,
            (λ x. omega (arith, taken_cover s valid i b rest first le x)),
            λ x out.
                let (order_same, free_same) = apart x out in
                let ne : x ≢ b = λ at.
                  absurd (omega (arith, out, in_block_self b i, ap (λ y. in_block y i b) at)) in
                (order_same, update_ne s₁.free b false x ne ∙ free_same),
          );
        },
      )

  -- No list from `i` on has a block.
  abbrev pub NoneFrom : ℕ → Blocks → Type 0
  NoneFrom i s = (o : ℕ) → i ≤ o → o ≤ max_order → s.lists o ≡ []

  pub alloc_from_cases :
      (rounds i order : ℕ) (s : Blocks)
      → IsValid max_order total s
      → rounds + i ≡ suc max_order
      → order ≤ i
      → ((alloc_from rounds order i s ≡ some (none, s)) × NoneFrom i s)
        ⊎ Found order s (alloc_from rounds order i s)
  unfolding alloc_from
  alloc_from_cases zero i order s valid e lo = inl (refl, λ o p q. absurd (omega arith))
  alloc_from_cases (suc n) i order s valid e lo = elim (list_cases (s.lists i)) [
    | inl empty ↦
        rw (empty, alloc_from)
          (elim (alloc_from_cases n (i + 1) order s valid (omega arith) (omega arith)) [
            | inl (r, none_above) ↦ inl (
              r,
              λ o p q. elim (ℕ_discrete o i) [
                | yes same ↦ ap s.lists same ∙ empty
                | no ne ↦ none_above o (omega arith) q
              ],
            )
            | inr found ↦ inr found
          ])
    | inr (b, rest, first) ↦
        rw (first, alloc_from)
          (inr (take_block-Found s valid i b rest first (omega arith) order lo))
  ]

-- On a state with the invariant and for an order up to 12, `alloc_blocks` passes its assertions and
-- either answers NULL, the state unchanged, where no list of the order or a higher one has a block,
-- or hands out a block of the order: aligned, in range, marked as taken, of units that were free and
-- are free no more, while every other unit stays as free as it was and nothing is written of the units
-- outside the free block that it was cut from, and the invariant holds.
pub alloc_blocks_cases :
    (order : ℕ) (s : Blocks)
    → IsValid 12 units s
    → order ≤ 12
    → ((alloc_blocks order s ≡ some (none, s)) × NoneFrom 12 units order s)
      ⊎ ((b : ℕ) × (s' : Blocks) × (alloc_blocks order s ≡ some (some b, s'))
          × HandedOut 12 units order s b s')
unfolding alloc_blocks
alloc_blocks_cases order s valid le =
    rw (le→leb order 12 le)
      (alloc_from_cases 12 units (13 - order) order order s valid (omega arith) (omega arith))
