-- ===== src/Kmalloc/Early/Split.antt =====
-- Splitting the block in hand keeps the invariant for its lower half, and what the lists and the
-- block cover together.
use oh_my_os.Base.{
  ℕ, suc, ◌+◌, ◌-◌, ◌^◌, ◌≤◌, ◌≡◌, ◌≢◌, ◌∙◌, ap, ap₂, true, List, ◌∷◌, arith, update, update_ne,
  update_self,
}
use oh_my_os.Kmalloc.Early.{Blocks, split, list_insert, flip_bit}
use oh_my_os.Kmalloc.Early.Cover.{
  in_block, cover_list, cover, cover-update, cover_list-le-cover, in_block_self, in_block_halves,
}
use oh_my_os.Bits.Length.{pow-pos}
use oh_my_os.Kmalloc.Early.Inv.{
  IsListed, AllListed, Holding, keep_listed, flip_bit_aligned, aligned_half,
}
use native.Mathlib.Nat.{two-pow-succ}
use native.Mathlib.Decide.{ℕ_discrete}

-- the state behind a split of `b` into `b` and `c`, both of order `o`
abbrev pub halves : Blocks → ℕ → ℕ → ℕ → Blocks
halves s b o c =
    list_insert (record s { order = update (update s.order b o) c o; free = update s.free c true })
      o c

-- Outside the block `b` of order `k` nothing is written of the units.
abbrev pub IsApart : ℕ → ℕ → Blocks → Blocks → Type 0
IsApart b k s s' = (x : ℕ) → in_block x k b ≡ 0 → (s'.order x ≡ s.order x) × (s'.free x ≡ s.free x)

-- A block covers the first unit of either half.
pub upper_unit : (b o : ℕ) → (in_block b (suc o) b ≡ 1) × (in_block (b + 2 ^ o) (suc o) b ≡ 1)
upper_unit b o = (in_block_self b (suc o), ground (arith, two-pow-succ o, pow-pos o))

module _ (max_order total : ℕ) where
  -- A unit that the block in hand covers is in no list.
  pub uncovered :
      (s : Blocks) (b k x o : ℕ)
      → Holding max_order total s b k
      → in_block x k b ≡ 1
      → o ≤ max_order
      → cover_list x o (s.lists o) ≡ 0
  uncovered s b k x o h e le = omega (arith, h.once x, cover_list-le-cover max_order x o s.lists le)

  -- A free block put in front of a list, as the upper half of `b`.
  cover-cons :
      (x o : ℕ) (lists : ℕ → List ℕ) (b c : ℕ)
      → o ≤ max_order
      → in_block x o b + in_block x o c ≡ in_block x (suc o) b
      → cover max_order x (update lists o (c ∷ lists o)) + in_block x o b
        ≡ cover max_order x lists + in_block x (suc o) b
  cover-cons x o lists b c lt e =
      omega (arith, cover-update max_order x o lists (c ∷ lists o) lt, e)

  module _ (s : Blocks) (b o : ℕ) (h : Holding max_order total s b (suc o)) where
    half : flip_bit (s.order b - 1) b ≡ b + 2 ^ o
    half =
        let e : s.order b - 1 ≡ o = omega (arith, h.ordered) in
        ap (λ k. flip_bit k b) e ∙ flip_bit_aligned o b h.aligned

    pub split-halves : split b s ≡ halves s b o (b + 2 ^ o)
    unfolding split
    split-halves = let e : s.order b - 1 ≡ o = omega (arith, h.ordered) in ap₂ (halves s b) e half

    abbrev t : Blocks
    t = halves s b o (b + 2 ^ o)

    pub split-cover :
        (x : ℕ)
        → cover max_order x t.lists + in_block x o b
          ≡ cover max_order x s.lists + in_block x (suc o) b
    unfolding list_insert
    split-cover x =
        cover-cons x o s.lists b (b + 2 ^ o) (omega (arith, h.bounded)) (in_block_halves x o b)

    split_same : (d : ℕ) → d ≢ b → d ≢ b + 2 ^ o → (t.order d ≡ s.order d) × (t.free d ≡ s.free d)
    unfolding list_insert
    split_same d p q = (
      update_ne (update s.order b o) (b + 2 ^ o) o d q ∙ update_ne s.order b o d p,
      update_ne s.free (b + 2 ^ o) true d q,
    )

    pub split-IsApart : IsApart b (suc o) s t
    split-IsApart x out =
        let (lower, upper) = upper_unit b o in
        split_same x (λ e. absurd (omega (arith, out, lower, ap (λ y. in_block y (suc o) b) e)))
          (λ e. absurd (omega (arith, out, upper, ap (λ y. in_block y (suc o) b) e)))

    split-IsListed : IsListed max_order total t o (b + 2 ^ o)
    unfolding list_insert
    split-IsListed = record {
      aligned = (aligned_half o b h.aligned).1;
      ordered = update_self (update s.order b o) (b + 2 ^ o) o;
      marked = update_self s.free (b + 2 ^ o) true;
      inside = omega (arith, h.inside, two-pow-succ o);
    }

    kept : (k : ℕ) → k ≤ max_order → AllListed max_order total t k (s.lists k)
    unfolding list_insert
    kept k le =
        keep_listed max_order total s t b (b + 2 ^ o) k (s.lists k) split_same
          (uncovered s b (suc o) b k h (upper_unit b o).0 le)
          (uncovered s b (suc o) (b + 2 ^ o) k h (upper_unit b o).1 le) (h.listed k le)

    split_listed : (k : ℕ) → k ≤ max_order → AllListed max_order total t k (t.lists k)
    unfolding list_insert
    split_listed k le = elim (ℕ_discrete k o) [
      | yes e ↦ rw e (
          rw (update_self s.lists o ((b + 2 ^ o) ∷ s.lists o))
            (split-IsListed, kept o (omega (arith, h.bounded))))
      | no ne ↦ rw (update_ne s.lists o ((b + 2 ^ o) ∷ s.lists o) k ne) (kept k le)
    ]

    pub split-Holding : Holding max_order total t b o
    unfolding list_insert
    split-Holding = record {
      listed = split_listed;
      once = λ x. omega (arith, h.once x, split-cover x);
      aligned = (aligned_half o b h.aligned).0;
      ordered =
          update_ne (update s.order b o) (b + 2 ^ o) o b (λ e. absurd (omega (arith, e, pow-pos o)))
          ∙ update_self s.order b o;
      inside = omega (arith, h.inside, two-pow-succ o);
      bounded = omega (arith, h.bounded);
    }
