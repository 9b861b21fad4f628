-- ===== src/Page/Kinds.antt =====
-- The two kinds of pages of mm/page.c: the invariant of the free lists of one, beside those of the other.
use oh_my_os.Base.{
  ℕ, ◌≤◌, ◌≡◌, ◌≢◌, ◌⊎◌, inl, inr, ◌∙◌, sym, ap, subst, arith, Bool, true, List, [], ◌∷◌,
}
use oh_my_os.Kmalloc.Early.{Blocks}
use oh_my_os.Kmalloc.Early.Cover.{in_block, cover_list, cover, cover_list-le-cover, in_block_self}
use oh_my_os.Kmalloc.Early.Inv.{AllListed, IsValid}
use oh_my_os.Kmalloc.Early.Split.{IsApart}
use oh_my_os.Page.{Zone, max_order, total_pages, lists_of}
use oh_my_os.Page.View.{view, SameElse}

-- The free lists of the kind `h` have the block allocator's invariant, and every page in them is there
-- and of that kind.
pub record IsZone (h : Bool) (z : Zone) : Type 0 where
  pub valid : IsValid max_order total_pages (view h z)
  pub kinds :
      (x : ℕ) → cover max_order x (lists_of h z) ≡ 1 → (z.valid x ≡ true) × (z.highmem x ≡ h)

-- A list stays listed where nothing is written of the units it covers.
AllListed-frame :
    (s s' : Blocks) (o : ℕ) (bs : List ℕ)
    → ((x : ℕ) → 1 ≤ cover_list x o bs → (s'.order x ≡ s.order x) × (s'.free x ≡ s.free x))
    → AllListed max_order total_pages s o bs
    → AllListed max_order total_pages s' o bs
AllListed-frame s s' o [] same h = tt
AllListed-frame s s' o (b ∷ bs) same (h, hs) =
    let (order_same, free_same) = same b (omega (arith, in_block_self b o)) in
    (
      record {
        aligned = h.aligned;
        ordered = order_same ∙ h.ordered;
        marked = free_same ∙ h.marked;
        inside = h.inside;
      },
      AllListed-frame s s' o bs (λ x i. same x (omega (arith, i))) hs,
    )

-- What an allocation of the block `b` of the kind `h` leaves: the order and the mark of every page outside
-- the free block that it was cut from, and the invariant of either kind.
pub record KeptKinds (h : Bool) (z : Zone) (b : ℕ) (z' : Zone) : Type 0 where
  pub fields :
      (k : ℕ) × ((x : ℕ) → in_block x k b ≤ cover max_order x (lists_of h z))
      × IsApart b k (view h z) (view h z')
  pub own : IsZone h z'
  pub other : (g : Bool) → g ≢ h → IsZone g z → IsZone g z'

module _ (h : Bool) (z : Zone) (b : ℕ) (z' : Zone) (zone : IsZone h z) (same : SameElse h z z')
    (fields : (k : ℕ) × ((x : ℕ) → in_block x k b ≤ cover max_order x (lists_of h z))
      × IsApart b k (view h z) (view h z')) where
  same_flags :
      (g : Bool) (x : ℕ)
      → (z.valid x ≡ true) × (z.highmem x ≡ g)
      → (z'.valid x ≡ true) × (z'.highmem x ≡ g)
  same_flags g x (there, kind) = (
    ap (λ (f : ℕ → Bool). f x) same.valid ∙ there,
    ap (λ (f : ℕ → Bool). f x) same.highmem ∙ kind,
  )

  -- No page is in the lists of both kinds.
  uncovered_here :
      (g : Bool)
      → g ≢ h
      → IsZone g z
      → (x : ℕ) → 1 ≤ cover max_order x (lists_of g z)
      → cover max_order x (lists_of h z) ≡ 0
  uncovered_here g ne other x i =
      elim (zero_or_one (cover max_order x (lists_of h z)) (zone.valid.once x)) [
        | inl bare ↦ bare
        | inr here ↦
            let mine = zone.kinds x here in
            let theirs = other.kinds x (omega (arith, i, other.valid.once x)) in
            absurd (ne (sym theirs.1 ∙ mine.1))
      ]
    where
      zero_or_one : (n : ℕ) → n ≤ 1 → (n ≡ 0) ⊎ (n ≡ 1)
      zero_or_one n le = omega (arith, le)

  IsZone-other : (g : Bool) → g ≢ h → IsZone g z → IsZone g z'
  IsZone-other g ne other =
      let lists = same.others g ne in
      let covers : (x : ℕ) → cover max_order x (lists_of g z') ≡ cover max_order x (lists_of g z) =
        λ x. ap (cover max_order x) lists in
      record {
        valid = record {
          listed = λ o le.
              subst (λ l. AllListed max_order total_pages (view g z') o (l o)) (sym lists)
                (AllListed-frame (view g z) (view g z') o (lists_of g z o)
                  (λ x i. fields.2 x (
                    omega (
                      arith,
                      fields.1 x,
                      uncovered_here g ne other x
                          (omega (arith, i, cover_list-le-cover max_order x o (lists_of g z) le)),
                    )))
                  (other.valid.listed o le));
          once = λ x. omega (arith, covers x, other.valid.once x);
        };
        kinds = λ x e. same_flags g x (other.kinds x (omega (arith, covers x, e)));
      }

  -- An allocation whose lists keep the invariant and cover no more pages than before.
  pub kept_kinds :
      IsValid max_order total_pages (view h z')
      → ((x : ℕ) → cover max_order x (lists_of h z') ≤ cover max_order x (lists_of h z))
      → KeptKinds h z b z'
  kept_kinds valid fewer = record {
    fields = fields;
    own = record {
      valid = valid;
      kinds = λ x e. same_flags h x (zone.kinds x (omega (arith, e, fewer x, zone.valid.once x)));
    };
    other = IsZone-other;
  }
