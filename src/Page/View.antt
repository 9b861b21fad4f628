-- ===== src/Page/View.antt =====
-- The pages of one kind as the blocks of the allocator of mm/kmalloc.c, whose splitting they share.
use oh_my_os.Base.{
  ℕ, suc, ◌+◌, ◌-◌, ◌^◌, ◌≡◌, ◌≢◌, ◌∙◌, sym, ap, refl, subst, arith, Bool, true, false, some, List,
  update,
}
use oh_my_os.Kmalloc.Early.{Blocks, flip_bit, list_insert, split}
use oh_my_os.Kmalloc.Early.Cover.{in_block}
use oh_my_os.Kmalloc.Early.Inv.{Holding, flip_bit_aligned}
use oh_my_os.Kmalloc.Early.Split.{upper_unit}
use oh_my_os.Page.{Zone, max_order, total_pages, free_page, lists_of, set_lists, split_page}

abbrev pub view : Bool → Zone → Blocks
view h z = record { order = z.order; free = z.free; lists = lists_of h z }

-- The pages of the block `b` of order `k` are there and of the kind `h`.
abbrev pub IsOf : Bool → Zone → ℕ → ℕ → Type 0
IsOf h z b k = (x : ℕ) → in_block x k b ≡ 1 → (z.valid x ≡ true) × (z.highmem x ≡ h)

-- `z'` has the flags of `z` that say which pages there are, and its lists of the other kind.
pub record SameElse (h : Bool) (z z' : Zone) : Type 0 where
  pub valid : z'.valid ≡ z.valid
  pub highmem : z'.highmem ≡ z.highmem
  pub others : (g : Bool) → g ≢ h → lists_of g z' ≡ lists_of g z

pub same_else : (h : Bool) (z : Zone) → SameElse h z z
same_else h z = record { valid = refl; highmem = refl; others = λ g ne. refl }

pub SameElse-trans : (h : Bool) (x y z : Zone) → SameElse h x y → SameElse h y z → SameElse h x z
SameElse-trans h x y z p q = record {
  valid = q.valid ∙ p.valid;
  highmem = q.highmem ∙ p.highmem;
  others = λ g ne. q.others g ne ∙ p.others g ne;
}

-- The lists of the other kind are those of the other field.
others_of_high :
    (z z' : Zone)
    → z'.free_lists ≡ z.free_lists
    → (g : Bool) → g ≢ true
    → lists_of g z' ≡ lists_of g z
others_of_high z z' e true ne = absurd (ne refl)
others_of_high z z' e false ne = e

others_of_linear :
    (z z' : Zone)
    → z'.highmem_free_lists ≡ z.highmem_free_lists
    → (g : Bool) → g ≢ false
    → lists_of g z' ≡ lists_of g z
others_of_linear z z' e true ne = e
others_of_linear z z' e false ne = absurd (ne refl)

pub view-set_lists :
    (h : Bool) (lists : ℕ → List ℕ) (z : Zone)
    → (view h (set_lists h lists z) ≡ record (view h z) { lists = lists })
      × SameElse h z (set_lists h lists z)
view-set_lists true lists z = (
  refl,
  record { valid = refl; highmem = refl; others = others_of_high z (set_lists true lists z) refl },
)
view-set_lists false lists z = (
  refl,
  record {
    valid = refl;
    highmem = refl;
    others = others_of_linear z (set_lists false lists z) refl;
  },
)

-- Writing orders and marks leaves the lists.
keep_lists :
    (g : Bool) (z : Zone) (order : ℕ → ℕ) (free : ℕ → Bool)
    → lists_of g (record z { order = order; free = free }) ≡ lists_of g z
keep_lists true z order free = refl
keep_lists false z order free = refl

pub view-fields :
    (h : Bool) (z : Zone) (order : ℕ → ℕ) (free : ℕ → Bool)
    → (view h (record z { order = order; free = free })
        ≡ record (view h z) { order = order; free = free })
      × SameElse h z (record z { order = order; free = free })
view-fields h z order free = (
  ap (λ l. record { order = order; free = free; lists = l }) (keep_lists h z order free),
  record { valid = refl; highmem = refl; others = λ g ne. keep_lists g z order free },
)

-- A page of the kind `h` that becomes free, in the view.
view-free_page :
    (h : Bool) (page o : ℕ) (z : Zone)
    → z.highmem page ≡ h
    → (view h (free_page page o z)
        ≡ list_insert
            (record (view h z) { order = update z.order page o; free = update z.free page true })
            o
            page)
      × SameElse h z (free_page page o z)
unfolding free_page list_insert
view-free_page true page o z e =
    rw (e, free_page)
      (refl, record { valid = refl; highmem = refl; others = others_of_high z _ refl })
view-free_page false page o z e =
    rw (e, free_page)
      (refl, record { valid = refl; highmem = refl; others = others_of_linear z _ refl })

-- One round of the splitting loop is the one of the blocks.
pub split_page-view :
    (h : Bool) (b o : ℕ) (z : Zone)
    → Holding max_order total_pages (view h z) b (suc o)
    → IsOf h z b (suc o)
    → (z' : Zone) × (split_page b z ≡ some z') × (view h z' ≡ split b (view h z)) × SameElse h z z'
unfolding split_page split
split_page-view h b o z held of =
    let buddy = flip_bit (z.order b - 1) b in
    let at : buddy ≡ b + 2 ^ o =
      ap (λ k. flip_bit k b) (omega (arith, held.ordered)) ∙ flip_bit_aligned o b held.aligned in
    let (there, kind) =
      subst (λ t. (z.valid t ≡ true) × (z.highmem t ≡ h)) (sym at)
        (of (b + 2 ^ o) (upper_unit b o).1) in
    let z₁ : Zone = record z { order = update z.order b (z.order b - 1) } in
    let (seen, same) = view-free_page h buddy (z.order b - 1) z₁ kind in
    let (first, same₁) = view-fields h z (update z.order b (z.order b - 1)) z.free in
    (
      free_page buddy (z.order b - 1) z₁,
      rw there refl,
      seen
          ∙ ap
              (λ (s : Blocks).
                list_insert
                  (record s {
                    order = update z₁.order buddy (z.order b - 1);
                    free = update z.free buddy true;
                  })
                  (z.order b - 1) buddy)
              first,
      SameElse-trans h z z₁ (free_page buddy (z.order b - 1) z₁) same₁ same,
    )
