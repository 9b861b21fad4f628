-- ===== src/Vmalloc/Alloc/Split.antt =====
-- An area that is cut in two.
use oh_my_os.Base.{
  ℕ, zero, suc, ◌+◌, ◌-◌, ◌*◌, ◌/◌, ◌%◌, ◌^◌, ◌<◌, ◌≤◌, ◌≡◌, ◌≢◌, ◌∙◌, sym, ap, refl, subst, arith,
  true, some, List, ◌∷◌, ge→ltb, add32, sub32, update, update_ne, update_self,
}
use oh_my_os.RbTree.Shape.{Tree}
use oh_my_os.RbTree.Turn.{one, one_self}
use oh_my_os.RbTree.Order.{occurs}
use oh_my_os.RbTree.Color.{true-false}
use oh_my_os.Bits.{ilog2_rounddown}
use oh_my_os.Bits.Power.{ilog2_rounddown_greatest}
use oh_my_os.Vmalloc.{
  page_size, vmalloc_start, vmalloc_end, max_vma_order, Vmas, insert_after, split_vma,
}
use oh_my_os.Vmalloc.Tiles.{Tiles, Tiles-bounds, Tiles-cut, occurs-insert_after}
use oh_my_os.Vmalloc.Areas.{Listed, IsMapped, ne→one}
use native.Mathlib.Nat.{pow-le-pow_right}
use native.Mathlib.Decide.{dec_lt, ℕ_discrete}

pow_mono : (o : ℕ) → 21 ≤ o → 2 ^ 21 ≤ 2 ^ o
pow_mono o h = pow-le-pow_right (omega arith) h

-- An order is at most 20 where its power of two fits into the addresses.
order_small : (o : ℕ) → 2 ^ o ≤ 786432 → o ≤ 20
order_small o h = elim (dec_lt 20 o) [
  | yes big ↦ absurd (omega (arith, h, pow_mono o (omega (arith, big))))
  | no small ↦ omega (arith, small)
]

none_or : (n : ℕ) → ¬ (0 < n) → n ≡ 0
none_or zero h = refl
none_or (suc n) h = absurd (h (omega arith))

module _ (s : Vmas) (t : Tree) (m : IsMapped s t) (listed : Listed s (λ _. Unit)) (v b len : ℕ)
    (inside : 0 < occurs v s.vma_list) (free : s.free v ≡ true) (fresh : occurs b s.vma_list ≡ 0)
    (some_len : 0 < len) (pages : len % page_size ≡ 0)
    (long : len + page_size ≤ s.end v - s.start v) where
  abbrev cut : ℕ
  cut = s.start v + len

  abbrev order : ℕ
  order = ilog2_rounddown (sub32 (s.end v) cut / page_size)

  abbrev divided : Vmas
  divided = record s {
    end = update (update s.end b (s.end v)) v cut;
    start = update s.start b cut;
    free = update s.free b true;
    vma_list = insert_after v b s.vma_list;
    free_vma_lists = update s.free_vma_lists order (b ∷ s.free_vma_lists order);
  }

  bounds :
      (s.start v < s.end v)
      × (s.end v ≤ vmalloc_end)
      × (s.start v % page_size ≡ 0)
      × (s.end v % page_size ≡ 0)
  bounds =
      let (_, lt, top, low_al, end_al) =
        Tiles-bounds s.start s.end vmalloc_start s.vma_list vmalloc_end refl m.tiles v inside in
      (lt, top, low_al, end_al)

  order_fits : (2 ^ order * page_size ≤ s.end v - cut) × (order ≤ max_vma_order)
  order_fits =
      let (lt, top, _, _) = bounds in
      let left_over : sub32 (s.end v) cut ≡ s.end v - cut = omega (arith, lt, top, long) in
      let (low, _) =
        ilog2_rounddown_greatest (sub32 (s.end v) cut / page_size) (omega (arith, left_over, long))
          (omega (arith, left_over, top)) in
      (omega (arith, low, left_over), order_small order (omega (arith, low, left_over, top)))

  not_b : (z : ℕ) → 0 < occurs z s.vma_list → z ≢ b
  not_b z i e = absurd (omega (arith, i, fresh, ap (λ w. occurs w s.vma_list) e))

  v_ne_b : v ≢ b
  v_ne_b = not_b v inside

  in_new : (z : ℕ) → occurs z (insert_after v b s.vma_list) ≡ occurs z s.vma_list + one z b
  in_new z = occurs-insert_after z v b s.vma_list inside

  in_old : (z : ℕ) → 0 < occurs z (insert_after v b s.vma_list) → z ≢ b → 0 < occurs z s.vma_list
  in_old z i ne = omega (arith, i, in_new z, ne→one z b ne)

  same_start : (z : ℕ) → z ≢ b → divided.start z ≡ s.start z
  same_start z ne = update_ne s.start b cut z ne

  same_end : (z : ℕ) → z ≢ b → z ≢ v → divided.end z ≡ s.end z
  same_end z ne ne' =
      update_ne (update s.end b (s.end v)) v cut z ne' ∙ update_ne s.end b (s.end v) z ne

  end_b : divided.end b ≡ s.end v
  end_b =
      update_ne (update s.end b (s.end v)) v cut b (λ e. v_ne_b (sym e))
      ∙ update_self s.end b (s.end v)

  divided-Tiles : Tiles divided.start divided.end vmalloc_start divided.vma_list vmalloc_end
  divided-Tiles =
      let (lt, top, low_al, end_al) = bounds in
      Tiles-cut s.start s.end divided.start divided.end v b cut vmalloc_start s.vma_list vmalloc_end
        m.tiles inside (m.once v) (omega (arith, some_len)) (omega (arith, long))
        (omega (arith, low_al, pages)) (same_start v v_ne_b)
        (update_self (update s.end b (s.end v)) v cut) (update_self s.start b cut) end_b
        (λ z i ne. (same_start z (not_b z i), same_end z (not_b z i) ne))

  not_listed : (i : ℕ) → occurs b (s.free_vma_lists i) ≡ 0
  not_listed i = none_or (occurs b (s.free_vma_lists i)) (λ h. not_b b (listed i b tt h).0 refl)

  divided_once : (i z : ℕ) → occurs z (divided.free_vma_lists i) ≤ 1
  divided_once i z = elim (ℕ_discrete i order) [
    | yes e ↦
        rw
          (ap (update s.free_vma_lists order (b ∷ s.free_vma_lists order)) e
            ∙ update_self s.free_vma_lists order (b ∷ s.free_vma_lists order))
          (elim (ℕ_discrete z b) [
            | yes q ↦ omega (
              arith,
              not_listed order,
              ap (λ w. occurs w (s.free_vma_lists order)) q,
              ap (λ w. one w b) q,
              one_self b,
            )
            | no ne ↦ omega (arith, m.listed_once order z, ne→one z b ne)
          ])
    | no ne ↦
        rw (update_ne s.free_vma_lists order (b ∷ s.free_vma_lists order) i ne) (m.listed_once i z)
  ]

  free_b : divided.free b ≡ true
  free_b = update_self s.free b true

  divided-IsMapped : IsMapped divided t
  divided-IsMapped = record {
    tiles = divided-Tiles;
    once = λ z. elim (ℕ_discrete z b) [
      | yes q ↦
          omega (
            arith,
            in_new z,
            ap (λ w. occurs w s.vma_list) q,
            fresh,
            ap (λ w. one w b) q,
            one_self b,
          )
      | no ne ↦ omega (arith, in_new z, m.once z, ne→one z b ne)
    ];
    listed_once = divided_once;
    tree = m.tree;
    used = λ n i.
        let (there, taken, low, high) = m.used n i in
        let w = s.vma_tree.value n in
        let w_ne : w ≢ v = λ q. absurd (true-false (sym free ∙ ap s.free (sym q) ∙ taken)) in
        (
          omega (arith, there, in_new w),
          update_ne s.free b true w (not_b w there) ∙ taken,
          low ∙ sym (same_start w (not_b w there)),
          high ∙ sym (same_end w (not_b w there) w_ne),
        );
    stored = λ z i e.
        let ne : z ≢ b = λ q. absurd (true-false (sym free_b ∙ ap divided.free (sym q) ∙ e)) in
        m.stored z (in_old z i ne) (sym (update_ne s.free b true z ne) ∙ e);
  }

  abbrev Keeps : ℕ → ℕ → Type 0
  Keeps i z =
      (0 < occurs z divided.vma_list)
      × (divided.free z ≡ true)
      × (2 ^ i * page_size ≤ divided.end z - divided.start z)

  old_listed : (i z : ℕ) → z ≢ v → 0 < occurs z (s.free_vma_lists i) → Keeps i z
  old_listed i z ne h =
      let (there, is_free, fits) = listed i z tt h in
      let z_ne_b = not_b z there in
      (
        omega (arith, there, in_new z),
        update_ne s.free b true z z_ne_b ∙ is_free,
        omega (arith, fits, same_start z z_ne_b, same_end z z_ne_b ne),
      )

  divided-Listed : Listed divided (λ z. z ≢ v)
  divided-Listed i z ne h = elim (ℕ_discrete i order) [
    | no other_order ↦ old_listed i z ne (
        subst (λ (xs : List ℕ). 0 < occurs z xs)
          (update_ne s.free_vma_lists order (b ∷ s.free_vma_lists order) i other_order) h)
    | yes e ↦ elim (ℕ_discrete z b) [
      | yes q ↦ subst (Keeps i) (sym q) (
        omega (arith, in_new b, one_self b),
        free_b,
        omega (arith, ap (λ o. 2 ^ o) e, order_fits.0, end_b, update_self s.start b cut),
      )
      | no z_ne_b ↦ old_listed i z ne (
          omega (
            arith,
            ap (λ (xs : List ℕ). occurs z xs)
                (ap (update s.free_vma_lists order (b ∷ s.free_vma_lists order)) e
                  ∙ update_self s.free_vma_lists order (b ∷ s.free_vma_lists order)),
            h,
            ne→one z b z_ne_b,
            ap (λ o. occurs z (s.free_vma_lists o)) e,
          ))
    ]
  ]

  split_vma-divided : split_vma len v b s ≡ some divided
  unfolding split_vma
  split_vma-divided =
      let (lt, top, _, _) = bounds in
      let exact : add32 (s.start v) len ≡ cut = omega (arith, long, top) in
      rw (exact, ge→ltb max_vma_order order order_fits.1) refl

  -- The split leaves the area with its `len` bytes, and the others as they were.
  pub split_vma-IsMapped :
      (s₁ : Vmas) × (split_vma len v b s ≡ some s₁)
      × IsMapped s₁ t
      × Listed s₁ (λ z. z ≢ v)
      × (0 < occurs v s₁.vma_list)
      × (s₁.free v ≡ true)
      × (s₁.end v ≡ s₁.start v + len)
      × ((z : ℕ)
          → 0 < occurs z s.vma_list
          → z ≢ v
          → (0 < occurs z s₁.vma_list)
            × (s₁.start z ≡ s.start z)
            × (s₁.end z ≡ s.end z)
            × (s₁.free z ≡ s.free z))
  split_vma-IsMapped = (
    divided,
    split_vma-divided,
    divided-IsMapped,
    divided-Listed,
    omega (arith, inside, in_new v),
    update_ne s.free b true v v_ne_b ∙ free,
    omega (arith, same_start v v_ne_b, update_self (update s.end b (s.end v)) v cut),
    λ z i ne. (
      omega (arith, i, in_new z),
      same_start z (not_b z i),
      same_end z (not_b z i) ne,
      update_ne s.free b true z (not_b z i),
    ),
  )
