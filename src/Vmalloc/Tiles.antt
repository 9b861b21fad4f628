-- ===== src/Vmalloc/Tiles.antt =====
-- Areas that follow each other without a gap, on page boundaries.
use oh_my_os.Base.{
  ℕ, ◌+◌, ◌%◌, ◌<◌, ◌≤◌, ◌≡◌, ◌≢◌, ◌⊎◌, inl, inr, sym, ap, ◌∙◌, subst, arith, List, [], ◌∷◌, eq→==,
  ne→==,
}
use oh_my_os.RbTree.Turn.{one, one_self}
use oh_my_os.RbTree.Order.{occurs, occurs_cons}
use oh_my_os.Vmalloc.{insert_after, page_size}
use native.Mathlib.Decide.{ℕ_discrete}

module _ (start end : ℕ → ℕ) where
  abbrev pub Tiles : ℕ → List ℕ → ℕ → Type 0
  Tiles lo [] hi = lo ≡ hi
  Tiles lo (x ∷ xs) hi =
      (start x ≡ lo) × (lo < end x) × (end x % page_size ≡ 0) × Tiles (end x) xs hi

  pub Tiles-grow : (lo : ℕ) (xs : List ℕ) (hi : ℕ) → Tiles lo xs hi → lo ≤ hi
  Tiles-grow lo [] hi e = omega (arith, e)
  Tiles-grow lo (x ∷ xs) hi (_, lt, _, rest) = omega (arith, lt, Tiles-grow (end x) xs hi rest)

  -- What a tile is like.
  pub Tiles-bounds :
      (lo : ℕ) (xs : List ℕ) (hi : ℕ)
      → lo % page_size ≡ 0
      → Tiles lo xs hi
      → (z : ℕ) → 0 < occurs z xs
      → (lo ≤ start z)
        × (start z < end z)
        × (end z ≤ hi)
        × (start z % page_size ≡ 0)
        × (end z % page_size ≡ 0)
  Tiles-bounds lo [] hi al h z i = absurd (omega (arith, i))
  Tiles-bounds lo (x ∷ xs) hi al (e, lt, al', rest) z i = elim (occurs_cons z x xs i) [
    | inl q ↦
        subst
          (λ v.
            (lo ≤ start v)
            × (start v < end v)
            × (end v ≤ hi)
            × (start v % page_size ≡ 0)
            × (end v % page_size ≡ 0))
          (sym q)
          (
            omega (arith, e),
            omega (arith, e, lt),
            Tiles-grow (end x) xs hi rest,
            omega (arith, e, al),
            al',
          )
    | inr j ↦
        (let (a, b, c, d, f) = Tiles-bounds (end x) xs hi al' rest z j in
          (omega (arith, lt, a), b, c, d, f))
  ]

  -- Two tiles are apart.
  pub Tiles-apart :
      (lo : ℕ) (xs : List ℕ) (hi : ℕ)
      → lo % page_size ≡ 0
      → Tiles lo xs hi
      → (z w : ℕ) → 0 < occurs z xs
      → 0 < occurs w xs
      → z ≢ w
      → (end z ≤ start w) ⊎ (end w ≤ start z)
  Tiles-apart lo [] hi al h z w i j ne = absurd (omega (arith, i))
  Tiles-apart lo (x ∷ xs) hi al (e, lt, al', rest) z w i j ne = elim (occurs_cons z x xs i) [
    | inl p ↦ elim (occurs_cons w x xs j) [
      | inl q ↦ absurd (ne (p ∙ sym q))
      | inr b ↦
          inl (subst (λ v. end v ≤ start w) (sym p) (Tiles-bounds (end x) xs hi al' rest w b).0)
    ]
    | inr a ↦ elim (occurs_cons w x xs j) [
      | inl q ↦
          inr (subst (λ v. end v ≤ start z) (sym q) (Tiles-bounds (end x) xs hi al' rest z a).0)
      | inr b ↦ Tiles-apart (end x) xs hi al' rest z w a b ne
    ]
  ]

pub Tiles-frame :
    (start end start' end' : ℕ → ℕ) (lo : ℕ) (xs : List ℕ) (hi : ℕ)
    → ((z : ℕ) → 0 < occurs z xs → (start' z ≡ start z) × (end' z ≡ end z))
    → Tiles start end lo xs hi
    → Tiles start' end' lo xs hi
Tiles-frame start end start' end' lo [] hi same h = h
Tiles-frame start end start' end' lo (x ∷ xs) hi same (e, lt, al, rest) =
    let (es, ee) = same x (omega (arith, one_self x)) in
    (
      es ∙ e,
      omega (arith, ee, lt),
      ap (λ v. v % page_size) ee ∙ al,
      subst (λ v. Tiles start' end' v xs hi) (sym ee)
          (Tiles-frame start end start' end' (end x) xs hi (λ z i. same z (omega (arith, i))) rest),
    )

pub occurs_later : (z x : ℕ) (xs : List ℕ) → 0 < occurs z (x ∷ xs) → z ≢ x → 0 < occurs z xs
occurs_later z x xs i ne = elim (occurs_cons z x xs i) [ inl e ↦ absurd (ne e) | inr j ↦ j ]

pub occurs-insert_after :
    (z v b : ℕ) (xs : List ℕ)
    → 0 < occurs v xs
    → occurs z (insert_after v b xs) ≡ occurs z xs + one z b
occurs-insert_after z v b [] i = absurd (omega (arith, i))
occurs-insert_after z v b (x ∷ xs) i = elim (ℕ_discrete v x) [
  | yes e ↦ rw (eq→== x v (sym e)) (omega arith)
  | no ne ↦
      rw (ne→== x v (λ q. ne (sym q)))
        (omega (arith, occurs-insert_after z v b xs (occurs_later v x xs i ne)))
]

-- A tile cut in two.
pub Tiles-cut :
    (start end start' end' : ℕ → ℕ) (v b cut lo : ℕ) (xs : List ℕ) (hi : ℕ)
    → Tiles start end lo xs hi
    → 0 < occurs v xs
    → occurs v xs ≤ 1
    → start v < cut
    → cut < end v
    → cut % page_size ≡ 0
    → start' v ≡ start v
    → end' v ≡ cut
    → start' b ≡ cut
    → end' b ≡ end v
    → ((z : ℕ) → 0 < occurs z xs → z ≢ v → (start' z ≡ start z) × (end' z ≡ end z))
    → Tiles start' end' lo (insert_after v b xs) hi
Tiles-cut start end start' end' v b cut lo [] hi h i once lt gt al sv ev sb eb same =
    absurd (omega (arith, i))
Tiles-cut start end start' end' v b cut lo (x ∷ xs) hi (e, lo_lt, al_x, rest) i once lt gt al sv ev
      sb eb same =
    elim (ℕ_discrete x v) [
      | yes q ↦ rw (eq→== x v q) (
          let here : end x ≡ end v = ap end q in
          (
            ap start' q ∙ sv ∙ sym (ap start q) ∙ e,
            omega (arith, ap end' q, ev, lt, ap start q, e),
            ap (λ w. w % page_size) (ap end' q ∙ ev) ∙ al,
            (
              sb ∙ sym (ap end' q ∙ ev),
              omega (arith, ap end' q, ev, eb, gt),
              ap (λ w. w % page_size) (eb ∙ sym here) ∙ al_x,
              subst (λ w. Tiles start' end' w xs hi) (sym (eb ∙ sym here))
                  (Tiles-frame start end start' end' (end x) xs hi
                    (λ z j. same z (omega (arith, j)) (λ p.
                      absurd (
                        omega (arith, j, once, ap (λ w. occurs w xs) p, one_self v, ap (one v) q))))
                    rest),
            ),
          ))
      | no ne ↦ rw (ne→== x v ne) (
          let (es, ee) = same x (omega (arith, one_self x)) ne in
          (
            es ∙ e,
            omega (arith, ee, lo_lt),
            ap (λ w. w % page_size) ee ∙ al_x,
            subst (λ w. Tiles start' end' w (insert_after v b xs) hi) (sym ee)
                (Tiles-cut start end start' end' v b cut (end x) xs hi rest
                  (occurs_later v x xs i (λ q. ne (sym q))) (omega (arith, once)) lt gt al sv ev sb
                  eb (λ z j. same z (omega (arith, j)))),
          ))
    ]
