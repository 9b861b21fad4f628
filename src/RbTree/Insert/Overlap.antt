-- ===== src/RbTree/Insert/Overlap.antt =====
-- Where `rb_tree_insert` puts a range, and when it refuses to.
use oh_my_os.Base.{
  ℕ, zero, suc, ◌<◌, ◌≤◌, ◌≡◌, ◌≢◌, ◌⊎◌, inl, inr, sym, refl, subst, arith, Bool-cases, Option,
  none, some, ltb, ltb→lt, ltb→ge, eq→==, ne→==,
}
use oh_my_os.RbTree.{Side, left, right, RbTree}
use oh_my_os.RbTree.Shape.{Tree, leaf, fork, IsIn, size, Shape, count_self, count_kid}
use oh_my_os.RbTree.Search.{IsOrdered, kid_of}
use oh_my_os.RbTree.Insert.{find_place, insert_below, rb_tree_insert}
use native.Mathlib.Decide.{ℕ_discrete}

module _ (s : RbTree) (start end : ℕ) where
  -- Some range of the tree has a number in common with the new one.
  abbrev pub Overlaps : Tree → Type 0
  Overlaps t = (z : ℕ) × IsIn z t × (start ≤ s.end z) × (s.start z ≤ end)

  abbrev pub IsClear : Tree → Type 0
  IsClear t = (z : ℕ) → IsIn z t → (s.end z < start) ⊎ (end < s.start z)

  -- A node of the tree that has no child on the side of the new range.
  abbrev pub HasRoom : Tree → ℕ → Type 0
  HasRoom t q =
      IsIn q t
      × (((end < s.start q) × (s.child q left ≡ 0)) ⊎ ((s.end q < start) × (s.child q right ≡ 0)))

  -- What the way down finds: an overlap, or the parent of the new node, where nothing overlaps.
  abbrev Place : ℕ → ℕ → Tree → Option (Option ℕ) → Type 0
  Place p up t r =
      ((r ≡ some none) × Overlaps t)
      ⊎ ((q : ℕ) × (r ≡ some (some q)) × IsClear t × (((q ≡ up) × (p ≡ 0)) ⊎ HasRoom t q))

  module _ (x : ℕ) (kids : Side → Tree) (ordered : IsOrdered s (fork x kids)) where
    IsClear-right : s.end x < start → IsClear (kids right) → IsClear (fork x kids)
    IsClear-right lt clear z i =
        let (own, lower, _, _) = ordered in
        elim (ℕ_discrete z x) [
          | yes e ↦ inl (subst (λ q. s.end q < start) (sym e) lt)
          | no ne ↦ elim (kid_of z x kids i ne) [
            | inl l ↦ inl (omega (arith, lower z l, own, lt))
            | inr r ↦ clear z r
          ]
        ]

    IsClear-left : end < s.start x → IsClear (kids left) → IsClear (fork x kids)
    IsClear-left lt clear z i =
        let (own, _, upper, _) = ordered in
        elim (ℕ_discrete z x) [
          | yes e ↦ inr (subst (λ q. end < s.start q) (sym e) lt)
          | no ne ↦ elim (kid_of z x kids i ne) [
            | inl l ↦ clear z l
            | inr r ↦ inr (omega (arith, upper z r, own, lt))
          ]
        ]

    Place-right :
        (r : Option (Option ℕ))
        → s.end x < start
        → Place (s.child x right) x (kids right) r
        → Place x 0 (fork x kids) r
    Place-right r lt (inl (e, (z, i, low, high))) =
        inl (e, (z, omega (arith, i, count_kid z x kids right), low, high))
    Place-right r lt (inr (q, e, clear, inl (at, free))) = inr (
      q,
      e,
      IsClear-right lt clear,
      inr (subst (HasRoom (fork x kids)) (sym at) (count_self x kids, inr (lt, free))),
    )
    Place-right r lt (inr (q, e, clear, inr (i, room))) =
        inr (q, e, IsClear-right lt clear, inr (omega (arith, i, count_kid q x kids right), room))

    Place-left :
        (r : Option (Option ℕ))
        → end < s.start x
        → Place (s.child x left) x (kids left) r
        → Place x 0 (fork x kids) r
    Place-left r lt (inl (e, (z, i, low, high))) =
        inl (e, (z, omega (arith, i, count_kid z x kids left), low, high))
    Place-left r lt (inr (q, e, clear, inl (at, free))) = inr (
      q,
      e,
      IsClear-left lt clear,
      inr (subst (HasRoom (fork x kids)) (sym at) (count_self x kids, inl (lt, free))),
    )
    Place-left r lt (inr (q, e, clear, inr (i, room))) =
        inr (q, e, IsClear-left lt clear, inr (omega (arith, i, count_kid q x kids left), room))

  anywhere :
      (x p up : ℕ) (kids : Side → Tree) (r : Option (Option ℕ))
      → x ≢ 0
      → Place x 0 (fork x kids) r
      → Place p up (fork x kids) r
  anywhere x p up kids r ne (inl overlap) = inl overlap
  anywhere x p up kids r ne (inr (q, e, clear, inl (_, null))) = absurd (ne null)
  anywhere x p up kids r ne (inr (q, e, clear, inr room)) = inr (q, e, clear, inr room)

  find_place-Place :
      (fuel p up : ℕ) (t : Tree)
      → Shape s p up t
      → IsOrdered s t
      → size t < fuel
      → Place p up t (find_place fuel s start end p up)
  unfolding find_place
  find_place-Place zero p up t shape h enough = absurd (omega (arith, enough))
  find_place-Place (suc f) p up leaf shape h enough =
      rw (eq→== p 0 shape, find_place)
        (inr (up, refl, λ z i. absurd (omega (arith, i)), inl (refl, shape)))
  find_place-Place (suc f) p up (fork x kids) (e, ne, _, below) h enough =
      let (own, _, _, inside) = h in
      subst (λ v. Place p up (fork x kids) (find_place (suc f) s start end v up)) (sym e)
        (anywhere x p up kids (find_place (suc f) s start end x up) ne (
          rw (ne→== x 0 ne, find_place)
            (elim (Bool-cases (ltb (s.end x) start)) [
              | inl gt ↦
                  rw (gt, find_place)
                    (Place-right x kids h (find_place f s start end (s.child x right) x)
                      (ltb→lt (s.end x) start gt)
                      (find_place-Place f (s.child x right) x (kids right) (below right)
                        (inside right) (omega (arith, enough))))
              | inr le ↦
                  rw (le, find_place)
                    (elim (Bool-cases (ltb end (s.start x))) [
                      | inl lt ↦
                          rw (lt, find_place)
                            (Place-left x kids h (find_place f s start end (s.child x left) x)
                              (ltb→lt end (s.start x) lt)
                              (find_place-Place f (s.child x left) x (kids left) (below left)
                                (inside left) (omega (arith, enough))))
                      | inr ge ↦
                          rw (ge, find_place)
                            (inl (
                              refl,
                              (
                                x,
                                count_self x kids,
                                ltb→ge (s.end x) start le,
                                ltb→ge end (s.start x) ge,
                              ),
                            ))
                    ])
            ])))

-- On a tree with ordered ranges, with fuel above its number of nodes, `rb_tree_insert` answers NULL and
-- leaves the tree if the range is empty or has a number in common with a range of the tree; else no
-- range of the tree has, and the new node goes below a node that has no child on the side of the
-- new range, or becomes the root of an empty tree.
pub rb_tree_insert_cases :
    (fuel : ℕ) (answer : Option ℕ) (start end value : ℕ) (s : RbTree) (t : Tree)
    → Shape s s.root 0 t
    → IsOrdered s t
    → size t < fuel
    → ((rb_tree_insert fuel answer start end value s ≡ some (0, s))
        × ((end < start) ⊎ Overlaps s start end t))
      ⊎ ((q : ℕ) × (rb_tree_insert fuel answer start end value s
            ≡ insert_below fuel answer start end value q s)
          × (start ≤ end)
          × IsClear s start end t
          × (((q ≡ 0) × (s.root ≡ 0)) ⊎ HasRoom s start end t q))
unfolding rb_tree_insert
rb_tree_insert_cases fuel answer start end value s t shape h enough =
    elim (Bool-cases (ltb end start)) [
      | inl empty ↦ rw (empty, rb_tree_insert) (inl (refl, inl (ltb→lt end start empty)))
      | inr le ↦
          rw (le, rb_tree_insert)
            (elim (find_place-Place s start end fuel s.root 0 t shape h enough) [
              | inl (r, overlap) ↦ rw (r, rb_tree_insert) (inl (refl, inr overlap))
              | inr (q, r, clear, room) ↦
                  rw (r, rb_tree_insert) (inr (q, refl, ltb→ge end start le, clear, room))
            ])
    ]
