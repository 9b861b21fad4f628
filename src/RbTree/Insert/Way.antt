-- ===== src/RbTree/Insert/Way.antt =====
-- The way down of `rb_tree_insert`: the nodes on its left are below the new range, those on its right
-- above it.
use oh_my_os.Base.{
  ℕ, zero, suc, ◌+◌, ◌<◌, ◌≤◌, ◌≡◌, inl, inr, ◌∙◌, sym, ap, refl, subst, arith, Option, some, List,
  [], ◌∷◌, ◌++◌, length, append_assoc, append-nil, lt→ltb, ge→ltb, eq→==, ne→==,
}
use oh_my_os.RbTree.{Side, left, right, other, pick, RbTree}
use oh_my_os.RbTree.Shape.{Tree, leaf, fork, size, inorder, Shape, count_self, count_kid}
use oh_my_os.RbTree.Search.{IsOrdered}
use oh_my_os.RbTree.Order.{occurs, occurs-inorder, occurs_cons, occurs_either}
use oh_my_os.RbTree.Path.{Ways, plug, above, Hangs}
use oh_my_os.RbTree.Insert.{find_place}
use oh_my_os.RbTree.Insert.Broken.{pick_eta}
use oh_my_os.RbTree.Insert.Overlap.{IsClear}

-- the nodes on the left of a way up, and those on its right
abbrev pub lefts : Ways → List ℕ
lefts [] = []
lefts (c ∷ cs) = pick c.side (lefts cs) (lefts cs ++ (inorder c.sibling ++ (c.node ∷ []))) left

abbrev pub rights : Ways → List ℕ
rights [] = []
rights (c ∷ cs) = pick c.side (c.node ∷ (inorder c.sibling ++ rights cs)) (rights cs) left

fork_between :
    (d : Side) (x : ℕ) (t w : Tree) (ls rs : List ℕ)
    → ls ++ (inorder (fork x (pick d t w)) ++ rs)
      ≡ pick d ls (ls ++ (inorder w ++ (x ∷ []))) left
        ++ (inorder t ++ pick d (x ∷ (inorder w ++ rs)) rs left)
fork_between left x t w ls rs = ap (λ v. ls ++ v) (append_assoc (inorder t) (x ∷ inorder w) rs)
fork_between right x t w ls rs =
    ap (λ v. ls ++ v) (append_assoc (inorder w) (x ∷ inorder t) rs)
    ∙ sym (
        append_assoc ls (inorder w ++ (x ∷ [])) (inorder t ++ rs)
        ∙ ap (λ v. ls ++ v) (append_assoc (inorder w) (x ∷ []) (inorder t ++ rs)))

-- The order of a tree, from a place in it.
pub between : (cs : Ways) (t : Tree) → inorder (plug cs t) ≡ lefts cs ++ (inorder t ++ rights cs)
between [] t = sym (append-nil (inorder t))
between (c ∷ cs) t =
    between cs (fork c.node (pick c.side t c.sibling))
    ∙ fork_between c.side c.node t c.sibling (lefts cs) (rights cs)

size_pick :
    (d : Side) (t w : Tree) → size (pick d t w left) + size (pick d t w right) ≡ size t + size w
size_pick left t w = refl
size_pick right t w = omega arith

pub size-plug : (cs : Ways) (t : Tree) → length cs + size t ≤ size (plug cs t)
size-plug [] t = omega arith
size-plug (c ∷ cs) t =
    omega
      (arith, size-plug cs (fork c.node (pick c.side t c.sibling)), size_pick c.side t c.sibling)

module _ (s : RbTree) (start end : ℕ) where
  abbrev pub IsAround : Ways → Type 0
  IsAround cs =
      ((z : ℕ) → 0 < occurs z (lefts cs) → s.end z < start)
      × ((z : ℕ) → 0 < occurs z (rights cs) → end < s.start z)

  abbrev Way : Ways → Tree → Option (Option ℕ) → Type 0
  Way cs t r =
      (w : Ways) × (r ≡ some (some (above w)))
      × (plug w leaf ≡ plug cs t)
      × Hangs s 0 w
      × IsAround w

  module _ (x : ℕ) (kids : Side → Tree) (cs : Ways) (h : IsOrdered s (fork x kids))
      (around : IsAround cs) where
    turn_right :
        s.end x < start → IsAround (record { side = right; node = x; sibling = kids left } ∷ cs)
    turn_right lt =
        let (own, lower, _, _) = h in
        (
          λ z i. elim (occurs_either z (lefts cs) (inorder (kids left) ++ (x ∷ [])) i) [
            | inl a ↦ around.0 z a
            | inr b ↦ elim (occurs_either z (inorder (kids left)) (x ∷ []) b) [
              | inl c ↦
                  omega (arith, lower z (omega (arith, c, occurs-inorder z (kids left))), own, lt)
              | inr d ↦ elim (occurs_cons z x [] d) [
                | inl e ↦ subst (λ v. s.end v < start) (sym e) lt
                | inr none_left ↦ absurd (omega (arith, none_left))
              ]
            ]
          ],
          around.1,
        )

    turn_left :
        end < s.start x → IsAround (record { side = left; node = x; sibling = kids right } ∷ cs)
    turn_left lt =
        let (own, _, upper, _) = h in
        (
          around.0,
          λ z i. elim (occurs_cons z x (inorder (kids right) ++ rights cs) i) [
            | inl e ↦ subst (λ v. end < s.start v) (sym e) lt
            | inr b ↦ elim (occurs_either z (inorder (kids right)) (rights cs) b) [
              | inl c ↦
                  omega (arith, upper z (omega (arith, c, occurs-inorder z (kids right))), own, lt)
              | inr d ↦ around.1 z d
            ]
          ],
        )

  IsClear-kid :
      (x : ℕ) (kids : Side → Tree) (d : Side)
      → IsClear s start end (fork x kids)
      → IsClear s start end (kids d)
  IsClear-kid x kids d clear z i = clear z (omega (arith, i, count_kid z x kids d))

  Way-kid :
      (d : Side) (x : ℕ) (kids : Side → Tree) (cs : Ways) (r : Option (Option ℕ))
      → Way (record { side = d; node = x; sibling = kids (other d) } ∷ cs) (kids d) r
      → Way cs (fork x kids) r
  Way-kid d x kids cs r (w, e, same, hangs, around) =
      (w, e, same ∙ ap (λ k. plug cs (fork x k)) (pick_eta d kids), hangs, around)

  -- Where nothing overlaps, the way down ends at a free place for the range.
  pub find_place-Way :
      (fuel p : ℕ) (cs : Ways) (t : Tree)
      → start ≤ end
      → IsClear s start end t
      → IsOrdered s t
      → Hangs s p cs
      → Shape s p (above cs) t
      → IsAround cs
      → size t < fuel
      → Way cs t (find_place fuel s start end p (above cs))
  unfolding find_place
  find_place-Way zero p cs t own clear h hangs shape around enough = absurd (omega (arith, enough))
  find_place-Way (suc f) p cs leaf own clear h hangs shape around enough =
      rw (eq→== p 0 shape, find_place)
        (cs, refl, refl, subst (λ q. Hangs s q cs) shape hangs, around)
  find_place-Way (suc f) p cs (fork x kids) own clear h hangs (e, ne, link, below) around enough =
      let (own_x, _, _, inside) = h in
      let here : Hangs s x cs = subst (λ q. Hangs s q cs) e hangs in
      subst (λ q. Way cs (fork x kids) (find_place (suc f) s start end q (above cs))) (sym e)
        (rw (ne→== x 0 ne, find_place)
          (elim (clear x (count_self x kids)) [
            | inl lt ↦
                rw (lt→ltb (s.end x) start lt, find_place)
                  (Way-kid right x kids cs (find_place f s start end (s.child x right) x) (
                    find_place-Way f (s.child x right)
                      (record { side = right; node = x; sibling = kids left } ∷ cs) (kids right) own
                      (IsClear-kid x kids right clear) (inside right)
                      (refl, ne, link, below left, here) (below right)
                      (turn_right x kids cs h around lt) (omega (arith, enough))))
            | inr lt ↦
                rw
                  (
                    ge→ltb (s.end x) start (omega (arith, lt, own, own_x)),
                    lt→ltb end (s.start x) lt,
                    find_place,
                  )
                  (Way-kid left x kids cs (find_place f s start end (s.child x left) x) (
                    find_place-Way f (s.child x left)
                      (record { side = left; node = x; sibling = kids right } ∷ cs) (kids left) own
                      (IsClear-kid x kids left clear) (inside left)
                      (refl, ne, link, below right, here) (below left)
                      (turn_left x kids cs h around lt) (omega (arith, enough))))
          ]))
