-- ===== src/RbTree/Insert/Hang.antt =====
-- The new node in its place: `init_node` and `link_node` of libs/rb_tree.c.
use oh_my_os.Base.{
  ℕ, ◌+◌, ◌<◌, ◌≤◌, ◌≡◌, ◌≢◌, ◌∙◌, sym, ap, refl, subst, arith, Bool, true, some, [], ◌∷◌, ◌++◌,
  lt→ltb, ge→ltb, ne→==, add32, update, update_ne, update_self,
}
use oh_my_os.RbTree.{Side, left, right, other, pick, RbTree, set_child, set_red}
use oh_my_os.RbTree.Shape.{Tree, leaf, fork, count, inorder, Distinct, Shape, Shape-frame}
use oh_my_os.RbTree.Turn.{one, one_self, pick_on, pick_off}
use oh_my_os.RbTree.Order.{occurs-append}
use oh_my_os.RbTree.Path.{Ways, plug, above, count_ways, count-plug, Hangs, Hangs-frame}
use oh_my_os.RbTree.Color.{black_of, ColoredWays}
use oh_my_os.RbTree.Color.Repaint.{ColoredWays-frame}
use oh_my_os.RbTree.Insert.{init_node, link_node}
use oh_my_os.RbTree.Insert.Broken.{IsBroken}
use oh_my_os.RbTree.Insert.Way.{lefts, IsAround}

abbrev pub no_kids : Side → Tree
no_kids _ = leaf

module _ (s : RbTree) (n start end value : ℕ) (n_ne : n ≢ 0) where
  -- the tree with the fields of the new node
  abbrev pub begun : ℕ → RbTree
  begun parent = record s {
    id = update s.id n s.total;
    total = add32 s.total 1;
    start = update s.start n start;
    end = update s.end n end;
    parent = update s.parent n parent;
    child = update s.child n (λ _. 0);
    value = update s.value n value;
    red = update s.red n true;
  }

  pub init_node-begun : (parent : ℕ) → init_node n start end value parent s ≡ begun parent
  unfolding init_node set_red
  init_node-begun parent = rw (ne→== n 0 n_ne) refl

  -- and with the link to it
  abbrev pub linked : Ways → RbTree
  linked [] = record (begun 0) { root = n }
  linked (c ∷ cs) = set_child c.side c.node n (begun c.node)

  below_left :
      (q : ℕ)
      → q ≢ n
      → q ≢ 0
      → end < s.start q
      → link_node n q (begun q) ≡ some (set_child left q n (begun q))
  unfolding link_node
  below_left q apart ne lt =
      rw
        (
          ne→== q 0 ne,
          update_self s.end n end,
          update_ne s.start n start q apart,
          lt→ltb end (s.start q) lt,
        )
        refl

  below_right :
      (q : ℕ)
      → q ≢ n
      → q ≢ 0
      → s.start q ≤ s.end q
      → start ≤ end
      → s.end q < start
      → link_node n q (begun q) ≡ some (set_child right q n (begun q))
  unfolding link_node
  below_right q apart ne own le lt =
      rw
        (
          ne→== q 0 ne,
          update_self s.end n end,
          update_ne s.start n start q apart,
          ge→ltb end (s.start q) (omega (arith, own, le, lt)),
          update_ne s.end n end q apart,
          update_self s.start n start,
          lt→ltb (s.end q) start lt,
        )
        refl

  by_side :
      (d : Side) (q : ℕ) (w : Tree) (cs : Ways)
      → q ≢ 0
      → q ≢ n
      → s.start q ≤ s.end q
      → start ≤ end
      → IsAround s start end (record { side = d; node = q; sibling = w } ∷ cs)
      → link_node n q (begun q) ≡ some (set_child d q n (begun q))
  by_side left q w cs ne apart own le (_, upper) =
      below_left q apart ne (upper q (omega (arith, one_self q)))
  by_side right q w cs ne apart own le (lower, _) = below_right q apart ne own le (
      lower q (
        omega (
          arith,
          one_self q,
          occurs-append q (lefts cs) (inorder w ++ (q ∷ [])),
          occurs-append q (inorder w) (q ∷ []),
        )))

  -- The comparisons of `link_node` find the side that the way down took.
  pub link_node-linked :
      (cs : Ways)
      → Hangs s 0 cs
      → IsAround s start end cs
      → start ≤ end
      → ((z : ℕ) → 0 < count_ways z cs → s.start z ≤ s.end z)
      → count_ways n cs ≡ 0
      → link_node n (above cs) (begun (above cs)) ≡ some (linked cs)
  unfolding link_node
  link_node-linked [] hangs around le own fresh = refl
  link_node-linked (c ∷ cs) (_, ne, _, _, _) around le own fresh =
      by_side c.side c.node c.sibling cs ne
        (λ e. absurd (omega (arith, fresh, one_self n, ap (one n) e)))
        (own c.node (omega (arith, one_self c.node))) le around

  abbrev fresh_red : ℕ → Bool
  fresh_red = update s.red n true

  linked-red : (cs : Ways) → (linked cs).red ≡ fresh_red
  linked-red [] = refl
  linked-red (c ∷ cs) = refl

  module _ (q : ℕ) (d : Side) (w : Tree) (cs : Ways)
      (counted : (z : ℕ) → (one z q + count z w) + count_ways z cs ≤ 1)
      (fresh : (one n q + count n w) + count_ways n cs ≡ 0) where
    abbrev hung : RbTree
    hung = set_child d q n (begun q)

    far :
        (z : ℕ)
        → 0 < count z w + count_ways z cs
        → (hung.child z ≡ s.child z) × (hung.parent z ≡ s.parent z)
    far z i =
        let nq : z ≢ q =
          λ e. absurd (omega (arith, i, counted z, one_self z, ap (one z) (sym e))) in
        let nn : z ≢ n =
          λ e. absurd (omega (arith, i, fresh, ap (λ v. count v w + count_ways v cs) e)) in
        (
          update_ne (update s.child n (λ _. 0)) q (pick d n (update s.child n (λ _. 0) q (other d)))
                z nq
              ∙ update_ne s.child n (λ _. 0) z nn,
          update_ne s.parent n q z nn,
        )

    q_ne_n : q ≢ n
    q_ne_n e = absurd (omega (arith, fresh, one_self n, ap (one n) e))

    hung-child : (e : Side) → hung.child q e ≡ pick d n (s.child q (other d)) e
    hung-child e =
        ap (λ (f : Side → ℕ). f e)
          (update_self (update s.child n (λ _. 0)) q
            (pick d n (update s.child n (λ _. 0) q (other d))))
        ∙ ap (λ (f : Side → ℕ). pick d n (f (other d)) e) (update_ne s.child n (λ _. 0) q q_ne_n)

    hung-new : (e : Side) → hung.child n e ≡ 0
    hung-new e =
        ap (λ (f : Side → ℕ). f e)
          (update_ne (update s.child n (λ _. 0)) q
              (pick d n (update s.child n (λ _. 0) q (other d))) n (λ z. q_ne_n (sym z))
            ∙ update_self s.child n (λ _. 0))

    hung-Hangs :
        Hangs s 0 (record { side = d; node = q; sibling = w } ∷ cs)
        → Hangs hung n (record { side = d; node = q; sibling = w } ∷ cs)
    hung-Hangs (_, ne, link, beside, up) = (
      hung-child d ∙ pick_on d n (s.child q (other d)),
      ne,
      update_ne s.parent n q q q_ne_n ∙ link,
      rw (hung-child (other d) ∙ pick_off d n (s.child q (other d)))
          (Shape-frame s hung (s.child q (other d)) q w (λ z i. far z (omega (arith, i))) beside),
      Hangs-frame s hung q cs refl (λ z i. far z (omega (arith, i))) up,
    )

    hung-Shape : Shape hung n q (fork n no_kids)
    hung-Shape = (refl, n_ne, update_self s.parent n q, hung-new)

  linked-Hangs :
      (cs : Ways)
      → Hangs s 0 cs
      → ((z : ℕ) → count_ways z cs ≤ 1)
      → count_ways n cs ≡ 0
      → Hangs (linked cs) n cs × Shape (linked cs) n (above cs) (fork n no_kids)
  linked-Hangs [] hangs apart fresh = (
    refl,
    (
      refl,
      n_ne,
      update_self s.parent n 0,
      λ e. ap (λ (f : Side → ℕ). f e) (update_self s.child n (λ _. 0)),
    ),
  )
  linked-Hangs (c ∷ cs) hangs apart fresh = (
    hung-Hangs c.node c.side c.sibling cs apart fresh hangs,
    hung-Shape c.node c.side c.sibling cs apart fresh,
  )

  pub linked-Distinct :
      (cs : Ways)
      → ((z : ℕ) → count_ways z cs ≤ 1)
      → count_ways n cs ≡ 0
      → Distinct (plug cs (fork n no_kids))
  linked-Distinct cs apart fresh z =
      ground (arith, apart z, fresh, count-plug z cs (fork n no_kids))

  -- Linked, the new node is the red one that may have a red parent.
  pub linked-IsBroken :
      (cs : Ways)
      → Hangs s 0 cs
      → ((z : ℕ) → count_ways z cs ≤ 1)
      → count_ways n cs ≡ 0
      → ColoredWays s.red cs 0
      → IsBroken (linked cs) n no_kids cs 0
  linked-IsBroken cs hangs apart fresh ways =
      let (hangs', shape) = linked-Hangs cs hangs apart fresh in
      let new_red : (linked cs).red n ≡ true =
        ap (λ (r : ℕ → Bool). r n) (linked-red cs) ∙ update_self s.red n true in
      record {
        hangs = hangs';
        shape = shape;
        apart = linked-Distinct cs apart fresh;
        ways =
            subst (λ r. ColoredWays r cs 0) (sym (linked-red cs))
              (ColoredWays-frame s.red fresh_red cs 0
                (λ z i.
                  update_ne s.red n true z
                    (λ e. absurd (omega (arith, i, fresh, ap (λ v. count_ways v cs) e))))
                ways);
        colored = (0, omega (arith, ap black_of new_red), λ _ d. refl, λ d. refl);
        is_red = new_red;
      }
