-- ===== src/RbTree/Insert/Correct.antt =====
-- `rb_tree_insert` of libs/rb_tree.c from its call to its end.
use oh_my_os.Base.{
  ℕ, suc, ◌+◌, ◌<◌, ◌≤◌, ◌≡◌, ◌≢◌, inl, inr, ◌∙◌, sym, ap, refl, subst, arith, true, false,
  Bool-cases, not, Option, none, some, ◌⊎◌, List, [], ◌∷◌, ◌++◌, length, length-append, ge→ltb,
  ne→==, if◌then◌else◌, update, update_ne, update_self,
}
use oh_my_os.RbTree.{Side, left, right, RbTree, is_red, is_black}
use oh_my_os.RbTree.Shape.{Tree, leaf, fork, count, size, inorder, Distinct, Shape, Shape-top}
use oh_my_os.RbTree.Search.{IsOrdered, ordered_range}
use oh_my_os.RbTree.Order.{
  occurs, occurs-append, occurs-inorder, length-inorder, Ascends, Ascends-between, Ascends-frame,
  IsOrdered-Ascends, Ascends-IsOrdered,
}
use oh_my_os.RbTree.Path.{Ways, plug, above, count_ways, count-plug, Hangs}
use oh_my_os.RbTree.Color.{black_of, top_red, Colored, ColoredWays, focus-Colored}
use oh_my_os.RbTree.Validate.{rb_tree_validate, rb_tree_create}
use oh_my_os.RbTree.Validate.RedBlack.{IsRedBlack, rb_tree_validate_iff}
use oh_my_os.RbTree.Insert.{init_node, link_node, insert_fixup, insert_below, rb_tree_insert}
use oh_my_os.RbTree.Insert.Overlap.{Overlaps, IsClear, rb_tree_insert_cases}
use oh_my_os.RbTree.Insert.Broken.{Kept}
use oh_my_os.RbTree.Insert.Fixup.{is_red-top_red}
use oh_my_os.RbTree.Insert.Loop.{insert_fixup-Repaired}
use oh_my_os.RbTree.Insert.Way.{lefts, rights, IsAround, between, size-plug, find_place-Way}
use oh_my_os.RbTree.Insert.Hang.{
  no_kids, begun, init_node-begun, linked, linked-Distinct, link_node-linked, linked-IsBroken,
}

-- A red-black tree of ranges: the links hold the tree, no node is there twice, the ranges ascend and are
-- apart, no red node has a red child, all ways down pass the same number of black nodes, and the root is
-- black.
pub record IsRbTree (s : RbTree) (t : Tree) : Type 0 where
  pub shape : Shape s s.root 0 t
  pub apart : Distinct t
  pub ordered : IsOrdered s t
  pub colored : (h : ℕ) × Colored s.red t h
  pub black : top_red s.red t ≡ false

-- The tree `t'` has one node more than `t`, with the range and the value given, and its old nodes keep
-- their order, their ranges and their values.
abbrev pub Inserted : RbTree → Tree → ℕ → ℕ → ℕ → ℕ → RbTree → Tree → Type 0
Inserted s t n start end value s' t' =
    IsRbTree s' t'
    × ((before : List ℕ) × (after : List ℕ) × (inorder t ≡ before ++ after)
        × (inorder t' ≡ before ++ (n ∷ after)))
    × (s'.start ≡ update s.start n start)
    × (s'.end ≡ update s.end n end)
    × (s'.value ≡ update s.value n value)

is_black-is_red : (p : ℕ) (s : RbTree) → is_black p s ≡ not (is_red p s)
unfolding is_black
is_black-is_red p s = refl

black_one-black_of :
    (s : RbTree) (x : ℕ) → x ≢ 0 → (if is_black x s then 1 else 0) ≡ black_of (s.red x)
unfolding is_black is_red
black_one-black_of s x ne =
    rw (ne→== x 0 ne) (elim (Bool-cases (s.red x)) [ inl e ↦ rw e refl | inr e ↦ rw e refl ])

Colored-IsRedBlack :
    (s : RbTree) (p up : ℕ) (t : Tree) (h : ℕ)
    → Shape s p up t
    → IsOrdered s t
    → Colored s.red t h
    → IsRedBlack s t h
Colored-IsRedBlack s p up leaf h shape ordered col = col
Colored-IsRedBlack s p up (fork x kids) h (_, ne, link, below) (_, lower, upper, inside)
      (k, e, tops, both) =
    let top : is_red x s ≡ s.red x = is_red-top_red s x up (fork x kids) (refl, ne, link, below) in
    let color : (d : Side) → is_red (s.child x d) s ≡ top_red s.red (kids d) =
      λ d. is_red-top_red s (s.child x d) x (kids d) (below d) in
    (
      record {
        lower = λ n.
            lower (s.child x left) (Shape-top s (s.child x left) x (kids left) (below left) n).0;
        upper = λ n.
            upper (s.child x right)
              (Shape-top s (s.child x right) x (kids right) (below right) n).0;
        red_left = λ r. color left ∙ tops (sym top ∙ r) left;
        red_right = λ r. color right ∙ tops (sym top ∙ r) right;
      },
      (
        k,
        omega (arith, e, black_one-black_of s x ne),
        λ d. Colored-IsRedBlack s (s.child x d) x (kids d) k (below d) (inside d) (both d),
      ),
    )

validates :
    (fuel : ℕ) (s : RbTree) (t : Tree)
    → IsRbTree s t
    → size t < fuel
    → rb_tree_validate fuel s ≡ true
validates fuel s t tree enough =
    let (h, col) = tree.colored in
    (rb_tree_validate_iff fuel s t tree.shape enough).1 (
      λ _. is_black-is_red s.root s ∙ ap not (is_red-top_red s s.root 0 t tree.shape ∙ tree.black),
      (h, Colored-IsRedBlack s s.root 0 t h tree.shape tree.ordered col),
    )

below_run :
    (fuel n start end value q : ℕ) (s s₁ s₂ s₃ : RbTree)
    → init_node n start end value q s ≡ s₁
    → link_node n q s₁ ≡ some s₂
    → insert_fixup fuel n s₂ ≡ some s₃
    → rb_tree_validate fuel s₃ ≡ true
    → insert_below fuel (some n) start end value q s ≡ some (n, s₃)
unfolding insert_below
below_run fuel n start end value q s s₁ s₂ s₃ begun linked fixed valid =
    rw (begun, insert_below, linked, insert_below, fixed, insert_below, valid) refl

module _ (s : RbTree) (t : Tree) (tree : IsRbTree s t) (n start end value : ℕ) (n_ne : n ≢ 0)
    (fresh : count n t ≡ 0) (own : start ≤ end) where
  abbrev low : ℕ → ℕ
  low = update s.start n start

  abbrev high : ℕ → ℕ
  high = update s.end n end

  linked-keys :
      (cs : Ways)
      → ((linked s n start end value n_ne cs).start ≡ low)
        × ((linked s n start end value n_ne cs).end ≡ high)
        × ((linked s n start end value n_ne cs).value ≡ update s.value n value)
  linked-keys [] = (refl, refl, refl)
  linked-keys (c ∷ cs) = (refl, refl, refl)

  module _ (cs : Ways) (same : plug cs leaf ≡ t) (hangs : Hangs s 0 cs)
      (around : IsAround s start end cs) where
    in_order : inorder t ≡ lefts cs ++ rights cs
    in_order = ap inorder (sym same) ∙ between cs leaf

    on_way : (z : ℕ) → count_ways z cs ≡ count z t
    on_way z = omega (arith, count-plug z cs leaf, ap (count z) same)

    new_apart : Distinct (plug cs (fork n no_kids))
    new_apart =
        linked-Distinct s n start end value n_ne cs (λ z. omega (arith, on_way z, tree.apart z))
          (on_way n ∙ fresh)

    not_new : (z : ℕ) → 0 < occurs z (lefts cs ++ rights cs) → z ≢ n
    not_new z i e =
        absurd (
          omega
            (arith, i, ap (occurs z) in_order, occurs-inorder z t, ap (λ v. count v t) e, fresh))

    new_order : Ascends low high (lefts cs ++ (n ∷ rights cs))
    new_order =
        Ascends-between low high (lefts cs) (rights cs) n
          (Ascends-frame s.start s.end low high (lefts cs ++ rights cs)
            (λ z i.
              (update_ne s.start n start z (not_new z i), update_ne s.end n end z (not_new z i)))
            (subst (Ascends s.start s.end) in_order (IsOrdered-Ascends s t tree.ordered)))
          (omega (arith, own, update_self s.start n start, update_self s.end n end))
          (λ z i. omega (
            arith,
            around.0 z i,
            update_self s.start n start,
            update_ne s.end n end z
                (not_new z (omega (arith, i, occurs-append z (lefts cs) (rights cs)))),
          ))
          (λ z i. omega (
            arith,
            around.1 z i,
            update_self s.end n end,
            update_ne s.start n start z
                (not_new z (omega (arith, i, occurs-append z (lefts cs) (rights cs)))),
          ))

    module _ (s' : RbTree) (t' : Tree)
        (kept : Kept (linked s n start end value n_ne cs) s' (plug cs (fork n no_kids)) t') where
      order_after : inorder t' ≡ lefts cs ++ (n ∷ rights cs)
      order_after = kept.same_order ∙ between cs (fork n no_kids)

      starts : s'.start ≡ low
      starts = kept.keys.start ∙ (linked-keys cs).0

      ends : s'.end ≡ high
      ends = kept.keys.end ∙ (linked-keys cs).1

      inserted :
          Shape s' s'.root 0 t'
          → (h : ℕ) × Colored s'.red t' h
          → top_red s'.red t' ≡ false
          → Inserted s t n start end value s' t'
      inserted shape col black = (
        record {
          shape = shape;
          apart = λ z. omega (arith, kept.same_count z, new_apart z);
          ordered = Ascends-IsOrdered s' t' (
              subst (λ f. Ascends f s'.end (inorder t')) (sym starts)
                (subst (λ f. Ascends low f (inorder t')) (sym ends)
                  (subst (Ascends low high) (sym order_after) new_order)));
          colored = col;
          black = black;
        },
        (lefts cs, rights cs, in_order, order_after),
        starts,
        ends,
        kept.keys.value ∙ (linked-keys cs).2,
      )

      one_more : size t' ≡ suc (size t)
      one_more = omega (
        arith,
        length-inorder t',
        length-inorder t,
        ap length order_after,
        ap length in_order,
        length-append (lefts cs) (n ∷ rights cs),
        length-append (lefts cs) (rights cs),
      )

  link_ways :
      (fuel : ℕ) (cs : Ways)
      → plug cs leaf ≡ t
      → Hangs s 0 cs
      → IsAround s start end cs
      → size t + 1 < fuel
      → (s' : RbTree) × (t' : Tree) × (insert_below fuel (some n) start end value (above cs) s
          ≡ some (n, s'))
        × Inserted s t n start end value s' t'
  link_ways fuel cs same hangs around enough =
      let (_, col) = tree.colored in
      let (h, ways, zero_height, _) =
        focus-Colored s.red cs leaf tree.colored.0
          (subst (λ v. Colored s.red v tree.colored.0) (sym same) col)
          (ap (top_red s.red) same ∙ tree.black) in
      let broken =
        linked-IsBroken s n start end value n_ne cs hangs
          (λ z. omega (arith, on_way cs same hangs around z, tree.apart z))
          (on_way cs same hangs around n ∙ fresh) (subst (ColoredWays s.red cs) zero_height ways) in
      let (s', t', run, shape, col', black, kept) =
        insert_fixup-Repaired fuel (linked s n start end value n_ne cs) n no_kids cs 0 broken
          (omega (arith, enough, size-plug cs leaf, ap size same)) in
      let done = inserted cs same hangs around s' t' kept shape col' black in
      (
        s',
        t',
        below_run fuel n start end value (above cs) s (begun s n start end value n_ne (above cs))
            (linked s n start end value n_ne cs) s'
            (init_node-begun s n start end value n_ne (above cs))
            (link_node-linked s n start end value n_ne cs hangs around own
              (λ z i.
                ordered_range s t tree.ordered z (omega (arith, i, on_way cs same hangs around z)))
              (on_way cs same hangs around n ∙ fresh))
            run
            (validates fuel s' t' done.0
              (omega (arith, enough, one_more cs same hangs around s' t' kept))),
        done,
      )

-- On a red-black tree of ranges, with fuel above its number of nodes and one more, and with an address
-- from `kmalloc` that is not NULL and not in the tree, `rb_tree_insert` of a range that is not empty and
-- overlaps no range of the tree ends, passes the assertions of `rb_tree_validate`, and answers the new
-- node: the links then hold a red-black tree again, which has the new node with its range and its value
-- between the nodes before, whose order, ranges and values stay.
pub rb_tree_insert-Inserted :
    (fuel : ℕ) (s : RbTree) (t : Tree) (n start end value : ℕ)
    → IsRbTree s t
    → n ≢ 0
    → count n t ≡ 0
    → start ≤ end
    → IsClear s start end t
    → size t + 1 < fuel
    → (s' : RbTree) × (t' : Tree) × (rb_tree_insert fuel (some n) start end value s ≡ some (n, s'))
      × Inserted s t n start end value s' t'
unfolding rb_tree_insert
rb_tree_insert-Inserted fuel s t n start end value tree n_ne fresh own clear enough =
    let (cs, found, same, hangs, around) =
      find_place-Way s start end fuel s.root [] t own clear tree.ordered refl tree.shape
        (λ z i. absurd (omega (arith, i)), λ z i. absurd (omega (arith, i)))
        (omega (arith, enough)) in
    let (s', t', run, done) =
      link_ways s t tree n start end value n_ne fresh own fuel cs same hangs around enough in
    (s', t', rw (ge→ltb end start own, found) run, done)

-- On a red-black tree of ranges, with fuel above its number of nodes and one more, and where an address
-- from `kmalloc` is not NULL and not in the tree, `rb_tree_insert` always ends. Either it answers NULL
-- and leaves the tree as it was, and then the range is empty, has a number in common with a range of the
-- tree, or `kmalloc` had no memory; or the range is not empty and overlaps no range of the tree, `kmalloc`
-- gave an address, and it answers the new node there: the links then hold a red-black tree again, with the
-- new node with its range and its value between the nodes before, which stay as they were.
pub rb_tree_insert_answers :
    (fuel : ℕ) (answer : Option ℕ) (start end value : ℕ) (s : RbTree) (t : Tree)
    → IsRbTree s t
    → ((n : ℕ) → answer ≡ some n → (n ≢ 0) × (count n t ≡ 0))
    → size t + 1 < fuel
    → ((rb_tree_insert fuel answer start end value s ≡ some (0, s))
        × ((end < start) ⊎ (Overlaps s start end t ⊎ (answer ≡ none))))
      ⊎ ((start ≤ end)
          × IsClear s start end t
          × ((n : ℕ) × (s' : RbTree) × (t' : Tree) × (answer ≡ some n)
              × (rb_tree_insert fuel answer start end value s ≡ some (n, s'))
              × Inserted s t n start end value s' t'))
unfolding insert_below
rb_tree_insert_answers fuel none start end value s t tree given enough =
    elim (rb_tree_insert_cases fuel none start end value s t tree.shape tree.ordered
      (omega (arith, enough))) [
        | inl (run, inl empty) ↦ inl (run, inl empty)
        | inl (run, inr overlap) ↦ inl (run, inr (inl overlap))
        | inr (q, run, own, clear, room) ↦ inl (run, inr (inr refl))
      ]
rb_tree_insert_answers fuel (some n) start end value s t tree given enough =
    elim (rb_tree_insert_cases fuel (some n) start end value s t tree.shape tree.ordered
      (omega (arith, enough))) [
        | inl (run, inl empty) ↦ inl (run, inl empty)
        | inl (run, inr overlap) ↦ inl (run, inr (inl overlap))
        | inr (q, _, own, clear, room) ↦
            let (ne, fresh) = given n refl in
            let (s', t', run, done) =
              rb_tree_insert-Inserted fuel s t n start end value tree ne fresh own clear enough in
            inr (own, clear, (n, s', t', refl, run, done))
      ]

-- The new tree is the empty one.
pub rb_tree_create-IsRbTree : (s : RbTree) → IsRbTree (rb_tree_create s) leaf
unfolding rb_tree_create
rb_tree_create-IsRbTree s = record {
  shape = refl;
  apart = λ z. omega arith;
  ordered = tt;
  colored = (0, refl);
  black = refl;
}
