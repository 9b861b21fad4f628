-- ===== src/RbTree/Insert/Loop.antt =====
-- The loop of `insert_fixup` of libs/rb_tree.c as a whole.
use oh_my_os.Base.{
  ℕ, zero, suc, ◌+◌, ◌<◌, ◌≡◌, ◌≢◌, inl, inr, ◌∙◌, sym, ap, refl, subst, arith, true, false,
  Bool-cases, not, ◌&&◌, some, [], ◌∷◌, length, ◌==◌, eq→==, ne→==, if◌then◌else◌,
}
use oh_my_os.RbTree.{Side, left, right, other, RbTree, set_black, is_red}
use oh_my_os.RbTree.Shape.{Tree, leaf, fork, count}
use oh_my_os.RbTree.Turn.{one_self}
use oh_my_os.RbTree.Path.{Crumb, Ways, plug, count_ways, count-plug, plug-Shape}
use oh_my_os.RbTree.Path.Turned.{root_on}
use oh_my_os.RbTree.Color.{top_red, plug-Colored, true-false}
use oh_my_os.RbTree.Insert.{fix_insert, insert_fixup}
use oh_my_os.RbTree.Insert.Broken.{IsBroken}
use oh_my_os.RbTree.Insert.Fixup.{
  Repaired, blacken, side_found, side_cases, beside_ne, go_on, IsRec, outer, inner, painting,
}

module _ (f : ℕ) (rec : IsRec f) (s : RbTree) (d : Side) (g : ℕ) (cs : Ways) (h x : ℕ)
    (kids : Side → Tree) (p : ℕ) (w : Tree) where
  abbrev two_up : Side → Tree → Ways
  two_up e u =
      record { side = e; node = p; sibling = w } ∷ record { side = d; node = g; sibling = u } ∷ cs

  -- A round where the uncle is black, or NULL.
  turning :
      (e : Side) (u : Tree)
      → IsBroken s x kids (two_up e u) h
      → s.red p ≡ true
      → top_red s.red u ≡ false
      → length cs + 1 < f
      → Repaired s (plug (two_up e u) (fork x kids)) (go_on f (fix_insert d x s))
  turning e u b red uncle enough = elim (side_cases e d) [
    | inl q ↦
        subst
          (λ (v : Side).
            IsBroken s x kids (two_up v u) h
            → Repaired s (plug (two_up v u) (fork x kids)) (go_on f (fix_insert d x s)))
          (sym q) (λ b'. outer f rec s d g cs h x kids p w u b' red uncle enough) b
    | inr q ↦
        subst
          (λ (v : Side).
            IsBroken s x kids (two_up v u) h
            → Repaired s (plug (two_up v u) (fork x kids)) (go_on f (fix_insert d x s)))
          (sym q) (λ b'. inner f rec s d g cs h x kids p w u b' red uncle enough) b
  ]

  round :
      (e : Side) (u : Tree)
      → IsBroken s x kids (two_up e u) h
      → s.red p ≡ true
      → length cs + 1 < f
      → Repaired s (plug (two_up e u) (fork x kids)) (go_on f (fix_insert d x s))
  round e leaf b red enough = turning e leaf b red refl enough
  round e (fork u uncles) b red enough = elim (Bool-cases (s.red u)) [
    | inl r ↦ painting f rec s d g cs h x kids e p w u uncles b red r (omega (arith, enough))
    | inr r ↦ turning e (fork u uncles) b red r enough
  ]

is_red_node : (q : ℕ) (s : RbTree) → q ≢ 0 → is_red q s ≡ s.red q
unfolding is_red
is_red_node q s ne = rw (ne→== q 0 ne) refl

-- The node with a way above it is not the root, so the colour of its parent decides.
guard :
    (s : RbTree) (x : ℕ) (kids : Side → Tree) (c : Crumb) (cs : Ways) (h : ℕ)
    → IsBroken s x kids (c ∷ cs) h
    → (not (x == s.root) && is_red (s.parent x) s) ≡ s.red c.node
guard s x kids c cs h b =
    let (_, ne, _, _, _) = b.hangs in
    let (_, _, up, _) = b.shape in
    let low : x ≢ s.root = λ q. absurd (
      omega (
        arith,
        root_on s x c cs b.hangs,
        b.apart x,
        one_self x,
        count-plug x (c ∷ cs) (fork x kids),
        ap (λ z. count_ways z (c ∷ cs)) q,
      )) in
    rw (ne→== x s.root low) (ap (λ q. is_red q s) up ∙ is_red_node c.node s ne)

black_parent :
    (s : RbTree) (x : ℕ) (kids : Side → Tree) (c : Crumb) (cs : Ways) (h : ℕ)
    → IsBroken s x kids (c ∷ cs) h
    → s.red c.node ≡ false
    → Repaired s (plug (c ∷ cs) (fork x kids)) (some (set_black s.root s))
black_parent s x kids c cs h b black =
    let ((k, col), _) =
      plug-Colored s.red (c ∷ cs) (fork x kids) h b.ways b.colored
        (λ r. absurd (true-false (sym r ∙ black))) in
    blacken s (plug (c ∷ cs) (fork x kids)) k
      (plug-Shape s x (c ∷ cs) (fork x kids) b.hangs b.shape) b.apart col

red_parent :
    (f : ℕ) (rec : IsRec f) (s : RbTree) (x : ℕ) (kids : Side → Tree) (c : Crumb) (cs : Ways)
    (h : ℕ)
    → IsBroken s x kids (c ∷ cs) h
    → s.red c.node ≡ true
    → length (c ∷ cs) < suc f
    → Repaired s (plug (c ∷ cs) (fork x kids)) (
        go_on f (
          fix_insert
            (if s.parent x == s.child (s.parent (s.parent x)) left then left else right)
            x
            s))
red_parent f rec s x kids c [] h b red enough =
    let (_, rules, _) = b.ways in absurd (true-false (rules red).1)
red_parent f rec s x kids c (g ∷ cs) h b red enough =
    let (_, p_ne, up_p, _, (at_g, _, _, beside, _)) = b.hangs in
    let (_, _, up_x, _) = b.shape in
    let absent : count c.node g.sibling ≡ 0 =
      omega
        (arith, b.apart c.node, count-plug c.node (c ∷ g ∷ cs) (fork x kids), one_self c.node) in
    let apart =
      beside_ne s c.node kids (s.child g.node (other g.side)) g.node g.sibling beside p_ne absent in
    let side : (if s.parent x == s.child (s.parent (s.parent x)) left then left else right)
        ≡ g.side =
      ap (λ q. if q == s.child (s.parent q) left then left else right) up_x
      ∙ ap (λ q. if c.node == s.child q left then left else right) up_p
      ∙ side_found g.side (s.child g.node) c.node at_g apart in
    subst (λ d. Repaired s (plug (c ∷ g ∷ cs) (fork x kids)) (go_on f (fix_insert d x s)))
      (sym side)
      (round f rec s g.side g.node cs h x kids c.node c.sibling c.side g.sibling b red
        (omega (arith, enough)))

pub insert_fixup-Repaired : (f : ℕ) → IsRec f
unfolding insert_fixup
insert_fixup-Repaired zero s x kids cs h b enough = absurd (omega (arith, enough))
insert_fixup-Repaired (suc f) s x kids [] h b enough =
    rw (eq→== x s.root (sym b.hangs), insert_fixup)
      (blacken s (fork x kids) h (plug-Shape s x [] (fork x kids) b.hangs b.shape) b.apart
        b.colored)
insert_fixup-Repaired (suc f) s x kids (c ∷ cs) h b enough = elim (Bool-cases (s.red c.node)) [
  | inl red ↦
      rw (guard s x kids c cs h b ∙ red, insert_fixup)
        (red_parent f (insert_fixup-Repaired f) s x kids c cs h b red enough)
  | inr black ↦
      rw (guard s x kids c cs h b ∙ black, insert_fixup) (black_parent s x kids c cs h b black)
]
