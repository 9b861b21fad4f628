-- ===== src/RbTree/Insert/Broken.antt =====
-- The state of the loop in `insert_fixup`: a tree whose rules hold but for one red node, whose parent
-- may be red.
pub mod Settle
pub mod Recolor
use oh_my_os.Base.{
  ℕ, suc, ◌+◌, ◌<◌, ◌≤◌, ◌≡◌, ◌≢◌, ◌∙◌, sym, ap, refl, subst, arith, fun_ext, Bool, true, false,
  List, [], ◌∷◌, ◌++◌, if◌then◌else◌, update,
}
use oh_my_os.RbTree.{Side, left, right, other, pick, RbTree, rotate}
use oh_my_os.RbTree.Shape.{Tree, leaf, fork, count, inorder, Distinct, Shape, Shape-frame}
use oh_my_os.RbTree.Turn.{one, before, after, inorder-after, before_count, count-pick, kids-Shape}
use oh_my_os.RbTree.Path.{
  Crumb, Ways, plug, above, count_ways, count-plug, Hangs, Hangs-frame, climb-Shape, inorder-plug,
}
use oh_my_os.RbTree.Path.Turned.{rotate-Hangs, SameKeys, rotate-SameKeys}
use oh_my_os.RbTree.Color.{top_red, Colored, ColoredWays, parent_red, on_sides, black_of}

pub record IsBroken (s : RbTree) (x : ℕ) (kids : Side → Tree) (cs : Ways) (h : ℕ) : Type 0 where
  pub hangs : Hangs s x cs
  pub shape : Shape s x (above cs) (fork x kids)
  pub apart : Distinct (plug cs (fork x kids))
  pub ways : ColoredWays s.red cs h
  pub colored : Colored s.red (fork x kids) h
  pub is_red : s.red x ≡ true

-- The parts of a step that keeps the nodes in order, and their keys.
pub record Kept (s s' : RbTree) (t t' : Tree) : Type 0 where
  pub same_order : inorder t' ≡ inorder t
  pub same_count : (z : ℕ) → count z t' ≡ count z t
  pub keys : SameKeys s s'

-- Colours are no links.
pub repaint-Hangs :
    (s : RbTree) (red : ℕ → Bool) (p : ℕ) (cs : Ways)
    → Hangs s p cs
    → Hangs (record s { red = red }) p cs
repaint-Hangs s red p cs h =
    Hangs-frame s (record s { red = red }) p cs refl (λ z i. (refl, refl)) h

pub repaint-Shape :
    (s : RbTree) (red : ℕ → Bool) (p up : ℕ) (t : Tree)
    → Shape s p up t
    → Shape (record s { red = red }) p up t
repaint-Shape s red p up t h = Shape-frame s (record s { red = red }) p up t (λ z i. (refl, refl)) h

swap_left : (t u : Tree) (e : Side) → pick right t u e ≡ pick left u t e
swap_left t u left = refl
swap_left t u right = refl

swap_right : (t u : Tree) (e : Side) → pick left t u e ≡ pick right u t e
swap_right t u left = refl
swap_right t u right = refl

eta_left : (kids : Side → Tree) (e : Side) → pick left (kids left) (kids right) e ≡ kids e
eta_left kids left = refl
eta_left kids right = refl

eta_right : (kids : Side → Tree) (e : Side) → pick right (kids right) (kids left) e ≡ kids e
eta_right kids left = refl
eta_right kids right = refl

-- Two children, by either side.
pub pick-other : (d : Side) (t u : Tree) → pick (other d) t u ≡ pick d u t
pick-other left t u = fun_ext (swap_left t u)
pick-other right t u = fun_ext (swap_right t u)

pub pick_eta : (d : Side) (kids : Side → Tree) → pick d (kids d) (kids (other d)) ≡ kids
pick_eta left kids = fun_ext (eta_left kids)
pick_eta right kids = fun_ext (eta_right kids)

-- What a rotation at a place keeps.
pub after-Kept :
    (d : Side) (s s' : RbTree) (x y : ℕ) (a b c : Tree) (cs : Ways)
    → SameKeys s s'
    → Kept s s' (plug cs (before d x y a b c)) (plug cs (after d x y a b c))
after-Kept d s s' x y a b c cs keys = record {
  same_order = inorder-plug cs (after d x y a b c) (before d x y a b c) (inorder-after d x y a b c);
  same_count = λ z. omega (
    arith,
    count-plug z cs (after d x y a b c),
    count-plug z cs (before d x y a b c),
    before_count d x y a b c z,
    count-pick z d (fork x (pick d a b)) c,
    count-pick z d a b,
  );
  keys = keys;
}

-- The first rotation: the red parent `p` of a red node `x` on the inner side comes below it.
pub straighten :
    (d : Side) (s : RbTree) (x p : ℕ) (kids : Side → Tree) (u : Tree) (cs : Ways) (h : ℕ)
    → IsBroken s x kids (record { side = other d; node = p; sibling = u } ∷ cs) h
    → s.red p ≡ true
    → IsBroken
        (rotate d p s)
        p
        (pick d u (kids d))
        (record { side = d; node = x; sibling = kids (other d) } ∷ cs)
        h
      × ((rotate d p s).red x ≡ true)
      × Kept s
          (rotate d p s)
          (plug (record { side = other d; node = p; sibling = u } ∷ cs) (fork x kids))
          (plug
            (record { side = d; node = x; sibling = kids (other d) } ∷ cs)
            (fork p (pick d u (kids d))))
straighten d s x p kids u cs h b red =
    let a = kids d in
    let c = kids (other d) in
    let same : fork p (pick (other d) (fork x kids) u) ≡ before d p x u a c =
      ap (fork p)
        (pick-other d (fork x kids) u ∙ ap (λ k. pick d u (fork x k)) (sym (pick_eta d kids))) in
    let s' = rotate d p s in
    let (_, _, _, _, up) = b.hangs in
    let whole = subst (Shape s p (above cs)) same (
      climb-Shape s x (record { side = other d; node = p; sibling = u }) cs (fork x kids) b.hangs
        b.shape) in
    let (top, (_, x_ne, link, below)) =
      rotate-Hangs d s p x u a c cs up whole (subst (λ t. Distinct (plug cs t)) same b.apart) in
    let ((e, p_ne, p_link, p_below), beside) =
      kids-Shape d s' x (s'.child x) (fork p (pick d u a)) c below in
    let (keys, color) = rotate-SameKeys d p s in
    let kept = after-Kept d s s' p x u a c cs keys in
    let kept' : Kept s s' (plug cs (fork p (pick (other d) (fork x kids) u)))
        (plug cs (after d p x u a c)) =
      subst (λ t. Kept s s' (plug cs t) (plug cs (after d p x u a c))) (sym same) kept in
    let (col_u, rules, above_ok) = b.ways in
    let (k, eh, tops, both) = b.colored in
    let hk : k ≡ h = omega (arith, eh, ap black_of b.is_red) in
    let both_h : (e : Side) → Colored s.red (kids e) h =
      λ e. subst (Colored s.red (kids e)) hk (both e) in
    let new_ways : ColoredWays s.red (record { side = d; node = x; sibling = c } ∷ cs) h = (
      both_h (other d),
      λ r. (tops b.is_red (other d), (rules red).1),
      subst (λ v. ColoredWays s.red cs (h + black_of v)) (red ∙ sym b.is_red) above_ok,
    ) in
    let new_colored : Colored s.red (fork p (pick d u a)) h = (
      h,
      omega (arith, ap black_of red),
      λ r. on_sides s.red d (λ t. top_red s.red t ≡ false) u a (rules red).0 (tops b.is_red d),
      on_sides s.red d (λ t. Colored s.red t h) u a col_u (both_h d),
    ) in
    (
      record {
        hangs = (e, x_ne, link, beside, top);
        shape = (refl, p_ne, p_link, p_below);
        apart = λ z. omega (arith, kept'.same_count z, b.apart z);
        ways =
            subst (λ r. ColoredWays r (record { side = d; node = x; sibling = c } ∷ cs) h)
              (sym color) new_ways;
        colored = subst (λ r. Colored r (fork p (pick d u a)) h) (sym color) new_colored;
        is_red = ap (λ (r : ℕ → Bool). r p) color ∙ red;
      },
      ap (λ (r : ℕ → Bool). r x) color ∙ b.is_red,
      kept',
    )
