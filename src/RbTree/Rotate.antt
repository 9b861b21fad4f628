-- ===== src/RbTree/Rotate.antt =====
-- What a rotation does to the tree.
use oh_my_os.Base.{
  ℕ, ◌+◌, ◌<◌, ◌≤◌, ◌≡◌, ◌≢◌, ◌∙◌, sym, ap, refl, subst, arith, eq→==, ne→==, update, update_ne,
  update_self,
}
use oh_my_os.RbTree.{Side, other, pick, RbTree, set_child, set_parent, replace_child, rotate}
use oh_my_os.RbTree.Shape.{
  Tree, fork, count, inorder, Distinct, Shape, Shape-top, Shape-frame, Shape-moved,
}
use native.Mathlib.Decide.{ℕ_discrete}
use oh_my_os.RbTree.Turn.{
  Shape-kids, after, inorder-after, before, before_count, climb, climb-child, climb-root,
  kids-Shape, one, one_self, other_off, other_twice, pick_off, pick_on, replace_child-below,
  replace_child-else, replace_child-root, turned,
}

module _ (d : Side) (s : RbTree) (x y up : ℕ) (a b c : Tree)
    (shape : Shape s x up (before d x y a b c)) (apart : Distinct (before d x y a b c))
    (out : count up (before d x y a b c) ≡ 0) where
  abbrev s' : RbTree
  s' = rotate d x s

  counted : (z : ℕ) → one z x + (count z a + (one z y + (count z b + count z c))) ≤ 1
  counted z = omega (arith, apart z, before_count d x y a b c z)

  up_out : one up x + (count up a + (one up y + (count up b + count up c))) ≡ 0
  up_out = omega (arith, out, before_count d x y a b c up)

  y_ne : y ≢ x
  y_ne e = absurd (omega (arith, counted x, one_self x, ap (one x) e))

  x_up : x ≢ up
  x_up e = absurd (omega (arith, up_out, one_self up, ap (one up) e))

  y_up : y ≢ up
  y_up e = absurd (omega (arith, up_out, one_self up, ap (one up) e))

  below_x : Shape s (s.child x d) x a × Shape s (s.child x (other d)) x (fork y (pick d b c))
  below_x =
      let (_, _, _, below) = shape in kids-Shape d s x (s.child x) a (fork y (pick d b c)) below

  at_y : s.child x (other d) ≡ y
  at_y = let (e, _, _, _) = below_x.1 in e

  below_y : Shape s (s.child y d) y b × Shape s (s.child y (other d)) y c
  below_y = let (_, _, _, below) = below_x.1 in kids-Shape d s y (s.child y) b c below

  abbrev inner : ℕ
  inner = s.child y d

  inner_ne : inner ≢ 0 → inner ≢ x
  inner_ne ne e = absurd (
      omega (
        arith,
        (Shape-top s inner y b below_y.0 ne).0,
        counted x,
        one_self x,
        ap (λ z. count z b) e,
      ))

  reads_inner : (set_child (other d) x inner s).child y d ≡ inner
  reads_inner =
      ap (λ (f : Side → ℕ). f d)
        (update_ne s.child x (pick (other d) inner (s.child x (other (other d)))) y y_ne)

  reads_up : (climb inner x (set_child (other d) x inner s)).parent x ≡ up
  reads_up =
      let (_, _, link, _) = shape in
      elim (ℕ_discrete inner 0) [
        | yes e ↦ rw (eq→== inner 0 e) link
        | no ne ↦
            rw (ne→== inner 0 ne) (update_ne s.parent inner x x (λ e. inner_ne ne (sym e)) ∙ link)
      ]

  rotate-turned : s' ≡ turned d x y inner inner up s
  unfolding rotate
  rotate-turned =
      ap
        (λ v.
          turned d x v (s.child v d) ((set_child (other d) x (s.child v d) s).child v d)
            ((climb ((set_child (other d) x (s.child v d) s).child v d) x
                (set_child (other d) x (s.child v d) s)).parent
              x)
            s)
        at_y
      ∙ ap (λ i. turned d x y inner i ((climb i x (set_child (other d) x inner s)).parent x) s)
          reads_inner
      ∙ ap (λ u. turned d x y inner inner u s) reads_up

  abbrev t : RbTree
  t = turned d x y inner inner up s

  abbrev mid : RbTree
  mid = set_parent y up (climb inner x (set_child (other d) x inner s))

  mid_up : mid.parent x ≡ up
  mid_up =
      update_ne (climb inner x (set_child (other d) x inner s)).parent y up x (λ e. y_ne (sym e))
      ∙ reads_up

  mid-child :
      (z : ℕ)
      → z ≢ up
      → (replace_child x y mid).child z
        ≡ update s.child x (pick (other d) inner (s.child x (other (other d)))) z
  mid-child z ne =
      (replace_child-else x y mid).1 z (λ e. ne (e ∙ mid_up))
      ∙ ap (λ (f : ℕ → Side → ℕ). f z) (climb-child inner x (set_child (other d) x inner s))

  t-child : (z : ℕ) → z ≢ y → z ≢ x → z ≢ up → t.child z ≡ s.child z
  t-child z ny nx nu =
      update_ne (replace_child x y mid).child y
        (pick d x ((replace_child x y mid).child y (other d))) z ny
      ∙ mid-child z nu
      ∙ update_ne s.child x (pick (other d) inner (s.child x (other (other d)))) z nx

  child_x : t.child x ≡ pick (other d) inner (s.child x (other (other d)))
  child_x =
      update_ne (replace_child x y mid).child y
        (pick d x ((replace_child x y mid).child y (other d))) x (λ e. y_ne (sym e))
      ∙ mid-child x x_up
      ∙ update_self s.child x (pick (other d) inner (s.child x (other (other d))))

  child_y : t.child y ≡ pick d x (s.child y (other d))
  child_y =
      update_self (replace_child x y mid).child y
        (pick d x ((replace_child x y mid).child y (other d)))
      ∙ ap (λ v. pick d x v)
          (ap (λ (f : Side → ℕ). f (other d))
            (mid-child y y_up
              ∙ update_ne s.child x (pick (other d) inner (s.child x (other (other d)))) y y_ne))

  mid-parent : t.parent ≡ update mid.parent x y
  mid-parent = ap (λ (f : ℕ → ℕ). update f x y) (replace_child-else x y mid).0

  parent_x : t.parent x ≡ y
  parent_x = ap (λ (f : ℕ → ℕ). f x) mid-parent ∙ update_self mid.parent x y

  parent_at : (z : ℕ) → z ≢ x → t.parent z ≡ mid.parent z
  parent_at z ne = ap (λ (f : ℕ → ℕ). f z) mid-parent ∙ update_ne mid.parent x y z ne

  parent_y : t.parent y ≡ up
  parent_y =
      parent_at y y_ne ∙ update_self (climb inner x (set_child (other d) x inner s)).parent y up

  climbed :
      (z : ℕ)
      → z ≢ x
      → z ≢ y
      → t.parent z ≡ (climb inner x (set_child (other d) x inner s)).parent z
  climbed z nx ny =
      parent_at z nx ∙ update_ne (climb inner x (set_child (other d) x inner s)).parent y up z ny

  inner_y : inner ≢ 0 → inner ≢ y
  inner_y ne e = absurd (
      omega (
        arith,
        (Shape-top s inner y b below_y.0 ne).0,
        counted y,
        one_self y,
        ap (λ z. count z b) e,
      ))

  parent_inner : inner ≢ 0 → t.parent inner ≡ x
  parent_inner ne =
      climbed inner (inner_ne ne) (inner_y ne)
      ∙ rw (ne→== inner 0 ne) (update_self s.parent inner x)

  t-parent : (z : ℕ) → z ≢ x → z ≢ y → (inner ≢ 0 → z ≢ inner) → t.parent z ≡ s.parent z
  t-parent z nx ny ni = climbed z nx ny ∙ elim (ℕ_discrete inner 0) [
    | yes e ↦ rw (eq→== inner 0 e) refl
    | no ne ↦ rw (ne→== inner 0 ne) (update_ne s.parent inner x z (ni ne))
  ]

  abbrev rest : ℕ → ℕ
  rest z = count z a + (count z b + count z c)

  ne_x : (z : ℕ) → 0 < rest z → z ≢ x
  ne_x z i e = absurd (omega (arith, i, counted z, one_self z, ap (one z) (sym e)))

  ne_y : (z : ℕ) → 0 < rest z → z ≢ y
  ne_y z i e = absurd (omega (arith, i, counted z, one_self z, ap (one z) (sym e)))

  ne_up : (z : ℕ) → 0 < rest z → z ≢ up
  ne_up z i e = absurd (omega (arith, i, up_out, ap rest e))

  ne_inner : (z : ℕ) → 0 < count z a + count z c → inner ≢ 0 → z ≢ inner
  ne_inner z i ne e =
      absurd
        (omega (arith, i, counted z, (Shape-top s inner y b below_y.0 ne).0, ap (λ w. count w b) e))

  outer_same :
      (z : ℕ) → 0 < count z a + count z c → (t.child z ≡ s.child z) × (t.parent z ≡ s.parent z)
  outer_same z i =
      let j : 0 < rest z = omega (arith, i) in
      (t-child z (ne_y z j) (ne_x z j) (ne_up z j), t-parent z (ne_x z j) (ne_y z j) (ne_inner z i))

  a-Shape : Shape t (t.child x d) x a
  a-Shape =
      subst (λ q. Shape t q x a)
        (sym (
          ap (λ (f : Side → ℕ). f d) child_x
          ∙ other_off d inner (s.child x (other (other d)))
          ∙ ap (s.child x) (other_twice d)))
        (Shape-frame s t (s.child x d) x a (λ z i. outer_same z (omega (arith, i))) below_x.0)

  b-Shape : Shape t (t.child x (other d)) x b
  b-Shape =
      subst (λ q. Shape t q x b)
        (sym (
          ap (λ (f : Side → ℕ). f (other d)) child_x
          ∙ pick_on (other d) inner (s.child x (other (other d)))))
        (Shape-moved s t inner y x b (λ z. omega (arith, counted z))
          (λ z i.
            let j : 0 < rest z = omega (arith, i) in t-child z (ne_y z j) (ne_x z j) (ne_up z j))
          (λ z i ne.
            let j : 0 < rest z = omega (arith, i) in t-parent z (ne_x z j) (ne_y z j) (λ _. ne))
          parent_inner below_y.0)

  c-Shape : Shape t (t.child y (other d)) y c
  c-Shape =
      subst (λ q. Shape t q y c)
        (sym (ap (λ (f : Side → ℕ). f (other d)) child_y ∙ pick_off d x (s.child y (other d))))
        (Shape-frame s t (s.child y (other d)) y c (λ z i. outer_same z (omega (arith, i)))
          below_y.1)

  after-Shape : Shape t y up (after d x y a b c)
  after-Shape =
      let (_, x_ne, _, _) = shape in
      let (_, y_ne0, _, _) = below_x.1 in
      (
        refl,
        y_ne0,
        parent_y,
        Shape-kids d t y (t.child y) (fork x (pick d a b)) c
            (
              ap (λ (f : Side → ℕ). f d) child_y ∙ pick_on d x (s.child y (other d)),
              x_ne,
              parent_x,
              Shape-kids d t x (t.child x) a b a-Shape b-Shape,
            )
            c-Shape,
      )

  mid-root : mid.root ≡ s.root
  mid-root = climb-root inner x (set_child (other d) x inner s)

  up-child : t.child up ≡ (replace_child x y mid).child up
  up-child =
      update_ne (replace_child x y mid).child y
        (pick d x ((replace_child x y mid).child y (other d))) up (λ e. y_up (sym e))

  up_before : mid.child up ≡ s.child up
  up_before =
      ap (λ (f : ℕ → Side → ℕ). f up) (climb-child inner x (set_child (other d) x inner s))
      ∙ update_ne s.child x (pick (other d) inner (s.child x (other (other d)))) up
          (λ e. x_up (sym e))

  root_link : s.root ≡ x → (t.root ≡ y) × (t.child up ≡ s.child up)
  root_link e =
      let (top, same) = replace_child-root x y mid (sym e ∙ sym mid-root) in
      (top, up-child ∙ ap (λ (f : ℕ → Side → ℕ). f up) same ∙ up_before)

  parent_link :
      (e : Side)
      → s.root ≢ x
      → s.child up e ≡ x
      → s.child up (other e) ≢ x
      → (t.root ≡ s.root) × (t.child up ≡ pick e y (s.child up (other e)))
  parent_link e ne this that =
      let at : (f : Side) → mid.child (mid.parent x) f ≡ s.child up f =
        λ f. ap (λ u. mid.child u f) mid_up ∙ ap (λ (g : Side → ℕ). g f) up_before in
      let (top, link) =
        replace_child-below e x y mid (λ q. ne (sym (q ∙ mid-root))) (at e ∙ this)
          (λ q. that (sym (at (other e)) ∙ q)) in
      (
        top ∙ mid-root,
        up-child
            ∙ ap (replace_child x y mid).child (sym mid_up)
            ∙ link
            ∙ ap (λ v. pick e y v) (at (other e)),
      )

  else_apart : (z : ℕ) → count z (before d x y a b c) ≡ 0 → (z ≢ x) × (z ≢ y) × (rest z ≡ 0)
  else_apart z i =
      let none_in : one z x + (count z a + (one z y + (count z b + count z c))) ≡ 0 =
        omega (arith, i, before_count d x y a b c z) in
      (
        λ e. absurd (omega (arith, none_in, one_self z, ap (one z) (sym e))),
        λ e. absurd (omega (arith, none_in, one_self z, ap (one z) (sym e))),
        omega (arith, none_in),
      )

  else_same :
      (z : ℕ)
      → count z (before d x y a b c) ≡ 0
      → (z ≢ up → t.child z ≡ s.child z) × (t.parent z ≡ s.parent z)
  else_same z i =
      let (nx, ny, absent) = else_apart z i in
      (
        λ nu. t-child z ny nx nu,
        t-parent z nx ny (λ ne e.
            absurd (
              omega
                (arith, absent, (Shape-top s inner y b below_y.0 ne).0, ap (λ w. count w b) e))),
      )

-- Below `up`, `s'` holds the turned tree where `s` held the tree, and all other links are the same.
pub record Rotated (d : Side) (s s' : RbTree) (x y up : ℕ) (a b c : Tree) : Type 0 where
  pub shape : Shape s' y up (after d x y a b c)
  pub same_order : inorder (after d x y a b c) ≡ inorder (before d x y a b c)
  pub at_root : s.root ≡ x → (s'.root ≡ y) × (s'.child up ≡ s.child up)
  pub below :
      (e : Side)
      → s.root ≢ x
      → s.child up e ≡ x
      → s.child up (other e) ≢ x
      → (s'.root ≡ s.root) × (s'.child up ≡ pick e y (s.child up (other e)))
  pub frame :
      (z : ℕ)
      → count z (before d x y a b c) ≡ 0
      → (z ≢ up → s'.child z ≡ s.child z) × (s'.parent z ≡ s.parent z)

-- On either side, a rotation of a node that has a child on the other side turns the two over, with
-- their three subtrees in the same order, whatever of these are empty; it turns the one link that led to
-- the node, be it the root of the tree or a child of the parent, and writes no other link.
pub rotate-Rotated :
    (d : Side) (s : RbTree) (x y up : ℕ) (a b c : Tree)
    → Shape s x up (before d x y a b c)
    → Distinct (before d x y a b c)
    → count up (before d x y a b c) ≡ 0
    → Rotated d s (rotate d x s) x y up a b c
rotate-Rotated d s x y up a b c shape apart out =
    subst (λ r. Rotated d s r x y up a b c) (sym (rotate-turned d s x y up a b c shape apart out))
      record {
        shape = after-Shape d s x y up a b c shape apart out;
        same_order = inorder-after d x y a b c;
        at_root = root_link d s x y up a b c shape apart out;
        below = parent_link d s x y up a b c shape apart out;
        frame = else_same d s x y up a b c shape apart out;
      }
