-- ===== src/RbTree/Validate/RedBlack.antt =====
-- What `rb_tree_validate` checks.
use oh_my_os.Base.{
  ℕ, zero, suc, ◌+◌, ◌<◌, ◌≡◌, ◌≢◌, ◌⊎◌, ◌↔◌, inl, inr, ◌∙◌, sym, refl, subst, arith, Bool, true,
  false, Bool-cases, not, ◌&&◌, ◌||◌, Option, none, some, ltb, ltb→lt, lt→ltb, ◌==◌, eq→==, ne→==,
  if◌then◌else◌,
}
use oh_my_os.RbTree.{Side, left, right, RbTree, is_red, is_black}
use oh_my_os.RbTree.Shape.{Tree, leaf, fork, size, Shape, Shape-top}
use native.Mathlib.Decide.{ℕ_discrete}
use oh_my_os.RbTree.Validate.{node_validate, tree_validate, rb_tree_validate}

abbrev black_one : ℕ → RbTree → ℕ
black_one x s = if is_black x s then 1 else 0

-- The range of a node is apart from those of its children, and a red node has no red child.
pub record IsSound (s : RbTree) (x : ℕ) : Type 0 where
  pub lower : s.child x left ≢ 0 → s.end (s.child x left) < s.start x
  pub upper : s.child x right ≢ 0 → s.end x < s.start (s.child x right)
  pub red_left : is_red x s ≡ true → is_red (s.child x left) s ≡ false
  pub red_right : is_red x s ≡ true → is_red (s.child x right) s ≡ false

-- Every node is sound, and all ways down pass `h` black nodes.
abbrev pub IsRedBlack : RbTree → Tree → ℕ → Type 0
IsRedBlack s leaf h = h ≡ 0
IsRedBlack s (fork x kids) h =
    IsSound s x × ((k : ℕ) × (h ≡ k + black_one x s) × ((d : Side) → IsRedBlack s (kids d) k))

black_height_unique :
    (s : RbTree) (t : Tree) (h k : ℕ) → IsRedBlack s t h → IsRedBlack s t k → h ≡ k
black_height_unique s leaf h k p q = p ∙ sym q
black_height_unique s (fork x kids) h k (_, (m, eh, p)) (_, (n, ek, q)) =
    omega (arith, eh, ek, black_height_unique s (kids left) m n (p left) (q left))

and_true : (b c : Bool) → (b && c) ≡ true → (b ≡ true) × (c ≡ true)
and_true true c e = (refl, e)
and_true false c e = cc

all_true : (b c d : Bool) → b ≡ true → c ≡ true → d ≡ true → ((b && c) && d) ≡ true
all_true b c d p q r = rw (p, q, r) refl

-- the test of a child: either it is not there or both conditions hold
child_test :
    (p x a b : ℕ) (up : ℕ)
    → (p ≢ 0 → up ≡ x)
    → ((p == 0) || (ltb a b && up == x)) ≡ true ↔ (p ≢ 0 → a < b)
child_test p x a b up link = elim (ℕ_discrete p 0) [
  | yes e ↦ rw (eq→== p 0 e) (λ h ne. absurd (ne e), λ h. refl)
  | no ne ↦
      rw (ne→== p 0 ne, eq→== up x (link ne))
        (λ h _. ltb→lt a b (and_true (ltb a b) true h).0, λ h. rw (lt→ltb a b (h ne)) refl)
]

red_test :
    (r l m : Bool)
    → (not (r && l) && not (r && m)) ≡ true ↔ ((r ≡ true → l ≡ false) × (r ≡ true → m ≡ false))
red_test true true m = (λ h. cc, λ (p, q). sym (p refl))
red_test true false true = (λ h. cc, λ (p, q). sym (q refl))
red_test true false false = (λ h. (λ _. refl, λ _. refl), λ _. refl)
red_test false l m = (λ h. (λ e. cc, λ e. cc), λ _. refl)

-- On a node of a tree the assertions of `node_validate` are those of a sound node.
node_validate-IsSound :
    (s : RbTree) (p up x : ℕ) (kids : Side → Tree)
    → Shape s p up (fork x kids)
    → node_validate x s ≡ true ↔ IsSound s x
unfolding node_validate
node_validate-IsSound s p up x kids (_, ne, _, below) =
    let l = s.child x left in
    let r = s.child x right in
    let lower =
      child_test l x (s.end l) (s.start x) (s.parent l)
        (λ n. (Shape-top s l x (kids left) (below left) n).1) in
    let upper =
      child_test r x (s.end x) (s.start r) (s.parent r)
        (λ n. (Shape-top s r x (kids right) (below right) n).1) in
    let reds = red_test (is_red x s) (is_red l s) (is_red r s) in
    let test_l = (l == 0) || (ltb (s.end l) (s.start x) && s.parent l == x) in
    let test_r = (r == 0) || (ltb (s.end x) (s.start r) && s.parent r == x) in
    let test_c = not (is_red x s && is_red l s) && not (is_red x s && is_red r s) in
    rw (ne→== x 0 ne) (
      λ h.
          let (hlr, hc) = and_true (test_l && test_r) test_c h in
          let (hl, hr) = and_true test_l test_r hlr in
          let (cl, cr) = reds.0 hc in
          record { lower = lower.0 hl; upper = upper.0 hr; red_left = cl; red_right = cr },
      λ h.
          all_true test_l test_r test_c (lower.1 h.lower) (upper.1 h.upper)
            (reds.1 (h.red_left, h.red_right)),
    )

-- The outcome of `tree_validate`: the common number of black nodes of a red-black tree, or an error.
abbrev Verdict : RbTree → Tree → Option (Option ℕ × ℕ) → Type 0
Verdict s t r =
    ((h : ℕ) × (r ≡ some (some h, 0)) × IsRedBlack s t h)
    ⊎ (((h : ℕ) → ¬ IsRedBlack s t h) × ((r ≡ none) ⊎ ((n : ℕ) × (r ≡ some (none, n)))))

true-false : true ≢ false
true-false e = cc

two_sides :
    (s : RbTree) (kids : Side → Tree) (k : ℕ)
    → IsRedBlack s (kids left) k
    → IsRedBlack s (kids right) k
    → (d : Side) → IsRedBlack s (kids d) k
two_sides s kids k p q left = p
two_sides s kids k p q right = q

-- two children that are red-black trees
both_heights :
    (s : RbTree) (x : ℕ) (kids : Side → Tree) (l r : ℕ)
    → IsSound s x
    → IsRedBlack s (kids left) l
    → IsRedBlack s (kids right) r
    → Verdict s
        (fork x kids)
        (if l == r then some (some (l + black_one x s), 0) else some (none, x))
both_heights s x kids l r own hl hr = elim (ℕ_discrete l r) [
  | yes e ↦ rw (eq→== l r e) (
      inl (
        l + black_one x s,
        refl,
        (own, (l, refl, two_sides s kids l hl (subst (IsRedBlack s (kids right)) (sym e) hr))),
      ))
  | no ne ↦ rw (ne→== l r ne) (
      inr (
        λ h (_, (k, _, both)). ne (
            black_height_unique s (kids left) l k hl (both left)
            ∙ sym (black_height_unique s (kids right) r k hr (both right))),
        inr (x, refl),
      ))
]

tree_validate-Verdict :
    (fuel : ℕ) (s : RbTree) (p up : ℕ) (t : Tree)
    → Shape s p up t
    → size t < fuel
    → Verdict s t (tree_validate fuel s p 0)
unfolding tree_validate
tree_validate-Verdict zero s p up t shape enough = absurd (omega (arith, enough))
tree_validate-Verdict (suc f) s p up leaf shape enough =
    rw (eq→== p 0 shape, tree_validate) (inl (0, refl, refl))
tree_validate-Verdict (suc f) s p up (fork x kids) (e, ne, link, below) enough =
    let sound = node_validate-IsSound s p up x kids (e, ne, link, below) in
    subst (λ q. Verdict s (fork x kids) (tree_validate (suc f) s q 0)) (sym e)
      (rw (ne→== x 0 ne, tree_validate)
        (elim (Bool-cases (node_validate x s)) [
          | inr bad ↦
              rw (bad, tree_validate)
                (inr (λ h (own, _). true-false (sym (sound.1 own) ∙ bad), inl refl))
          | inl ok ↦
              rw (ok, tree_validate)
                (elim (tree_validate-Verdict f s (s.child x left) x (kids left) (below left)
                  (omega (arith, enough))) [
                    | inr (wrong, inl r) ↦
                        rw (r, tree_validate)
                          (inr (λ h (_, (k, _, both)). wrong k (both left), inl refl))
                    | inr (wrong, inr (n, r)) ↦
                        rw (r, tree_validate)
                          (inr (λ h (_, (k, _, both)). wrong k (both left), inr (n, refl)))
                    | inl (l, rl, hl) ↦
                        rw (rl, tree_validate)
                          (elim (tree_validate-Verdict f s (s.child x right) x (kids right)
                            (below right) (omega (arith, enough))) [
                              | inr (wrong, inl r) ↦
                                  rw (r, tree_validate)
                                    (inr (λ h (_, (k, _, both)). wrong k (both right), inl refl))
                              | inr (wrong, inr (n, r)) ↦
                                  rw (r, tree_validate)
                                    (inr
                                      (λ h (_, (k, _, both)). wrong k (both right), inr (n, refl)))
                              | inl (r, rr, hr) ↦
                                  rw (rr, tree_validate)
                                    (both_heights s x kids l r (sound.0 ok) hl hr)
                            ])
                  ])
        ]))

empty_tree :
    (s : RbTree) (t : Tree) (p up : ℕ) → Shape s p up t → p ≡ 0 → (h : ℕ) × IsRedBlack s t h
empty_tree s leaf p up shape e = (0, refl)
empty_tree s (fork x kids) p up (same, ne, _, _) e = absurd (ne (sym same ∙ e))

-- With fuel above the number of nodes, `rb_tree_validate` passes its assertions exactly where the root is
-- black, each node's range is apart from those of its children and on the right side of them, no red
-- node has a red child, and all ways down pass the same number of black nodes.
pub rb_tree_validate_iff :
    (fuel : ℕ) (s : RbTree) (t : Tree)
    → Shape s s.root 0 t
    → size t < fuel
    → rb_tree_validate fuel s ≡ true
      ↔ ((s.root ≢ 0 → is_black s.root s ≡ true) × ((h : ℕ) × IsRedBlack s t h))
unfolding rb_tree_validate
rb_tree_validate_iff fuel s t shape enough = elim (ℕ_discrete s.root 0) [
  | yes e ↦
      rw (eq→== s.root 0 e, rb_tree_validate)
        (λ _. (λ ne. absurd (ne e), empty_tree s t s.root 0 shape e), λ _. refl)
  | no ne ↦
      rw (ne→== s.root 0 ne, rb_tree_validate)
        (elim (Bool-cases (is_black s.root s)) [
          | inr red ↦
              rw (red, rb_tree_validate)
                (λ h. cc, λ (black, _). absurd (true-false (sym (black ne))))
          | inl black ↦
              rw (black, rb_tree_validate)
                (elim (tree_validate-Verdict fuel s s.root 0 t shape enough) [
                  | inl (h, r, good) ↦
                      rw (r, rb_tree_validate) (λ _. (λ _. refl, (h, good)), λ _. refl)
                  | inr (wrong, inl r) ↦
                      rw (r, rb_tree_validate) (λ h. cc, λ (_, (h, good)). absurd (wrong h good))
                  | inr (wrong, inr (n, r)) ↦
                      rw (r, rb_tree_validate) (λ h. cc, λ (_, (h, good)). absurd (wrong h good))
                ])
        ])
]
