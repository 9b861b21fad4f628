-- ===== src/RbTree/Validate/Iterate.antt =====
-- `rb_tree_iterate` as a walk over the list of the nodes.
use oh_my_os.Base.{
  ℕ, zero, suc, ◌<◌, ◌≡◌, ◌∙◌, sym, ap, refl, subst, arith, Bool, true, false, not, Option, some,
  List, [], ◌∷◌, ◌++◌, ◌==◌, eq→==, ne→==, if◌then◌else◌,
}
use oh_my_os.RbTree.{left, right, RbTree}
use oh_my_os.RbTree.Shape.{Tree, leaf, fork, size, inorder, Shape}
use oh_my_os.RbTree.Validate.{tree_iterate, rb_tree_iterate}

module _ {A : Type 0} (callback : ℕ → A → ℕ × A) where
  -- The callback on each node of a list, until it does not answer 0.
  abbrev pub visit : List ℕ → A → ℕ × A
  visit [] priv = (0, priv)
  visit (x ∷ xs) priv =
      let (ret, priv') = callback x priv in if not (ret == 0) then (ret, priv') else visit xs priv'

  -- what a second list adds to the outcome of a first one
  abbrev go_on : List ℕ → ℕ × A → ℕ × A
  go_on ys (ret, priv) = if not (ret == 0) then (ret, priv) else visit ys priv

  if_again :
      (b : Bool) (r : ℕ × A) (ys : List ℕ) (v : ℕ × A)
      → (b ≡ true → go_on ys r ≡ r)
      → (if b then r else go_on ys v) ≡ go_on ys (if b then r else v)
  if_again true r ys v h = sym (h refl)
  if_again false r ys v h = refl

  visit-append : (xs ys : List ℕ) (priv : A) → visit (xs ++ ys) priv ≡ go_on ys (visit xs priv)
  visit-append [] ys priv = refl
  visit-append (x ∷ xs) ys priv =
      let (ret, priv') = callback x priv in
      ap (λ v. if not (ret == 0) then (ret, priv') else v) (visit-append xs ys priv')
      ∙ if_again (not (ret == 0)) (ret, priv') ys (visit xs priv') (λ e. rw e refl)

  some_if :
      (b : Bool) (u v : ℕ × A) (w : Option (ℕ × A))
      → w ≡ some v
      → (if b then some u else w) ≡ some (if b then u else v)
  some_if true u v w h = refl
  some_if false u v w h = h

  tree_iterate-visit :
      (fuel : ℕ) (s : RbTree) (p up : ℕ) (t : Tree) (priv : A)
      → Shape s p up t
      → size t < fuel
      → tree_iterate fuel s callback p priv ≡ some (visit (inorder t) priv)
  unfolding tree_iterate
  tree_iterate-visit zero s p up t priv shape enough = absurd (omega (arith, enough))
  tree_iterate-visit (suc f) s p up leaf priv shape enough = rw (eq→== p 0 shape, tree_iterate) refl
  tree_iterate-visit (suc f) s p up (fork x kids) priv (e, ne, _, below) enough =
      let (ret, priv₁) = visit (inorder (kids left)) priv in
      let (ret₂, priv₂) = callback x priv₁ in
      subst
        (λ q. tree_iterate (suc f) s callback q priv ≡ some (visit (inorder (fork x kids)) priv))
        (sym e)
        (rw
          (
            ne→== x 0 ne,
            tree_iterate-visit f s (s.child x left) x (kids left) priv (below left)
                (omega (arith, enough)),
            tree_iterate,
          )
          (some_if (not (ret == 0)) (ret, priv₁) (visit (x ∷ inorder (kids right)) priv₁)
              (if not (ret₂ == 0)
                then some (ret₂, priv₂)
                else tree_iterate f s callback (s.child x right) priv₂)
              (some_if (not (ret₂ == 0)) (ret₂, priv₂) (visit (inorder (kids right)) priv₂)
                (tree_iterate f s callback (s.child x right) priv₂)
                (tree_iterate-visit f s (s.child x right) x (kids right) priv₂ (below right)
                  (omega (arith, enough))))
            ∙ ap some (sym (visit-append (inorder (kids left)) (x ∷ inorder (kids right)) priv))))

-- Where the links hold a tree, with fuel above its number of nodes, `rb_tree_iterate` calls the callback
-- on the nodes in order, from the left to the right, until one call does not answer 0, and answers what
-- the last call did, or 0 for the empty tree.
pub rb_tree_iterate-visit :
    {A : Type 0} (callback : ℕ → A → ℕ × A) (fuel : ℕ) (s : RbTree) (t : Tree) (priv : A)
    → Shape s s.root 0 t
    → size t < fuel
    → rb_tree_iterate fuel s callback priv ≡ some (visit callback (inorder t) priv)
unfolding rb_tree_iterate
rb_tree_iterate-visit callback fuel s t priv shape enough =
    tree_iterate-visit callback fuel s s.root 0 t priv shape enough
