-- ===== src/RbTree/Color/Repaint.antt =====
-- Painting nodes that are elsewhere.
use oh_my_os.Base.{ℕ, ◌+◌, ◌<◌, ◌≡◌, ◌∙◌, sym, ap, refl, subst, arith, Bool, [], ◌∷◌}
use oh_my_os.RbTree.{Side}
use oh_my_os.RbTree.Shape.{Tree, leaf, fork, IsIn, count_self, count_kid}
use oh_my_os.RbTree.Turn.{one_self}
use oh_my_os.RbTree.Path.{Ways, count_ways}
use oh_my_os.RbTree.Color.{top_red, Colored, parent_red, ColoredWays, black_of}

module _ (red red' : ℕ → Bool) where
  pub top_red-frame :
      (t : Tree) → ((z : ℕ) → IsIn z t → red' z ≡ red z) → top_red red' t ≡ top_red red t
  top_red-frame leaf same = refl
  top_red-frame (fork x kids) same = same x (count_self x kids)

  pub Colored-frame :
      (t : Tree) (h : ℕ)
      → ((z : ℕ) → IsIn z t → red' z ≡ red z)
      → Colored red t h
      → Colored red' t h
  Colored-frame leaf h same col = col
  Colored-frame (fork x kids) h same (k, e, tops, both) =
      let here = same x (count_self x kids) in
      let inside : (d : Side) (z : ℕ) → IsIn z (kids d) → red' z ≡ red z =
        λ d z i. same z (omega (arith, i, count_kid z x kids d)) in
      (
        k,
        e ∙ ap (λ b. k + black_of b) (sym here),
        λ r d. top_red-frame (kids d) (inside d) ∙ tops (sym here ∙ r) d,
        λ d. Colored-frame (kids d) k (inside d) (both d),
      )

  pub parent_red-frame :
      (cs : Ways)
      → ((z : ℕ) → 0 < count_ways z cs → red' z ≡ red z)
      → parent_red red' cs ≡ parent_red red cs
  parent_red-frame [] same = refl
  parent_red-frame (c ∷ cs) same = same c.node (omega (arith, one_self c.node))

  pub ColoredWays-frame :
      (cs : Ways) (h : ℕ)
      → ((z : ℕ) → 0 < count_ways z cs → red' z ≡ red z)
      → ColoredWays red cs h
      → ColoredWays red' cs h
  ColoredWays-frame [] h same ways = tt
  ColoredWays-frame (c ∷ cs) h same (beside, rules, ways) =
      let here = same c.node (omega (arith, one_self c.node)) in
      let inside : (z : ℕ) → IsIn z c.sibling → red' z ≡ red z = λ z i. same z (omega (arith, i)) in
      let up : (z : ℕ) → 0 < count_ways z cs → red' z ≡ red z = λ z i. same z (omega (arith, i)) in
      (
        Colored-frame c.sibling h inside beside,
        λ r. (
          top_red-frame c.sibling inside ∙ (rules (sym here ∙ r)).0,
          parent_red-frame cs up ∙ (rules (sym here ∙ r)).1,
        ),
        subst (ColoredWays red' cs) (ap (λ b. h + black_of b) (sym here))
            (ColoredWays-frame cs (h + black_of (red c.node)) up ways),
      )
