-- ===== src/RbTree/Insert/Broken/Settle.antt =====
-- The last rotation of `insert_fixup`.
use oh_my_os.Base.{
  ℕ, ◌+◌, ◌<◌, ◌≤◌, ◌≡◌, ◌≢◌, ◌∙◌, sym, ap, refl, subst, arith, Bool, true, false, ◌∷◌, ne→==,
  update, update_ne, update_self,
}
use oh_my_os.RbTree.{Side, other, pick, RbTree, rotate, set_red, set_black}
use oh_my_os.RbTree.Shape.{Tree, fork, count, Distinct, Shape}
use oh_my_os.RbTree.Turn.{one, one_self, before, after, kids-Shape, count-pick, other_twice}
use oh_my_os.RbTree.Path.{Ways, plug, above, count_ways, count-plug, Hangs, climb-Shape}
use oh_my_os.RbTree.Path.Turned.{rotate-Hangs, SameKeys, rotate-SameKeys}
use oh_my_os.RbTree.Color.{top_red, Colored, ColoredWays, on_sides, black_of, true-false}
use oh_my_os.RbTree.Color.Repaint.{top_red-frame, Colored-frame, ColoredWays-frame}
use oh_my_os.RbTree.Insert.Broken.{
  IsBroken, Kept, repaint-Hangs, repaint-Shape, pick-other, after-Kept,
}

abbrev settled_red : ℕ → ℕ → (ℕ → Bool) → ℕ → Bool
settled_red p g red = update (update red p false) g true

-- the end of a round of `fix_insert`
abbrev pub settle : Side → ℕ → RbTree → RbTree
settle d node s =
    let s₂ = set_black (s.parent node) s in
    let s₃ = set_red (s₂.parent (s₂.parent node)) s₂ in
    rotate (other d) (s₃.parent (s₃.parent node)) s₃

settle-rotate :
    (d : Side) (n p g : ℕ) (s : RbTree)
    → s.parent n ≡ p
    → s.parent p ≡ g
    → p ≢ 0
    → g ≢ 0
    → settle d n s ≡ rotate (other d) g (record s { red = settled_red p g s.red })
unfolding set_red set_black
settle-rotate d n p g s ep eg p_ne g_ne =
    let s₂ : RbTree = record s { red = update s.red p false } in
    let s₃ : RbTree = record s { red = settled_red p g s.red } in
    let black : set_black (s.parent n) s ≡ s₂ =
      ap (λ q. set_black q s) ep ∙ rw (ne→== p 0 p_ne) refl in
    let up : s.parent (s.parent n) ≡ g = ap s.parent ep ∙ eg in
    let reds : set_red (s.parent (s.parent n)) s₂ ≡ s₃ =
      ap (λ q. set_red q s₂) up ∙ rw (ne→== g 0 g_ne) refl in
    ap
      (λ (t : RbTree).
        rotate (other d)
          ((set_red (t.parent (t.parent n)) t).parent
            ((set_red (t.parent (t.parent n)) t).parent n))
          (set_red (t.parent (t.parent n)) t))
      black
    ∙ ap (λ (t : RbTree). rotate (other d) (t.parent (t.parent n)) t) reds
    ∙ ap (λ q. rotate (other d) q s₃) up

module _ (d : Side) (s : RbTree) (n p g : ℕ) (kids : Side → Tree) (w u : Tree) (cs : Ways) (h : ℕ)
    (b : IsBroken s n kids
      (record { side = d; node = p; sibling = w } ∷ record { side = d; node = g; sibling = u } ∷ cs)
      h)
    (red : s.red p ≡ true) (uncle : top_red s.red u ≡ false) where
  abbrev t : Tree
  t = fork n kids

  abbrev old : Tree
  old =
      plug
        (record { side = d; node = p; sibling = w }
          ∷ record { side = d; node = g; sibling = u }
          ∷ cs)
        t

  abbrev way : Ways
  way = record { side = d; node = p; sibling = fork g (pick (other d) u w) } ∷ cs

  same : fork g (pick d (fork p (pick d t w)) u) ≡ before (other d) g p u w t
  same = ap (fork g) (
      sym (pick-other d u (fork p (pick d t w)))
      ∙ ap (λ k. pick (other d) u (fork p k)) (sym (pick-other d w t)))

  counted :
      (z : ℕ) → count_ways z cs + (one z g + (count z u + (one z p + (count z w + count z t)))) ≤ 1
  counted z = omega (
    arith,
    b.apart z,
    count-plug z cs (fork g (pick d (fork p (pick d t w)) u)),
    count-pick z d (fork p (pick d t w)) u,
    count-pick z d t w,
  )

  abbrev colors : ℕ → Bool
  colors = settled_red p g s.red

  same_color :
      (z : ℕ) → 0 < count_ways z cs + (count z u + (count z w + count z t)) → colors z ≡ s.red z
  same_color z i =
      let ng : z ≢ g = λ e. absurd (omega (arith, i, counted z, one_self z, ap (one z) (sym e))) in
      let np : z ≢ p = λ e. absurd (omega (arith, i, counted z, one_self z, ap (one z) (sym e))) in
      update_ne (update s.red p false) g true z ng ∙ update_ne s.red p false z np

  p_ne_g : p ≢ g
  p_ne_g e = absurd (omega (arith, counted p, one_self p, ap (one p) (sym e)))

  p_black : colors p ≡ false
  p_black = update_ne (update s.red p false) g true p p_ne_g ∙ update_self s.red p false

  g_red : colors g ≡ true
  g_red = update_self (update s.red p false) g true

  new_ways : ColoredWays colors way h
  new_ways =
      let (col_w, rules_p, (col_u, rules_g, ways)) = b.ways in
      let g_black : s.red g ≡ false = (rules_p red).1 in
      let height : h + black_of (s.red p) + black_of (s.red g) ≡ h + black_of (colors p) =
        omega (arith, ap black_of red, ap black_of g_black, ap black_of p_black) in
      let level : h + black_of (s.red p) ≡ h = omega (arith, ap black_of red) in
      (
        (
          h,
          omega (arith, ap black_of g_red),
          λ _.
              on_sides colors (other d) (λ v. top_red colors v ≡ false) u w
                (top_red-frame s.red colors u (λ z i. same_color z (omega (arith, i))) ∙ uncle)
                (top_red-frame s.red colors w (λ z i. same_color z (omega (arith, i)))
                  ∙ (rules_p red).0),
          on_sides colors (other d) (λ v. Colored colors v h) u w
              (Colored-frame s.red colors u h (λ z i. same_color z (omega (arith, i)))
                (subst (Colored s.red u) level col_u))
              (Colored-frame s.red colors w h (λ z i. same_color z (omega (arith, i))) col_w),
        ),
        λ r. absurd (true-false (sym r ∙ p_black)),
        subst (ColoredWays colors cs) height (
            ColoredWays-frame s.red colors cs (h + black_of (s.red p) + black_of (s.red g))
              (λ z i. same_color z (omega (arith, i))) ways),
      )

  abbrev painted : RbTree
  painted = record s { red = colors }

  abbrev r : RbTree
  r = rotate (other d) g painted

  turned_over : Hangs r p cs × Shape r p (above cs) (after (other d) g p u w t)
  turned_over =
      let (_, _, _, _, hangs_p) = b.hangs in
      let (_, _, _, _, up) = hangs_p in
      let at_p =
        climb-Shape s n (record { side = d; node = p; sibling = w })
          (record { side = d; node = g; sibling = u } ∷ cs) t b.hangs b.shape in
      let at_g =
        climb-Shape s p (record { side = d; node = g; sibling = u }) cs (fork p (pick d t w))
          hangs_p at_p in
      rotate-Hangs (other d) painted g p u w t cs (repaint-Hangs s colors g cs up)
        (repaint-Shape s colors g (above cs) (before (other d) g p u w t)
          (subst (Shape s g (above cs)) same at_g))
        (subst (λ v. Distinct (plug cs v)) same b.apart)

  r-settle : settle d n s ≡ r
  r-settle =
      let (_, p_ne, eg, _, (_, g_ne, _, _, _)) = b.hangs in
      let (_, _, ep, _) = b.shape in settle-rotate d n p g s ep eg p_ne g_ne

  r-color : r.red ≡ colors
  r-color = (rotate-SameKeys (other d) g painted).1

  r-Kept : Kept s r old (plug way t)
  r-Kept =
      let keys = (rotate-SameKeys (other d) g painted).0 in
      let keys' : SameKeys s r = record {
        start = keys.start;
        end = keys.end;
        value = keys.value;
        id = keys.id;
        total = keys.total;
      } in
      subst (λ v. Kept s r (plug cs v) (plug way t)) (sym same)
        (subst (λ v. Kept s r (plug cs (before (other d) g p u w t)) (plug cs (fork p v)))
          (pick-other d (fork g (pick (other d) u w)) t)
          (after-Kept (other d) s r g p u w t cs keys'))

  r-IsBroken : IsBroken r n kids way h
  r-IsBroken =
      let (top, (_, p_ne, link, below)) = turned_over in
      let (beside, this) =
        kids-Shape (other d) r p (r.child p) (fork g (pick (other d) u w)) t below in
      let (e, n_ne, n_link, n_below) =
        subst (λ f. Shape r (r.child p f) p t) (other_twice d) this in
      record {
        hangs = (e, p_ne, link, beside, top);
        shape = (refl, n_ne, n_link, n_below);
        apart = λ z. omega (arith, r-Kept.same_count z, b.apart z);
        ways = subst (λ c. ColoredWays c way h) (sym r-color) new_ways;
        colored =
            subst (λ c. Colored c t h) (sym r-color)
              (Colored-frame s.red colors t h (λ z i. same_color z (omega (arith, i))) b.colored);
        is_red =
            ap (λ (c : ℕ → Bool). c n) r-color
            ∙ same_color n (omega (arith, one_self n))
            ∙ b.is_red;
      }

  -- The red parent of the red node becomes black, on top of its own parent, which becomes red.
  pub settle-IsBroken :
      IsBroken (settle d n s) n kids way h
      × ((settle d n s).red p ≡ false)
      × Kept s (settle d n s) old (plug way t)
  settle-IsBroken =
      subst (λ q. IsBroken q n kids way h × (q.red p ≡ false) × Kept s q old (plug way t))
        (sym r-settle) (r-IsBroken, ap (λ (c : ℕ → Bool). c p) r-color ∙ p_black, r-Kept)
