-- ===== src/RbTree/Insert/Broken/Recolor.antt =====
-- The round of `insert_fixup` that only paints.
use oh_my_os.Base.{
  ℕ, suc, ◌+◌, ◌<◌, ◌≤◌, ◌≡◌, ◌≢◌, ◌∙◌, sym, ap, refl, subst, arith, Bool, true, false, ◌∷◌, ne→==,
  update, update_ne, update_self,
}
use oh_my_os.RbTree.{Side, left, right, pick, RbTree, set_red, set_black}
use oh_my_os.RbTree.Shape.{Tree, fork, count, IsIn}
use oh_my_os.RbTree.Turn.{one, one_self, count-pick}
use oh_my_os.RbTree.Path.{Crumb, Ways, above, count_ways, count-plug, climb-Shape}
use oh_my_os.RbTree.Color.{top_red, Colored, ColoredWays, on_sides, black_of, true-false}
use oh_my_os.RbTree.Color.Repaint.{Colored-frame, ColoredWays-frame}
use oh_my_os.RbTree.Insert.Broken.{IsBroken, repaint-Hangs, repaint-Shape}

abbrev pub recolored : ℕ → ℕ → ℕ → (ℕ → Bool) → ℕ → Bool
recolored u p g red = update (update (update red u false) p false) g true

pub recolor-set :
    (u p g : ℕ) (s : RbTree)
    → u ≢ 0
    → p ≢ 0
    → g ≢ 0
    → set_red g (set_black p (set_black u s)) ≡ record s { red = recolored u p g s.red }
unfolding set_red set_black
recolor-set u p g s u_ne p_ne g_ne = rw (ne→== u 0 u_ne, ne→== p 0 p_ne, ne→== g 0 g_ne) refl

module _ (s : RbTree) (x u : ℕ) (kids uncles : Side → Tree) (c : Crumb) (e : Side) (g : ℕ)
    (cs : Ways) (h : ℕ)
    (b : IsBroken s x kids (c ∷ record { side = e; node = g; sibling = fork u uncles } ∷ cs) h)
    (red : s.red c.node ≡ true) (uncle : s.red u ≡ true) where
  abbrev p : ℕ
  p = c.node

  abbrev w : Tree
  w = c.sibling

  abbrev t : Tree
  t = fork x kids

  abbrev below : Side → Tree
  below = pick e (fork p (pick c.side t w)) (fork u uncles)

  counted :
      (z : ℕ)
      → count_ways z cs
          + (one z g
              + ((one z p + (count z t + count z w))
                  + (one z u + (count z (uncles left) + count z (uncles right)))))
        ≤ 1
  counted z = omega (
    arith,
    b.apart z,
    count-plug z cs (fork g below),
    count-pick z e (fork p (pick c.side t w)) (fork u uncles),
    count-pick z c.side t w,
  )

  abbrev colors : ℕ → Bool
  colors = recolored u p g s.red

  same_color :
      (z : ℕ)
      → 0
        < count_ways z cs
          + ((count z t + count z w) + (count z (uncles left) + count z (uncles right)))
      → colors z ≡ s.red z
  same_color z i =
      let ng : z ≢ g = λ q. absurd (omega (arith, i, counted z, one_self z, ap (one z) (sym q))) in
      let np : z ≢ p = λ q. absurd (omega (arith, i, counted z, one_self z, ap (one z) (sym q))) in
      let nu : z ≢ u = λ q. absurd (omega (arith, i, counted z, one_self z, ap (one z) (sym q))) in
      update_ne (update (update s.red u false) p false) g true z ng
      ∙ update_ne (update s.red u false) p false z np
      ∙ update_ne s.red u false z nu

  p_black : colors p ≡ false
  p_black =
      update_ne (update (update s.red u false) p false) g true p
        (λ q. absurd (omega (arith, counted p, one_self p, ap (one p) (sym q))))
      ∙ update_self (update s.red u false) p false

  u_black : colors u ≡ false
  u_black =
      update_ne (update (update s.red u false) p false) g true u
        (λ q. absurd (omega (arith, counted u, one_self u, ap (one u) (sym q))))
      ∙ update_ne (update s.red u false) p false u
          (λ q. absurd (omega (arith, counted u, one_self u, ap (one u) (sym q))))
      ∙ update_self s.red u false

  g_red : colors g ≡ true
  g_red = update_self (update (update s.red u false) p false) g true

  p_colored : Colored colors (fork p (pick c.side t w)) (suc h)
  p_colored =
      let (col_w, rules, _) = b.ways in
      (
        h,
        omega (arith, ap black_of p_black),
        λ r. absurd (true-false (sym r ∙ p_black)),
        on_sides colors c.side (λ v. Colored colors v h) t w
            (Colored-frame s.red colors t h (λ z i. same_color z (omega (arith, i))) b.colored)
            (Colored-frame s.red colors w h (λ z i. same_color z (omega (arith, i))) col_w),
      )

  kid_in : (d : Side) (z : ℕ) → IsIn z (uncles d) → colors z ≡ s.red z
  kid_in left z i = same_color z (omega (arith, i))
  kid_in right z i = same_color z (omega (arith, i))

  u_colored : Colored colors (fork u uncles) (suc h)
  u_colored =
      let (_, _, ((k, eh, _, both), _, _)) = b.ways in
      let hk : k ≡ h = omega (arith, eh, ap black_of red, ap black_of uncle) in
      (
        h,
        omega (arith, ap black_of u_black),
        λ r. absurd (true-false (sym r ∙ u_black)),
        λ d.
            Colored-frame s.red colors (uncles d) h (kid_in d)
              (subst (Colored s.red (uncles d)) hk (both d)),
      )

  abbrev painted : RbTree
  painted = record s { red = colors }

  -- The red parent and the red uncle become black, and the grandparent red: it is the new red node.
  pub recolor-IsBroken : IsBroken painted g below cs (suc h)
  recolor-IsBroken =
      let (_, _, _, _, hangs_p) = b.hangs in
      let (_, _, _, _, up) = hangs_p in
      let at_p =
        climb-Shape s x c (record { side = e; node = g; sibling = fork u uncles } ∷ cs) t b.hangs
          b.shape in
      let at_g =
        climb-Shape s p (record { side = e; node = g; sibling = fork u uncles }) cs
          (fork p (pick c.side t w)) hangs_p at_p in
      let (_, rules, (_, _, ways)) = b.ways in
      let g_black : s.red g ≡ false = (rules red).1 in
      let height : h + black_of (s.red p) + black_of (s.red g) ≡ suc h =
        omega (arith, ap black_of red, ap black_of g_black) in
      record {
        hangs = repaint-Hangs s colors g cs up;
        shape = repaint-Shape s colors g (above cs) (fork g below) at_g;
        apart = b.apart;
        ways =
            ColoredWays-frame s.red colors cs (suc h) (λ z i. same_color z (omega (arith, i)))
              (subst (ColoredWays s.red cs) height ways);
        colored = (
          suc h,
          omega (arith, ap black_of g_red),
          λ _.
              on_sides colors e (λ v. top_red colors v ≡ false) (fork p (pick c.side t w))
                (fork u uncles) p_black u_black,
          on_sides colors e (λ v. Colored colors v (suc h)) (fork p (pick c.side t w))
              (fork u uncles) p_colored u_colored,
        );
        is_red = g_red;
      }
