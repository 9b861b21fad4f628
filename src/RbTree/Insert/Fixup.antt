-- ===== src/RbTree/Insert/Fixup.antt =====
-- `insert_fixup` restores the rules.
use oh_my_os.Base.{
  ℕ, suc, ◌+◌, ◌<◌, ◌≡◌, ◌≢◌, ◌⊎◌, inl, inr, ◌∙◌, sym, ap, refl, subst, arith, Bool, true, false,
  Option, some, ◌∷◌, length, ◌==◌, eq→==, ne→==, if◌then◌else◌, update, update_ne, update_self,
}
use oh_my_os.RbTree.{Side, left, right, other, pick, RbTree, set_red, set_black, is_red, rotate}
use oh_my_os.RbTree.Shape.{Tree, leaf, fork, count, IsIn, Distinct, Shape, Shape-top, top_apart}
use oh_my_os.RbTree.Turn.{one_self}
use oh_my_os.RbTree.Path.{Ways, plug, count-plug}
use oh_my_os.RbTree.Path.Turned.{SameKeys-trans, same_keys, rotate-SameKeys}
use oh_my_os.RbTree.Color.{top_red, Colored, black_of, true-false}
use oh_my_os.RbTree.Color.Repaint.{Colored-frame}
use oh_my_os.RbTree.Insert.{fix_insert, insert_fixup}
use oh_my_os.RbTree.Insert.Broken.{IsBroken, Kept, repaint-Shape, straighten}
use oh_my_os.RbTree.Insert.Broken.Settle.{settle, settle-IsBroken}
use oh_my_os.RbTree.Insert.Broken.Recolor.{recolored, recolor-set, recolor-IsBroken}

pub Kept-trans :
    (s s' s'' : RbTree) (t t' t'' : Tree) → Kept s s' t t' → Kept s' s'' t' t'' → Kept s s'' t t''
Kept-trans s s' s'' t t' t'' p q = record {
  same_order = q.same_order ∙ p.same_order;
  same_count = λ z. q.same_count z ∙ p.same_count z;
  keys = SameKeys-trans s s' s'' p.keys q.keys;
}

-- The loop ends with a tree of the same nodes in the same order in which the rules hold.
abbrev pub Repaired : RbTree → Tree → Option RbTree → Type 0
Repaired s t r =
    (s' : RbTree) × (t' : Tree) × (r ≡ some s')
    × Shape s' s'.root 0 t'
    × ((h : ℕ) × Colored s'.red t' h)
    × (top_red s'.red t' ≡ false)
    × Kept s s' t t'

Repaired-trans :
    (s s' : RbTree) (t t' : Tree) (r : Option RbTree)
    → Kept s s' t t'
    → Repaired s' t' r
    → Repaired s t r
Repaired-trans s s' t t' r k (s'', t'', e, shape, colored, top, k') =
    (s'', t'', e, shape, colored, top, Kept-trans s s' s'' t t' t'' k k')

-- The end of the loop: the root becomes black.
pub blacken :
    (s : RbTree) (t : Tree) (h : ℕ)
    → Shape s s.root 0 t
    → Distinct t
    → Colored s.red t h
    → Repaired s t (some (set_black s.root s))
unfolding set_black
blacken s leaf h e apart col = rw (eq→== s.root 0 e) (
  s,
  leaf,
  refl,
  e,
  (h, col),
  refl,
  record { same_order = refl; same_count = λ z. refl; keys = same_keys s },
)
blacken s (fork x kids) h (e, ne, link, below) apart (k, eh, tops, both) =
    let red : ℕ → Bool = update s.red x false in
    let s' : RbTree = record s { red = red } in
    let black : red x ≡ false = update_self s.red x false in
    let painted : (if s.root == 0 then s else record s { red = update s.red s.root false }) ≡ s' =
      rw (ne→== s.root 0 (λ z. ne (sym e ∙ z)))
        (ap (λ q. record s { red = update s.red q false }) e) in
    let same : (d : Side) (z : ℕ) → IsIn z (kids d) → red z ≡ s.red z = λ d z i.
      update_ne s.red x false z
        (λ q. absurd (omega (arith, i, top_apart x kids apart d, ap (λ w. count w (kids d)) q))) in
    (
      s',
      fork x kids,
      ap some painted,
      repaint-Shape s red s.root 0 (fork x kids) (e, ne, link, below),
      (
        suc k,
        (
          k,
          omega (arith, ap black_of black),
          λ r. absurd (true-false (sym r ∙ black)),
          λ d. Colored-frame s.red red (kids d) k (same d) (both d),
        ),
      ),
      black,
      record {
        same_order = refl;
        same_count = λ z. refl;
        keys = record { start = refl; end = refl; value = refl; id = refl; total = refl };
      },
    )

pub is_red-top_red :
    (s : RbTree) (q up : ℕ) (t : Tree) → Shape s q up t → is_red q s ≡ top_red s.red t
unfolding is_red
is_red-top_red s q up leaf h = rw (eq→== q 0 h) refl
is_red-top_red s q up (fork x kids) (e, ne, _, _) =
    rw (ne→== q 0 (λ z. ne (sym e ∙ z))) (ap s.red e)

-- A round of `fix_insert` by the nodes that it reads.
abbrev step : Side → ℕ → RbTree → ℕ → ℕ → ℕ → ℕ × RbTree
step d x s p g u =
    if is_red u s
    then (g, set_red g (set_black p (set_black u s)))
    else (let inner = x == s.child p (other d) in
        let n = if inner then p else x in (n, settle d n (if inner then rotate d n s else s)))

fix_insert-step :
    (d : Side) (x p g u : ℕ) (s : RbTree)
    → s.parent x ≡ p
    → s.parent p ≡ g
    → s.child g (other d) ≡ u
    → fix_insert d x s ≡ step d x s p g u
unfolding fix_insert
fix_insert-step d x p g u s ep eg eu =
    ap (λ q. step d x s q (s.parent q) (s.child (s.parent q) (other d))) ep
    ∙ ap (λ q. step d x s p q (s.child q (other d))) eg
    ∙ ap (step d x s p g) eu

-- The side of the parent that the loop finds.
pub side_found :
    (d : Side) (links : Side → ℕ) (p : ℕ)
    → links d ≡ p
    → links (other d) ≢ p
    → (if p == links left then left else right) ≡ d
side_found left links p e ne = rw (eq→== p (links left) (sym e)) refl
side_found right links p e ne = rw (ne→== p (links left) (λ q. ne (sym q))) refl

pub side_cases : (e d : Side) → (e ≡ d) ⊎ (e ≡ other d)
side_cases left left = inl refl
side_cases left right = inr refl
side_cases right left = inr refl
side_cases right right = inl refl

-- A child beside a node is another node.
pub beside_ne :
    (s : RbTree) (x : ℕ) (kids : Side → Tree) (q up : ℕ) (w : Tree)
    → Shape s q up w
    → x ≢ 0
    → count x w ≡ 0
    → q ≢ x
beside_ne s x kids q up w h ne absent e =
    absurd (omega (arith, (Shape-top s q up w h (λ z. ne (sym e ∙ z))).0, ap (λ z. count z w) e))

-- the loop once more, on the outcome of a round
abbrev pub go_on : ℕ → ℕ × RbTree → Option RbTree
go_on f (x, s) = insert_fixup f x s

abbrev pub IsRec : ℕ → Type 0
IsRec f =
    (s : RbTree) (x : ℕ) (kids : Side → Tree) (cs : Ways) (h : ℕ)
    → IsBroken s x kids cs h
    → length cs < f
    → Repaired s (plug cs (fork x kids)) (insert_fixup f x s)

module _ (f : ℕ) (rec : IsRec f) (s : RbTree) (d : Side) (g : ℕ) (cs : Ways) (h : ℕ) where
  -- The last rotation, for a red node on the outer side.
  settled :
      (n p : ℕ) (kids : Side → Tree) (w u : Tree) (s₁ : RbTree)
      → IsBroken s₁ n kids
          (record { side = d; node = p; sibling = w }
            ∷ record { side = d; node = g; sibling = u }
            ∷ cs)
          h
      → s₁.red p ≡ true
      → top_red s₁.red u ≡ false
      → length cs + 1 < f
      → Repaired s₁
          (plug
            (record { side = d; node = p; sibling = w }
              ∷ record { side = d; node = g; sibling = u }
              ∷ cs)
            (fork n kids))
          (insert_fixup f n (settle d n s₁))
  settled n p kids w u s₁ b red uncle enough =
      let (b', _, kept) = settle-IsBroken d s₁ n p g kids w u cs h b red uncle in
      let way : Ways = record { side = d; node = p; sibling = fork g (pick (other d) u w) } ∷ cs in
      Repaired-trans s₁ (settle d n s₁)
        (plug
          (record { side = d; node = p; sibling = w }
            ∷ record { side = d; node = g; sibling = u }
            ∷ cs)
          (fork n kids))
        (plug way (fork n kids)) (insert_fixup f n (settle d n s₁)) kept
        (rec (settle d n s₁) n kids way h b' (omega (arith, enough)))

  module _ (x : ℕ) (kids : Side → Tree) (p : ℕ) (w : Tree) (u : Tree) where
    abbrev ways_of : Side → Ways
    ways_of e =
        record { side = e; node = p; sibling = w } ∷ record { side = d; node = g; sibling = u } ∷ cs

    -- What the round reads.
    reads :
        (e : Side)
        → IsBroken s x kids (ways_of e) h
        → fix_insert d x s ≡ step d x s p g (s.child g (other d))
          × (is_red (s.child g (other d)) s ≡ top_red s.red u)
    reads e b =
        let (_, _, eg, _, (_, _, _, beside, _)) = b.hangs in
        let (_, _, ep, _) = b.shape in
        (
          fix_insert-step d x p g (s.child g (other d)) s ep eg refl,
          is_red-top_red s (s.child g (other d)) g u beside,
        )

    pub outer :
        IsBroken s x kids (ways_of d) h
        → s.red p ≡ true
        → top_red s.red u ≡ false
        → length cs + 1 < f
        → Repaired s (plug (ways_of d) (fork x kids)) (go_on f (fix_insert d x s))
    outer b red uncle enough =
        let (run, seen) = reads d b in
        let (_, _, _, beside, _) = b.hangs in
        let (_, x_ne, _, _) = b.shape in
        let absent : count x w ≡ 0 =
          omega (arith, b.apart x, count-plug x (ways_of d) (fork x kids), one_self x) in
        let straight : (x == s.child p (other d)) ≡ false =
          ne→== x (s.child p (other d))
            (λ q. beside_ne s x kids (s.child p (other d)) p w beside x_ne absent (sym q)) in
        subst (λ r. Repaired s (plug (ways_of d) (fork x kids)) (go_on f r)) (sym run)
          (rw (seen ∙ uncle, straight) (settled x p kids w u s b red uncle enough))

    pub inner :
        IsBroken s x kids (ways_of (other d)) h
        → s.red p ≡ true
        → top_red s.red u ≡ false
        → length cs + 1 < f
        → Repaired s (plug (ways_of (other d)) (fork x kids)) (go_on f (fix_insert d x s))
    inner b red uncle enough =
        let (run, seen) = reads (other d) b in
        let (e, _, _, _, _) = b.hangs in
        let bent : (x == s.child p (other d)) ≡ true = eq→== x (s.child p (other d)) (sym e) in
        let (b', red', kept) =
          straighten d s x p kids w (record { side = d; node = g; sibling = u } ∷ cs) h b red in
        let uncle' = ap (λ r. top_red r u) (rotate-SameKeys d p s).1 ∙ uncle in
        let new : Ways =
          record { side = d; node = x; sibling = kids (other d) }
          ∷ record { side = d; node = g; sibling = u }
          ∷ cs in
        subst (λ r. Repaired s (plug (ways_of (other d)) (fork x kids)) (go_on f r)) (sym run)
          (rw (seen ∙ uncle, bent)
            (Repaired-trans s (rotate d p s) (plug (ways_of (other d)) (fork x kids))
              (plug new (fork p (pick d w (kids d)))) (insert_fixup f p (settle d p (rotate d p s)))
              kept
              (settled p x (pick d w (kids d)) (kids (other d)) u (rotate d p s) b' red' uncle'
                enough)))

  pub painting :
      (x : ℕ) (kids : Side → Tree) (e : Side) (p : ℕ) (w : Tree) (u : ℕ) (uncles : Side → Tree)
      → IsBroken s x kids (ways_of x kids p w (fork u uncles) e) h
      → s.red p ≡ true
      → s.red u ≡ true
      → length cs < f
      → Repaired s
          (plug (ways_of x kids p w (fork u uncles) e) (fork x kids))
          (go_on f (fix_insert d x s))
  painting x kids e p w u uncles b red uncle enough =
      let (run, seen) = reads x kids p w (fork u uncles) e b in
      let (_, p_ne, _, _, (_, g_ne, _, (eu, u_ne, _, _), _)) = b.hangs in
      let s' : RbTree = record s { red = recolored u p g s.red } in
      let below = pick d (fork p (pick e (fork x kids) w)) (fork u uncles) in
      let painted : set_red g (set_black p (set_black (s.child g (other d)) s)) ≡ s' =
        ap (λ q. set_red g (set_black p (set_black q s))) eu ∙ recolor-set u p g s u_ne p_ne g_ne in
      let b' =
        recolor-IsBroken s x u kids uncles (record { side = e; node = p; sibling = w }) d g cs h b
          red uncle in
      subst (λ r. Repaired s (plug cs (fork g below)) (go_on f r)) (sym run)
        (rw (seen ∙ uncle) (
          subst (λ t. Repaired s (plug cs (fork g below)) (insert_fixup f g t)) (sym painted)
            (Repaired-trans s s' (plug cs (fork g below)) (plug cs (fork g below))
              (insert_fixup f g s')
              (record {
                same_order = refl;
                same_count = λ z. refl;
                keys = record { start = refl; end = refl; value = refl; id = refl; total = refl };
              })
              (rec s' g below cs (suc h) b' enough))))
