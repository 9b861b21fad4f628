-- ===== src/RbTree/Color.antt =====
-- The rules of the colours, on a tree and on the way to a place in it.
pub mod Repaint
use oh_my_os.Base.{
  ℕ, suc, ◌+◌, ◌<◌, ◌≤◌, ◌≡◌, ◌≢◌, ◌∙◌, sym, ap, refl, subst, arith, Bool, true, false, inl, inr,
  Bool-cases, List, [], ◌∷◌, ◌==◌, eq→==, if◌then◌else◌,
}
use oh_my_os.RbTree.{Side, left, right, other, pick}
use oh_my_os.RbTree.Shape.{Tree, leaf, fork, count, IsIn, count_self, count_kid}
use oh_my_os.RbTree.Turn.{one_self}
use oh_my_os.RbTree.Path.{Crumb, Ways, plug, count_ways}

pub true-false : true ≢ false
true-false e = cc

-- the black nodes that one node adds to its ways
abbrev pub black_of : Bool → ℕ
black_of b = if b then 0 else 1

module _ (red : ℕ → Bool) where
  abbrev pub top_red : Tree → Bool
  top_red leaf = false
  top_red (fork x kids) = red x

  -- No red node has a red child, and all ways down pass `h` black nodes.
  abbrev pub Colored : Tree → ℕ → Type 0
  Colored leaf h = h ≡ 0
  Colored (fork x kids) h =
      (k : ℕ) × (h ≡ k + black_of (red x))
      × (red x ≡ true → (d : Side) → top_red (kids d) ≡ false)
      × ((d : Side) → Colored (kids d) k)

  -- The root has no red parent: what is above it counts as red, which makes it black.
  abbrev pub parent_red : Ways → Bool
  parent_red [] = true
  parent_red (c ∷ cs) = red c.node

  -- The rules around a place for a tree of `h` black nodes, but for its own top and the node above it.
  abbrev pub ColoredWays : Ways → ℕ → Type 0
  ColoredWays [] h = Unit
  ColoredWays (c ∷ cs) h =
      Colored c.sibling h
      × (red c.node ≡ true → (top_red c.sibling ≡ false) × (parent_red cs ≡ false))
      × ColoredWays cs (h + black_of (red c.node))

  pub on_sides :
      (d : Side) (P : Tree → Type 0) (t u : Tree) → P t → P u → (e : Side) → P (pick d t u e)
  on_sides left P t u p q left = p
  on_sides left P t u p q right = q
  on_sides right P t u p q left = q
  on_sides right P t u p q right = p

  of_sides :
      (d : Side) (P : Tree → Type 0) (t u : Tree) → ((e : Side) → P (pick d t u e)) → P t × P u
  of_sides left P t u h = (h left, h right)
  of_sides right P t u h = (h right, h left)

  not_both : (a b : Bool) → (a ≡ true → b ≡ false) → b ≡ true → a ≡ false
  not_both true b h e = cc (h refl)
  not_both false b h e = refl

  -- A tree in its place, where the rules hold at its top, too.
  pub plug-Colored :
      (cs : Ways) (t : Tree) (h : ℕ)
      → ColoredWays cs h
      → Colored t h
      → (parent_red cs ≡ true → top_red t ≡ false)
      → ((k : ℕ) × Colored (plug cs t) k) × (top_red (plug cs t) ≡ false)
  plug-Colored [] t h ways col top = ((h, col), top refl)
  plug-Colored (c ∷ cs) t h (beside, rules, ways) col top =
      plug-Colored cs (fork c.node (pick c.side t c.sibling)) (h + black_of (red c.node)) ways
        (
          h,
          refl,
          λ e. on_sides c.side (λ u. top_red u ≡ false) t c.sibling (top e) (rules e).0,
          on_sides c.side (λ u. Colored u h) t c.sibling col beside,
        )
        (not_both (red c.node) (parent_red cs) (λ e. (rules e).1))

  -- The colours around a place of a coloured tree.
  pub focus-Colored :
      (cs : Ways) (t : Tree) (k : ℕ)
      → Colored (plug cs t) k
      → top_red (plug cs t) ≡ false
      → (h : ℕ) × ColoredWays cs h × Colored t h × (parent_red cs ≡ true → top_red t ≡ false)
  focus-Colored [] t k col top = (k, tt, col, λ _. top)
  focus-Colored (c ∷ cs) t k col top =
      let (h, ways, (j, e, tops, both), up) =
        focus-Colored cs (fork c.node (pick c.side t c.sibling)) k col top in
      let (this, beside) = of_sides c.side (λ u. Colored u j) t c.sibling both in
      (
        j,
        (
          beside,
          λ r. (
            (of_sides c.side (λ u. top_red u ≡ false) t c.sibling (tops r)).1,
            not_both (parent_red cs) (red c.node) up r,
          ),
          subst (ColoredWays cs) e ways,
        ),
        this,
        λ r. (of_sides c.side (λ u. top_red u ≡ false) t c.sibling (tops r)).0,
      )
