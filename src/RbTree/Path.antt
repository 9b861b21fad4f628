-- ===== src/RbTree/Path.antt =====
-- A place in a tree: a subtree and the way from it up to the root.
pub mod Turned
use oh_my_os.Base.{
  ℕ, suc, ◌+◌, ◌<◌, ◌≤◌, ◌≡◌, ◌≢◌, ◌∙◌, sym, ap, refl, subst, arith, true, List, [], ◌∷◌, ◌++◌,
  ◌==◌, eq→==, if◌then◌else◌,
}
use oh_my_os.RbTree.{Side, left, right, other, pick, RbTree}
use oh_my_os.RbTree.Shape.{
  Tree, leaf, fork, count, IsIn, size, inorder, Distinct, Shape, Shape-frame,
}
use oh_my_os.RbTree.Turn.{one, one_self, count-pick, pick_on, pick_off, kids-Shape, Shape-kids}

-- One node of a way up: the way comes from its child on `side`, and the other child holds `sibling`.
pub record Crumb : Type 0 where
  pub side : Side
  pub node : ℕ
  pub sibling : Tree

-- the way up, the parent first
abbrev pub Ways : Type 0
Ways = List Crumb

abbrev pub plug : Ways → Tree → Tree
plug [] t = t
plug (c ∷ cs) t = plug cs (fork c.node (pick c.side t c.sibling))

abbrev pub above : Ways → ℕ
above [] = 0
above (c ∷ cs) = c.node

abbrev pub count_ways : ℕ → Ways → ℕ
count_ways z [] = 0
count_ways z (c ∷ cs) = (one z c.node + count z c.sibling) + count_ways z cs

pub count-plug : (z : ℕ) (cs : Ways) (t : Tree) → count z (plug cs t) ≡ count_ways z cs + count z t
count-plug z [] t = omega arith
count-plug z (c ∷ cs) t = omega (
  arith,
  count-plug z cs (fork c.node (pick c.side t c.sibling)),
  count-pick z c.side t c.sibling,
)

-- The links lead up from `p` along the way to the root, and hold its siblings.
abbrev pub Hangs : RbTree → ℕ → Ways → Type 0
Hangs s p [] = s.root ≡ p
Hangs s p (c ∷ cs) =
    (s.child c.node c.side ≡ p)
    × (c.node ≢ 0)
    × (s.parent c.node ≡ above cs)
    × Shape s (s.child c.node (other c.side)) c.node c.sibling
    × Hangs s c.node cs

-- A step up, and down.
pub climb-Shape :
    (s : RbTree) (p : ℕ) (c : Crumb) (cs : Ways) (t : Tree)
    → Hangs s p (c ∷ cs)
    → Shape s p c.node t
    → Shape s c.node (above cs) (fork c.node (pick c.side t c.sibling))
climb-Shape s p c cs t (e, ne, link, beside, _) h =
    (refl, ne, link, Shape-kids c.side s c.node (s.child c.node) t c.sibling (rw e h) beside)

pub plug-Shape :
    (s : RbTree) (p : ℕ) (cs : Ways) (t : Tree)
    → Hangs s p cs
    → Shape s p (above cs) t
    → Shape s s.root 0 (plug cs t)
plug-Shape s p [] t e h = rw e h
plug-Shape s p (c ∷ cs) t hangs h =
    let (_, _, _, _, up) = hangs in
    plug-Shape s c.node cs (fork c.node (pick c.side t c.sibling)) up
      (climb-Shape s p c cs t hangs h)

pub plug-focus :
    (s : RbTree) (cs : Ways) (t : Tree)
    → Shape s s.root 0 (plug cs t)
    → (p : ℕ) × Hangs s p cs × Shape s p (above cs) t
plug-focus s [] t h = (s.root, refl, h)
plug-focus s (c ∷ cs) t h =
    let (q, up, (e, ne, link, below)) = plug-focus s cs (fork c.node (pick c.side t c.sibling)) h in
    let (this, beside) = kids-Shape c.side s c.node (s.child c.node) t c.sibling below in
    (s.child c.node c.side, (refl, ne, link, beside, subst (λ v. Hangs s v cs) e up), this)

-- Links that change elsewhere leave the way.
pub Hangs-frame :
    (s s' : RbTree) (p : ℕ) (cs : Ways)
    → s'.root ≡ s.root
    → ((z : ℕ) → 0 < count_ways z cs → (s'.child z ≡ s.child z) × (s'.parent z ≡ s.parent z))
    → Hangs s p cs
    → Hangs s' p cs
Hangs-frame s s' p [] top same h = top ∙ h
Hangs-frame s s' p (c ∷ cs) top same (e, ne, link, beside, up) =
    let here : 0 < count_ways c.node (c ∷ cs) = omega (arith, one_self c.node) in
    let (ec, ep) = same c.node here in
    (
      ap (λ (f : Side → ℕ). f c.side) ec ∙ e,
      ne,
      ep ∙ link,
      rw (ap (λ (f : Side → ℕ). f (other c.side)) ec) (
          Shape-frame s s' (s.child c.node (other c.side)) c.node c.sibling
            (λ z i. same z (omega (arith, i))) beside),
      Hangs-frame s s' c.node cs top (λ z i. same z (omega (arith, i))) up,
    )

inorder-pick :
    (d : Side) (y : ℕ) (t u v : Tree)
    → inorder t ≡ inorder u
    → inorder (fork y (pick d t v)) ≡ inorder (fork y (pick d u v))
inorder-pick left y t u v e = ap (λ xs. xs ++ (y ∷ inorder v)) e
inorder-pick right y t u v e = ap (λ xs. inorder v ++ (y ∷ xs)) e

-- What the order of the whole is depends on that of the part.
pub inorder-plug :
    (cs : Ways) (t u : Tree) → inorder t ≡ inorder u → inorder (plug cs t) ≡ inorder (plug cs u)
inorder-plug [] t u e = e
inorder-plug (c ∷ cs) t u e =
    inorder-plug cs (fork c.node (pick c.side t c.sibling)) (fork c.node (pick c.side u c.sibling))
      (inorder-pick c.side c.node t u c.sibling e)
