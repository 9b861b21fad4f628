-- ===== src/RbTree/Shape.antt =====
-- The tree that the links hold.
use oh_my_os.Base.{
  ℕ, suc, ◌+◌, ◌<◌, ◌≤◌, ◌≡◌, ◌≢◌, ◌∙◌, sym, ap, refl, subst, arith, true, List, [], ◌∷◌, ◌++◌,
  ◌==◌, eq→==, if◌then◌else◌,
}
use oh_my_os.RbTree.{Side, left, right, RbTree}

-- A tree of addresses.
pub data Tree : Type 0 where
  leaf : Tree
  fork : ℕ → (Side → Tree) → Tree

-- how often an address is in a tree
abbrev pub count : ℕ → Tree → ℕ
count z leaf = 0
count z (fork x kids) = (if z == x then 1 else 0) + (count z (kids left) + count z (kids right))

abbrev pub IsIn : ℕ → Tree → Type 0
IsIn z t = 0 < count z t

abbrev pub Distinct : Tree → Type 0
Distinct t = (z : ℕ) → count z t ≤ 1

-- a bound on the length of the ways down
abbrev pub size : Tree → ℕ
size leaf = 0
size (fork x kids) = suc (size (kids left) + size (kids right))

abbrev pub inorder : Tree → List ℕ
inorder leaf = []
inorder (fork x kids) = inorder (kids left) ++ (x ∷ inorder (kids right))

-- The links from `p` on, a child of `up`, hold the tree.
abbrev pub Shape : RbTree → ℕ → ℕ → Tree → Type 0
Shape s p up leaf = p ≡ 0
Shape s p up (fork x kids) =
    (p ≡ x) × (x ≢ 0) × (s.parent x ≡ up) × ((d : Side) → Shape s (s.child x d) x (kids d))

pub count_self : (x : ℕ) (kids : Side → Tree) → IsIn x (fork x kids)
count_self x kids = let e : (x == x) ≡ true = eq→== x x refl in rw e (omega arith)

pub count_kid : (z x : ℕ) (kids : Side → Tree) (d : Side) → count z (kids d) ≤ count z (fork x kids)
count_kid z x kids left = omega arith
count_kid z x kids right = omega arith

top_once : (x a b : ℕ) → (if x == x then 1 else 0) + (a + b) ≤ 1 → a ≡ 0
top_once x a b h = ground arith

-- A tree without repetition does not have its top again below.
pub Distinct-kid :
    (x : ℕ) (kids : Side → Tree) → Distinct (fork x kids) → (d : Side) → Distinct (kids d)
Distinct-kid x kids h d z = omega (arith, count_kid z x kids d, h z)

pub top_apart :
    (x : ℕ) (kids : Side → Tree) → Distinct (fork x kids) → (d : Side) → count x (kids d) ≡ 0
top_apart x kids h left = top_once x (count x (kids left)) (count x (kids right)) (h x)
top_apart x kids h right =
    omega (arith, top_once x (count x (kids right)) (count x (kids left)) (omega (arith, h x)))

-- A tree is where its top is.
pub Shape-top :
    (s : RbTree) (p up : ℕ) (t : Tree) → Shape s p up t → p ≢ 0 → IsIn p t × (s.parent p ≡ up)
Shape-top s p up leaf h ne = absurd (ne h)
Shape-top s p up (fork x kids) (e, _, link, _) ne =
    subst (λ q. IsIn q (fork x kids) × (s.parent q ≡ up)) (sym e) (count_self x kids, link)

-- Links that change elsewhere leave the tree.
pub Shape-frame :
    (s s' : RbTree) (p up : ℕ) (t : Tree)
    → ((z : ℕ) → IsIn z t → (s'.child z ≡ s.child z) × (s'.parent z ≡ s.parent z))
    → Shape s p up t
    → Shape s' p up t
Shape-frame s s' p up leaf same h = h
Shape-frame s s' p up (fork x kids) same (e, ne, link, below) =
    let (ec, ep) = same x (count_self x kids) in
    (
      e,
      ne,
      ep ∙ link,
      λ d. rw (ap (λ (f : Side → ℕ). f d) ec) (
          Shape-frame s s' (s.child x d) x (kids d)
            (λ z i. same z (omega (arith, i, count_kid z x kids d))) (below d)),
    )

-- A tree that gets another parent.
pub Shape-moved :
    (s s' : RbTree) (p up up' : ℕ) (t : Tree)
    → Distinct t
    → ((z : ℕ) → IsIn z t → s'.child z ≡ s.child z)
    → ((z : ℕ) → IsIn z t → z ≢ p → s'.parent z ≡ s.parent z)
    → (p ≢ 0 → s'.parent p ≡ up')
    → Shape s p up t
    → Shape s' p up' t
Shape-moved s s' p up up' leaf apart ec ep link h = h
Shape-moved s s' p up up' (fork x kids) apart ec ep link (e, ne, _, below) = (
  e,
  ne,
  subst (λ t. t ≢ 0 → s'.parent t ≡ up') e link ne,
  λ d. rw (ap (λ (f : Side → ℕ). f d) (ec x (count_self x kids))) (
      Shape-frame s s' (s.child x d) x (kids d)
        (λ z i.
          let inside : IsIn z (fork x kids) = omega (arith, i, count_kid z x kids d) in
          let z_ne : z ≢ x = λ ez.
            absurd (omega (arith, i, ap (λ y. count y (kids d)) ez, top_apart x kids apart d)) in
          (ec z inside, ep z inside (λ ez. z_ne (ez ∙ e))))
        (below d)),
)
