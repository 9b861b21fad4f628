-- ===== src/RbTree/Path/Turned.antt =====
-- A rotation at a place of a tree.
use oh_my_os.Base.{
  ℕ, ◌+◌, ◌<◌, ◌≡◌, ◌≢◌, ◌∙◌, sym, ap, refl, arith, inl, inr, Bool-cases, [], ◌∷◌, ◌==◌,
}
use oh_my_os.RbTree.{Side, left, right, other, RbTree, set_child, set_parent, replace_child, rotate}
use oh_my_os.RbTree.Shape.{Tree, leaf, fork, count, Distinct, Shape, Shape-top, Shape-frame}
use oh_my_os.RbTree.Turn.{one, one_self, before, after, pick_on, pick_off, climb}
use oh_my_os.RbTree.Rotate.{Rotated, rotate-Rotated}
use oh_my_os.RbTree.Path.{Crumb, Ways, plug, above, count_ways, count-plug, Hangs, Hangs-frame}

-- NULL is no node.
pub count_null : (s : RbTree) (p up : ℕ) (t : Tree) → Shape s p up t → count 0 t ≡ 0
count_null s p up leaf h = refl
count_null s p up (fork x kids) (_, ne, _, below) = ground (
  arith,
  ne,
  count_null s (s.child x left) x (kids left) (below left),
  count_null s (s.child x right) x (kids right) (below right),
)

pub root_on :
    (s : RbTree) (p : ℕ) (c : Crumb) (cs : Ways)
    → Hangs s p (c ∷ cs)
    → 0 < count_ways s.root (c ∷ cs)
root_on s p c [] (_, _, _, _, top) = omega (arith, ap (one s.root) (sym top), one_self s.root)
root_on s p c (c' ∷ cs) (_, _, _, _, up) = omega (arith, root_on s c.node c' cs up)

module _ (d : Side) (s : RbTree) (x y : ℕ) (a b c : Tree) where
  module _ (cs : Ways) (shape : Shape s x (above cs) (before d x y a b c))
      (apart : Distinct (plug cs (before d x y a b c))) where
    below_apart : Distinct (before d x y a b c)
    below_apart z = omega (arith, apart z, count-plug z cs (before d x y a b c))

    not_below : (z : ℕ) → 0 < count_ways z cs → count z (before d x y a b c) ≡ 0
    not_below z i = omega (arith, i, apart z, count-plug z cs (before d x y a b c))

    x_below : 0 < count x (before d x y a b c)
    x_below = omega (arith, one_self x)

  rotated :
      (cs : Ways)
      → Shape s x (above cs) (before d x y a b c)
      → Distinct (plug cs (before d x y a b c))
      → Rotated d s (rotate d x s) x y (above cs) a b c
  rotated [] shape apart =
      rotate-Rotated d s x y 0 a b c shape (below_apart [] shape apart)
        (count_null s x 0 (before d x y a b c) shape)
  rotated (k ∷ cs) shape apart =
      rotate-Rotated d s x y k.node a b c shape (below_apart (k ∷ cs) shape apart)
        (not_below (k ∷ cs) shape apart k.node (omega (arith, one_self k.node)))

  -- A rotation turns the tree at its place, and the way up to the root is what it was.
  pub rotate-Hangs :
      (cs : Ways)
      → Hangs s x cs
      → Shape s x (above cs) (before d x y a b c)
      → Distinct (plug cs (before d x y a b c))
      → Hangs (rotate d x s) y cs × Shape (rotate d x s) y (above cs) (after d x y a b c)
  rotate-Hangs [] hangs shape apart =
      let r = rotated [] shape apart in ((r.at_root hangs).0, r.shape)
  rotate-Hangs (k ∷ cs) hangs shape apart =
      let r = rotated (k ∷ cs) shape apart in
      let (e, ne, link, beside, up) = hangs in
      let s' = rotate d x s in
      let x_ne : x ≢ 0 = shape.1 in
      let no_root : s.root ≢ x = λ q. absurd (
        omega (
          arith,
          root_on s x k cs hangs,
          ap (λ z. count z (before d x y a b c)) q,
          x_below (k ∷ cs) shape apart,
          not_below (k ∷ cs) shape apart s.root (root_on s x k cs hangs),
        )) in
      let beside_ne : s.child k.node (other k.side) ≢ x = λ q.
        let inside =
          (Shape-top s (s.child k.node (other k.side)) k.node k.sibling beside
            (λ z. x_ne (sym q ∙ z))).0 in
        absurd (
          omega (
            arith,
            inside,
            ap (λ z. count z k.sibling) q,
            x_below (k ∷ cs) shape apart,
            apart x,
            count-plug x (k ∷ cs) (before d x y a b c),
          )) in
      let (top, link') = r.below k.side no_root e beside_ne in
      let down : s'.child k.node k.side ≡ y =
        ap (λ (f : Side → ℕ). f k.side) link' ∙ pick_on k.side y (s.child k.node (other k.side)) in
      let across : s'.child k.node (other k.side) ≡ s.child k.node (other k.side) =
        ap (λ (f : Side → ℕ). f (other k.side)) link'
        ∙ pick_off k.side y (s.child k.node (other k.side)) in
      let else_same : (z : ℕ)
          → 0 < count_ways z (k ∷ cs)
          → z ≢ k.node
          → (s'.child z ≡ s.child z) × (s'.parent z ≡ s.parent z) =
        λ z i nz. let (fc, fp) = r.frame z (not_below (k ∷ cs) shape apart z i) in (fc nz, fp) in
      let own : count k.node k.sibling + count_ways k.node cs ≡ 0 =
        omega
          (arith, one_self k.node, apart k.node, count-plug k.node (k ∷ cs) (before d x y a b c)) in
      (
        (
          down,
          ne,
          (r.frame k.node
                (not_below (k ∷ cs) shape apart k.node (omega (arith, one_self k.node)))).1
              ∙ link,
          rw across (
              Shape-frame s s' (s.child k.node (other k.side)) k.node k.sibling
                (λ z i.
                  else_same z (omega (arith, i))
                    (λ q. absurd (omega (arith, i, own, ap (λ w. count w k.sibling) q))))
                beside),
          Hangs-frame s s' k.node cs top
              (λ z i.
                else_same z (omega (arith, i))
                  (λ q. absurd (omega (arith, i, own, ap (λ w. count_ways w cs) q))))
              up,
        ),
        r.shape,
      )

-- A rotation writes links alone.
pub record SameKeys (s s' : RbTree) : Type 0 where
  pub start : s'.start ≡ s.start
  pub end : s'.end ≡ s.end
  pub value : s'.value ≡ s.value
  pub id : s'.id ≡ s.id
  pub total : s'.total ≡ s.total

pub SameKeys-trans : (s t u : RbTree) → SameKeys s t → SameKeys t u → SameKeys s u
SameKeys-trans s t u p q = record {
  start = q.start ∙ p.start;
  end = q.end ∙ p.end;
  value = q.value ∙ p.value;
  id = q.id ∙ p.id;
  total = q.total ∙ p.total;
}

pub same_keys : (s : RbTree) → SameKeys s s
same_keys s = record { start = refl; end = refl; value = refl; id = refl; total = refl }

replace_child-SameKeys :
    (x y : ℕ) (s : RbTree) → SameKeys s (replace_child x y s) × ((replace_child x y s).red ≡ s.red)
unfolding replace_child
replace_child-SameKeys x y s = elim (Bool-cases (x == s.root)) [
  | inl e ↦
      rw (e, replace_child)
        (record { start = refl; end = refl; value = refl; id = refl; total = refl }, refl)
  | inr n ↦
      rw (n, replace_child)
        (elim (Bool-cases (x == s.child (s.parent x) left)) [
          | inl e ↦
              rw (e, replace_child)
                (record { start = refl; end = refl; value = refl; id = refl; total = refl }, refl)
          | inr e ↦
              rw (e, replace_child)
                (record { start = refl; end = refl; value = refl; id = refl; total = refl }, refl)
        ])
]

climb-SameKeys :
    (inner x : ℕ) (s : RbTree) → SameKeys s (climb inner x s) × ((climb inner x s).red ≡ s.red)
climb-SameKeys inner x s = elim (Bool-cases (inner == 0)) [
  | inl e ↦ rw e (same_keys s, refl)
  | inr n ↦ rw n (record { start = refl; end = refl; value = refl; id = refl; total = refl }, refl)
]

pub rotate-SameKeys :
    (d : Side) (x : ℕ) (s : RbTree) → SameKeys s (rotate d x s) × ((rotate d x s).red ≡ s.red)
unfolding rotate
rotate-SameKeys d x s =
    let y = s.child x (other d) in
    let s₁ = set_child (other d) x (s.child y d) s in
    let s₂ = climb (s₁.child y d) x s₁ in
    let s₃ = set_parent y (s₂.parent x) s₂ in
    let (k, r) = climb-SameKeys (s₁.child y d) x s₁ in
    let (k', r') = replace_child-SameKeys x y s₃ in
    (
      record {
        start = k'.start ∙ k.start;
        end = k'.end ∙ k.end;
        value = k'.value ∙ k.value;
        id = k'.id ∙ k.id;
        total = k'.total ∙ k.total;
      },
      r' ∙ r,
    )
