-- ===== src/RbTree/Turn.antt =====
-- The parts of a rotation, for both sides.
use oh_my_os.Base.{
  ℕ, ◌+◌, ◌≡◌, ◌≢◌, inl, inr, sym, refl, arith, Bool-cases, ◌∷◌, append_assoc, ◌==◌, eq→==, ne→==,
  if◌then◌else◌, update_ne, update_self,
}
use oh_my_os.RbTree.{Side, left, right, other, pick, RbTree, set_child, set_parent, replace_child}
use oh_my_os.RbTree.Shape.{Tree, fork, count, inorder, Shape}

module _ {ℓ} {A : Type ℓ} where
  pub pick_on : (d : Side) (u v : A) → pick d u v d ≡ u
  pick_on left u v = refl
  pick_on right u v = refl

  pub pick_off : (d : Side) (u v : A) → pick d u v (other d) ≡ v
  pick_off left u v = refl
  pick_off right u v = refl

  pub other_off : (d : Side) (u v : A) → pick (other d) u v d ≡ v
  other_off left u v = refl
  other_off right u v = refl

pub other_twice : (d : Side) → other (other d) ≡ d
other_twice left = refl
other_twice right = refl

-- The two children of a node, by side.
pub kids-Shape :
    (d : Side) (s : RbTree) (v : ℕ) (f : Side → ℕ) (t u : Tree)
    → ((e : Side) → Shape s (f e) v (pick d t u e))
    → Shape s (f d) v t × Shape s (f (other d)) v u
kids-Shape left s v f t u h = (h left, h right)
kids-Shape right s v f t u h = (h right, h left)

pub Shape-kids :
    (d : Side) (s : RbTree) (v : ℕ) (f : Side → ℕ) (t u : Tree)
    → Shape s (f d) v t
    → Shape s (f (other d)) v u
    → (e : Side) → Shape s (f e) v (pick d t u e)
Shape-kids left s v f t u h k left = h
Shape-kids left s v f t u h k right = k
Shape-kids right s v f t u h k left = k
Shape-kids right s v f t u h k right = h

abbrev pub one : ℕ → ℕ → ℕ
one z x = if z == x then 1 else 0

pub one_self : (z : ℕ) → one z z ≡ 1
one_self z = rw (eq→== z z refl) refl

pub count-pick :
    (z : ℕ) (d : Side) (t u : Tree)
    → count z (pick d t u left) + count z (pick d t u right) ≡ count z t + count z u
count-pick z left t u = refl
count-pick z right t u = omega arith

-- The link to `nodex` is the only one that `replace_child` writes.
pub replace_child-else :
    (nodex nodey : ℕ) (s : RbTree)
    → ((replace_child nodex nodey s).parent ≡ s.parent)
      × ((z : ℕ) → z ≢ s.parent nodex → (replace_child nodex nodey s).child z ≡ s.child z)
unfolding replace_child
replace_child-else nodex nodey s = elim (Bool-cases (nodex == s.root)) [
  | inl e ↦ rw (e, replace_child) (refl, λ z ne. refl)
  | inr n ↦
      rw (n, replace_child)
        (elim (Bool-cases (nodex == s.child (s.parent nodex) left)) [
          | inl e ↦
              rw (e, replace_child)
                (
                  refl,
                  λ z ne.
                      update_ne s.child (s.parent nodex)
                        (pick left nodey (s.child (s.parent nodex) right)) z ne,
                )
          | inr e ↦
              rw (e, replace_child)
                (
                  refl,
                  λ z ne.
                      update_ne s.child (s.parent nodex)
                        (pick right nodey (s.child (s.parent nodex) left)) z ne,
                )
        ])
]

module _ (d : Side) (x y : ℕ) (a b c : Tree) where
  abbrev pub before : Tree
  before = fork x (pick d a (fork y (pick d b c)))

  abbrev pub after : Tree
  after = fork y (pick d (fork x (pick d a b)) c)

  pub before_count :
      (z : ℕ) → count z before ≡ one z x + (count z a + (one z y + (count z b + count z c)))
  before_count z = omega (arith, count-pick z d a (fork y (pick d b c)), count-pick z d b c)

-- Both trees have the same nodes in the same order.
pub inorder-after :
    (d : Side) (x y : ℕ) (a b c : Tree) → inorder (after d x y a b c) ≡ inorder (before d x y a b c)
inorder-after left x y a b c = append_assoc (inorder a) (x ∷ inorder b) (y ∷ inorder c)
inorder-after right x y a b c = sym (append_assoc (inorder c) (y ∷ inorder b) (x ∷ inorder a))

-- the link from the inner subtree, and the rotation by the values that it reads
abbrev pub climb : ℕ → ℕ → RbTree → RbTree
climb inner x s = if inner == 0 then s else set_parent inner x s

abbrev pub turned : Side → ℕ → ℕ → ℕ → ℕ → ℕ → RbTree → RbTree
turned d x y low inner up s = set_parent x y (
    set_child d y x
      (replace_child x y (set_parent y up (climb inner x (set_child (other d) x low s)))))

pub climb-child : (inner x : ℕ) (s : RbTree) → (climb inner x s).child ≡ s.child
climb-child inner x s = elim (Bool-cases (inner == 0)) [ inl e ↦ rw e refl | inr n ↦ rw n refl ]

pub climb-root : (inner x : ℕ) (s : RbTree) → (climb inner x s).root ≡ s.root
climb-root inner x s = elim (Bool-cases (inner == 0)) [ inl e ↦ rw e refl | inr n ↦ rw n refl ]

-- At the root of the tree a rotation turns the root, and elsewhere the link from the parent.
pub replace_child-root :
    (nodex nodey : ℕ) (s : RbTree)
    → nodex ≡ s.root
    → ((replace_child nodex nodey s).root ≡ nodey) × ((replace_child nodex nodey s).child ≡ s.child)
unfolding replace_child
replace_child-root nodex nodey s e = rw (eq→== nodex s.root e, replace_child) (refl, refl)

pub replace_child-below :
    (e : Side) (nodex nodey : ℕ) (s : RbTree)
    → nodex ≢ s.root
    → s.child (s.parent nodex) e ≡ nodex
    → s.child (s.parent nodex) (other e) ≢ nodex
    → ((replace_child nodex nodey s).root ≡ s.root)
      × ((replace_child nodex nodey s).child (s.parent nodex)
          ≡ pick e nodey (s.child (s.parent nodex) (other e)))
unfolding replace_child
replace_child-below left nodex nodey s ne this that =
    rw
      (ne→== nodex s.root ne, eq→== nodex (s.child (s.parent nodex) left) (sym this), replace_child)
      (
        refl,
        update_self s.child (s.parent nodex) (pick left nodey (s.child (s.parent nodex) right)),
      )
replace_child-below right nodex nodey s ne this that =
    rw
      (
        ne→== nodex s.root ne,
        ne→== nodex (s.child (s.parent nodex) left) (λ q. that (sym q)),
        replace_child,
      )
      (
        refl,
        update_self s.child (s.parent nodex) (pick right nodey (s.child (s.parent nodex) left)),
      )
