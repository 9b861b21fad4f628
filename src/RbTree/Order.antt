-- ===== src/RbTree/Order.antt =====
-- The ranges of a tree as a list, in their order.
use oh_my_os.Base.{
  ℕ, ◌+◌, ◌<◌, ◌≤◌, ◌≡◌, ◌⊎◌, inl, inr, sym, refl, subst, arith, Bool, List, [], ◌∷◌, ◌++◌, length,
  length-append, ne→==, if◌then◌else◌,
}
use oh_my_os.RbTree.{Side, left, right, RbTree}
use oh_my_os.RbTree.Shape.{Tree, leaf, fork, count, size, inorder}
use oh_my_os.RbTree.Turn.{one, one_self}
use oh_my_os.RbTree.Search.{IsOrdered, positive_sum}
use native.Mathlib.Decide.{ℕ_discrete}

-- how often an address is in a list
abbrev pub occurs : ℕ → List ℕ → ℕ
occurs z [] = 0
occurs z (x ∷ xs) = one z x + occurs z xs

pub occurs-append : (z : ℕ) (xs ys : List ℕ) → occurs z (xs ++ ys) ≡ occurs z xs + occurs z ys
occurs-append z [] ys = omega arith
occurs-append z (x ∷ xs) ys = omega (arith, occurs-append z xs ys)

pub occurs-inorder : (z : ℕ) (t : Tree) → occurs z (inorder t) ≡ count z t
occurs-inorder z leaf = refl
occurs-inorder z (fork x kids) = omega (
  arith,
  occurs-append z (inorder (kids left)) (x ∷ inorder (kids right)),
  occurs-inorder z (kids left),
  occurs-inorder z (kids right),
)

pub length-inorder : (t : Tree) → length (inorder t) ≡ size t
length-inorder leaf = refl
length-inorder (fork x kids) = omega (
  arith,
  length-append (inorder (kids left)) (x ∷ inorder (kids right)),
  length-inorder (kids left),
  length-inorder (kids right),
)

pub occurs_cons : (z x : ℕ) (xs : List ℕ) → 0 < occurs z (x ∷ xs) → (z ≡ x) ⊎ (0 < occurs z xs)
occurs_cons z x xs i = elim (ℕ_discrete z x) [
  | yes e ↦ inl e
  | no ne ↦
      inr (
        omega
          (arith, subst (λ (b : Bool). 0 < (if b then 1 else 0) + occurs z xs) (ne→== z x ne) i))
]

pub occurs_either :
    (z : ℕ) (xs ys : List ℕ) → 0 < occurs z (xs ++ ys) → (0 < occurs z xs) ⊎ (0 < occurs z ys)
occurs_either z xs ys i =
    positive_sum (occurs z xs) (occurs z ys) (omega (arith, i, occurs-append z xs ys))

module _ (low high : ℕ → ℕ) where
  -- The range of `x` is before those of the list.
  abbrev pub Precedes : ℕ → List ℕ → Type 0
  Precedes x ys = (z : ℕ) → 0 < occurs z ys → high x < low z

  abbrev pub Ascends : List ℕ → Type 0
  Ascends [] = Unit
  Ascends (x ∷ xs) = (low x ≤ high x) × Precedes x xs × Ascends xs

  pub Ascends-append :
      (xs ys : List ℕ)
      → Ascends xs
      → Ascends ys
      → ((z : ℕ) → 0 < occurs z xs → Precedes z ys)
      → Ascends (xs ++ ys)
  Ascends-append [] ys p q cross = q
  Ascends-append (x ∷ xs) ys (own, next, rest) q cross = (
    own,
    λ z i. elim (occurs_either z xs ys i) [
      | inl a ↦ next z a
      | inr b ↦ cross x (omega (arith, one_self x)) z b
    ],
    Ascends-append xs ys rest q (λ z i. cross z (omega (arith, i))),
  )

  pub append-Ascends :
      (xs ys : List ℕ)
      → Ascends (xs ++ ys)
      → Ascends xs × Ascends ys × ((z : ℕ) → 0 < occurs z xs → Precedes z ys)
  append-Ascends [] ys h = (tt, h, λ z i. absurd (omega (arith, i)))
  append-Ascends (x ∷ xs) ys (own, next, rest) =
      let (p, q, cross) = append-Ascends xs ys rest in
      (
        (own, (λ z i. next z (omega (arith, i, occurs-append z xs ys))), p),
        q,
        λ z i. elim (occurs_cons z x xs i) [
          | inl e ↦
              subst (λ v. Precedes v ys) (sym e)
                (λ w j. next w (omega (arith, j, occurs-append w xs ys)))
          | inr a ↦ cross z a
        ],
      )

  -- A range between two others.
  pub Ascends-between :
      (xs ys : List ℕ) (x : ℕ)
      → Ascends (xs ++ ys)
      → low x ≤ high x
      → ((z : ℕ) → 0 < occurs z xs → high z < low x)
      → Precedes x ys
      → Ascends (xs ++ (x ∷ ys))
  Ascends-between xs ys x h own lower upper =
      let (p, q, cross) = append-Ascends xs ys h in
      Ascends-append xs (x ∷ ys) p (own, upper, q)
        (λ z i w j. elim (occurs_cons w x ys j) [
          | inl e ↦ subst (λ v. high z < low v) (sym e) (lower z i)
          | inr b ↦ cross z i w b
        ])

pub Ascends-frame :
    (low high low' high' : ℕ → ℕ) (xs : List ℕ)
    → ((z : ℕ) → 0 < occurs z xs → (low' z ≡ low z) × (high' z ≡ high z))
    → Ascends low high xs
    → Ascends low' high' xs
Ascends-frame low high low' high' [] same h = tt
Ascends-frame low high low' high' (x ∷ xs) same (own, next, rest) =
    let (el, eh) = same x (omega (arith, one_self x)) in
    (
      omega (arith, own, el, eh),
      (λ z i. omega (arith, next z i, eh, (same z (omega (arith, i))).0)),
      Ascends-frame low high low' high' xs (λ z i. same z (omega (arith, i))) rest,
    )

-- A tree is ordered where the list of its nodes ascends.
pub IsOrdered-Ascends : (s : RbTree) (t : Tree) → IsOrdered s t → Ascends s.start s.end (inorder t)
IsOrdered-Ascends s leaf h = tt
IsOrdered-Ascends s (fork x kids) (own, lower, upper, below) =
    Ascends-append s.start s.end (inorder (kids left)) (x ∷ inorder (kids right))
      (IsOrdered-Ascends s (kids left) (below left))
      (
        own,
        (λ z i. upper z (omega (arith, i, occurs-inorder z (kids right)))),
        IsOrdered-Ascends s (kids right) (below right),
      )
      (λ z i w j.
        let before : s.end z < s.start x =
          lower z (omega (arith, i, occurs-inorder z (kids left))) in
        elim (occurs_cons w x (inorder (kids right)) j) [
          | inl e ↦ subst (λ v. s.end z < s.start v) (sym e) before
          | inr r ↦
              omega (arith, before, own, upper w (omega (arith, r, occurs-inorder w (kids right))))
        ])

both-IsOrdered :
    (s : RbTree) (kids : Side → Tree)
    → IsOrdered s (kids left)
    → IsOrdered s (kids right)
    → (d : Side) → IsOrdered s (kids d)
both-IsOrdered s kids p q left = p
both-IsOrdered s kids p q right = q

pub Ascends-IsOrdered : (s : RbTree) (t : Tree) → Ascends s.start s.end (inorder t) → IsOrdered s t
Ascends-IsOrdered s leaf h = tt
Ascends-IsOrdered s (fork x kids) h =
    let (p, (own, next, q), cross) =
      append-Ascends s.start s.end (inorder (kids left)) (x ∷ inorder (kids right)) h in
    (
      own,
      λ z i. cross z (omega (arith, i, occurs-inorder z (kids left))) x (omega (arith, one_self x)),
      λ z i. next z (omega (arith, i, occurs-inorder z (kids right))),
      both-IsOrdered s kids (Ascends-IsOrdered s (kids left) p)
          (Ascends-IsOrdered s (kids right) q),
    )
