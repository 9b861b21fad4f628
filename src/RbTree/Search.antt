-- ===== src/RbTree/Search.antt =====
-- What `rb_tree_search` and the way down of `rb_tree_insert` find.
use oh_my_os.Base.{
  ℕ, zero, suc, ◌+◌, ◌<◌, ◌≤◌, ◌≡◌, ◌≢◌, ◌⊎◌, inl, inr, sym, refl, subst, arith, Bool, Bool-cases,
  Option, some, ltb, ltb→lt, ltb→ge, eq→==, ne→==, if◌then◌else◌,
}
use oh_my_os.RbTree.{Side, left, right, RbTree, search_loop, rb_tree_search}
use oh_my_os.RbTree.Shape.{Tree, leaf, fork, count, IsIn, size, Shape, count_self, count_kid}
use native.Mathlib.Decide.{ℕ_discrete}

-- The ranges of the nodes are apart, and ascend from the left to the right.
abbrev pub IsOrdered : RbTree → Tree → Type 0
IsOrdered s leaf = Unit
IsOrdered s (fork x kids) =
    (s.start x ≤ s.end x)
    × ((z : ℕ) → IsIn z (kids left) → s.end z < s.start x)
    × ((z : ℕ) → IsIn z (kids right) → s.end x < s.start z)
    × ((d : Side) → IsOrdered s (kids d))

pub positive_sum : (a b : ℕ) → 0 < a + b → (0 < a) ⊎ (0 < b)
positive_sum zero b h = inr (omega (arith, h))
positive_sum (suc a) b h = inl (omega arith)

-- Where a node of a tree is that is not its top.
pub kid_of :
    (z x : ℕ) (kids : Side → Tree)
    → IsIn z (fork x kids)
    → z ≢ x
    → IsIn z (kids left) ⊎ IsIn z (kids right)
kid_of z x kids i ne = positive_sum (count z (kids left)) (count z (kids right)) (
    omega (
      arith,
      subst (λ (b : Bool). 0 < (if b then 1 else 0) + (count z (kids left) + count z (kids right)))
          (ne→== z x ne) i,
    ))

pub ordered_range :
    (s : RbTree) (t : Tree) → IsOrdered s t → (z : ℕ) → IsIn z t → s.start z ≤ s.end z
ordered_range s leaf h z i = absurd (omega (arith, i))
ordered_range s (fork x kids) (own, _, _, below) z i = elim (ℕ_discrete z x) [
  | yes e ↦ subst (λ q. s.start q ≤ s.end q) (sym e) own
  | no ne ↦ elim (kid_of z x kids i ne) [
    | inl l ↦ ordered_range s (kids left) (below left) z l
    | inr r ↦ ordered_range s (kids right) (below right) z r
  ]
]

-- The result of a search: a node whose range holds the key, or NULL where there is none.
abbrev pub Found : RbTree → ℕ → Tree → Option ℕ → Type 0
Found s key t r =
    ((z : ℕ) × (r ≡ some z) × IsIn z t × (z ≢ 0) × (s.start z ≤ key) × (key ≤ s.end z))
    ⊎ ((r ≡ some 0) × ((z : ℕ) → IsIn z t → (key < s.start z) ⊎ (s.end z < key)))

Found-left :
    (s : RbTree) (key x : ℕ) (kids : Side → Tree) (r : Option ℕ)
    → IsOrdered s (fork x kids)
    → key < s.start x
    → Found s key (kids left) r
    → Found s key (fork x kids) r
Found-left s key x kids r h lt (inl (z, e, i, ne, lo, hi)) =
    inl (z, e, omega (arith, i, count_kid z x kids left), ne, lo, hi)
Found-left s key x kids r (own, lower, upper, below) lt (inr (e, away)) = inr (
  e,
  λ z i. elim (ℕ_discrete z x) [
    | yes ez ↦ inl (subst (λ q. key < s.start q) (sym ez) lt)
    | no ne ↦ elim (kid_of z x kids i ne) [
      | inl l ↦ away z l
      | inr r ↦ inl (omega (arith, lt, own, upper z r))
    ]
  ],
)

Found-right :
    (s : RbTree) (key x : ℕ) (kids : Side → Tree) (r : Option ℕ)
    → IsOrdered s (fork x kids)
    → s.end x < key
    → Found s key (kids right) r
    → Found s key (fork x kids) r
Found-right s key x kids r h lt (inl (z, e, i, ne, lo, hi)) =
    inl (z, e, omega (arith, i, count_kid z x kids right), ne, lo, hi)
Found-right s key x kids r (own, lower, upper, below) lt (inr (e, away)) = inr (
  e,
  λ z i. elim (ℕ_discrete z x) [
    | yes ez ↦ inr (subst (λ q. s.end q < key) (sym ez) lt)
    | no ne ↦ elim (kid_of z x kids i ne) [
      | inl l ↦ inr (omega (arith, lt, own, lower z l))
      | inr r ↦ away z r
    ]
  ],
)

search_loop-Found :
    (fuel : ℕ) (s : RbTree) (key p up : ℕ) (t : Tree)
    → Shape s p up t
    → IsOrdered s t
    → size t < fuel
    → Found s key t (search_loop fuel s key p)
unfolding search_loop
search_loop-Found zero s key p up t shape h enough = absurd (omega (arith, enough))
search_loop-Found (suc f) s key p up leaf shape h enough =
    rw (eq→== p 0 shape, search_loop) (inr (refl, λ z i. absurd (omega (arith, i))))
search_loop-Found (suc f) s key p up (fork x kids) (e, ne, _, below) (own, lower, upper, inside)
      enough =
    subst (λ q. Found s key (fork x kids) (search_loop (suc f) s key q)) (sym e)
      (rw (ne→== x 0 ne, search_loop)
        (elim (Bool-cases (ltb key (s.start x))) [
          | inl lt ↦
              rw (lt, search_loop)
                (Found-left s key x kids (search_loop f s key (s.child x left))
                  (own, lower, upper, inside) (ltb→lt key (s.start x) lt)
                  (search_loop-Found f s key (s.child x left) x (kids left) (below left)
                    (inside left) (omega (arith, enough))))
          | inr ge ↦
              rw (ge, search_loop)
                (elim (Bool-cases (ltb (s.end x) key)) [
                  | inl gt ↦
                      rw (gt, search_loop)
                        (Found-right s key x kids (search_loop f s key (s.child x right))
                          (own, lower, upper, inside) (ltb→lt (s.end x) key gt)
                          (search_loop-Found f s key (s.child x right) x (kids right) (below right)
                            (inside right) (omega (arith, enough))))
                  | inr le ↦
                      rw (le, search_loop)
                        (inl (
                          x,
                          refl,
                          count_self x kids,
                          ne,
                          ltb→ge key (s.start x) ge,
                          ltb→ge (s.end x) key le,
                        ))
                ])
        ]))

-- On a tree with ordered ranges, with fuel above its number of nodes, `rb_tree_search` ends with a node
-- whose range holds the key, or with NULL, and then no range of the tree holds the key.
pub rb_tree_search-Found :
    (fuel : ℕ) (s : RbTree) (key : ℕ) (t : Tree)
    → Shape s s.root 0 t
    → IsOrdered s t
    → size t < fuel
    → Found s key t (rb_tree_search fuel s key)
unfolding rb_tree_search
rb_tree_search-Found fuel s key t shape h enough =
    search_loop-Found fuel s key s.root 0 t shape h enough
