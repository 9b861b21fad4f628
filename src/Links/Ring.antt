-- ===== src/Links/Ring.antt =====
-- The list that a ring of links holds, and what the operations make of it.
use oh_my_os.Base.{
  ℕ, zero, suc, ◌+◌, ◌<◌, ◌≡◌, ◌≢◌, ◌∙◌, refl, sym, ap, subst, List, [], ◌∷◌, ◌++◌, length, some,
  arith, eq→==, ne→==,
}
use oh_my_os.Links.{
  Links, set_next, set_prev, list_init, list_insert, list_insert_before, size_loop, list_size,
}

-- From `p` the links lead over `xs` to `q`, and back.
abbrev pub Chain : Links → ℕ → List ℕ → ℕ → Type 0
Chain s p [] q = (s.next p ≡ q) × (s.prev q ≡ p)
Chain s p (x ∷ xs) q = (s.next p ≡ x) × (s.prev x ≡ p) × Chain s x xs q

abbrev pub NotIn : ℕ → List ℕ → Type 0
NotIn a [] = Unit
NotIn a (x ∷ xs) = (x ≢ a) × NotIn a xs

abbrev pub Distinct : List ℕ → Type 0
Distinct [] = Unit
Distinct (x ∷ xs) = NotIn x xs × Distinct xs

-- `head` is the head of a list of the nodes `xs`.
pub record IsRing (s : Links) (head : ℕ) (xs : List ℕ) : Type 0 where
  pub chain : Chain s head xs head
  pub distinct : Distinct (head ∷ xs)

-- A chain stays where its links are not written: `next` of `a` and `n`, `prev` of `b` and `n`.
module _ (s s' : Links) (a b n : ℕ) (same_next : (y : ℕ) → y ≢ a → y ≢ n → s'.next y ≡ s.next y)
    (same_prev : (y : ℕ) → y ≢ b → y ≢ n → s'.prev y ≡ s.prev y) where
  pub Chain-frame :
      (p q : ℕ) (xs : List ℕ)
      → p ≢ a
      → p ≢ n
      → q ≢ b
      → q ≢ n
      → NotIn a xs
      → NotIn b xs
      → NotIn n xs
      → Chain s p xs q
      → Chain s' p xs q
  Chain-frame p q [] pa pn qb qn na nb nn (e, e') = (same_next p pa pn ∙ e, same_prev q qb qn ∙ e')
  Chain-frame p q (x ∷ xs) pa pn qb qn (xa, na) (xb, nb) (xn, nn) (e, e', c) =
      (same_next p pa pn ∙ e, same_prev x xb xn ∙ e', Chain-frame x q xs xa xn qb qn na nb nn c)

-- what the links are behind an insertion of `n` between `a` and `b`
pub record Linked (s s' : Links) (a n b : ℕ) : Type 0 where
  pub a_next : s'.next a ≡ n
  pub n_prev : s'.prev n ≡ a
  pub n_next : s'.next n ≡ b
  pub b_prev : s'.prev b ≡ n
  pub other_next : (y : ℕ) → y ≢ a → y ≢ n → s'.next y ≡ s.next y
  pub other_prev : (y : ℕ) → y ≢ b → y ≢ n → s'.prev y ≡ s.prev y

list_insert-Linked :
    (s : Links) (a n : ℕ) → n ≢ a → n ≢ s.next a → Linked s (list_insert a n s) a n (s.next a)
unfolding list_insert set_next set_prev
list_insert-Linked s a n na nb = record {
  a_next = ground arith;
  n_prev = ground arith;
  n_next = ground arith;
  b_prev = ground arith;
  other_next = λ y ya yn. ground arith;
  other_prev = λ y yb yn. ground arith;
}

list_insert_before-Linked :
    (s : Links) (b n : ℕ)
    → n ≢ b
    → n ≢ s.prev b
    → Linked s (list_insert_before b n s) (s.prev b) n b
unfolding list_insert_before set_next set_prev
list_insert_before-Linked s b n nb na = record {
  a_next = ground arith;
  n_prev = ground arith;
  n_next = ground arith;
  b_prev = ground arith;
  other_next = λ y ya yn. ground arith;
  other_prev = λ y yb yn. ground arith;
}

-- A new first node.
head-Chain :
    (s s' : Links) (head n : ℕ) (xs : List ℕ)
    → Linked s s' head n (s.next head)
    → IsRing s head xs
    → NotIn n (head ∷ xs)
    → Chain s' head (n ∷ xs) head
head-Chain s s' head n [] l ring (hn, _) =
    let l' = subst (Linked s s' head n) ring.chain.0 l in
    (l'.a_next, l'.n_prev, (l'.n_next, l'.b_prev))
head-Chain s s' head n (x ∷ xs) l ring (hn, (xn, nn)) =
    let l' = subst (Linked s s' head n) ring.chain.0 l in
    let ((xh, nh), (nx, _)) = ring.distinct in
    (
      l'.a_next,
      l'.n_prev,
      (
        l'.n_next,
        l'.b_prev,
        Chain-frame s s' head x n l'.other_next l'.other_prev x head xs xh xn (λ e. xh (sym e)) hn
            nh nx nn ring.chain.2,
      ),
    )

-- The last node of a chain is not one that the chain does not have.
last-NotIn :
    (s : Links) (p x q : ℕ) (xs : List ℕ) → NotIn p (x ∷ xs) → Chain s x xs q → p ≢ s.prev q
last-NotIn s p x q [] (xp, _) (e, e') = λ r. xp (sym (r ∙ e'))
last-NotIn s p x q (y ∷ ys) (_, np) (_, _, c) = last-NotIn s p y q ys np c

tail-Chain :
    (s s' : Links) (head n p : ℕ) (xs : List ℕ)
    → Linked s s' (s.prev head) n head
    → NotIn head xs
    → Distinct (p ∷ xs)
    → NotIn n (p ∷ xs)
    → Chain s p xs head
    → Chain s' p (xs ++ n ∷ []) head
tail-Chain s s' head n p [] l nh d (pn, _) (e, e') =
    let l' = subst (λ a. Linked s s' a n head) e' l in
    (l'.a_next, l'.n_prev, (l'.n_next, l'.b_prev))
tail-Chain s s' head n p (x ∷ xs) l (xh, nh) (np, d) (pn, (xn, nn)) (e, e', c) = (
  l.other_next p (last-NotIn s p x head xs np c) pn ∙ e,
  l.other_prev x xh xn ∙ e',
  tail-Chain s s' head n x xs l nh d (xn, nn) c,
)

snoc-NotIn : (a n : ℕ) (xs : List ℕ) → NotIn a xs → n ≢ a → NotIn a (xs ++ n ∷ [])
snoc-NotIn a n [] na h = (h, tt)
snoc-NotIn a n (x ∷ xs) (xa, na) h = (xa, snoc-NotIn a n xs na h)

snoc-Distinct : (n : ℕ) (xs : List ℕ) → Distinct xs → NotIn n xs → Distinct (xs ++ n ∷ [])
snoc-Distinct n [] d h = (tt, tt)
snoc-Distinct n (x ∷ xs) (nx, d) (xn, h) =
    (snoc-NotIn x n xs nx (λ e. xn (sym e)), snoc-Distinct n xs d h)

-- the node behind the head is not new
next-NotIn :
    (s : Links) (head n : ℕ) (xs : List ℕ)
    → NotIn n (head ∷ xs)
    → Chain s head xs head
    → n ≢ s.next head
next-NotIn s head n [] (hn, _) (e, _) = λ r. hn (sym (r ∙ e))
next-NotIn s head n (x ∷ xs) (hn, (xn, _)) (e, _, _) = λ r. xn (sym (r ∙ e))

-- `list_insert` behind the head of a ring puts a node that is not in it in front of its nodes.
pub list_insert-IsRing :
    (s : Links) (head n : ℕ) (xs : List ℕ)
    → IsRing s head xs
    → NotIn n (head ∷ xs)
    → IsRing (list_insert head n s) head (n ∷ xs)
list_insert-IsRing s head n xs ring new =
    let l =
      list_insert-Linked s head n (λ e. new.0 (sym e)) (next-NotIn s head n xs new ring.chain) in
    record {
      chain = head-Chain s (list_insert head n s) head n xs l ring new;
      distinct = (((λ e. new.0 (sym e)), ring.distinct.0), (new.1, ring.distinct.1));
    }

-- `list_insert_before` the head of a ring puts a node that is not in it behind its nodes.
pub list_insert_before-IsRing :
    (s : Links) (head n : ℕ) (xs : List ℕ)
    → IsRing s head xs
    → NotIn n (head ∷ xs)
    → IsRing (list_insert_before head n s) head (xs ++ n ∷ [])
list_insert_before-IsRing s head n xs ring new =
    let l =
      list_insert_before-Linked s head n (λ e. new.0 (sym e))
        (last-NotIn s n head head xs new ring.chain) in
    record {
      chain =
          tail-Chain s (list_insert_before head n s) head n head xs l ring.distinct.0 ring.distinct
            new ring.chain;
      distinct = (
        snoc-NotIn head n xs ring.distinct.0 (λ e. new.0 (sym e)),
        snoc-Distinct n xs ring.distinct.1 new.1,
      );
    }

-- `list_init` makes an empty ring of whatever the links of the head were.
pub list_init-IsRing : (s : Links) (head : ℕ) → IsRing (list_init head s) head []
unfolding list_init set_next set_prev
list_init-IsRing s head = record { chain = (ground arith, ground arith); distinct = (tt, tt) }

size_loop_lem :
    (f : ℕ) (s : Links) (head p n : ℕ) (xs : List ℕ)
    → NotIn head xs
    → Chain s p xs head
    → length xs < f
    → size_loop f head s (s.next p) n ≡ some (n + length xs)
unfolding size_loop
size_loop_lem zero s head p n xs nh c lt = absurd (omega arith)
size_loop_lem (suc f) s head p n [] nh (e, _) lt =
    rw (e, size_loop) (rw (eq→== head head refl) (ap some (omega arith)))
size_loop_lem (suc f) s head p n (x ∷ xs) (xh, nh) (e, _, c) lt =
    subst (λ y. size_loop (suc f) head s y n ≡ some (n + length (x ∷ xs))) (sym e)
      (rw (ne→== x head xh, size_loop)
        (size_loop_lem f s head x (n + 1) xs nh c (omega arith) ∙ ap some (omega arith)))

-- With more fuel than the ring has nodes `list_size` is their number.
pub list_size_lem :
    (fuel : ℕ) (s : Links) (head : ℕ) (xs : List ℕ)
    → IsRing s head xs
    → length xs < fuel
    → list_size fuel head s ≡ some (length xs)
unfolding list_size
list_size_lem fuel s head xs ring lt =
    size_loop_lem fuel s head head 0 xs ring.distinct.0 ring.chain lt ∙ ap some (omega arith)
