-- ===== src/Links/Remove.antt =====
-- `list_remove` takes one node out of a ring.
use oh_my_os.Base.{ℕ, ◌≡◌, ◌≢◌, ◌∙◌, sym, ap, List, [], ◌∷◌, ◌++◌, arith}
use oh_my_os.Links.{Links, set_next, set_prev, list_remove}
use oh_my_os.Links.Ring.{Chain, NotIn, Distinct, IsRing, Chain-frame}

-- what the links are behind the removal of `x`
record Unlinked (s s' : Links) (x : ℕ) : Type 0 where
  a_next : s'.next (s.prev x) ≡ s.next x
  b_prev : s'.prev (s.next x) ≡ s.prev x
  other_next : (y : ℕ) → y ≢ s.prev x → s'.next y ≡ s.next y
  other_prev : (y : ℕ) → y ≢ s.next x → s'.prev y ≡ s.prev y

list_remove-Unlinked : (s : Links) (x : ℕ) → s.prev x ≢ x → Unlinked s (list_remove x s) x
unfolding list_remove set_next set_prev
list_remove-Unlinked s x h = record {
  a_next = ground arith;
  b_prev = ground arith;
  other_next = λ y ne. ground arith;
  other_prev = λ y ne. ground arith;
}

-- The links of `x` lead to nodes of the chain.
prev_in :
    (s : Links) (p z x q : ℕ) (xs ys : List ℕ)
    → NotIn p (z ∷ (xs ++ x ∷ ys))
    → Chain s z (xs ++ x ∷ ys) q
    → p ≢ s.prev x
prev_in s p z x q [] ys (zp, _) (_, e, _) = λ r. zp (sym (r ∙ e))
prev_in s p z x q (y ∷ xs) ys (_, np) (_, _, c) = prev_in s p y x q xs ys np c

next_in :
    (s : Links) (p z x q : ℕ) (xs ys : List ℕ)
    → NotIn p (xs ++ x ∷ ys)
    → q ≢ p
    → Chain s z (xs ++ x ∷ ys) q
    → p ≢ s.next x
next_in s p z x q [] [] np qp (_, _, (f, _)) = λ r. qp (sym (r ∙ f))
next_in s p z x q [] (y ∷ ys) (_, (yp, _)) qp (_, _, (f, _, _)) = λ r. yp (sym (r ∙ f))
next_in s p z x q (y ∷ xs) ys (_, np) qp (_, _, c) = next_in s p y x q xs ys np qp c

prev_self :
    (s : Links) (p x q : ℕ) (xs ys : List ℕ)
    → Distinct (p ∷ (xs ++ x ∷ ys))
    → Chain s p (xs ++ x ∷ ys) q
    → s.prev x ≢ x
prev_self s p x q [] ys ((xp, _), _) (_, e, _) = λ r. xp (sym r ∙ e)
prev_self s p x q (y ∷ xs) ys (_, d) (_, _, c) = prev_self s y x q xs ys d c

remove-Chain :
    (s s' : Links) (head x p : ℕ) (xs ys : List ℕ)
    → Unlinked s s' x
    → NotIn head (xs ++ x ∷ ys)
    → Distinct (p ∷ (xs ++ x ∷ ys))
    → Chain s p (xs ++ x ∷ ys) head
    → Chain s' p (xs ++ ys) head
remove-Chain s s' head x p [] [] u nh d (e, e', (f, f')) =
    (ap s'.next (sym e') ∙ u.a_next ∙ f, ap s'.prev (sym f) ∙ u.b_prev ∙ e')
remove-Chain s s' head x p [] (y ∷ ys) u (xh, (yh, _)) ((xp, (yp, np)), ((yx, nx), (ny, _)))
      (e, e', (f, f', c)) =
    (
      ap s'.next (sym e') ∙ u.a_next ∙ f,
      ap s'.prev (sym f) ∙ u.b_prev ∙ e',
      Chain-frame s s' p y x (λ w wp _. u.other_next w (λ r. wp (r ∙ e')))
          (λ w wy _. u.other_prev w (λ r. wy (r ∙ f))) y head ys yp yx (λ r. yh (sym r))
          (λ r. xh (sym r)) np ny nx c,
    )
remove-Chain s s' head x p (z ∷ zs) ys u (zh, nh) (np, (nz, d)) (e, e', c) = (
  u.other_next p (prev_in s p z x head zs ys np c) ∙ e,
  u.other_prev z (next_in s z z x head zs ys nz (λ r. zh (sym r)) c) ∙ e',
  remove-Chain s s' head x z zs ys u nh (nz, d) c,
)

drop-NotIn : (a x : ℕ) (xs ys : List ℕ) → NotIn a (xs ++ x ∷ ys) → NotIn a (xs ++ ys)
drop-NotIn a x [] ys (_, h) = h
drop-NotIn a x (z ∷ xs) ys (za, h) = (za, drop-NotIn a x xs ys h)

drop-Distinct : (x : ℕ) (xs ys : List ℕ) → Distinct (xs ++ x ∷ ys) → Distinct (xs ++ ys)
drop-Distinct x [] ys (_, d) = d
drop-Distinct x (z ∷ xs) ys (nz, d) = (drop-NotIn z x xs ys nz, drop-Distinct x xs ys d)

-- `list_remove` of a node of a ring, wherever it stands, leaves the ring of the other nodes in their
-- order.
pub list_remove-IsRing :
    (s : Links) (head x : ℕ) (xs ys : List ℕ)
    → IsRing s head (xs ++ x ∷ ys)
    → IsRing (list_remove x s) head (xs ++ ys)
list_remove-IsRing s head x xs ys ring =
    let u = list_remove-Unlinked s x (prev_self s head x head xs ys ring.distinct ring.chain) in
    record {
      chain =
          remove-Chain s (list_remove x s) head x head xs ys u ring.distinct.0 ring.distinct
            ring.chain;
      distinct = (drop-NotIn head x xs ys ring.distinct.0, drop-Distinct x xs ys ring.distinct.1);
    }
