-- ===== src/Vector/Push.antt =====
-- `__vector_push` appends an element, growing the slots where they are full.
use oh_my_os.Base.{
  ℕ, ◌*◌, ◌^◌, ◌≤◌, ◌<◌, ◌≡◌, ◌∙◌, ◌&&◌, ◌++◌, [], ◌∷◌, refl, ap, ap₂, true, false, Bool, Option,
  none, some, Bool-cases, inl, inr, List, arith, tests, ==→ne, ◌==◌, if◌then◌else◌, Status, success,
  enomem,
}
use oh_my_os.Memory.{Mem, slice}
use oh_my_os.Memory.Copy.{Disjoint, Outside}
use oh_my_os.Memory.Slice.{slice_frame}
use oh_my_os.Vector.{Vector, Alloc, put_expanded, vector_push}
use oh_my_os.Vector.Inv.{IsValid, area, contents}
use oh_my_os.Vector.Put.{
  put-contents, put-IsValid, put_frame, expanded, copied, expanded-IsValid, copied-contents,
  copied_frame, expand-eq, expand-none,
}

-- `__vector_push` finds no slot and no memory for more.
abbrev pub is_blocked : Alloc → Vector → Bool
is_blocked alloc v =
    (v.size == v.capacity) && elim (alloc (area v * 2)) [ none ↦ true | some _ ↦ false ]

-- What `__vector_push` leaves: its answer, the elements, and where it may have written.
pub record Pushed (alloc : Alloc) (m : Mem) (v : Vector) (x : List ℕ) (out : Status × Mem × Vector)
    : Type 0 where
  pub valid : IsValid out.2
  pub content :
      let (s, m', v') = out in
      ◌≡◌ {A = Status × List (List ℕ)}
        (s, contents m' v')
        (if is_blocked alloc v then (enomem, contents m v) else (success, contents m v ++ (x ∷ [])))
  pub frame :
      (a : ℕ)
      → Outside a v.base (area v)
      → ((nb : ℕ) → alloc (area v * 2) ≡ some nb → Outside a nb (area v * 2))
      → out.1 a ≡ m a

module _ (alloc : Alloc) (m : Mem) (v : Vector) (src : ℕ) (h : IsValid v)
    (apart : Disjoint src v.element_size v.base (area v))
    (fresh : (nb : ℕ)
      → alloc (area v * 2) ≡ some nb
      → Disjoint v.base (area v) nb (area v * 2) × Disjoint src v.element_size nb (area v * 2))
    (bounded : area v * 2 ≤ 2 ^ 31) where
  push-room :
      (v.size == v.capacity) ≡ false
      → Pushed alloc m v (slice m src v.element_size) (vector_push alloc m v src)
  unfolding vector_push
  push-room e =
      let room : v.size < v.capacity = omega (arith, h.size_le, ==→ne v.size v.capacity e) in
      rw e (record {
        valid = put-IsValid m v src h room apart;
        content = rw e (ap (λ xs. (success, xs)) (put-contents m v src h room apart));
        frame = λ a out _. put_frame m v src h room apart a out;
      })

  push-blocked :
      (v.size == v.capacity) ≡ true
      → alloc (area v * 2) ≡ none
      → Pushed alloc m v (slice m src v.element_size) (vector_push alloc m v src)
  unfolding vector_push put_expanded
  push-blocked full e =
      rw (full, expand-none m v h alloc bounded e)
        (record { valid = h; content = rw (full, e) refl; frame = λ a out _. refl })

  push-grown :
      (v.size == v.capacity) ≡ true
      → (nb : ℕ) → alloc (area v * 2) ≡ some nb
      → Pushed alloc m v (slice m src v.element_size) (vector_push alloc m v src)
  unfolding vector_push put_expanded
  push-grown full nb e =
      let (old_apart, src_apart) = fresh nb e in
      let v' = expanded v nb in
      let m' = copied m v nb in
      let h' = expanded-IsValid m v nb h old_apart bounded in
      let room : v.size < v.capacity * 2 = omega (tests, h.nonempty, h.size_le) in
      let there : Disjoint src v.element_size nb (area v') = omega (arith, src_apart) in
      rw (full, expand-eq m v nb h old_apart alloc bounded e)
        (record {
          valid = put-IsValid m' v' src h' room there;
          content =
              rw (full, e)
                (ap (λ xs. (success, xs))
                  (put-contents m' v' src h' room there
                    ∙ ap₂ (λ xs x. xs ++ (x ∷ [])) (copied-contents m v nb h old_apart)
                        (slice_frame m m' src v.element_size λ a lo hi.
                          copied_frame m v nb h old_apart a (omega (arith, src_apart)))));
          frame = λ a out far.
              put_frame m' v' src h' room there a (omega (arith, far nb e))
              ∙ copied_frame m v nb h old_apart a (far nb e);
        })

  -- On a valid vector, with the element to be stored apart from the slots and the slots that
  -- `kmalloc` may hand out apart from both, `__vector_push` appends the element at `src`; only if
  -- the slots are full and no memory is to be had does it answer ENOMEM and keep the elements. The
  -- vector stays valid, and no address outside the old and the new slots is written.
  pub vector_push_refines :
      Pushed alloc m v (slice m src v.element_size) (vector_push alloc m v src)
  vector_push_refines = elim (Bool-cases (v.size == v.capacity)) [
    | inr room ↦ push-room room
    | inl full ↦ by_answer full (alloc (area v * 2)) refl
  ]
    where
      by_answer :
          (v.size == v.capacity) ≡ true
          → (o : Option ℕ) → alloc (area v * 2) ≡ o
          → Pushed alloc m v (slice m src v.element_size) (vector_push alloc m v src)
      by_answer full none e = push-blocked full e
      by_answer full (some nb) e = push-grown full nb e
