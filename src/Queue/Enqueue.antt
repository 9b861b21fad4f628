-- ===== src/Queue/Enqueue.antt =====
-- `__enqueue` on a valid queue.
use oh_my_os.Base.{
  ℕ, ◌+◌, ◌*◌, ◌^◌, ◌≤◌, ◌<◌, ◌≡◌, refl, ap, ap₂, ◌∙◌, Bool, true, false, Option, none, some,
  Bool-cases, inl, inr, List, [], ◌∷◌, ◌++◌, arith, ◌==◌, ◌&&◌, if◌then◌else◌, tests, Status,
  success, enomem,
}
use oh_my_os.Base.Wrap.{ring_len-lt}
use oh_my_os.Memory.{Mem, slice}
use oh_my_os.Memory.Slice.{slice_frame}
use oh_my_os.Memory.Copy.{Disjoint, Outside}
use oh_my_os.Queue.{Queue, Alloc, put_expanded, queue_unroll, enqueue}
use oh_my_os.Queue.Inv.{IsValid, area, len, contents, queue_full-eq}
use oh_my_os.Queue.Expand.{unroll_frame}
use oh_my_os.Queue.Put.{
  expanded, put-contents, put-IsValid, put_frame, len-expanded, expand-none, expanded-IsValid,
  expanded-contents, expand-eq,
}

-- `__enqueue` finds no room and no memory for more.
abbrev pub is_blocked : Alloc → Queue → Bool
is_blocked alloc q =
    (q.capacity == len q + 1) && elim (alloc (area q * 2)) [ none ↦ true | some _ ↦ false ]

-- What `__enqueue` leaves: its answer, the elements, and where it may have written.
pub record Enqueued (alloc : Alloc) (m : Mem) (q : Queue) (x : List ℕ) (out : Status × Mem × Queue)
    : Type 0 where
  pub valid : IsValid out.2
  pub content :
      let (s, m', q') = out in
      ◌≡◌ {A = Status × List (List ℕ)}
        (s, contents m' q')
        (if is_blocked alloc q then (enomem, contents m q) else (success, contents m q ++ (x ∷ [])))
  pub frame :
      (a : ℕ)
      → Outside a q.base (area q)
      → ((nb : ℕ) → alloc (area q * 2) ≡ some nb → Outside a nb (area q * 2))
      → out.1 a ≡ m a

module _ (alloc : Alloc) (m : Mem) (q : Queue) (src : ℕ) (v : IsValid q)
    (apart : Disjoint src q.element_size q.base (area q))
    (fresh : (nb : ℕ)
      → alloc (area q * 2) ≡ some nb
      → Disjoint q.base (area q) nb (area q * 2) × Disjoint src q.element_size nb (area q * 2))
    (bounded : area q * 2 ≤ 2 ^ 31) where
  enqueue-room :
      (q.capacity == len q + 1) ≡ false
      → Enqueued alloc m q (slice m src q.element_size) (enqueue alloc m q src)
  unfolding enqueue
  enqueue-room h =
      let room : len q + 1 < q.capacity =
        omega (tests, ring_len-lt q.capacity q.rear q.front v.rear_lt v.front_lt) in
      rw (queue_full-eq q v, h)
        (record {
          valid = put-IsValid m q src v room apart;
          content = rw h (ap (λ xs. (success, xs)) (put-contents m q src v room apart));
          frame = λ a out _. put_frame m q src v room apart a out;
        })

  enqueue-blocked :
      (q.capacity == len q + 1) ≡ true
      → alloc (area q * 2) ≡ none
      → Enqueued alloc m q (slice m src q.element_size) (enqueue alloc m q src)
  unfolding enqueue put_expanded
  enqueue-blocked h e =
      rw (queue_full-eq q v, h, expand-none m q v alloc bounded e)
        (record { valid = v; content = rw (h, e) refl; frame = λ a out _. refl })

  enqueue-grown :
      (q.capacity == len q + 1) ≡ true
      → (nb : ℕ) → alloc (area q * 2) ≡ some nb
      → Enqueued alloc m q (slice m src q.element_size) (enqueue alloc m q src)
  unfolding enqueue put_expanded
  enqueue-grown h nb e =
      let (old_apart, src_apart) = fresh nb e in
      let q' = expanded q nb in
      let m' = queue_unroll m q nb in
      let v' = expanded-IsValid m q nb v old_apart bounded in
      let same = len-expanded m q nb v old_apart in
      let room : len q' + 1 < q'.capacity = omega (tests, same, v.nonempty) in
      let there : Disjoint src q.element_size nb (area q') = omega (arith, src_apart) in
      rw (queue_full-eq q v, h, expand-eq m q nb v old_apart alloc bounded e)
        (record {
          valid = put-IsValid m' q' src v' room there;
          content =
              rw (h, e)
                (ap (λ xs. (success, xs))
                  (put-contents m' q' src v' room there
                    ∙ ap₂ (λ xs x. xs ++ (x ∷ [])) (expanded-contents m q nb v old_apart)
                        (slice_frame m m' src q.element_size λ a lo hi.
                          unroll_frame m q nb v (omega (arith, old_apart)) a
                            (omega (arith, src_apart)))));
          frame = λ a out far.
              put_frame m' q' src v' room there a (omega (arith, far nb e))
              ∙ unroll_frame m q nb v (omega (arith, old_apart)) a (omega (arith, far nb e));
        })

  -- On a valid queue, with the element to be stored apart from the slots and the slots that
  -- `kmalloc` may hand out apart from both, `__enqueue` appends the element at `src`; only if the
  -- slots are full and no memory is to be had does it answer ENOMEM and keep the elements. The
  -- queue stays valid, and no address outside the old and the new slots is written.
  pub enqueue_refines : Enqueued alloc m q (slice m src q.element_size) (enqueue alloc m q src)
  enqueue_refines = elim (Bool-cases (q.capacity == len q + 1)) [
    | inr room ↦ enqueue-room room
    | inl full ↦ by_answer full (alloc (area q * 2)) refl
  ]
    where
      by_answer :
          (q.capacity == len q + 1) ≡ true
          → (o : Option ℕ) → alloc (area q * 2) ≡ o
          → Enqueued alloc m q (slice m src q.element_size) (enqueue alloc m q src)
      by_answer full none e = enqueue-blocked full e
      by_answer full (some nb) e = enqueue-grown full nb e
