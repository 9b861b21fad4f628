-- ===== src/Queue/Put.antt =====
-- What writing one element, and moving to new slots, does to the contents.
use oh_my_os.Base.{
  ℕ, ◌+◌, ◌*◌, ◌%◌, ◌^◌, ◌≤◌, ◌<◌, ◌≡◌, refl, ap, ◌∙◌, none, some, [], ◌∷◌, ◌++◌, arith, mul32,
  add32, success, enomem,
}
use oh_my_os.Base.Wrap.{ring_len-lt, ring_len-cases, ring_len-suc, mod-WrapsTo}
use oh_my_os.Memory.{Mem, slice}
use oh_my_os.Memory.Slice.{slice_shift, slice-snoc}
use oh_my_os.Memory.Copy.{Disjoint, Outside, memcpy-Outside}
use oh_my_os.Memory.Elements.{element, element_in, element-memcpy_self, element-memcpy_ne}
use oh_my_os.Queue.{Queue, Alloc, queue_put, queue_expand, queue_unroll}
use oh_my_os.Queue.Inv.{IsValid, area, len, nth, contents, capacity-le-area, queue_size-len}
use oh_my_os.Queue.Expand.{unroll_nth}
use native.Mathlib.Nat.{mod-eq_of_lt, zero-add}

module _ (m : Mem) (q : Queue) (src : ℕ) (v : IsValid q) (room : len q + 1 < q.capacity)
    (apart : Disjoint src q.element_size q.base (area q)) where
  open q use {base, element_size as es, front, rear, capacity}

  put_slot : Disjoint src es (base + es * rear) es
  put_slot = omega (arith, element_in es rear capacity v.rear_lt)

  put_nth_old : (i : ℕ) → i < len q → nth (queue_put m q src).0 (queue_put m q src).1 i ≡ nth m q i
  unfolding queue_put
  put_nth_old i lt = element-memcpy_ne m base es rear src put_slot ((front + i) % capacity) (
      omega (
        arith,
        mod-WrapsTo capacity (front + i),
        ring_len-cases capacity rear front v.rear_lt v.front_lt,
      ))

  put_nth_new : nth (queue_put m q src).0 (queue_put m q src).1 (len q) ≡ slice m src es
  unfolding queue_put
  put_nth_new =
      let e : (front + len q) % capacity ≡ rear = omega (
        arith,
        mod-WrapsTo capacity (front + len q),
        ring_len-cases capacity rear front v.rear_lt v.front_lt,
      ) in
      ap (element (queue_put m q src).0 base es) e ∙ element-memcpy_self m base es rear src put_slot

  len-put : len (queue_put m q src).1 ≡ len q + 1
  unfolding queue_put
  len-put =
      let e : add32 rear 1 ≡ rear + 1 = omega (arith, capacity-le-area q v) in
      rw e (ring_len-suc capacity rear front v.rear_lt v.front_lt room)

  pub put-contents :
      contents (queue_put m q src).0 (queue_put m q src).1 ≡ contents m q ++ (slice m src es ∷ [])
  put-contents =
      ap (slice (nth (queue_put m q src).0 (queue_put m q src).1) 0) len-put
      ∙ slice-snoc (nth m q) (nth (queue_put m q src).0 (queue_put m q src).1) (len q) put_nth_old
          put_nth_new

  pub put-IsValid : IsValid (queue_put m q src).1
  unfolding queue_put
  put-IsValid = record {
    nonempty = v.nonempty;
    sized = v.sized;
    small = v.small;
    front_lt = v.front_lt;
    rear_lt = omega (arith, v.nonempty);
  }

  pub put_frame : (a : ℕ) → Outside a base (area q) → (queue_put m q src).0 a ≡ m a
  unfolding queue_put
  put_frame a out =
      memcpy-Outside m (base + es * rear) src es put_slot a
        (omega (arith, element_in es rear capacity v.rear_lt))

-- the queue that `__queue_expand` leaves
abbrev pub expanded : Queue → ℕ → Queue
expanded q nb = record q { rear = len q; front = 0; base = nb; capacity = q.capacity * 2 }

module _ (m : Mem) (q : Queue) (nb : ℕ) (v : IsValid q)
    (apart : Disjoint q.base (area q) nb (area q * 2)) where
  pub len-expanded : len (expanded q nb) ≡ len q
  len-expanded = ground arith

  pub expanded-IsValid : area q * 2 ≤ 2 ^ 31 → IsValid (expanded q nb)
  expanded-IsValid h = record {
    nonempty = omega (arith, v.nonempty);
    sized = v.sized;
    small = omega arith;
    front_lt = omega (arith, v.nonempty);
    rear_lt = omega (arith, ring_len-lt q.capacity q.rear q.front v.rear_lt v.front_lt);
  }

  pub expanded-contents : contents (queue_unroll m q nb) (expanded q nb) ≡ contents m q
  expanded-contents =
      ap (slice (nth (queue_unroll m q nb) (expanded q nb)) 0) len-expanded
      ∙ slice_shift (nth m q) (nth (queue_unroll m q nb) (expanded q nb)) 0 0 (len q) λ i lt.
        simp zero-add (
          ap (element (queue_unroll m q nb) nb q.element_size) (
            mod-eq_of_lt
              (omega (arith, ring_len-lt q.capacity q.rear q.front v.rear_lt v.front_lt)))
          ∙ unroll_nth m q nb v (omega arith) i lt)

  pub expand-eq :
      (alloc : Alloc)
      → area q * 2 ≤ 2 ^ 31
      → alloc (area q * 2) ≡ some nb
      → queue_expand alloc m q ≡ (success, queue_unroll m q nb, expanded q nb)
  unfolding queue_expand
  expand-eq alloc h e =
      let bytes : mul32 (mul32 q.element_size q.capacity) 2 ≡ area q * 2 = omega arith in
      let doubled : mul32 q.capacity 2 ≡ q.capacity * 2 = omega (arith, capacity-le-area q v) in
      rw (bytes, e, queue_expand, doubled, queue_size-len q v) refl

pub expand-none :
    (m : Mem) (q : Queue)
    → IsValid q
    → (alloc : Alloc) → area q * 2 ≤ 2 ^ 31
    → alloc (area q * 2) ≡ none
    → queue_expand alloc m q ≡ (enomem, m, q)
unfolding queue_expand
expand-none m q v alloc h e =
    let b : mul32 (mul32 q.element_size q.capacity) 2 ≡ area q * 2 = omega arith in
    rw (b, e, queue_expand) refl
