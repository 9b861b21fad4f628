-- ===== src/Queue/Expand.antt =====
-- `__queue_expand` moves the elements to the new slots, in order.
use oh_my_os.Base.{
  ℕ, ◌+◌, ◌-◌, ◌*◌, ◌^◌, ◌≤◌, ◌<◌, ◌≡◌, ap, sym, subst, ◌∙◌, Bool-cases, inl, inr, arith, ltb,
  if◌then◌else◌, tests, mul32,
}
use oh_my_os.Base.Wrap.{ring_len-lt, ring_len-cases, mod-WrapsTo}
use oh_my_os.Memory.{Mem, memcpy}
use oh_my_os.Memory.Copy.{Disjoint, Outside, memcpy-Outside}
use oh_my_os.Memory.Elements.{
  element, element-add, element_in, element-memcpy_run, element-memcpy_apart,
}
use oh_my_os.Queue.{Queue, queue_unroll}
use oh_my_os.Queue.Inv.{IsValid, area, len, nth, capacity-le-area, queue_size-len}
use native.Mathlib.Decide.{dec_lt}
use native.Mathlib.Nat.{mod-eq_of_lt}

part-le : (es k n : ℕ) → k ≤ n → es * k ≤ es * n
part-le es k n h = grind arith

mul32-part : (es k n : ℕ) → k ≤ n → es * n ≤ 2 ^ 31 → mul32 k es ≡ es * k
mul32-part es k n h b = omega (arith, part-le es k n h)

module _ (m : Mem) (q : Queue) (new_base : ℕ) (v : IsValid q)
    (apart : Disjoint q.base (area q) new_base (area q)) where
  open q use {base, element_size as es, front, rear, capacity}

  abbrev head : ℕ
  head = capacity - front

  -- the copies with no product that wraps
  unroll-eq : queue_unroll m q new_base ≡ (
      if ltb front rear
      then memcpy m new_base (base + es * front) (es * len q)
      else memcpy
          (memcpy m new_base (base + es * front) (es * head))
          (new_base + es * head)
          base
          (es * rear))
  unfolding queue_unroll
  unroll-eq = ground (
    arith,
    queue_size-len q v,
    ring_len-lt capacity rear front v.rear_lt v.front_lt,
    capacity-le-area q v,
    mul32-part es (len q) capacity,
    mul32-part es rear capacity,
    mul32-part es head capacity,
  )

  front_part : (i : ℕ) → front + i < capacity → element m (base + es * front) es i ≡ nth m q i
  front_part i h = element-add m base es front i ∙ ap (element m base es) (sym (mod-eq_of_lt h))

  unroll_straight :
      front < rear
      → (i : ℕ) → i < len q
      → element (memcpy m new_base (base + es * front) (es * len q)) new_base es i ≡ nth m q i
  unroll_straight h i lt =
      let cases = ring_len-cases capacity rear front v.rear_lt v.front_lt in
      let inside = part-le es (front + len q) capacity (omega (arith, cases)) in
      element-memcpy_run m new_base (base + es * front) es (len q) (omega arith) i lt
      ∙ front_part i (omega (arith, cases))

  -- The elements up to the end of the old slots are `head` many.
  module _ (head : ℕ) (to_end : front + head ≡ capacity) (turned : rear ≤ front) where
    abbrev m₁ : Mem
    m₁ = memcpy m new_base (base + es * front) (es * head)

    abbrev both : Mem
    both = memcpy m₁ (new_base + es * head) base (es * rear)

    second_apart : Disjoint base (es * rear) (new_base + es * head) (es * rear)
    second_apart = omega (arith, part-le es (head + rear) capacity (omega arith))

    first_apart : Disjoint (base + es * front) (es * head) new_base (es * head)
    first_apart = omega (arith, part-le es (front + head) capacity (omega arith))

    unroll_head : (i : ℕ) → i < head → element both new_base es i ≡ nth m q i
    unroll_head i lt =
        element-memcpy_apart m₁ (new_base + es * head) base es rear second_apart new_base i
          (omega (arith, element_in es i head lt))
        ∙ element-memcpy_run m new_base (base + es * front) es head first_apart i lt
        ∙ front_part i (omega arith)

    unroll_tail : (i : ℕ) → i < rear → element both new_base es (head + i) ≡ nth m q (head + i)
    unroll_tail i lt =
        sym (element-add both new_base es head i)
        ∙ element-memcpy_run m₁ (new_base + es * head) base es rear second_apart i lt
        ∙ element-memcpy_apart m new_base (base + es * front) es head first_apart base i (
            omega (
              arith,
              element_in es i rear lt,
              part-le es rear capacity (omega arith),
              part-le es head capacity (omega arith),
            ))
        ∙ ap (element m base es) (omega (arith, mod-WrapsTo capacity (front + (head + i))))

    both_frame : (a : ℕ) → Outside a new_base (area q) → both a ≡ m a
    both_frame a out =
        let inside = part-le es (head + rear) capacity (omega arith) in
        memcpy-Outside m₁ (new_base + es * head) base (es * rear) second_apart a (omega arith)
        ∙ memcpy-Outside m new_base (base + es * front) (es * head) first_apart a (omega arith)

  -- Slot `i` of the new area holds the `i`-th element from the front.
  pub unroll_nth :
      (i : ℕ) → i < len q → element (queue_unroll m q new_base) new_base es i ≡ nth m q i
  unroll_nth i lt =
      let cases = ring_len-cases capacity rear front v.rear_lt v.front_lt in
      rw unroll-eq (elim (Bool-cases (ltb front rear)) [
        | inl h ↦ rw h (unroll_straight (omega tests) i lt)
        | inr h ↦ rw h (elim (dec_lt i head) [
          | yes p ↦ unroll_head head (omega arith) (omega tests) i p
          | no p ↦
              let e : head + (i - head) ≡ i = omega arith in
              subst (λ k. element (both head (omega arith) (omega tests)) new_base es k ≡ nth m q k)
                e (unroll_tail head (omega arith) (omega tests) (i - head) (omega (arith, cases)))
        ])
      ])

  -- The copies write in the new area alone.
  pub unroll_frame : (a : ℕ) → Outside a new_base (area q) → queue_unroll m q new_base a ≡ m a
  unroll_frame a out =
      let cases = ring_len-cases capacity rear front v.rear_lt v.front_lt in
      rw unroll-eq (elim (Bool-cases (ltb front rear)) [
        | inl h ↦ rw h (
            let inside = part-le es (front + len q) capacity (omega (tests, cases)) in
            let short = part-le es (len q) capacity (omega (arith, cases)) in
            memcpy-Outside m new_base (base + es * front) (es * len q) (omega arith) a
              (omega arith))
        | inr h ↦ rw h (both_frame head (omega arith) (omega tests) a out)
      ])
