-- ===== src/Vector/Put.antt =====
-- What writing one element, and moving to new slots, does to a vector.
use oh_my_os.Base.{
  ℕ, ◌+◌, ◌*◌, ◌^◌, ◌≤◌, ◌<◌, ◌≡◌, ◌∙◌, ◌++◌, [], ◌∷◌, refl, ap, none, some, arith, mul32, success,
  enomem,
}
use oh_my_os.Memory.{Mem, slice, memcpy}
use oh_my_os.Memory.Copy.{memcpy-Outside, Disjoint, Outside}
use oh_my_os.Memory.Slice.{slice_shift, slice-snoc}
use oh_my_os.Memory.Elements.{
  element_in, element-memcpy_self, element-memcpy_ne, element-memcpy_run,
}
use oh_my_os.Vector.{Vector, Alloc, vector_expand, vector_put}
use oh_my_os.Vector.Inv.{IsValid, area, nth, contents, capacity-le-area}
use native.Mathlib.Nat.{zero-add}

module _ (m : Mem) (v : Vector) (src : ℕ) (h : IsValid v) (room : v.size < v.capacity)
    (apart : Disjoint src v.element_size v.base (area v)) where
  open v use {base, element_size as es, size, capacity}

  put_slot : Disjoint src es (base + es * size) es
  put_slot = omega (arith, element_in es size capacity room)

  size-put : (vector_put m v src).1.size ≡ size + 1
  unfolding vector_put
  size-put = omega (arith, capacity-le-area v h, h.small)

  pub put-contents :
      contents (vector_put m v src).0 (vector_put m v src).1 ≡ contents m v ++ (slice m src es ∷ [])
  put-contents =
      ap (slice (nth (vector_put m v src).0 (vector_put m v src).1) 0) size-put
      ∙ slice-snoc (nth m v) (nth (vector_put m v src).0 (vector_put m v src).1) size
          (unfold vector_put in
            λ i lt. element-memcpy_ne m base es size src put_slot i (omega arith))
          (unfold vector_put in element-memcpy_self m base es size src put_slot)

  pub put-IsValid : IsValid (vector_put m v src).1
  put-IsValid = record {
    nonempty = unfold vector_put in h.nonempty;
    sized = unfold vector_put in h.sized;
    small = unfold vector_put in h.small;
    size_le = unfold vector_put in omega (arith, capacity-le-area v h, h.small);
  }

  pub put_frame : (a : ℕ) → Outside a base (area v) → (vector_put m v src).0 a ≡ m a
  unfolding vector_put
  put_frame a out =
      memcpy-Outside m (base + es * size) src es put_slot a
        (omega (arith, element_in es size capacity room))

-- what `__vector_expand` leaves
abbrev pub expanded : Vector → ℕ → Vector
expanded v nb = record v { base = nb; capacity = v.capacity * 2 }

abbrev pub copied : Mem → Vector → ℕ → Mem
copied m v nb = memcpy m nb v.base (v.element_size * v.size)

module _ (m : Mem) (v : Vector) (nb : ℕ) (h : IsValid v)
    (apart : Disjoint v.base (area v) nb (area v * 2)) where
  used-le-area : v.element_size * v.size ≤ area v
  used-le-area = grind (arith, h.size_le)

  pub expanded-IsValid : area v * 2 ≤ 2 ^ 31 → IsValid (expanded v nb)
  expanded-IsValid b = record {
    nonempty = omega (arith, h.nonempty);
    sized = h.sized;
    small = omega arith;
    size_le = omega (arith, h.size_le);
  }

  pub copied-contents : contents (copied m v nb) (expanded v nb) ≡ contents m v
  copied-contents = slice_shift (nth m v) (nth (copied m v nb) (expanded v nb)) 0 0 v.size λ i lt.
      simp zero-add
        (element-memcpy_run m nb v.base v.element_size v.size (omega (arith, used-le-area)) i lt)

  pub copied_frame : (a : ℕ) → Outside a nb (area v * 2) → copied m v nb a ≡ m a
  copied_frame a out =
      memcpy-Outside m nb v.base (v.element_size * v.size) (omega (arith, used-le-area)) a
        (omega (arith, used-le-area))

  pub expand-eq :
      (alloc : Alloc)
      → area v * 2 ≤ 2 ^ 31
      → alloc (area v * 2) ≡ some nb
      → vector_expand alloc m v ≡ (success, copied m v nb, expanded v nb)
  unfolding vector_expand
  expand-eq alloc b e =
      let bytes : mul32 (mul32 v.element_size v.capacity) 2 ≡ area v * 2 = omega arith in
      let used : mul32 v.element_size v.size ≡ v.element_size * v.size =
        omega (arith, used-le-area) in
      let doubled : mul32 v.capacity 2 ≡ v.capacity * 2 = omega (arith, capacity-le-area v h) in
      rw (bytes, e, vector_expand, used, doubled) refl

pub expand-none :
    (m : Mem) (v : Vector)
    → IsValid v
    → (alloc : Alloc) → area v * 2 ≤ 2 ^ 31
    → alloc (area v * 2) ≡ none
    → vector_expand alloc m v ≡ (enomem, m, v)
unfolding vector_expand
expand-none m v h alloc b e =
    let bytes : mul32 (mul32 v.element_size v.capacity) 2 ≡ area v * 2 = omega arith in
    rw (bytes, e, vector_expand) refl
