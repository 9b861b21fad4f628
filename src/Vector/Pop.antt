-- ===== src/Vector/Pop.antt =====
-- `__vector_pop` takes the last element, and `__vector_at` reads any.
use oh_my_os.Base.{
  ℕ, ◌+◌, ◌-◌, ◌*◌, ◌<◌, ◌≡◌, ◌∙◌, sym, ◌++◌, [], ◌∷◌, refl, ap, some, Bool-cases, inl, inr, List,
  arith, ==→eq, ==→ne, lt→ltb, ◌==◌, Status, success, enoent,
}
use oh_my_os.Memory.{Mem, slice, memcpy}
use oh_my_os.Memory.Copy.{memcpy_inside, memcpy-Outside, Disjoint, Outside}
use oh_my_os.Memory.Slice.{slice_shift, slice-snoc, slice_zero}
use oh_my_os.Memory.Elements.{element_in, element_frame}
use oh_my_os.Vector.{Vector, vector_pop, vector_at}
use oh_my_os.Vector.Inv.{IsValid, area, nth, contents}

module _ (m : Mem) (v : Vector) (out : ℕ) (h : IsValid v)
    (apart : Disjoint out v.element_size v.base (area v)) (i : ℕ) (lt : i < v.size) where
  open v use {base, element_size as es, size, capacity}

  from_slot : Disjoint (base + es * i) es out es
  from_slot = omega (arith, element_in es i capacity (omega (arith, h.size_le)))

  handed_out : slice (memcpy m out (base + es * i) es) out es ≡ nth m v i
  handed_out =
      slice_shift m (memcpy m out (base + es * i) es) out (base + es * i) es
        (memcpy_inside m out (base + es * i) es from_slot)

  kept : (k : ℕ) → k < capacity → nth (memcpy m out (base + es * i) es) v k ≡ nth m v k
  kept k less = element_frame m (memcpy m out (base + es * i) es) base es k λ a lo hi.
      memcpy-Outside m out (base + es * i) es from_slot a
        (omega (arith, element_in es k capacity less))

  -- On a valid vector, with the place for the element apart from the slots, `__vector_at` of an
  -- index below the size hands over that element, and writes at that place alone.
  pub vector_at_lem :
      (m' : Mem) × (vector_at m v i out ≡ some m')
      × (slice m' out es ≡ nth m v i)
      × ((a : ℕ) → Outside a out es → m' a ≡ m a)
  unfolding vector_at
  vector_at_lem = (
    memcpy m out (base + es * i) es,
    rw (lt→ltb i size lt) refl,
    handed_out,
    memcpy-Outside m out (base + es * i) es from_slot,
  )

-- The outcome of `__vector_pop`: the answer, the element handed over, and the elements kept.
pub data Popped (xs : List (List ℕ)) : Status → List ℕ → List (List ℕ) → Type 0 where
  nothing : {x : List ℕ} → xs ≡ [] → Popped xs enoent x xs
  last : {x : List ℕ} {ys : List (List ℕ)} → xs ≡ ys ++ (x ∷ []) → Popped xs success x ys

module _ (m : Mem) (v : Vector) (out : ℕ) (h : IsValid v)
    (apart : Disjoint out v.element_size v.base (area v)) where
  -- On a valid vector, with the place for the element apart from the slots, `__vector_pop` hands
  -- over at `out` the last element and keeps those before it; on an empty vector it answers ENOENT
  -- and keeps the elements. The vector stays valid, and only the place at `out` is written.
  pub vector_pop_refines :
      let (s, m', v') = vector_pop m v out in
      Popped (contents m v) s (slice m' out v.element_size) (contents m' v')
      × IsValid v'
      × ((a : ℕ) → Outside a out v.element_size → m' a ≡ m a)
  unfolding vector_pop
  vector_pop_refines = elim (Bool-cases (v.size == 0)) [
    | inl e ↦ rw e (
      nothing (ap (slice (nth m v) 0) (==→eq v.size 0 e) ∙ slice_zero (nth m v) 0),
      h,
      λ a out. refl,
    )
    | inr ne ↦
        let i = v.size - 1 in
        let lt : i < v.size = omega (arith, ==→ne v.size 0 ne) in
        let n : v.size ≡ i + 1 = omega arith in
        rw ne (
          last (
              ap (slice (nth m v) 0) n
              ∙ slice-snoc (nth (memcpy m out (v.base + v.element_size * i) v.element_size) v)
                  (nth m v) i
                  (λ k less. sym (kept m v out h apart i lt k (omega (arith, h.size_le))))
                  (sym (handed_out m v out h apart i lt))),
          record {
            nonempty = h.nonempty;
            sized = h.sized;
            small = h.small;
            size_le = omega (arith, h.size_le);
          },
          memcpy-Outside m out (v.base + v.element_size * i) v.element_size
              (from_slot m v out h apart i lt),
        )
  ]
