-- ===== src/Fifo/Contents.antt =====
-- The bytes that a fifo holds, and how pushing and popping change them.
use oh_my_os.Base.{
  ℕ, ◌+◌, ◌-◌, ◌%◌, ◌≤◌, ◌<◌, ◌≡◌, ap, ap₂, ◌∙◌, sym, List, ◌++◌, arith, take, drop, Status,
  success,
}
use oh_my_os.Base.Wrap.{mod-WrapsTo}
use oh_my_os.Memory.{Mem, slice}
use oh_my_os.Memory.Slice.{slice_shift, slice-append, take-slice, drop-slice}
use oh_my_os.Memory.Copy.{Disjoint}
use oh_my_os.Fifo.{Fifo, fifo_copy_in, fifo_copy_out}
use oh_my_os.Fifo.Copy.{copy_in_new, copy_in_old, copy_out_new, copy_out_frame}
use native.Mathlib.Nat.{zero-add, mod-add-mod, add_assoc}
use oh_my_os.Fifo.Inv.{IsValid, len, len-cases}

-- the buffer, read from the oldest byte on
abbrev pub ring : Mem → Fifo → Mem
ring m f i = m (f.buffer + (f.out_pos + i) % f.size)

-- the bytes that a fifo holds, the oldest first
abbrev pub contents : Mem → Fifo → List ℕ
contents m f = slice (ring m f) 0 (len f)

abbrev pub pushed : Fifo → ℕ → Fifo
pushed f n = record f { in_pos = (f.in_pos + n) % f.size }

abbrev pub popped : Fifo → ℕ → Fifo
popped f n = record f { out_pos = (f.out_pos + n) % f.size }

module _ (f : Fifo) (n : ℕ) (v : IsValid f) where
  pub pushed-IsValid : IsValid (pushed f n)
  pushed-IsValid = omega arith

  pub popped-IsValid : IsValid (popped f n)
  popped-IsValid = omega arith

  pub len-pushed : len f + n < f.size → len (pushed f n) ≡ len f + n
  len-pushed h = ground (arith, mod-WrapsTo f.size (f.in_pos + n))

  pub len-popped : n ≤ len f → len (popped f n) + n ≡ len f
  len-popped h = ground (arith, mod-WrapsTo f.size (f.out_pos + n))

-- The bytes behind those that are popped.
ring-popped : (m : Mem) (f : Fifo) (n i : ℕ) → ring m (popped f n) i ≡ ring m f (n + i)
ring-popped m f n i =
    ap (λ k. m (f.buffer + k))
      (mod-add-mod (f.out_pos + n) f.size i ∙ ap (λ k. k % f.size) (add_assoc f.out_pos n i))

pub contents-popped :
    (m : Mem) (f : Fifo) (n : ℕ)
    → IsValid f
    → n ≤ len f
    → contents m (popped f n) ≡ drop n (contents m f)
contents-popped m f n v h =
    let e : len (popped f n) ≡ len f - n = omega (arith, len-popped f n v h) in
    slice_shift (ring m f) (ring m (popped f n)) 0 (0 + n) (len (popped f n))
      (λ i lt. simp zero-add (ring-popped m f n i))
    ∙ ap (slice (ring m f) (0 + n)) e
    ∙ sym (drop-slice (ring m f) 0 n (len f) h)

module _ (m : Mem) (f : Fifo) (p n : ℕ) (v : IsValid f) (apart : Disjoint p n f.buffer f.size) where
  ring-copy_in_old :
      len f + n < f.size
      → (i : ℕ) → i < len f
      → fifo_copy_in m f p n f.in_pos (f.buffer + (f.out_pos + i) % f.size) ≡ ring m f i
  ring-copy_in_old room i h =
      let w = mod-WrapsTo f.size (f.out_pos + i) (omega arith) in
      let j = (f.out_pos + i) % f.size in
      copy_in_old m f p n f.in_pos v v.in_lt (omega arith) apart (i + f.size - len f) j
        (omega arith) (omega arith) (omega (arith, len-cases f v)) (omega arith)

  ring-copy_in_new :
      len f + n < f.size
      → (i : ℕ) → i < n
      → fifo_copy_in m f p n f.in_pos (f.buffer + (f.out_pos + (len f + i)) % f.size) ≡ m (p + i)
  ring-copy_in_new room i h =
      let w = mod-WrapsTo f.size (f.out_pos + (len f + i)) (omega arith) in
      let j = (f.out_pos + (len f + i)) % f.size in
      copy_in_new m f p n f.in_pos v v.in_lt (omega arith) apart i j h
        (omega (arith, len-cases f v)) (omega arith)

  -- With room for `n` bytes `fifo_in` appends those at `p` and writes in the buffer alone.
  pub fifo_in-room :
      len f + n < f.size
      → contents (fifo_copy_in m f p n f.in_pos) (pushed f n) ≡ contents m f ++ slice m p n
  fifo_in-room room =
      let m' = fifo_copy_in m f p n f.in_pos in
      rw (len-pushed f n v room, slice-append (ring m' (pushed f n)) 0 (len f) n)
        (ap₂ ◌++◌
          (slice_shift (ring m f) (ring m' (pushed f n)) 0 0 (len f)
            λ i h. rw zero-add (ring-copy_in_old room i h))
          (slice_shift m (ring m' (pushed f n)) (0 + len f) p n
            λ i h. rw zero-add (ring-copy_in_new room i h)))

  -- `fifo_copy_out` hands over the oldest bytes, in order.
  fifo_out-front : n ≤ len f → slice (fifo_copy_out m f p n f.out_pos) p n ≡ slice (ring m f) 0 n
  fifo_out-front h = slice_shift (ring m f) (fifo_copy_out m f p n f.out_pos) p 0 n λ i lt.
      rw zero-add (
        copy_out_new m f p n f.out_pos v v.out_lt (omega (arith, len-cases f v)) apart i
          ((f.out_pos + i) % f.size) lt
          (mod-WrapsTo f.size (f.out_pos + i) (omega (arith, len-cases f v))) (omega arith))

  fifo_out-rest :
      n ≤ len f
      → contents (fifo_copy_out m f p n f.out_pos) (popped f n)
        ≡ slice (ring m f) (0 + n) (len (popped f n))
  fifo_out-rest h =
      slice_shift (ring m f) (ring (fifo_copy_out m f p n f.out_pos) (popped f n)) 0 (0 + n)
        (len (popped f n))
        λ i lt. simp zero-add (
          copy_out_frame m f p n f.out_pos v v.out_lt (omega (arith, len-cases f v)) apart
            (f.buffer + ((f.out_pos + n) % f.size + i) % f.size) (omega arith)
          ∙ ring-popped m f n i)

  pub popped-pop :
      n ≤ len f
      → ◌≡◌ {A = Status × List ℕ × List ℕ}
          (
            success,
            slice (fifo_copy_out m f p n f.out_pos) p n,
            contents (fifo_copy_out m f p n f.out_pos) (popped f n),
          )
          (success, take n (contents m f), drop n (contents m f))
  popped-pop h =
      let e : len (popped f n) ≡ len f - n = omega (arith, len-popped f n v h) in
      ap₂ (λ xs ys. (success, xs, ys))
        (fifo_out-front h ∙ sym (take-slice (ring m f) 0 n (len f) h))
        (fifo_out-rest h
          ∙ ap (slice (ring m f) (0 + n)) e
          ∙ sym (drop-slice (ring m f) 0 n (len f) h))
