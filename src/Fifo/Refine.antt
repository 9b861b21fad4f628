-- ===== src/Fifo/Refine.antt =====
-- A valid `struct fifo` is a queue of bytes: what `fifo_in` and `fifo_out` do to its contents.
use oh_my_os.Base.{
  ℕ, ◌+◌, ◌-◌, ◌%◌, ◌≡◌, refl, ap, arith, Bool-cases, inl, inr, ltb, if◌then◌else◌, tests, success,
  enospc, enoent,
}
use oh_my_os.Memory.{Mem, slice}
use oh_my_os.Memory.Slice.{slice_frame, length-slice}
use oh_my_os.Memory.Copy.{Disjoint, Outside}
use oh_my_os.Fifo.{Fifo, fifo_copy_in, fifo_copy_out, fifo_in, fifo_out, fifo_out_peek, fifo_skip}
use oh_my_os.Fifo.Copy.{copy_in_frame, copy_out_frame}
use oh_my_os.Fifo.Spec.{push, pop, block}
use oh_my_os.Fifo.Contents.{
  ring, contents, pushed, popped, pushed-IsValid, popped-IsValid, fifo_in-room, popped-pop,
  contents-popped,
}
use oh_my_os.Fifo.Inv.{IsValid, len, fifo_len-len, len-cases, fifo_avail-len}

fifo_skip-eq :
    (f : Fifo) (n : ℕ)
    → IsValid f
    → fifo_skip f n ≡ (if ltb (len f) n then (enoent, f) else (success, popped f n))
unfolding fifo_skip
fifo_skip-eq f n v = ground (arith, fifo_len-len f v, fifo_avail-len f v)

module _ (m : Mem) (f : Fifo) (p n : ℕ) (v : IsValid f) where
  fifo_in-eq : fifo_in m f p n ≡ (
      if ltb (f.size - 1) (len f + n)
      then (enospc, m, f)
      else (success, fifo_copy_in m f p n f.in_pos, pushed f n))
  unfolding fifo_in
  fifo_in-eq = ground (arith, fifo_avail-len f v)

  fifo_out-eq : fifo_out m f p n ≡ (
      if ltb (len f) n
      then (enoent, m, f)
      else (success, fifo_copy_out m f p n f.out_pos, popped f n))
  unfolding fifo_out
  fifo_out-eq = ground (arith, fifo_len-len f v, fifo_avail-len f v)

module _ (m : Mem) (f : Fifo) (p n : ℕ) (v : IsValid f) (apart : Disjoint p n f.buffer f.size) where
  -- On a valid fifo, with the caller's block apart from the buffer, `fifo_in` answers and leaves
  -- the contents that the bounded queue of `size - 1` bytes does when the block is pushed, the
  -- fifo stays valid, and only addresses of the buffer are written.
  pub fifo_in_refines :
      let (s, m', f') = fifo_in m f p n in
      ((s, contents m' f') ≡ push (f.size - 1) (contents m f) (slice m p n))
      × IsValid f'
      × ((a : ℕ) → Outside a f.buffer f.size → m' a ≡ m a)
  fifo_in_refines =
      rw (fifo_in-eq m f p n v, length-slice (ring m f) 0 (len f), length-slice m p n)
        (elim (Bool-cases (ltb (f.size - 1) (len f + n))) [
          | inl full ↦ rw full (refl, v, λ a h. refl)
          | inr room ↦ rw room (
            ap (λ xs. (success, xs)) (fifo_in-room m f p n v apart (ground arith)),
            pushed-IsValid f n v,
            copy_in_frame m f p n f.in_pos v v.in_lt (ground arith) apart,
          )
        ])

  -- On a valid fifo, with the caller's block apart from the buffer, `fifo_out` answers, hands over
  -- at `p` and leaves in the fifo what popping `n` bytes off the queue does, the fifo stays valid,
  -- and only the caller's block is written.
  pub fifo_out_refines :
      let (s, m', f') = fifo_out m f p n in
      ((s, block s (slice m' p n), contents m' f') ≡ pop (contents m f) n)
      × IsValid f'
      × ((a : ℕ) → Outside a p n → m' a ≡ m a)
  fifo_out_refines =
      rw (fifo_out-eq m f p n v, length-slice (ring m f) 0 (len f))
        (elim (Bool-cases (ltb (len f) n)) [
          | inl few ↦ rw few (refl, v, λ a h. refl)
          | inr enough ↦ rw enough (
            popped-pop m f p n v apart (omega tests),
            popped-IsValid f n v,
            copy_out_frame m f p n f.out_pos v v.out_lt (omega (tests, len-cases f v)) apart,
          )
        ])

  fifo_out_peek-fifo_out : fifo_out_peek m f p n ≡ ((fifo_out m f p n).0, (fifo_out m f p n).1)
  unfolding fifo_out_peek fifo_out
  fifo_out_peek-fifo_out = ground arith

  -- On a valid fifo, with the caller's block apart from the buffer, `fifo_out_peek` answers and
  -- hands over at `p` what popping `n` bytes off the queue does, the contents of the fifo stay
  -- what they were, and only the caller's block is written.
  pub fifo_out_peek_refines :
      let (s, m') = fifo_out_peek m f p n in
      let (s', xs, _) = pop (contents m f) n in
      (s ≡ s')
      × (block s (slice m' p n) ≡ xs)
      × (contents m' f ≡ contents m f)
      × ((a : ℕ) → Outside a p n → m' a ≡ m a)
  fifo_out_peek_refines =
      let (r, _, frame) = fifo_out_refines in
      rw fifo_out_peek-fifo_out (
        ap (λ t. t.0) r,
        ap (λ t. t.1) r,
        slice_frame (ring m f) (ring (fifo_out m f p n).1 f) 0 (len f)
            (λ a lo hi. frame (f.buffer + (f.out_pos + a) % f.size) (omega arith)),
        frame,
      )

-- On a valid fifo `fifo_skip` answers and leaves in the fifo what popping `n` bytes off the queue
-- does, and the fifo stays valid.
pub fifo_skip_refines :
    (m : Mem) (f : Fifo) (n : ℕ)
    → IsValid f
    → let (s, f') = fifo_skip f n in
      let (s', _, q) = pop (contents m f) n in (s ≡ s') × (contents m f' ≡ q) × IsValid f'
fifo_skip_refines m f n v =
    rw (fifo_skip-eq f n v, length-slice (ring m f) 0 (len f))
      (elim (Bool-cases (ltb (len f) n)) [
        | inl few ↦ rw few (refl, refl, v)
        | inr enough ↦ rw enough (refl, contents-popped m f n v (omega tests), popped-IsValid f n v)
      ])
