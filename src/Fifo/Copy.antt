-- ===== src/Fifo/Copy.antt =====
-- What `fifo_copy_in` and `fifo_copy_out` move, place by place.
use oh_my_os.Base.{ℕ, ◌+◌, ◌-◌, ◌≤◌, ◌<◌, ◌≡◌, inl, inr, min, arith, sub32}
use oh_my_os.Base.Wrap.{WrapsTo}
use oh_my_os.Memory.{Mem, memcpy}
use oh_my_os.Memory.Copy.{Disjoint, Outside, memcpy_inside, memcpy-Outside}
use oh_my_os.Fifo.{Fifo, fifo_copy_in, fifo_copy_out}
use oh_my_os.Fifo.Inv.{IsValid}

module _ (m : Mem) (f : Fifo) (p n off : ℕ) (valid : IsValid f) (off_lt : off < f.size)
    (fits : n ≤ f.size) (apart : Disjoint p n f.buffer f.size) where
  abbrev first : ℕ
  first = min n (sub32 f.size off)

  abbrev m₁ : Mem
  m₁ = memcpy m (f.buffer + off) p first

  -- what `fifo_copy_in` leaves at the place `j` of its `i`-th byte
  pub copy_in_new :
      (i j : ℕ)
      → i < n
      → WrapsTo f.size (off + i) j
      → j < f.size
      → fifo_copy_in m f p n off (f.buffer + j) ≡ m (p + i)
  unfolding fifo_copy_in
  copy_in_new i j h (inl e) lt = ground (
    arith,
    memcpy_inside m (f.buffer + off) p first (omega arith) i,
    memcpy-Outside m₁ f.buffer (p + first) (n - first) (omega arith) (f.buffer + j),
  )
  copy_in_new i j h (inr e) lt = ground (
    arith,
    memcpy-Outside m (f.buffer + off) p first (omega arith) (p + i),
    memcpy_inside m₁ f.buffer (p + first) (n - first) (omega arith) j,
  )

  -- the places behind those bytes keep what they held
  pub copy_in_old :
      (i j : ℕ)
      → n ≤ i
      → i < f.size
      → WrapsTo f.size (off + i) j
      → j < f.size
      → fifo_copy_in m f p n off (f.buffer + j) ≡ m (f.buffer + j)
  unfolding fifo_copy_in
  copy_in_old i j h lt w b = ground (
    arith,
    memcpy-Outside m (f.buffer + off) p first (omega arith) (f.buffer + j),
    memcpy-Outside m₁ f.buffer (p + first) (n - first) (omega arith) (f.buffer + j),
  )

  pub copy_in_frame : (a : ℕ) → Outside a f.buffer f.size → fifo_copy_in m f p n off a ≡ m a
  unfolding fifo_copy_in
  copy_in_frame a h = ground (
    arith,
    memcpy-Outside m (f.buffer + off) p first (omega arith) a,
    memcpy-Outside m₁ f.buffer (p + first) (n - first) (omega arith) a,
  )

  abbrev m₂ : Mem
  m₂ = memcpy m p (f.buffer + off) first

  -- the `i`-th byte that `fifo_copy_out` hands over
  pub copy_out_new :
      (i j : ℕ)
      → i < n
      → WrapsTo f.size (off + i) j
      → j < f.size
      → fifo_copy_out m f p n off (p + i) ≡ m (f.buffer + j)
  unfolding fifo_copy_out
  copy_out_new i j h (inl e) lt = ground (
    arith,
    memcpy_inside m p (f.buffer + off) first (omega arith) i,
    memcpy-Outside m₂ (p + first) f.buffer (n - first) (omega arith) (p + i),
  )
  copy_out_new i j h (inr e) lt = ground (
    arith,
    memcpy-Outside m p (f.buffer + off) first (omega arith) (f.buffer + j),
    memcpy_inside m₂ (p + first) f.buffer (n - first) (omega arith) j,
  )

  pub copy_out_frame : (a : ℕ) → Outside a p n → fifo_copy_out m f p n off a ≡ m a
  unfolding fifo_copy_out
  copy_out_frame a h = ground (
    arith,
    memcpy-Outside m p (f.buffer + off) first (omega arith) a,
    memcpy-Outside m₂ (p + first) f.buffer (n - first) (omega arith) a,
  )
