-- ===== src/Vmalloc/Alloc.antt =====
-- `alloc_vma` of mm/vmalloc.c.
pub mod Take
pub mod Split
use oh_my_os.Base.{
  ℕ, zero, suc, ◌+◌, ◌-◌, ◌*◌, ◌/◌, ◌%◌, ◌^◌, ◌<◌, ◌≤◌, ◌≡◌, ◌≢◌, ◌⊎◌, inl, inr, ◌∙◌, sym, ap, refl,
  subst, arith, Bool, true, false, not, ◌&&◌, Bool-cases, ltb, ltb→lt, ltb→ge, lt→ltb, ge→ltb, leb,
  le→leb, Option, none, some, List, [], ◌∷◌, ◌==◌, if◌then◌else◌, add32, sub32, update, update_ne,
  update_self,
}
use oh_my_os.RbTree.Shape.{Tree, IsIn, count, size}
use oh_my_os.RbTree.Order.{occurs}
use oh_my_os.Bits.{ilog2_roundup}
use oh_my_os.Bits.Power.{ilog2_roundup_least}
use oh_my_os.Vmalloc.{
  page_size, vmalloc_start, vmalloc_end, max_vma_order, Vmas, vma_length, lock, unlock, split_vma,
  take_vma, serve, Answer, area, null, unset, first_free, alloc_vma,
}
use oh_my_os.Vmalloc.Tiles.{Tiles, Tiles-bounds}
use oh_my_os.Vmalloc.Areas.{Listed, IsMapped, IsVmalloc, first_free-Search}
use oh_my_os.Vmalloc.Alloc.Take.{take_vma-IsVmalloc}
use oh_my_os.Vmalloc.Alloc.Split.{split_vma-IsMapped}
use native.Mathlib.Nat.{pow-le-pow_right}

-- The area `v` was free and is the caller's, with `len` bytes; the other areas are as before.
pub record IsGranted (s s' : Vmas) (v len : ℕ) : Type 0 where
  pub was_free : (0 < occurs v s.vma_list) × (s.free v ≡ true)
  pub is_taken : (0 < occurs v s'.vma_list) × (s'.free v ≡ false)
  pub length : s'.end v ≡ s'.start v + len
  pub others :
      (z : ℕ)
      → 0 < occurs z s.vma_list
      → z ≢ v
      → (0 < occurs z s'.vma_list)
        × (s'.start z ≡ s.start z)
        × (s'.end z ≡ s.end z)
        × (s'.free z ≡ s.free z)

abbrev pub Granted : Vmas → ℕ → Option (Answer × Vmas) → Type 0
Granted s len r =
    (v : ℕ) × (s' : Vmas) × (t' : Tree) × (r ≡ some (area v, s'))
    × IsVmalloc s' t'
    × IsGranted s s' v len

pow_mono : (i j : ℕ) → i ≤ j → 2 ^ i ≤ 2 ^ j
pow_mono i j h = pow-le-pow_right (omega arith) h

module _ (fuel b n len : ℕ) (s : Vmas) (t : Tree) (m : IsMapped s t) (listed : Listed s (λ _. Unit))
    (some_len : 0 < len) (pages : len % page_size ≡ 0) (area_fresh : occurs b s.vma_list ≡ 0)
    (n_ne : n ≢ 0) (node_fresh : count n t ≡ 0) (enough : size t + 1 < fuel) where
  abbrev from_split : ℕ → Option Vmas → Option (Answer × Vmas)
  from_split v none = none
  from_split v (some s₁) = take_vma fuel (some n) v s₁

  -- The area has its length.
  granted :
      (s₁ : Vmas)
      → IsMapped s₁ t
      → (v : ℕ) → 0 < occurs v s₁.vma_list
      → s₁.free v ≡ true
      → Listed s₁ (λ z. z ≢ v)
      → s₁.end v ≡ s₁.start v + len
      → 0 < occurs v s.vma_list
      → s.free v ≡ true
      → ((z : ℕ)
          → 0 < occurs z s.vma_list
          → z ≢ v
          → (0 < occurs z s₁.vma_list)
            × (s₁.start z ≡ s.start z)
            × (s₁.end z ≡ s.end z)
            × (s₁.free z ≡ s.free z))
      → Granted s len (take_vma fuel (some n) v s₁)
  granted s₁ m₁ v inside₁ free₁ listed₁ length₁ inside free same =
      let (s', t', run, good, starts, ends, frees, list) =
        take_vma-IsVmalloc s₁ t m₁ v inside₁ free₁ fuel n n_ne node_fresh listed₁ enough in
      let at : (z : ℕ) (f g : ℕ → ℕ) → f ≡ g → f z ≡ g z = λ z f g e. ap (λ (h : ℕ → ℕ). h z) e in
      let still : (z : ℕ) → 0 < occurs z s₁.vma_list → 0 < occurs z s'.vma_list =
        λ z i. subst (λ (xs : List ℕ). 0 < occurs z xs) (sym list) i in
      (
        v,
        s',
        t',
        run,
        good,
        record {
          was_free = (inside, free);
          is_taken =
              (still v inside₁, ap (λ (h : ℕ → Bool). h v) frees ∙ update_self s₁.free v false);
          length = omega (arith, at v s'.end s₁.end ends, at v s'.start s₁.start starts, length₁);
          others = λ z i ne.
              let (there, es, ee, ef) = same z i ne in
              (
                still z there,
                at z s'.start s₁.start starts ∙ es,
                at z s'.end s₁.end ends ∙ ee,
                ap (λ (h : ℕ → Bool). h z) frees ∙ update_ne s₁.free v false z ne ∙ ef,
              );
        },
      )

  -- The area that the search found is large enough.
  module _ (v : ℕ) (inside : 0 < occurs v s.vma_list) (free : s.free v ≡ true)
      (fits : len ≤ s.end v - s.start v) where
    whole : s.end v - s.start v < len + page_size → Granted s len (take_vma fuel (some n) v s)
    whole short =
        let (_, lt, _, low_al, end_al) =
          Tiles-bounds s.start s.end vmalloc_start s.vma_list vmalloc_end refl m.tiles v inside in
        granted s m v inside free (λ i z _ h. listed i z tt h)
          (omega (arith, fits, short, low_al, end_al, pages, lt)) inside free
          (λ z i ne. (i, refl, refl, refl))

    part :
        len + page_size ≤ s.end v - s.start v → Granted s len (from_split v (split_vma len v b s))
    part long =
        let (s₁, run, m₁, listed₁, inside₁, free₁, length₁, same) =
          split_vma-IsMapped s t m listed v b len inside free area_fresh some_len pages long in
        subst (λ r. Granted s len (from_split v r)) (sym run)
          (granted s₁ m₁ v inside₁ free₁ listed₁ length₁ inside free same)

    serve-Granted : Granted s len (serve fuel (some b) (some n) len v s)
    unfolding serve vma_length
    serve-Granted =
        let (_, lt, top, _, _) =
          Tiles-bounds s.start s.end vmalloc_start s.vma_list vmalloc_end refl m.tiles v inside in
        let whole_length : sub32 (s.end v) (s.start v) ≡ s.end v - s.start v =
          omega (arith, lt, top) in
        let more : add32 len page_size ≡ len + page_size = omega (arith, fits, top) in
        rw (free, whole_length, more, le→leb len (s.end v - s.start v) fits)
          (elim (Bool-cases (ltb (s.end v - s.start v) (len + page_size))) [
            | inl short ↦ rw short (whole (ltb→lt (s.end v - s.start v) (len + page_size) short))
            | inr long ↦ rw long (part (ltb→ge (s.end v - s.start v) (len + page_size) long))
          ])

order_fits :
    (len size i : ℕ)
    → 0 < len
    → len % page_size ≡ 0
    → len < 2 ^ 32
    → ilog2_roundup (len / page_size) ≤ i
    → 2 ^ i * page_size ≤ size
    → len ≤ size
order_fits len size i some_len pages word le fits =
    let (up, _) =
      ilog2_roundup_least (len / page_size) (omega (arith, some_len, pages))
        (omega (arith, word)) in
    omega (arith, pages, up, pow_mono (ilog2_roundup (len / page_size)) i le, fits)

unlocked_grant :
    (s : Vmas) (len : ℕ) (r : Option (Answer × Vmas))
    → Granted (record s { locked = true }) len r
    → Granted s len r
unlocked_grant s len r (v, s', t', run, good, g) = (
  v,
  s',
  t',
  run,
  good,
  record { was_free = g.was_free; is_taken = g.is_taken; length = g.length; others = g.others },
)

lock_free : (s : Vmas) → s.locked ≡ false → lock s ≡ some (record s { locked = true })
unfolding lock
lock_free s e = ap (λ l. if l then none else some (record s { locked = true })) e

not_found :
    (fuel : ℕ) (buddy answer : Option ℕ) (len : ℕ) (s s₁ : Vmas)
    → lock s ≡ some s₁
    → first_free
        (max_vma_order + 1 - ilog2_roundup (len / page_size))
        (ilog2_roundup (len / page_size))
        s₁.free_vma_lists
      ≡ none
    → alloc_vma fuel buddy answer len s ≡ some (unset, record s₁ { locked = false })
unfolding alloc_vma unlock
not_found fuel buddy answer len s s₁ e f = rw (e, alloc_vma, f) refl

found :
    (fuel : ℕ) (buddy answer : Option ℕ) (len : ℕ) (s s₁ : Vmas) (v : ℕ)
    → lock s ≡ some s₁
    → first_free
        (max_vma_order + 1 - ilog2_roundup (len / page_size))
        (ilog2_roundup (len / page_size))
        s₁.free_vma_lists
      ≡ some v
    → alloc_vma fuel buddy answer len s ≡ serve fuel buddy answer len v s₁
unfolding alloc_vma
found fuel buddy answer len s s₁ v e f = rw (e, alloc_vma, f) refl

-- For a length of whole pages, with fuel above the number of nodes of the tree and one more, and with the
-- addresses that `kmalloc` gives not in use, `alloc_vma` leaves the state as it was and returns a pointer
-- that it never set, where the free lists from the order of the length on are empty; else it returns an
-- area that was free, that has exactly this length and that is not free any more, and leaves the
-- others. The areas still cover all addresses from VMALLOC_START to VMALLOC_END without a gap or an
-- overlap, and the tree is a red-black tree of exactly the areas that are not free.
pub alloc_vma-Granted :
    (fuel b n len : ℕ) (s : Vmas) (t : Tree)
    → IsVmalloc s t
    → 0 < len
    → len % page_size ≡ 0
    → len < 2 ^ 32
    → occurs b s.vma_list ≡ 0
    → n ≢ 0
    → count n t ≡ 0
    → size t + 1 < fuel
    → ((alloc_vma fuel (some b) (some n) len s ≡ some (unset, s))
        × ((i : ℕ)
            → ilog2_roundup (len / page_size) ≤ i
            → i ≤ max_vma_order
            → s.free_vma_lists i ≡ []))
      ⊎ Granted s len (alloc_vma fuel (some b) (some n) len s)
alloc_vma-Granted fuel b n len s t good some_len pages word area_fresh n_ne node_fresh enough =
    let order = ilog2_roundup (len / page_size) in
    let m : IsMapped (record s { locked = true }) t = record {
      tiles = good.mapped.tiles;
      once = good.mapped.once;
      listed_once = good.mapped.listed_once;
      tree = good.mapped.tree;
      used = good.mapped.used;
      stored = good.mapped.stored;
    } in
    let held : Vmas = record s { locked = true } in
    let locks = lock_free s good.unlocked in
    elim (first_free-Search (max_vma_order + 1 - order) order s.free_vma_lists) [
      | inl (e, empty) ↦ inl (
        not_found fuel (some b) (some n) len s held locks e
            ∙ ap (λ l. some (unset, record s { locked = l })) (sym good.unlocked),
        λ i le top. empty i le (omega (arith, le, top)),
      )
      | inr (v, e, (i, le, there)) ↦
          (let (inside, free, fits) = good.listed i v tt there in
            inr (
              subst (Granted s len) (sym (found fuel (some b) (some n) len s held v locks e)) (
                unlocked_grant s len (serve fuel (some b) (some n) len v held) (
                  serve-Granted fuel b n len held t m good.listed some_len pages area_fresh n_ne
                    node_fresh enough v inside free
                    (order_fits len (s.end v - s.start v) i some_len pages word le fits)))))
    ]
