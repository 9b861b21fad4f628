-- ===== src/Vmalloc/Alloc/Take.antt =====
-- An area that goes out of its free list and into the tree.
use oh_my_os.Base.{
  ℕ, ◌+◌, ◌-◌, ◌<◌, ◌≡◌, ◌≢◌, inl, inr, ◌∙◌, sym, ap, refl, subst, arith, true, false, Option, some,
  ◌∷◌, sub32, update, update_ne, update_self,
}
use oh_my_os.RbTree.{RbTree}
use oh_my_os.RbTree.Shape.{Tree, IsIn, count, size}
use oh_my_os.RbTree.Turn.{one, one_self}
use oh_my_os.RbTree.Order.{occurs, occurs-append, occurs-inorder}
use oh_my_os.RbTree.Color.{true-false}
use oh_my_os.RbTree.Insert.{rb_tree_insert}
use oh_my_os.RbTree.Insert.Overlap.{IsClear}
use oh_my_os.RbTree.Insert.Correct.{Inserted, rb_tree_insert-Inserted}
use oh_my_os.Slab.{unlink}
use oh_my_os.Vmalloc.{vmalloc_start, vmalloc_end, Vmas, area, unlock, take_vma}
use oh_my_os.Vmalloc.Tiles.{Tiles-bounds, Tiles-apart}
use oh_my_os.Vmalloc.Areas.{Listed, IsMapped, IsVmalloc, occurs-unlink, unlink_once, ne→one}
use native.Mathlib.Decide.{ℕ_discrete}

-- The nodes of the tree with one more.
Inserted-count :
    (s s' : RbTree) (t t' : Tree) (n start end value : ℕ)
    → Inserted s t n start end value s' t'
    → (z : ℕ) → count z t' ≡ one z n + count z t
Inserted-count s s' t t' n start end value (_, (before, after, old, new), _, _, _) z = omega (
  arith,
  occurs-inorder z t',
  occurs-inorder z t,
  ap (occurs z) old,
  ap (occurs z) new,
  occurs-append z before after,
  occurs-append z before (n ∷ after),
)

take_run :
    (s : Vmas) (v fuel : ℕ) (node : Option ℕ) (last n : ℕ) (tree : RbTree)
    → sub32 (s.end v) 1 ≡ last
    → rb_tree_insert fuel node (s.start v) last v s.vma_tree ≡ some (n, tree)
    → take_vma fuel node v s
      ≡ some (
        area v,
        record {
          start = s.start;
          end = s.end;
          vma_list = s.vma_list;
          free_vma_lists = λ i. unlink v (s.free_vma_lists i);
          free = update s.free v false;
          vma_tree = tree;
          locked = false;
        },
      )
unfolding take_vma unlock
take_run s v fuel answer last n tree e run = rw (e, run, take_vma) refl

module _ (s : Vmas) (t : Tree) (m : IsMapped s t) (v : ℕ) (inside : 0 < occurs v s.vma_list)
    (free : s.free v ≡ true) where
  not_used : (z : ℕ) → s.free z ≡ false → z ≢ v
  not_used z e q = absurd (true-false (sym free ∙ ap s.free (sym q) ∙ e))

  clear : IsClear s.vma_tree (s.start v) (s.end v - 1) t
  clear n i =
      let (there, taken, low, high) = m.used n i in
      let w = s.vma_tree.value n in
      let (_, lt, _, _, _) =
        Tiles-bounds s.start s.end vmalloc_start s.vma_list vmalloc_end refl m.tiles v inside in
      elim (Tiles-apart s.start s.end vmalloc_start s.vma_list vmalloc_end refl m.tiles w v there
        inside (not_used w taken)) [
          | inl before ↦ inl (omega (arith, before, high))
          | inr after ↦ inr (omega (arith, after, low, lt))
        ]

  module _ (n : ℕ) (n_ne : n ≢ 0) (fresh : count n t ≡ 0) (listed : Listed s (λ z. z ≢ v))
      (tree : RbTree) (t' : Tree)
      (done : Inserted s.vma_tree t n (s.start v) (s.end v - 1) v tree t') where
    abbrev taken : Vmas
    taken = record {
      start = s.start;
      end = s.end;
      vma_list = s.vma_list;
      free_vma_lists = λ i. unlink v (s.free_vma_lists i);
      free = update s.free v false;
      vma_tree = tree;
      locked = false;
    }

    IsIn-old : (z : ℕ) → IsIn z t' → z ≢ n → IsIn z t
    IsIn-old z i ne = omega (
      arith,
      i,
      Inserted-count s.vma_tree tree t t' n (s.start v) (s.end v - 1) v done z,
      ne→one z n ne,
    )

    new-IsIn : IsIn n t'
    new-IsIn = omega (
      arith,
      Inserted-count s.vma_tree tree t t' n (s.start v) (s.end v - 1) v done n,
      one_self n,
    )

    at_new : (z : ℕ) (f g : ℕ → ℕ) (x : ℕ) → g ≡ update f n x → z ≡ n → g z ≡ x
    at_new z f g x e q = ap (λ (h : ℕ → ℕ). h z) e ∙ ap (update f n x) q ∙ update_self f n x

    at_old : (z : ℕ) (f g : ℕ → ℕ) (x : ℕ) → g ≡ update f n x → z ≢ n → g z ≡ f z
    at_old z f g x e ne = ap (λ (h : ℕ → ℕ). h z) e ∙ update_ne f n x z ne

    abbrev Use : ℕ → ℕ → Type 0
    Use z w =
        (0 < occurs w s.vma_list)
        × (update s.free v false w ≡ false)
        × (tree.start z ≡ s.start w)
        × (tree.end z + 1 ≡ s.end w)

    taken-used : (z : ℕ) → IsIn z t' → Use z (tree.value z)
    taken-used z i =
        let (_, _, starts, ends, values) = done in
        let (_, lt, _, _, _) =
          Tiles-bounds s.start s.end vmalloc_start s.vma_list vmalloc_end refl m.tiles v inside in
        elim (ℕ_discrete z n) [
          | yes e ↦ subst (Use z) (sym (at_new z s.vma_tree.value tree.value v values e)) (
            inside,
            update_self s.free v false,
            at_new z s.vma_tree.start tree.start (s.start v) starts e,
            omega (arith, at_new z s.vma_tree.end tree.end (s.end v - 1) ends e, lt),
          )
          | no ne ↦
              (let (there, used, low, high) = m.used z (IsIn-old z i ne) in
                subst (Use z) (sym (at_old z s.vma_tree.value tree.value v values ne)) (
                  there,
                  update_ne s.free v false (s.vma_tree.value z) (not_used (s.vma_tree.value z) used)
                      ∙ used,
                  at_old z s.vma_tree.start tree.start (s.start v) starts ne ∙ low,
                  omega (arith, at_old z s.vma_tree.end tree.end (s.end v - 1) ends ne, high),
                ))
        ]

    taken-stored :
        (z : ℕ)
        → 0 < occurs z s.vma_list
        → update s.free v false z ≡ false
        → (k : ℕ) × IsIn k t' × (tree.value k ≡ z)
    taken-stored z i e = elim (ℕ_discrete z v) [
      | yes q ↦ (n, new-IsIn, at_new n s.vma_tree.value tree.value v done.4 refl ∙ sym q)
      | no ne ↦
          (let (k, there, value) = m.stored z i (sym (update_ne s.free v false z ne) ∙ e) in
            (
              k,
              omega (
                arith,
                there,
                Inserted-count s.vma_tree tree t t' n (s.start v) (s.end v - 1) v done k,
              ),
              at_old k s.vma_tree.value tree.value v done.4
                    (λ q. absurd (omega (arith, there, fresh, ap (λ w. count w t) q)))
                  ∙ value,
            ))
    ]

    taken-IsVmalloc : IsVmalloc taken t'
    taken-IsVmalloc = record {
      mapped = record {
        tiles = m.tiles;
        once = m.once;
        listed_once =
            λ i z. omega (arith, occurs-unlink z v (s.free_vma_lists i), m.listed_once i z);
        tree = done.0;
        used = taken-used;
        stored = taken-stored;
      };
      listed = λ i z _ h.
          let ne : z ≢ v = λ q. absurd (
            omega (
              arith,
              h,
              ap (λ w. occurs w (unlink v (s.free_vma_lists i))) q,
              unlink_once v (s.free_vma_lists i) (m.listed_once i v),
            )) in
          let (there, is_free, long) =
            listed i z ne (omega (arith, h, occurs-unlink z v (s.free_vma_lists i))) in
          (there, update_ne s.free v false z ne ∙ is_free, long);
      unlocked = refl;
    }

  -- What `alloc_vma` does once the area has its length.
  pub take_vma-IsVmalloc :
      (fuel n : ℕ)
      → n ≢ 0
      → count n t ≡ 0
      → Listed s (λ z. z ≢ v)
      → size t + 1 < fuel
      → (s' : Vmas) × (t' : Tree) × (take_vma fuel (some n) v s ≡ some (area v, s'))
        × IsVmalloc s' t'
        × (s'.start ≡ s.start)
        × (s'.end ≡ s.end)
        × (s'.free ≡ update s.free v false)
        × (s'.vma_list ≡ s.vma_list)
  take_vma-IsVmalloc fuel n n_ne fresh listed enough =
      let (_, lt, top, _, _) =
        Tiles-bounds s.start s.end vmalloc_start s.vma_list vmalloc_end refl m.tiles v inside in
      let last : sub32 (s.end v) 1 ≡ s.end v - 1 = omega (arith, lt, top) in
      let (tree, t', run, done) =
        rb_tree_insert-Inserted fuel s.vma_tree t n (s.start v) (s.end v - 1) v m.tree n_ne fresh
          (omega (arith, lt)) clear enough in
      (
        taken n n_ne fresh listed tree t' done,
        t',
        take_run s v fuel (some n) (s.end v - 1) n tree last run,
        taken-IsVmalloc n n_ne fresh listed tree t' done,
        refl,
        refl,
        refl,
        refl,
      )
