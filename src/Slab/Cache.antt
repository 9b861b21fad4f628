-- ===== src/Slab/Cache.antt =====
-- `kmem_cache_alloc` and `kmem_cache_free` of a whole cache.
use oh_my_os.Base.{
  ℕ, ◌+◌, ◌-◌, ◌*◌, ◌%◌, ◌^◌, ◌≤◌, ◌<◌, ◌≡◌, ◌≢◌, inl, inr, ◌∙◌, sym, ap, ap₂, refl, subst, arith,
  true, false, not, ◌&&◌, Option, none, some, List, [], ◌∷◌, Status, success, lt→ltb, ◌==◌, eq→==,
  ne→==, if◌then◌else◌, update, update_self, update_ne, Bool-cases,
}
use oh_my_os.Memory.{Mem}
use oh_my_os.Memory.Copy.{write_self}
use native.Mathlib.Nat.{mul-div_cancel_left}
use oh_my_os.Slab.{
  SlabPage, Slabs, index_to_obj, obj_to_index, slab_page_init, unlink, list_remove, alloc_block,
  free_block, start_page, alloc_locked, kmem_cache_alloc, kmem_cache_free,
}
use oh_my_os.Slab.Stack.{
  IsSlab, NotFree, popped, pushed, stacked, Allocated, Freed, pop_lem, push_lem,
}
use oh_my_os.Slab.Layout.{slab_page_init-IsSlab}

-- the object that the next allocation from a page hands out
abbrev pub next_index : Slabs → ℕ → ℕ
next_index s p = s.mem ((s.pages p).freelist + (s.pages p).active)

-- The state behind an allocation from the page `p`: only the page changes, and it moves to the full
-- pages with its last object.
pub record Served (s : Slabs) (p : ℕ) (s' : Slabs) : Type 0 where
  pub page : s'.pages p ≡ popped (s.pages p)
  pub others : (q : ℕ) → q ≢ p → s'.pages q ≡ s.pages q
  pub memory : s'.mem ≡ s.mem
  pub partial : s'.slabs_partial ≡ (
      if (s.pages p).active + 1 == (s.pages p).total
      then unlink p s.slabs_partial
      else s.slabs_partial)
  pub full : s'.slabs_full ≡ (
      if (s.pages p).active + 1 == (s.pages p).total
      then p ∷ unlink p s.slabs_full
      else s.slabs_full)

abbrev served : Slabs → ℕ → Slabs
served s p =
    let last = (s.pages p).active + 1 == (s.pages p).total in
    record s {
      pages = update s.pages p (popped (s.pages p));
      slabs_partial = if last then unlink p s.slabs_partial else s.slabs_partial;
      slabs_full = if last then p ∷ unlink p s.slabs_full else s.slabs_full;
    }

served-Served : (s : Slabs) (p : ℕ) → Served s p (served s p)
served-Served s p = record {
  page = update_self s.pages p (popped (s.pages p));
  others = update_ne s.pages p (popped (s.pages p));
  memory = refl;
  partial = refl;
  full = refl;
}

alloc_block_lem :
    (p : ℕ) (s : Slabs)
    → IsSlab s.size s.mem (s.pages p)
    → (s.pages p).active < (s.pages p).total
    → alloc_block p s ≡ some (index_to_obj s.size (s.pages p) (next_index s p), served s p)
unfolding alloc_block list_remove
alloc_block_lem p s v lt =
    let small : ((s.pages p).active + 1) % 2 ^ 16 ≡ (s.pages p).active + 1 = omega (arith, v.few) in
    let room = lt→ltb (s.pages p).active (s.pages p).total lt in
    elim (Bool-cases ((s.pages p).active + 1 == (s.pages p).total)) [
      | inl last ↦ rw room (rw small (rw last refl))
      | inr more ↦ rw room (rw small (rw more refl))
    ]

-- The lock is free, and objects have 16 to 2048 bytes.
pub record IsReady (s : Slabs) : Type 0 where
  pub unlocked : s.locked ≡ false
  pub size_ge : 16 ≤ s.size
  pub size_le : s.size ≤ 2048

pub kmem_cache_alloc_partial :
    (answer : Option ℕ) (page_address : ℕ → ℕ) (s : Slabs) (p : ℕ) (rest : List ℕ)
    → s.locked ≡ false
    → s.slabs_partial ≡ p ∷ rest
    → IsSlab s.size s.mem (s.pages p)
    → (s.pages p).active < (s.pages p).total
    → (s' : Slabs) × (kmem_cache_alloc answer page_address s
        ≡ some (some (index_to_obj s.size (s.pages p) (next_index s p)), s'))
      × Served s p s'
      × (s'.locked ≡ false)
      × Allocated s.size s.mem (s.pages p) (next_index s p)
unfolding kmem_cache_alloc alloc_locked
kmem_cache_alloc_partial answer page_address s p rest free e v lt =
    let run = alloc_block_lem p (record s { locked = true }) v lt in
    let locked : Slabs = record s { locked = true } in
    let out : Option (Option ℕ × Slabs) = some (
      some (index_to_obj s.size (s.pages p) (next_index s p)),
      record (served s p) { locked = false },
    ) in
    (
      record (served s p) { locked = false },
      rw free (
          subst (λ l. alloc_locked answer page_address locked l ≡ out) (sym e)
            (rw (run, alloc_locked) refl)),
      record {
        page = update_self s.pages p (popped (s.pages p));
        others = update_ne s.pages p (popped (s.pages p));
        memory = refl;
        partial = refl;
        full = refl;
      },
      refl,
      pop_lem s.size s.mem (s.pages p) v lt,
    )

start_page_lem :
    (p : ℕ) (s : Slabs) (st : Status) (m : Mem) (page : SlabPage)
    → st ≡ success
    → start_page p s (st, m, page)
      ≡ (elim (alloc_block p (record s {
        mem = m;
        pages = update s.pages p page;
        slabs_partial = p ∷ s.slabs_partial;
      }))
          as (λ _. Option (Option ℕ × Slabs)) [
            | none ↦ none
            | some (obj, s') ↦ some (some obj, record s' { locked = false })
          ])
unfolding start_page
start_page_lem p s st m page e = rw e refl

-- With no partial page and a page of `alloc_page` that has an address, `kmem_cache_alloc` makes a slab
-- of the page, hands out its first object, which lies at the start of the page, and leaves the lock
-- free; only this page changes.
pub kmem_cache_alloc_new :
    (page_address : ℕ → ℕ) (s : Slabs) (p : ℕ)
    → IsReady s
    → s.slabs_partial ≡ []
    → page_address p ≢ 0
    → (s' : Slabs) × (kmem_cache_alloc (some p) page_address s ≡ some (some (page_address p), s'))
      × (s'.locked ≡ false)
      × IsSlab s.size s'.mem (s'.pages p)
      × NotFree s'.mem (s'.pages p) 0
      × ((q : ℕ) → q ≢ p → s'.pages q ≡ s.pages q)
unfolding kmem_cache_alloc alloc_locked index_to_obj
kmem_cache_alloc_new page_address s p ready empty nz =
    let a = page_address p in
    let locked : Slabs = record s { locked = true } in
    let r = slab_page_init s.addr s.size a s.mem (s.pages p) in
    let (fine, slab, entry, pos, act, at_a, _) =
      slab_page_init-IsSlab s.addr s.size a s.mem (s.pages p) ready.size_ge ready.size_le nz in
    let s₁ : Slabs = record locked {
      mem = r.1;
      pages = update s.pages p r.2;
      slabs_partial = p ∷ s.slabs_partial;
    } in
    let same : s₁.pages p ≡ r.2 = update_self s.pages p r.2 in
    let v = subst (IsSlab s.size r.1) (sym same) slab in
    let lt = subst (λ (g : SlabPage). g.active < g.total) (sym same) (omega (arith, act, pos)) in
    let first : next_index s₁ p ≡ 0 =
      subst (λ (g : SlabPage). r.1 (g.freelist + g.active) ≡ 0) (sym same)
        (ap (λ t. r.1 (r.2.freelist + t)) act ∙ entry 0 pos) in
    let home : (s₁.pages p).s_mem ≡ a = ap (λ (g : SlabPage). g.s_mem) same ∙ at_a in
    let obj : (s₁.pages p).s_mem + s.size * next_index s₁ p ≡ a =
      omega (arith, home, ap (λ (t : ℕ). s.size * t) first) in
    let out = pop_lem s.size r.1 (s₁.pages p) v lt in
    let new : update s₁.pages p (popped (s₁.pages p)) p ≡ popped (s₁.pages p) =
      update_self s₁.pages p (popped (s₁.pages p)) in
    (
      record (served s₁ p) { locked = false },
      rw ready.unlocked (
          subst
            (λ l.
              alloc_locked (some p) page_address locked l
              ≡ some (some a, record (served s₁ p) { locked = false }))
            (sym empty)
            (start_page_lem p locked r.0 r.1 r.2 fine
              ∙ rw (alloc_block_lem p s₁ v lt)
                  (ap (λ t. some (some t, record (served s₁ p) { locked = false })) obj))),
      refl,
      subst (IsSlab s.size r.1) (sym new) out.slab,
      subst (λ g. NotFree r.1 g 0) (sym new)
          (subst (NotFree r.1 (popped (s₁.pages p))) first out.is_taken),
      λ q ne. update_ne s₁.pages p (popped (s₁.pages p)) q ne ∙ update_ne s.pages p r.2 q ne,
    )

-- the state behind giving back the object `k` of the page `p`, which is not the last one in use
abbrev given_back : Slabs → ℕ → ℕ → Slabs
given_back s p k = record s {
  mem = stacked s.mem (s.pages p) k;
  pages = update s.pages p (pushed (s.pages p));
}

obj_to_index-index_to_obj :
    (size : ℕ) (page : SlabPage) (k : ℕ)
    → 0 < size
    → obj_to_index size page (index_to_obj size page k) ≡ k
unfolding obj_to_index index_to_obj
obj_to_index-index_to_obj size page k pos =
    let e : page.s_mem + size * k - page.s_mem ≡ size * k = omega arith in
    rw e (mul-div_cancel_left k pos)

free_block_lem :
    (p k : ℕ) (s : Slabs)
    → IsSlab s.size s.mem (s.pages p)
    → k < (s.pages p).total
    → 1 < (s.pages p).active
    → free_block p (index_to_obj s.size (s.pages p) k) s ≡ some (none, given_back s p k)
unfolding free_block
free_block_lem p k s v lt more =
    let same = obj_to_index-index_to_obj s.size (s.pages p) k v.sized in
    let byte : k % 2 ^ 8 ≡ k = omega (arith, v.few) in
    let left : ((s.pages p).active - 1 == 0) ≡ false =
      ne→== ((s.pages p).active - 1) 0 (λ e. absurd (omega (arith, e))) in
    rw same (rw (lt→ltb 0 (s.pages p).active (omega arith), left) (rw byte refl))

again_lem :
    (s : Slabs) (p k : ℕ)
    → index_to_obj s.size
        (pushed (s.pages p))
        (stacked s.mem (s.pages p) k ((s.pages p).freelist + ((s.pages p).active - 1)))
      ≡ index_to_obj s.size (s.pages p) k
unfolding index_to_obj
again_lem s p k =
    ap (λ t. (s.pages p).s_mem + s.size * t)
      (write_self s.mem ((s.pages p).freelist + ((s.pages p).active - 1)) k)

-- With the lock free, `kmem_cache_free` of an object in use on a well-formed page of the cache that has
-- more than one object in use gives no page back, makes the object free again, and leaves the lists of pages, every
-- other object and every other page as they were, and the lock free, wherever the page is listed; and
-- if the page is the first partial one, the next `kmem_cache_alloc` hands out the same object.
pub kmem_cache_alloc-kmem_cache_free :
    (answer : Option ℕ) (page_address : ℕ → ℕ) (s : Slabs) (p k : ℕ)
    → s.locked ≡ false
    → (s.pages p).slab_cache ≡ s.addr
    → IsSlab s.size s.mem (s.pages p)
    → k < (s.pages p).total
    → NotFree s.mem (s.pages p) k
    → 1 < (s.pages p).active
    → let obj = index_to_obj s.size (s.pages p) k in
      (s' : Slabs) × (kmem_cache_free p obj s ≡ some (none, s'))
      × Freed s.size s.mem (s.pages p) k
      × (s'.mem ≡ stacked s.mem (s.pages p) k)
      × (s'.pages p ≡ pushed (s.pages p))
      × ((q : ℕ) → q ≢ p → s'.pages q ≡ s.pages q)
      × (s'.slabs_partial ≡ s.slabs_partial)
      × (s'.slabs_full ≡ s.slabs_full)
      × (s'.locked ≡ false)
      × ((rest : List ℕ)
          → s.slabs_partial ≡ p ∷ rest
          → (s'' : Slabs) × (kmem_cache_alloc answer page_address s' ≡ some (some obj, s'')))
unfolding kmem_cache_free
kmem_cache_alloc-kmem_cache_free answer page_address s p k free owner v lt taken more =
    let s' = given_back s p k in
    let freed = push_lem s.size s.mem (s.pages p) k v (omega arith) lt taken in
    let page : s'.pages p ≡ pushed (s.pages p) = update_self s.pages p (pushed (s.pages p)) in
    let again : index_to_obj s.size (s'.pages p) (next_index s' p)
        ≡ index_to_obj s.size (s.pages p) k =
      subst
        (λ (g : SlabPage).
          index_to_obj s.size g (s'.mem (g.freelist + g.active))
          ≡ index_to_obj s.size (s.pages p) k)
        (sym page) (again_lem s p k) in
    let checked : ((s.pages p).slab_cache == s.addr && not s.locked) ≡ true =
      ap₂ (λ x y. x && not y) (eq→== (s.pages p).slab_cache s.addr owner) free in
    let obj = index_to_obj s.size (s.pages p) k in
    (
      s',
      ap (λ b. if b then free_block p obj s else none) checked ∙ free_block_lem p k s v lt more,
      freed,
      refl,
      page,
      update_ne s.pages p (pushed (s.pages p)),
      refl,
      refl,
      free,
      λ rest e.
          let out =
            kmem_cache_alloc_partial answer page_address s' p rest free e
              (subst (IsSlab s.size s'.mem) (sym page) freed.slab)
              (subst (λ (g : SlabPage). g.active < g.total) (sym page)
                (omega (arith, v.active_le))) in
          (out.0, out.1 ∙ ap (λ t. some (some t, out.0)) again),
    )
