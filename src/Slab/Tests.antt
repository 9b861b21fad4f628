-- ===== src/Slab/Tests.antt =====
-- A cache of objects of 1024 bytes and one of 8 bytes, and the theorems there.
use oh_my_os.Base.{
  ℕ, ◌+◌, ◌<◌, ◌≤◌, ◌≡◌, ◌≢◌, refl, arith, true, false, none, some, List, [], ◌∷◌, success,
}
use oh_my_os.Slab.{SlabPage, Slabs, index_to_obj, slab_page_init, kmem_cache_alloc, kmem_cache_free}
use oh_my_os.Slab.Stack.{IsSlab, pushed, stacked, Freed}
use oh_my_os.Slab.Layout.{slab_page_init-IsSlab, slab_page_init_repeats}
use oh_my_os.Slab.Cache.{kmem_cache_alloc-kmem_cache_free}

abbrev blank : SlabPage
blank = record { s_mem = 0; freelist = 0; active = 0; total = 0; slab_cache = 0; slab = false }

abbrev fresh : Slabs
fresh = record {
  addr = 77;
  size = 1024;
  locked = false;
  slabs_full = [];
  slabs_partial = [];
  pages = λ _. blank;
  mem = λ _. 0;
}

-- page 5 at 0x5000 with two of its three objects in use, the third free
abbrev two_taken : SlabPage
two_taken = record {
  s_mem = 0x5000;
  freelist = 0x5ffc;
  active = 2;
  total = 3;
  slab_cache = 77;
  slab = true;
}

abbrev used : Slabs
used = record fresh { slabs_partial = 5 ∷ []; pages = λ _. two_taken; mem = λ _. 2 }

two_taken-IsSlab : IsSlab 1024 used.mem two_taken
two_taken-IsSlab = record {
  sized = omega arith;
  few = omega arith;
  fits = omega arith;
  active_le = omega arith;
  range = λ i lo hi. omega arith;
  distinct = λ i j lo ij hi e. absurd (omega arith);
}

slab_page_init-IsSlab_example :
    let (status, m', page') = slab_page_init 77 1024 0x5000 fresh.mem blank in
    (status ≡ success)
    × IsSlab 1024 m' page'
    × ((k : ℕ) → k < page'.total → m' (page'.freelist + k) ≡ k)
    × (0 < page'.total)
    × (page'.active ≡ 0)
    × (page'.s_mem ≡ 0x5000)
    × (page'.freelist + page'.total ≤ 0x5000 + 4096)
slab_page_init-IsSlab_example =
    slab_page_init-IsSlab 77 1024 0x5000 fresh.mem blank (omega arith) (omega arith)
      (λ e. absurd (omega (arith, e)))

many : 256 < (slab_page_init 77 8 0x5000 fresh.mem blank).2.total
unfolding slab_page_init
many = omega arith

slab_page_init_repeats_example :
    let (status, m', page') = slab_page_init 77 8 0x5000 fresh.mem blank in
    index_to_obj 8 page' (m' (page'.freelist + 256))
    ≡ index_to_obj 8 page' (m' (page'.freelist + 0))
slab_page_init_repeats_example =
    slab_page_init_repeats 77 8 0x5000 fresh.mem blank (omega arith)
      (λ e. absurd (omega (arith, e))) many

kmem_cache_alloc-kmem_cache_free_example :
    let obj = index_to_obj 1024 two_taken 0 in
    (s' : Slabs) × (kmem_cache_free 5 obj used ≡ some (none, s'))
    × Freed 1024 used.mem two_taken 0
    × (s'.mem ≡ stacked used.mem two_taken 0)
    × (s'.pages 5 ≡ pushed two_taken)
    × ((q : ℕ) → q ≢ 5 → s'.pages q ≡ used.pages q)
    × (s'.slabs_partial ≡ used.slabs_partial)
    × (s'.slabs_full ≡ used.slabs_full)
    × (s'.locked ≡ false)
    × ((rest : List ℕ)
        → used.slabs_partial ≡ 5 ∷ rest
        → (s'' : Slabs) × (kmem_cache_alloc none (λ _. 0) s' ≡ some (some obj, s'')))
kmem_cache_alloc-kmem_cache_free_example =
    kmem_cache_alloc-kmem_cache_free none (λ _. 0) used 5 0 refl refl two_taken-IsSlab (omega arith)
      (λ i lo hi e. absurd (omega (arith, e))) (omega arith)
