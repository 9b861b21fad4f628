-- ===== src/Slab.antt =====
-- mm/slab.c: caches of objects of one size, cut from pages. A page is its number, `page_address` and
-- the pages of `alloc_page` are arguments. The fields of `struct page` that the slab allocator uses
-- are a record of their own, and the lists of a cache are sequences of pages, the newest first.
pub mod Stack
pub mod Layout
pub mod Cache
mod Tests
use oh_my_os.Base.{
  ℕ, zero, suc, ◌+◌, ◌-◌, ◌*◌, ◌/◌, ◌%◌, ◌^◌, Bool, true, false, not, ◌&&◌, Option, none, some,
  List, [], ◌∷◌, ltb, ◌==◌, if◌then◌else◌, update, Status, success, enomem, einval,
}
use oh_my_os.Memory.{Mem, write}

abbrev pub page_size : ℕ
page_size = 4096

-- `s_mem`, `freelist`, `active`, `total`, `slab_cache` and the flag PAGE_SLAB
pub record SlabPage : Type 0 where
  pub s_mem : ℕ
  pub freelist : ℕ
  pub active : ℕ
  pub total : ℕ
  pub slab_cache : ℕ
  pub slab : Bool

-- `struct kmem_cache` at the address `addr`, its pages and the memory
pub record Slabs : Type 0 where
  pub addr : ℕ
  pub size : ℕ
  pub locked : Bool
  pub slabs_full : List ℕ
  pub slabs_partial : List ℕ
  pub pages : ℕ → SlabPage
  pub mem : Mem

pub index_to_obj : ℕ → SlabPage → ℕ → ℕ
index_to_obj size page idx = page.s_mem + size * idx

pub obj_to_index : ℕ → SlabPage → ℕ → ℕ
obj_to_index size page obj = (obj - page.s_mem) / size

-- The loop `for (i = 0; i < total; i++) page->freelist[i] = i;` over bytes, from `i` on.
pub fill_freelist : ℕ → Mem → ℕ → ℕ → Mem
fill_freelist zero m freelist i = m
fill_freelist (suc n) m freelist i =
    fill_freelist n (write m (freelist + i) (i % 2 ^ 8)) freelist (i + 1)

-- The answer of `page_address` is `address`; `unsigned short` counts the objects.
pub slab_page_init : ℕ → ℕ → ℕ → Mem → SlabPage → Status × Mem × SlabPage
unfolding fill_freelist
slab_page_init cache size address m page =
    let total = page_size / size % 2 ^ 16 in
    let freelist = address + page_size - total in
    if address == 0 then (enomem, m, record page { s_mem = address }) else (
      success,
      fill_freelist total m freelist 0,
      record {
        s_mem = address;
        freelist = freelist;
        active = 0;
        total = (page_size - total) / size % 2 ^ 16;
        slab_cache = cache;
        slab = true;
      },
    )

pub slab_page_deinit : SlabPage → SlabPage
slab_page_deinit page = record page {
  freelist = 0;
  total = 0;
  active = 0;
  slab_cache = 0;
  slab = false;
}

-- a list without the node of a page
abbrev pub unlink : ℕ → List ℕ → List ℕ
unlink p [] = []
unlink p (x ∷ xs) = if x == p then xs else x ∷ unlink p xs

-- `list_remove` of the page, on whichever list of the cache it stands
pub list_remove : ℕ → Slabs → Slabs
list_remove p s = record s {
  slabs_full = unlink p s.slabs_full;
  slabs_partial = unlink p s.slabs_partial;
}

-- `none` is the failed assertion, which halts.
pub alloc_block : ℕ → Slabs → Option (ℕ × Slabs)
unfolding index_to_obj list_remove
alloc_block p s =
    let page = s.pages p in
    let index = s.mem (page.freelist + page.active) in
    let page' = record page { active = (page.active + 1) % 2 ^ 16 } in
    let s' = record s { pages = update s.pages p page' } in
    let moved = list_remove p s' in
    let full = record moved { slabs_full = p ∷ moved.slabs_full } in
    if ltb page.active page.total
    then some (index_to_obj s.size page index, if page'.active == page.total then full else s')
    else none

-- Beside the state, the page that goes to `free_pages`.
pub free_block : ℕ → ℕ → Slabs → Option (Option ℕ × Slabs)
unfolding obj_to_index list_remove slab_page_deinit
free_block p obj s =
    let page = s.pages p in
    let index = obj_to_index s.size page obj in
    let active = page.active - 1 in
    let mem = write s.mem (page.freelist + active) (index % 2 ^ 8) in
    let page' = record page { active = active } in
    let s' = record s { mem = mem; pages = update s.pages p page' } in
    let empty =
      list_remove p (record s { mem = mem; pages = update s.pages p (slab_page_deinit page') }) in
    if ltb 0 page.active then some (if active == 0 then (some p, empty) else (none, s')) else none

-- `kmem_cache_alloc` behind `slab_page_init`, which gives its status: the inner `none` is NULL, and
-- leaves the lock taken.
pub start_page : ℕ → Slabs → Status × Mem × SlabPage → Option (Option ℕ × Slabs)
start_page p s (success, m, page) =
    elim (alloc_block p
      (record s { mem = m; pages = update s.pages p page; slabs_partial = p ∷ s.slabs_partial })) [
        | none ↦ none
        | some (obj, s') ↦ some (some obj, record s' { locked = false })
      ]
start_page p s (e, m, page) = some (none, record s { mem = m; pages = update s.pages p page })

-- the part of `kmem_cache_alloc` in which the lock is taken; without a page of `alloc_page` it writes
-- through NULL
pub alloc_locked : Option ℕ → (ℕ → ℕ) → Slabs → List ℕ → Option (Option ℕ × Slabs)
alloc_locked none page_address s [] = none
alloc_locked (some p) page_address s [] =
    start_page p s (slab_page_init s.addr s.size (page_address p) s.mem (s.pages p))
alloc_locked answer page_address s (p ∷ _) = elim (alloc_block p s) [
  | none ↦ none
  | some (obj, s') ↦ some (some obj, record s' { locked = false })
]

-- A lock that is taken is never free again, since nobody else runs: `spin_lock` halts.
pub kmem_cache_alloc : Option ℕ → (ℕ → ℕ) → Slabs → Option (Option ℕ × Slabs)
kmem_cache_alloc answer page_address s =
    if s.locked
    then none
    else alloc_locked answer page_address (record s { locked = true }) s.slabs_partial

-- `kmem_cache_free` of an object of the page `p`, the page of `virt_to_page`; `none` is a failed
-- assertion. The object is not of `vmalloc`, and its page not in high memory.
pub kmem_cache_free : ℕ → ℕ → Slabs → Option (Option ℕ × Slabs)
kmem_cache_free p obj s =
    if (s.pages p).slab_cache == s.addr && not s.locked then free_block p obj s else none

pub kmem_cache_create : Slabs → ℕ → Status × Slabs
kmem_cache_create s size =
    if ltb page_size size
    then (einval, s)
    else (success, record s { slabs_full = []; slabs_partial = []; size = size; locked = false })
