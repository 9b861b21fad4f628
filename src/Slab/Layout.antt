-- ===== src/Slab/Layout.antt =====
-- What `slab_page_init` makes of a page.
use oh_my_os.Base.{
  ℕ, zero, suc, ◌+◌, ◌-◌, ◌*◌, ◌/◌, ◌%◌, ◌^◌, ◌≤◌, ◌<◌, ◌≡◌, ◌≢◌, ◌∙◌, sym, ap, refl, arith,
  success, ne→==, true,
}
use oh_my_os.Memory.{Mem, write}
use oh_my_os.Memory.Copy.{Outside, write_self, write_ne}
use oh_my_os.Slab.{SlabPage, page_size, fill_freelist, index_to_obj, slab_page_init}
use oh_my_os.Slab.Stack.{IsSlab}
use native.Mathlib.Nat.{
  div-mul-le_self, div-le_self, div-le_of_le-mul, mul-le-mul_right, lt-div-mul-add,
}
use native.Mathlib.Decide.{ℕ_discrete, dec_lt}

fill_freelist-Outside :
    (n : ℕ) (m : Mem) (fl i a : ℕ) → Outside a (fl + i) n → fill_freelist n m fl i a ≡ m a
unfolding fill_freelist
fill_freelist-Outside zero m fl i a out = refl
fill_freelist-Outside (suc n) m fl i a out =
    fill_freelist-Outside n (write m (fl + i) (i % 2 ^ 8)) fl (i + 1) a (omega arith)
    ∙ write_ne m (fl + i) (i % 2 ^ 8) a (λ e. absurd (omega (arith, e)))

-- The entry of each index is its last byte.
pub fill_freelist_lem :
    (n : ℕ) (m : Mem) (fl i j : ℕ) → i ≤ j → j < i + n → fill_freelist n m fl i (fl + j) ≡ j % 256
unfolding fill_freelist
fill_freelist_lem zero m fl i j lo hi = absurd (omega arith)
fill_freelist_lem (suc n) m fl i j lo hi = elim (ℕ_discrete i j) [
  | yes e ↦
      fill_freelist-Outside n (write m (fl + i) (i % 2 ^ 8)) fl (i + 1) (fl + j) (omega arith)
      ∙ ap (λ t. write m (fl + i) (i % 2 ^ 8) (fl + t)) (sym e)
      ∙ write_self m (fl + i) (i % 2 ^ 8)
      ∙ ap (λ (t : ℕ). t % 256) e
  | no ne ↦
      fill_freelist_lem n (write m (fl + i) (i % 2 ^ 8)) fl (i + 1) j (omega arith) (omega arith)
]

-- how many entries the free list has, and how many objects the page
abbrev entries : ℕ → ℕ
entries size = page_size / size

abbrev objects : ℕ → ℕ
objects size = (page_size - entries size) / size

-- The objects and the entries fit in the page, and each object has an entry.
entries_bound : (size : ℕ) → 0 < size → (entries size * size ≤ 4096) × (entries size ≤ 4096)
entries_bound size pos = (div-mul-le_self 4096 size, div-le_self 4096 size)

div_mono : (n size : ℕ) → 0 < size → n ≤ 4096 → n / size ≤ entries size
div_mono n size pos le =
    let fit = div-mul-le_self n size in
    let more = lt-div-mul-add {a = 4096} {b = size} pos in
    elim (dec_lt (entries size) (n / size)) [
      | no ge ↦ omega arith
      | yes lt ↦ absurd (omega (arith, fit, more, mul-le-mul_right size lt))
    ]

objects_bound :
    (size : ℕ)
    → 0 < size
    → (size * objects size + entries size ≤ 4096) × (objects size ≤ entries size)
objects_bound size pos =
    let (_, le) = entries_bound size pos in
    let fit = div-mul-le_self (4096 - entries size) size in
    let more = lt-div-mul-add {a = 4096} {b = size} pos in
    (omega (arith, fit, le), div_mono (4096 - entries size) size pos (omega arith))

few_entries : (size : ℕ) → 16 ≤ size → entries size ≤ 256
few_entries size h = div-le_of_le-mul size (omega arith)

objects_pos : (size : ℕ) → 16 ≤ size → size ≤ 2048 → 0 < objects size
objects_pos size lo hi =
    let few = few_entries size lo in
    let more = lt-div-mul-add {a = 4096 - entries size} {b = size} (omega arith) in
    elim (ℕ_discrete (objects size) 0) [
      | yes e ↦ absurd (omega (arith, few, more, ap (λ (t : ℕ). t * size) e))
      | no ne ↦ omega arith
    ]

-- For objects of 16 to 2048 bytes, and a page that has an address, `slab_page_init` makes a page of at
-- least one object in which every object is free, its own entry naming it, and which ends with the
-- entries.
pub slab_page_init-IsSlab :
    (cache size address : ℕ) (m : Mem) (page : SlabPage)
    → 16 ≤ size
    → size ≤ 2048
    → address ≢ 0
    → let (status, m', page') = slab_page_init cache size address m page in
      (status ≡ success)
      × IsSlab size m' page'
      × ((k : ℕ) → k < page'.total → m' (page'.freelist + k) ≡ k)
      × (0 < page'.total)
      × (page'.active ≡ 0)
      × (page'.s_mem ≡ address)
      × (page'.freelist + page'.total ≤ address + 4096)
unfolding slab_page_init
slab_page_init-IsSlab cache size address m page lo hi nz =
    let pos : 0 < size = omega arith in
    let T = entries size in
    let N = objects size in
    let (fit, le) = objects_bound size pos in
    let few = few_entries size lo in
    let small : T % 2 ^ 16 ≡ T = omega arith in
    let small' : N % 2 ^ 16 ≡ N = omega (arith, le) in
    let m' = fill_freelist T m (address + 4096 - T) 0 in
    let entry : (i : ℕ) → i < N → m' (address + 4096 - T + i) ≡ i = λ i lt.
      fill_freelist_lem T m (address + 4096 - T) 0 i (omega arith) (omega (arith, le))
      ∙ omega (arith, le) in
    rw (ne→== address 0 nz) (
      rw (small, small')
        (
          refl,
          record {
            sized = pos;
            few = omega (arith, le);
            fits = omega (arith, fit);
            active_le = omega arith;
            range = λ i _ lt. omega (arith, entry i lt);
            distinct =
                λ i j _ ij lt e. absurd (omega (arith, entry i (omega arith), entry j lt, e));
          },
          entry,
          objects_pos size lo hi,
          refl,
          refl,
          omega (arith, le),
        ))

-- A page of more than 256 objects, as those of 8 bytes make it, hands out one object twice: the index
-- of the object 256 does not fit in a byte, and its entry names the object that the first entry names.
pub slab_page_init_repeats :
    (cache size address : ℕ) (m : Mem) (page : SlabPage)
    → 0 < size
    → address ≢ 0
    → let (status, m', page') = slab_page_init cache size address m page in
      256 < page'.total
      → index_to_obj size page' (m' (page'.freelist + 256))
        ≡ index_to_obj size page' (m' (page'.freelist + 0))
unfolding slab_page_init
slab_page_init_repeats cache size address m page pos nz =
    let T = entries size in
    let N = objects size in
    let (fit, le) = objects_bound size pos in
    let (_, bound) = entries_bound size pos in
    let small : T % 2 ^ 16 ≡ T = omega (arith, bound) in
    let small' : N % 2 ^ 16 ≡ N = omega (arith, le, bound) in
    let fl = address + 4096 - T in
    rw (ne→== address 0 nz) (
      rw (small, small')
        (λ many.
          let last = fill_freelist_lem T m fl 0 256 (omega arith) (omega (arith, le)) in
          let first = fill_freelist_lem T m fl 0 0 (omega arith) (omega (arith, le)) in
          ap
            (λ k.
              index_to_obj size
                (record {
                  s_mem = address;
                  freelist = fl;
                  active = 0;
                  total = N;
                  slab_cache = cache;
                  slab = true;
                })
                k)
            (last ∙ sym first)))
