-- ===== src/Vector.antt =====
-- libs/vector.c: a growing array of elements of a fixed size.
pub mod Inv
pub mod Push
pub mod Put
pub mod Pop
mod Tests
use oh_my_os.Base.{
  ℕ, ◌+◌, ◌-◌, ◌*◌, Bool, Option, none, some, ltb, ◌==◌, if◌then◌else◌, add32, mul32, Status,
  success, enomem, enoent,
}
use oh_my_os.Memory.{Mem, memcpy}

-- `struct vector`
pub record Vector : Type 0 where
  pub base : ℕ
  pub element_size : ℕ
  pub size : ℕ
  pub capacity : ℕ

-- What `kmalloc` answers for a size, here for the one call that a function makes.
abbrev pub Alloc : Type 0
Alloc = ℕ → Option ℕ

abbrev pub min_capacity : ℕ
min_capacity = 8

-- The two calls of `kmalloc` are for the struct, of 16 bytes, and for its slots.
pub vector_create : Alloc → Alloc → ℕ → Option Vector
vector_create alloc_struct alloc_base element_size = elim (alloc_struct 16) [
  | none ↦ none
  | some _ ↦ elim (alloc_base (mul32 min_capacity element_size)) [
    | none ↦ none
    | some base ↦
        some
          (record { base = base; element_size = element_size; size = 0; capacity = min_capacity })
  ]
]

abbrev pub ele : Vector → ℕ → ℕ
ele v index = v.base + v.element_size * index

-- `none` is the failed assertion, which halts.
pub vector_at : Mem → Vector → ℕ → ℕ → Option Mem
vector_at m v index out =
    if ltb index v.size then some (memcpy m out (ele v index) v.element_size) else none

pub vector_expand : Alloc → Mem → Vector → Status × Mem × Vector
vector_expand alloc m v = elim (alloc (mul32 (mul32 v.element_size v.capacity) 2)) [
  | none ↦ (enomem, m, v)
  | some new_base ↦ (
    success,
    memcpy m new_base v.base (mul32 v.element_size v.size),
    record v { base = new_base; capacity = mul32 v.capacity 2 },
  )
]

-- the part of `__vector_push` behind the expansion
pub vector_put : Mem → Vector → ℕ → Mem × Vector
vector_put m v src =
    (memcpy m (ele v v.size) src v.element_size, record v { size = add32 v.size 1 })

-- `__vector_push` behind its call of `__vector_expand`, whose every error is -ENOMEM
pub put_expanded : ℕ → Status × Mem × Vector → Status × Mem × Vector
unfolding vector_put
put_expanded src (success, m, v) = let (m', v') = vector_put m v src in (success, m', v')
put_expanded src (e, m, v) = (enomem, m, v)

pub vector_push : Alloc → Mem → Vector → ℕ → Status × Mem × Vector
vector_push alloc m v src =
    let (m', v') = vector_put m v src in
    if v.size == v.capacity then put_expanded src (vector_expand alloc m v) else (success, m', v')

pub vector_pop : Mem → Vector → ℕ → Status × Mem × Vector
vector_pop m v out =
    if v.size == 0
    then (enoent, m, v)
    else (success, memcpy m out (ele v (v.size - 1)) v.element_size, record v { size = v.size - 1 })

pub vector_empty : Vector → Bool
vector_empty v = v.size == 0
