-- ===== src/Queue.antt =====
-- libs/queue.c: a growing circular queue of elements of a fixed size. One slot always stays free.
pub mod Dequeue
pub mod Enqueue
pub mod Expand
pub mod Inv
pub mod Put
mod Tests
use oh_my_os.Base.{
  ℕ, ◌+◌, ◌-◌, ◌*◌, ◌%◌, Bool, Option, none, some, ltb, ◌==◌, if◌then◌else◌, add32, sub32, mul32,
  Status, success, enomem, enoent,
}
use oh_my_os.Memory.{Mem, memcpy}

-- `struct queue`
pub record Queue : Type 0 where
  pub base : ℕ
  pub element_size : ℕ
  pub front : ℕ
  pub rear : ℕ
  pub capacity : ℕ

abbrev pub min_capacity : ℕ
min_capacity = 8

-- What `kmalloc` answers for a size, here for the one call that a function makes.
abbrev pub Alloc : Type 0
Alloc = ℕ → Option ℕ

-- The two calls of `kmalloc` are for the struct, of 20 bytes, and for its slots.
pub queue_create : Alloc → Alloc → ℕ → Option Queue
queue_create alloc_struct alloc_base element_size = elim (alloc_struct 20) [
  | none ↦ none
  | some _ ↦ elim (alloc_base (mul32 min_capacity element_size)) [
    | none ↦ none
    | some base ↦ some (record {
      base = base;
      element_size = element_size;
      front = 0;
      rear = 0;
      capacity = min_capacity;
    })
  ]
]

abbrev pub ele : Queue → ℕ → ℕ
ele q index = q.base + q.element_size * index

pub queue_empty : Queue → Bool
queue_empty q = q.front == q.rear

pub queue_full : Queue → Bool
queue_full q = add32 q.rear 1 % q.capacity == q.front

pub queue_size : Queue → ℕ
queue_size q = sub32 (add32 q.rear q.capacity) q.front % q.capacity

-- `none` is the failed assertion, which halts.
pub queue_front : Mem → Queue → ℕ → Option Mem
queue_front m q out =
    if ltb q.front q.capacity then some (memcpy m out (ele q q.front) q.element_size) else none

pub queue_rear : Mem → Queue → ℕ → Option Mem
queue_rear m q out =
    if ltb q.rear q.capacity
    then some (memcpy m out (ele q (sub32 (add32 q.rear q.capacity) 1 % q.capacity)) q.element_size)
    else none

-- The copies of `__queue_expand` into the new slots at `new_base`.
pub queue_unroll : Mem → Queue → ℕ → Mem
queue_unroll m q new_base =
    if ltb q.front q.rear
    then memcpy m new_base (ele q q.front) (mul32 (queue_size q) q.element_size)
    else let head = mul32 (sub32 q.capacity q.front) q.element_size in
      memcpy (memcpy m new_base (ele q q.front) head) (new_base + head) q.base
        (mul32 q.rear q.element_size)

pub queue_expand : Alloc → Mem → Queue → Status × Mem × Queue
queue_expand alloc m q = elim (alloc (mul32 (mul32 q.element_size q.capacity) 2)) [
  | none ↦ (enomem, m, q)
  | some new_base ↦ (
    success,
    queue_unroll m q new_base,
    record q { rear = queue_size q; front = 0; base = new_base; capacity = mul32 q.capacity 2 },
  )
]

-- the part of `__enqueue` behind the expansion
pub queue_put : Mem → Queue → ℕ → Mem × Queue
queue_put m q src =
    (memcpy m (ele q q.rear) src q.element_size, record q { rear = add32 q.rear 1 % q.capacity })

-- `__enqueue` behind its call of `__queue_expand`, whose error it passes on
pub put_expanded : ℕ → Status × Mem × Queue → Status × Mem × Queue
unfolding queue_put
put_expanded src (success, m, q) = let (m', q') = queue_put m q src in (success, m', q')
put_expanded src (e, m, q) = (e, m, q)

pub enqueue : Alloc → Mem → Queue → ℕ → Status × Mem × Queue
enqueue alloc m q src =
    let (m', q') = queue_put m q src in
    if queue_full q then put_expanded src (queue_expand alloc m q) else (success, m', q')

pub dequeue : Mem → Queue → ℕ → Status × Mem × Queue
dequeue m q out = if queue_empty q then (enoent, m, q) else (
  success,
  memcpy m out (ele q q.front) q.element_size,
  record q { front = add32 q.front 1 % q.capacity },
)
