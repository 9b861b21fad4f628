-- ===== src/Queue/Inv.antt =====
-- The invariant of `struct queue`, its contents, and its size without wrap-around.
use oh_my_os.Base.{ℕ, ◌+◌, ◌*◌, ◌%◌, ◌^◌, ◌≤◌, ◌<◌, ◌≡◌, List, arith, ◌==◌}
use oh_my_os.Base.Wrap.{ring_len, ring_len-eq, mod-WrapsTo}
use oh_my_os.Memory.{Mem, slice}
use oh_my_os.Memory.Elements.{element}
use oh_my_os.Queue.{Queue, queue_empty, queue_full, queue_size}

pub record IsValid (q : Queue) : Type 0 where
  pub nonempty : 0 < q.capacity
  pub sized : 0 < q.element_size
  pub small : q.element_size * q.capacity ≤ 2 ^ 31
  pub front_lt : q.front < q.capacity
  pub rear_lt : q.rear < q.capacity

abbrev pub area : Queue → ℕ
area q = q.element_size * q.capacity

abbrev pub len : Queue → ℕ
len q = ring_len q.capacity q.rear q.front

-- the bytes of the `i`-th element from the front
abbrev pub nth : Mem → Queue → ℕ → List ℕ
nth m q i = element m q.base q.element_size ((q.front + i) % q.capacity)

-- the elements that a queue holds, the oldest first
abbrev pub contents : Mem → Queue → List (List ℕ)
contents m q = slice (nth m q) 0 (len q)

pub capacity-le-area : (q : Queue) → IsValid q → q.capacity ≤ area q
capacity-le-area q v = grind arith

pub queue_size-len : (q : Queue) → IsValid q → queue_size q ≡ len q
unfolding queue_size
queue_size-len q v =
    ring_len-eq q.capacity q.rear q.front v.rear_lt v.front_lt (omega (arith, capacity-le-area q v))

pub queue_full-eq : (q : Queue) → IsValid q → queue_full q ≡ (q.capacity == len q + 1)
unfolding queue_full
queue_full-eq q v = ground (arith, mod-WrapsTo q.capacity (q.rear + 1), capacity-le-area q v)

pub queue_empty-eq : (q : Queue) → IsValid q → queue_empty q ≡ (len q == 0)
unfolding queue_empty
queue_empty-eq q v = ground arith
