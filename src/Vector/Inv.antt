-- ===== src/Vector/Inv.antt =====
-- The invariant of `struct vector`, and the elements that it holds.
use oh_my_os.Base.{ℕ, ◌*◌, ◌^◌, ◌≤◌, ◌<◌, List, arith}
use oh_my_os.Memory.{Mem, slice}
use oh_my_os.Memory.Elements.{element}
use oh_my_os.Vector.{Vector}

pub record IsValid (v : Vector) : Type 0 where
  pub nonempty : 0 < v.capacity
  pub sized : 0 < v.element_size
  pub small : v.element_size * v.capacity ≤ 2 ^ 31
  pub size_le : v.size ≤ v.capacity

abbrev pub area : Vector → ℕ
area v = v.element_size * v.capacity

abbrev pub nth : Mem → Vector → ℕ → List ℕ
nth m v i = element m v.base v.element_size i

abbrev pub contents : Mem → Vector → List (List ℕ)
contents m v = slice (nth m v) 0 v.size

pub capacity-le-area : (v : Vector) → IsValid v → v.capacity ≤ area v
capacity-le-area v h = grind arith
