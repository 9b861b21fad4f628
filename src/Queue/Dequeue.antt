-- ===== src/Queue/Dequeue.antt =====
-- `__dequeue` on a valid queue.
use oh_my_os.Base.{ℕ, ◌+◌, ◌*◌, ◌%◌, List, [], ◌∷◌, add32, Status, success, enoent}
use oh_my_os.Memory.{Mem, memcpy}
use oh_my_os.Memory.Copy.{Disjoint}
use oh_my_os.Queue.{Queue}
use oh_my_os.Queue.Inv.{IsValid, area}

-- what taking the oldest element off a sequence hands over and leaves
abbrev pub take_front : List (List ℕ) → Status × List (List ℕ) × List (List ℕ)
take_front [] = (enoent, [], [])
take_front (x ∷ xs) = (success, x ∷ [], xs)

-- the element that a call which answers `s` has handed over
abbrev pub handed : Status → List ℕ → List (List ℕ)
handed success x = x ∷ []
handed _ x = []

module _ (m : Mem) (q : Queue) (out : ℕ) (v : IsValid q)
    (apart : Disjoint out q.element_size q.base (area q)) where
  open q use {base, element_size as es, front, rear, capacity}

  abbrev m' : Mem
  m' = memcpy m out (base + es * front) es

  abbrev q' : Queue
  q' = record q { front = add32 front 1 % capacity }
