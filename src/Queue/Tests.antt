-- ===== src/Queue/Tests.antt =====
-- Runs of the queue, and its theorems at concrete queues.
use oh_my_os.Base.{ℕ, ◌≡◌, refl, some, none, [], ◌∷◌, arith, success, enomem}
use oh_my_os.Memory.{Mem, slice, memcpy, write}
use oh_my_os.Memory.Copy.{Disjoint}
use oh_my_os.Queue.{
  Queue, Alloc, enqueue, put_expanded, queue_expand, queue_unroll, queue_size, queue_full,
}
use oh_my_os.Queue.Inv.{IsValid, contents}
use oh_my_os.Queue.Enqueue.{Enqueued, enqueue_refines}

-- every byte is its own address
abbrev memory : Mem
memory a = a

-- three slots of two bytes at 100, which hold the slots 2 and 0
abbrev turned : Queue
turned = record { base = 100; element_size = 2; front = 2; rear = 1; capacity = 3 }

abbrev turned-IsValid : IsValid turned
turned-IsValid = omega arith

abbrev at_200 : Alloc
at_200 _ = some 200

grows :
    let (s, m, q) = enqueue at_200 memory turned 50 in
    (s ≡ success)
    × (contents m q ≡ (104 ∷ 105 ∷ []) ∷ (100 ∷ 101 ∷ []) ∷ (50 ∷ 51 ∷ []) ∷ [])
    × (q ≡ record { base = 200; element_size = 2; front = 0; rear = 3; capacity = 6 })
unfolding enqueue put_expanded queue_expand queue_unroll queue_size queue_full slice memcpy write
grows = (refl, refl, refl)

no_memory : (enqueue (λ _. none) memory turned 50).0 ≡ enomem
unfolding enqueue put_expanded queue_expand queue_full
no_memory = refl

-- what `at_200` hands out lies apart from the slots and from the element at 50
at_200_apart : (nb : ℕ) → at_200 12 ≡ some nb → Disjoint 100 6 nb 12 × Disjoint 50 2 nb 12
at_200_apart nb e = ground arith

enqueue_refines_example :
    Enqueued at_200 memory turned (slice memory 50 2) (enqueue at_200 memory turned 50)
enqueue_refines_example =
    enqueue_refines at_200 memory turned 50 turned-IsValid (omega arith) at_200_apart (omega arith)
