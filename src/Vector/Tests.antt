-- ===== src/Vector/Tests.antt =====
-- Runs of the vector, and its theorems at concrete vectors.
use oh_my_os.Base.{ℕ, ◌≡◌, refl, some, [], ◌∷◌, arith, success}
use oh_my_os.Memory.{Mem, slice, memcpy, write}
use oh_my_os.Memory.Copy.{Disjoint, Outside}
use oh_my_os.Vector.{Vector, Alloc, vector_push, vector_pop, vector_expand, put_expanded}
use oh_my_os.Vector.Inv.{IsValid, contents}
use oh_my_os.Vector.Push.{Pushed, vector_push_refines}
use oh_my_os.Vector.Pop.{Popped, vector_pop_refines}

-- every byte is its own address
abbrev memory : Mem
memory a = a

-- two slots of two bytes at 100, both used
abbrev full : Vector
full = record { base = 100; element_size = 2; size = 2; capacity = 2 }

abbrev full-IsValid : IsValid full
full-IsValid = omega arith

abbrev at_200 : Alloc
at_200 _ = some 200

grows :
    let (s, m, v) = vector_push at_200 memory full 50 in
    (s ≡ success)
    × (contents m v ≡ (100 ∷ 101 ∷ []) ∷ (102 ∷ 103 ∷ []) ∷ (50 ∷ 51 ∷ []) ∷ [])
    × (v ≡ record { base = 200; element_size = 2; size = 3; capacity = 4 })
unfolding vector_push put_expanded vector_expand slice memcpy write
grows = (refl, refl, refl)

-- what `at_200` hands out lies apart from the slots and from the element at 50
at_200_apart : (nb : ℕ) → at_200 8 ≡ some nb → Disjoint 100 4 nb 8 × Disjoint 50 2 nb 8
at_200_apart nb e = ground arith

vector_push_refines_example :
    Pushed at_200 memory full (slice memory 50 2) (vector_push at_200 memory full 50)
vector_push_refines_example =
    vector_push_refines at_200 memory full 50 full-IsValid (omega arith) at_200_apart (omega arith)

vector_pop_refines_example :
    let (s, m', v') = vector_pop memory full 50 in
    Popped (contents memory full) s (slice m' 50 2) (contents m' v')
    × IsValid v'
    × ((a : ℕ) → Outside a 50 2 → m' a ≡ memory a)
vector_pop_refines_example = vector_pop_refines memory full 50 full-IsValid (omega arith)
