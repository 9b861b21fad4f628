-- ===== src/Links/Tests.antt =====
-- Runs of the list operations, and their theorems at concrete rings.
use oh_my_os.Base.{◌+◌, [], ◌∷◌, arith}
use oh_my_os.Links.{Links, list_init, list_insert, list_remove}
use oh_my_os.Links.Remove.{list_remove-IsRing}
use oh_my_os.Links.Ring.{IsRing, list_init-IsRing, list_insert-IsRing}

abbrev wild : Links
wild = record { next = λ a. a + 1; prev = λ a. 7 }

one-IsRing : IsRing (list_insert 50 60 (list_init 50 wild)) 50 (60 ∷ [])
one-IsRing =
    list_insert-IsRing (list_init 50 wild) 50 60 [] (list_init-IsRing wild 50)
      ((λ e. omega (arith, e)), tt)

list_insert-IsRing_example : IsRing (list_insert 50 60 (list_init 50 wild)) 50 (60 ∷ [])
list_insert-IsRing_example =
    list_insert-IsRing (list_init 50 wild) 50 60 [] (list_init-IsRing wild 50)
      ((λ e. omega (arith, e)), tt)

list_remove-IsRing_example : IsRing (list_remove 60 (list_insert 50 60 (list_init 50 wild))) 50 []
list_remove-IsRing_example =
    list_remove-IsRing (list_insert 50 60 (list_init 50 wild)) 50 60 [] [] one-IsRing
