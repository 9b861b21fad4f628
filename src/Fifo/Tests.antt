-- ===== src/Fifo/Tests.antt =====
-- Runs of the fifo, and its theorems at concrete fifos.
use oh_my_os.Base.{ℕ, ◌≡◌, refl, [], ◌∷◌, arith, success, enospc}
use oh_my_os.Memory.{Mem, slice, memcpy, write}
use oh_my_os.Memory.Copy.{Outside}
use oh_my_os.Fifo.{Fifo, fifo_copy_in, fifo_copy_out, fifo_in, fifo_out, fifo_len, fifo_avail}
use oh_my_os.Fifo.Contents.{contents}
use oh_my_os.Fifo.Inv.{IsValid}
use oh_my_os.Fifo.Refine.{fifo_in_refines, fifo_out_refines}
use oh_my_os.Fifo.Spec.{push, pop, block}

-- every byte is its own address
abbrev memory : Mem
memory a = a

-- a ring of 8 places at 100 that holds the places 106, 107 and 100
abbrev wrapped : Fifo
wrapped = record { in_pos = 1; out_pos = 6; buffer = 100; size = 8 }

abbrev wrapped-IsValid : IsValid wrapped
wrapped-IsValid = omega arith

in_then_out :
    let (_, m, f) = fifo_in memory wrapped 20 3 in
    let (s, m', f') = fifo_out m f 40 5 in
    (s ≡ success) × (slice m' 40 5 ≡ 106 ∷ 107 ∷ 100 ∷ 20 ∷ 21 ∷ []) × (f'.out_pos ≡ 3)
unfolding fifo_in fifo_out fifo_copy_in fifo_copy_out fifo_avail fifo_len slice memcpy write
in_then_out = (refl, refl, refl)

no_room : (fifo_in memory wrapped 20 5).0 ≡ enospc
unfolding fifo_in fifo_avail fifo_len
no_room = refl

fifo_in_refines_example :
    let (s, m', f') = fifo_in memory wrapped 20 3 in
    ((s, contents m' f') ≡ push 7 (contents memory wrapped) (slice memory 20 3))
    × IsValid f'
    × ((a : ℕ) → Outside a 100 8 → m' a ≡ memory a)
fifo_in_refines_example = fifo_in_refines memory wrapped 20 3 wrapped-IsValid (omega arith)

fifo_out_refines_example :
    let (s, m', f') = fifo_out memory wrapped 40 2 in
    ((s, block s (slice m' 40 2), contents m' f') ≡ pop (contents memory wrapped) 2)
    × IsValid f'
    × ((a : ℕ) → Outside a 40 2 → m' a ≡ memory a)
fifo_out_refines_example = fifo_out_refines memory wrapped 40 2 wrapped-IsValid (omega arith)
