-- ===== src/Memory/Tests.antt =====
-- Runs of the memory functions, and their theorems at concrete areas.
use oh_my_os.Base.{◌*◌, ◌≡◌, refl}
use oh_my_os.Memory.{Mem, write, memset, memcpy, copy_backwards, memmove}
use oh_my_os.Memory.Copy.{moved, memmove_lem}

abbrev squares : Mem
squares a = a * a

runs :
    (memmove squares 3 2 4 5 ≡ 16) × (memmove squares 2 3 4 5 ≡ 36) × (memset squares 2 0 3 4 ≡ 0)
unfolding memmove memset memcpy copy_backwards write
runs = (refl, refl, refl)

memmove_lem_example : memmove squares 3 2 4 5 ≡ moved squares 3 2 4 5
memmove_lem_example = memmove_lem squares 3 2 4 5
