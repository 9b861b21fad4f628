-- ===== src/Segments/Tests.antt =====
-- The segments of the kernel and of the user cover all addresses.
use oh_my_os.Base.{◌≡◌, refl, [], ◌∷◌, map}
use oh_my_os.Segments.{seg_init, gdt_init, base_of, last_of}

run_gdt :
    (map base_of gdt_init ≡ 0 ∷ 0 ∷ 0 ∷ 0 ∷ [])
    × (map last_of gdt_init ≡ 4294967295 ∷ 4294967295 ∷ 4294967295 ∷ 4294967295 ∷ [])
unfolding gdt_init seg_init
run_gdt = (refl, refl)
