-- ===== src/KString/Tests.antt =====
-- Theorems on growing strings at concrete strings.
use oh_my_os.Base.{◌≡◌, refl, [], ◌∷◌, none, some, arith, success, ◌==◌, if◌then◌else◌}
use oh_my_os.Memory.{Mem}
use oh_my_os.KString.{KString, Alloc, ksappend_char, kspop_char}
use oh_my_os.KString.Append.{IsText, appended, longer, kspop_char-ksappend_char}

-- "ls" at 100
abbrev memory : Mem
memory a = if a == 100 then b'l' else if a == 101 then b's' else 0

-- room for three bytes
abbrev line : KString
line = record { str = 100; length = 2; capacity = 3 }

abbrev no_memory : Alloc
no_memory size = none

line-IsText : IsText memory line (b'l' ∷ b's' ∷ [])
line-IsText = record { bytes = ground arith; count = refl; small = omega arith }

kspop_char-ksappend_char_example :
    let m' = appended memory 102 b'x' in
    let (c', m'', s'') = kspop_char m' (longer line) in
    (ksappend_char no_memory memory line b'x' ≡ some (success, m', longer line))
    × IsText m' (longer line) (b'l' ∷ b's' ∷ b'x' ∷ [])
    × (c' ≡ b'x')
    × IsText m'' s'' (b'l' ∷ b's' ∷ [])
kspop_char-ksappend_char_example =
    kspop_char-ksappend_char no_memory memory line (b'l' ∷ b's' ∷ []) b'x' line-IsText
      (λ e. omega (arith, e)) (omega arith) (omega arith)
