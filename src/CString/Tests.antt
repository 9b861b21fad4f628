-- ===== src/CString/Tests.antt =====
-- Runs of the string functions, and their theorems at concrete strings.
use oh_my_os.Base.{ℕ, ◌≡◌, refl, some, List, [], ◌∷◌, arith, if◌then◌else◌, ◌==◌}
use oh_my_os.Base.Int.{ℤ, pos, negsuc}
use oh_my_os.Memory.{Mem}
use oh_my_os.CString.{IsString, strnlen, strnlen_loop, strcmp, strncmp, strchr, strfind}
use oh_my_os.CString.Compare.{Compares, strcmp-Compares}

-- "ls" at 10, "lsx" at 20 and zeros elsewhere
abbrev memory : Mem
memory a =
    if a == 10
    then b'l'
    else if a == 11
    then b's'
    else if a == 20
    then b'l'
    else if a == 21
    then b's'
    else if a == 22
    then b'x'
    else 0

abbrev ls : List ℕ
ls = b'l' ∷ b's' ∷ []

abbrev lsx : List ℕ
lsx = b'l' ∷ b's' ∷ b'x' ∷ []

at_10 : IsString memory 10 ls
at_10 = ground arith

at_20 : IsString memory 20 lsx
at_20 = ground arith

runs :
    (strcmp 9 memory 10 20 ≡ some (negsuc 119))
    × (strncmp memory 10 20 2 ≡ pos 0)
    × (strchr 9 memory 20 b'x' ≡ some (some 22))
    × (strfind 9 memory 10 b'x' ≡ some 12)
    × (strnlen memory 20 2 ≡ 2)
unfolding strcmp strncmp strchr strfind strnlen strnlen_loop
runs = (refl, refl, refl, refl, refl)

strcmp-Compares_example : (r : ℤ) × (strcmp 3 memory 10 20 ≡ some r) × Compares r ls lsx
strcmp-Compares_example = strcmp-Compares memory 10 20 ls lsx at_10 at_20 3 (omega arith)
