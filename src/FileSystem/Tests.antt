-- ===== src/FileSystem/Tests.antt =====
-- Files at work: "ls" at 10, "lsx" at 20 and zeros elsewhere.
use oh_my_os.Base.{ℕ, ◌≡◌, ◌≢◌, refl, arith, some, List, [], ◌∷◌, ◌==◌, if◌then◌else◌, success}
use oh_my_os.Memory.{Mem}
use oh_my_os.CString.{IsString}
use oh_my_os.RbTree.Order.{occurs}
use oh_my_os.FileSystem.{Fs, binfs_find_file, binfs_create_file, binfs_remove_file}
use oh_my_os.FileSystem.Find.{
  binfs_find_file-binfs_create_file, binfs_remove_file-binfs_create_file,
}

abbrev memory : Mem
memory a =
    if a == 10
    then b'l'
    else if a == 11
    then b's'
    else if a == 20
    then b'l'
    else if a == 21
    then b's'
    else if a == 22
    then b'x'
    else 0

abbrev ls : List ℕ
ls = b'l' ∷ b's' ∷ []

at_10 : IsString memory 10 ls
at_10 = ground arith

-- `bin` at 300 holds the file 400 of the name "lsx".
abbrev small : Fs
small = record {
  name = λ f. if f == 400 then 20 else 0;
  parent = λ _. 300;
  fops = λ _. 0;
  priv = λ _. 0;
  file_list = λ d. if d == 300 then 400 ∷ [] else [];
  dir_list = λ _. [];
  root = 0;
  bin = 300;
  proc = 0;
  sys = 0;
}

unused : (d : ℕ) → occurs 500 (small.file_list d) ≡ 0
unused d = ground arith

binfs_find_file-binfs_create_file_example :
    (s' : Fs) × (binfs_create_file (some 500) 10 7 0 small ≡ (success, some 500, s'))
    × (ls ≡ ls → binfs_find_file 9 memory 10 s' ≡ some 500)
    × (ls ≢ ls → binfs_find_file 9 memory 10 s' ≡ binfs_find_file 9 memory 10 small)
binfs_find_file-binfs_create_file_example =
    binfs_find_file-binfs_create_file 9 memory 10 10 ls ls 7 0 500 small at_10 at_10 (omega arith)
      unused

binfs_remove_file-binfs_create_file_example :
    (s' : Fs) × (s'' : Fs) × (binfs_create_file (some 500) 10 7 0 small ≡ (success, some 500, s'))
    × (binfs_remove_file 9 memory 10 s' ≡ some (success, s''))
    × (s''.file_list ≡ small.file_list)
    × (s''.dir_list ≡ small.dir_list)
    × ((z : ℕ) → z ≢ 500 → (s''.name z ≡ small.name z) × (s''.parent z ≡ small.parent z))
binfs_remove_file-binfs_create_file_example =
    binfs_remove_file-binfs_create_file 9 memory 10 10 ls ls 7 0 500 small at_10 at_10 (omega arith)
      unused (λ e. absurd (omega (arith, e))) refl
