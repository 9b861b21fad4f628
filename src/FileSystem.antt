-- ===== src/FileSystem.antt =====
-- fs/fs.c: directories of files in memory. A file or a directory is the address of its structure, 0 being
-- NULL, and a name is the address of its string; each field is a function from addresses, and the lists of
-- a directory are sequences, the newest node first. The answers of `kmalloc` are arguments.
pub mod Find
mod Tests
use oh_my_os.Base.{
  ℕ, Option, none, some, List, [], ◌∷◌, ◌==◌, if◌then◌else◌, update, Status, success, enoent,
  enomem,
}
use oh_my_os.Base.Int.{ℤ, pos, negsuc}
use oh_my_os.Memory.{Mem}
use oh_my_os.CString.{strcmp}
use oh_my_os.Slab.{unlink}

-- the fields of `struct file` and `struct directory`, and the directories that are global
pub record Fs : Type 0 where
  pub name : ℕ → ℕ
  pub parent : ℕ → ℕ
  pub fops : ℕ → ℕ
  pub priv : ℕ → ℕ
  pub file_list : ℕ → List ℕ
  pub dir_list : ℕ → List ℕ
  pub root : ℕ
  pub bin : ℕ
  pub proc : ℕ
  pub sys : ℕ

-- the node if `strcmp` answers 0, and else what the rest of the list gives
abbrev pub or_else : ℕ → Option ℤ → Option ℕ → Option ℕ
or_else x none rest = none
or_else x (some (pos r)) rest = if r == 0 then some x else rest
or_else x (some (negsuc r)) rest = rest

-- The loops over a list; 0 is NULL, and `none` the fuel for the strings run out.
unfoldable pub find_name : ℕ → Mem → ℕ → (ℕ → ℕ) → List ℕ → Option ℕ
find_name fuel m key names [] = some 0
find_name fuel m key names (x ∷ xs) =
    or_else x (strcmp fuel m key (names x)) (find_name fuel m key names xs)

unfoldable pub dir_find_file : ℕ → Mem → ℕ → ℕ → Fs → Option ℕ
dir_find_file fuel m dir key s = find_name fuel m key s.name (s.file_list dir)

unfoldable pub dir_find_dir : ℕ → Mem → ℕ → ℕ → Fs → Option ℕ
dir_find_dir fuel m dir key s = find_name fuel m key s.name (s.dir_list dir)

-- The status, what `*file` becomes where it is written, and the state.
unfoldable pub create_file : Option ℕ → ℕ → ℕ → ℕ → ℕ → Fs → Status × Option ℕ × Fs
create_file none key ops dir data_ptr s = (enomem, none, s)
create_file (some f) key ops dir data_ptr s = (
  success,
  some f,
  record s {
    parent = update s.parent f dir;
    name = update s.name f key;
    fops = update s.fops f ops;
    priv = update s.priv f data_ptr;
    file_list = update s.file_list dir (f ∷ s.file_list dir);
  },
)

-- A node is in one list; `list_remove` takes it out of that.
unfoldable pub remove_file : ℕ → Fs → Status × Fs
remove_file file s = (success, record s { file_list = λ d. unlink file (s.file_list d) })

unfoldable pub create_directory : Option ℕ → ℕ → ℕ → Fs → Status × Option ℕ × Fs
create_directory none key up s = (enomem, none, s)
create_directory (some d) key up s = (
  success,
  some d,
  record s {
    name = update s.name d key;
    parent = update s.parent d up;
    file_list = update s.file_list d [];
    dir_list =
        let lists = update s.dir_list d [] in
        if up == 0 then lists else update lists up (d ∷ lists up);
  },
)

unfoldable pub binfs_find_file : ℕ → Mem → ℕ → Fs → Option ℕ
binfs_find_file fuel m key s = dir_find_file fuel m s.bin key s

unfoldable pub binfs_create_file : Option ℕ → ℕ → ℕ → ℕ → Fs → Status × Option ℕ × Fs
binfs_create_file answer key ops data_ptr s = create_file answer key ops s.bin data_ptr s

unfoldable pub binfs_remove_file : ℕ → Mem → ℕ → Fs → Option (Status × Fs)
binfs_remove_file fuel m key s = elim (dir_find_file fuel m s.bin key s) [
  | none ↦ none
  | some file ↦ if file == 0 then some (enoent, s) else some (remove_file file s)
]

unfoldable pub procfs_create_dir : Option ℕ → ℕ → Fs → Status × Option ℕ × Fs
procfs_create_dir answer key s = create_directory answer key s.proc s
