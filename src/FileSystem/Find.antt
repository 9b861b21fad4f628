-- ===== src/FileSystem/Find.antt =====
-- What the functions on files find.
use oh_my_os.Base.{
  ℕ, zero, suc, ◌<◌, ◌≡◌, ◌≢◌, ◌↔◌, ◌∙◌, sym, ap, ap₂, refl, subst, fun_ext, arith, some, List, [],
  ◌∷◌, length, eq→==, ne→==, update, update_ne, update_self, success,
}
use oh_my_os.Base.Int.{ℤ, pos, negsuc}
use oh_my_os.Memory.{Mem}
use oh_my_os.CString.{IsString, strcmp}
use oh_my_os.CString.Compare.{strcmp-Compares}
use oh_my_os.RbTree.Order.{occurs}
use oh_my_os.RbTree.Turn.{one, one_self}
use oh_my_os.Slab.{unlink}
use oh_my_os.FileSystem.{
  Fs, or_else, find_name, dir_find_file, create_file, remove_file, binfs_find_file,
  binfs_create_file, binfs_remove_file,
}
use native.Mathlib.Decide.{ℕ_discrete}

not_zero : (k : ℕ) → pos (suc k) ≢ pos 0
not_zero k e = ground (arith, e)

module _ (fuel : ℕ) (m : Mem) (key : ℕ) (wanted : List ℕ) (string : IsString m key wanted)
    (enough : length wanted < fuel) (names : ℕ → ℕ) (texts : ℕ → List ℕ) where
  by_sign :
      (x : ℕ) (xs : List ℕ) (r : ℤ)
      → strcmp fuel m key (names x) ≡ some r
      → (r ≡ pos 0) ↔ (wanted ≡ texts x)
      → (wanted ≡ texts x → find_name fuel m key names (x ∷ xs) ≡ some x)
        × (wanted ≢ texts x → find_name fuel m key names (x ∷ xs) ≡ find_name fuel m key names xs)
  unfolding find_name
  by_sign x xs (pos zero) run (to, from) =
      rw (run, find_name) ((λ e. refl), λ ne. absurd (ne (to refl)))
  by_sign x xs (pos (suc k)) run (to, from) =
      rw (run, ne→== (suc k) 0 (λ z. absurd (omega (arith, z))))
        ((λ e. absurd (not_zero k (from e))), λ ne. refl)
  by_sign x xs (negsuc k) run (to, from) = rw (run, find_name) ((λ e. cc (from e)), λ ne. refl)

  -- One node, by whether its name is the one looked for.
  find_here :
      (x : ℕ) (xs : List ℕ)
      → IsString m (names x) (texts x)
      → (wanted ≡ texts x → find_name fuel m key names (x ∷ xs) ≡ some x)
        × (wanted ≢ texts x → find_name fuel m key names (x ∷ xs) ≡ find_name fuel m key names xs)
  find_here x xs named =
      let (r, run, (zero_iff, _)) =
        strcmp-Compares m key (names x) wanted (texts x) string named fuel enough in
      by_sign x xs r run zero_iff

find_name-frame :
    (fuel : ℕ) (m : Mem) (key : ℕ) (names names' : ℕ → ℕ) (xs : List ℕ)
    → ((z : ℕ) → 0 < occurs z xs → names' z ≡ names z)
    → find_name fuel m key names' xs ≡ find_name fuel m key names xs
unfolding find_name
find_name-frame fuel m key names names' [] same = refl
find_name-frame fuel m key names names' (x ∷ xs) same =
    let rest = find_name-frame fuel m key names names' xs (λ z i. same z (omega (arith, i))) in
    ap₂ (or_else x) (ap (λ n. strcmp fuel m key n) (same x (omega (arith, one_self x)))) rest

module _ (fuel : ℕ) (m : Mem) (key key' : ℕ) (text wanted : List ℕ) (ops data_ptr f : ℕ) (s : Fs)
    (named : IsString m key text) (string : IsString m key' wanted) (enough : length wanted < fuel)
    (fresh : (d : ℕ) → occurs f (s.file_list d) ≡ 0) where
  abbrev created : Fs
  created = record s {
    parent = update s.parent f s.bin;
    name = update s.name f key;
    fops = update s.fops f ops;
    priv = update s.priv f data_ptr;
    file_list = update s.file_list s.bin (f ∷ s.file_list s.bin);
  }

  new_list : created.file_list s.bin ≡ f ∷ s.file_list s.bin
  new_list = update_self s.file_list s.bin (f ∷ s.file_list s.bin)

  found_new :
      (wanted ≡ text → binfs_find_file fuel m key' created ≡ some f)
      × (wanted ≢ text → binfs_find_file fuel m key' created ≡ binfs_find_file fuel m key' s)
  unfolding binfs_find_file dir_find_file
  found_new =
      let (hit, miss) =
        find_here fuel m key' wanted string enough created.name (λ _. text) f (s.file_list s.bin)
          (subst (λ n. IsString m n text) (sym (update_self s.name f key)) named) in
      let lists = ap (find_name fuel m key' created.name) new_list in
      (
        (λ e. lists ∙ hit e),
        λ ne.
            lists
            ∙ miss ne
            ∙ find_name-frame fuel m key' s.name created.name (s.file_list s.bin) (λ z i.
              update_ne s.name f key z (λ q.
                absurd (omega (arith, i, fresh s.bin, ap (λ w. occurs w (s.file_list s.bin)) q)))),
      )

  -- Once a file is created in `bin` with memory at hand, looking for its name finds it, whatever files of that name were
  -- there, and looking for another name finds what it found before.
  pub binfs_find_file-binfs_create_file :
      (s' : Fs) × (binfs_create_file (some f) key ops data_ptr s ≡ (success, some f, s'))
      × (wanted ≡ text → binfs_find_file fuel m key' s' ≡ some f)
      × (wanted ≢ text → binfs_find_file fuel m key' s' ≡ binfs_find_file fuel m key' s)
  unfolding binfs_create_file create_file
  binfs_find_file-binfs_create_file = (created, refl, found_new.0, found_new.1)

  unlink_fresh : (xs : List ℕ) → occurs f xs ≡ 0 → unlink f xs ≡ xs
  unlink_fresh [] h = refl
  unlink_fresh (x ∷ xs) h =
      rw (ne→== x f (λ e. absurd (omega (arith, h, one_self f, ap (one f) e))))
        (ap (λ ys. x ∷ ys) (unlink_fresh xs (omega (arith, h))))

  back : (d : ℕ) → unlink f (created.file_list d) ≡ s.file_list d
  back d = elim (ℕ_discrete d s.bin) [
    | yes e ↦
        ap (λ c. unlink f (created.file_list c)) e
        ∙ ap (unlink f) new_list
        ∙ top
        ∙ ap s.file_list (sym e)
    | no ne ↦
        ap (unlink f) (update_ne s.file_list s.bin (f ∷ s.file_list s.bin) d ne)
        ∙ unlink_fresh (s.file_list d) (fresh d)
  ]
    where
      top : unlink f (f ∷ s.file_list s.bin) ≡ s.file_list s.bin
      top = rw (eq→== f f refl) refl

  removes :
      f ≢ 0
      → wanted ≡ text
      → binfs_remove_file fuel m key' created
        ≡ some (success, record created { file_list = λ d. unlink f (created.file_list d) })
  unfolding binfs_remove_file remove_file binfs_find_file
  removes ne e = rw (found_new.0 e, binfs_remove_file, ne→== f 0 ne) refl

  -- A file that is created in `bin`, at an address that is not NULL and in no list of files, and then
  -- removed by its name, with more fuel than the name has bytes, leaves the lists of files and of
  -- directories of all directories as they were, and the name and the parent of every other node.
  pub binfs_remove_file-binfs_create_file :
      f ≢ 0
      → wanted ≡ text
      → (s' : Fs) × (s'' : Fs) × (binfs_create_file (some f) key ops data_ptr s
          ≡ (success, some f, s'))
        × (binfs_remove_file fuel m key' s' ≡ some (success, s''))
        × (s''.file_list ≡ s.file_list)
        × (s''.dir_list ≡ s.dir_list)
        × ((z : ℕ) → z ≢ f → (s''.name z ≡ s.name z) × (s''.parent z ≡ s.parent z))
  unfolding binfs_create_file create_file
  binfs_remove_file-binfs_create_file ne e = (
    created,
    record created { file_list = λ d. unlink f (created.file_list d) },
    refl,
    removes ne e,
    fun_ext back,
    refl,
    λ z other. (update_ne s.name f key z other, update_ne s.parent f s.bin z other),
  )
