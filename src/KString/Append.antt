-- ===== src/KString/Append.antt =====
-- A character put behind the text of a growing string, and taken off again.
use oh_my_os.Base.{
  ℕ, ◌+◌, ◌-◌, ◌^◌, ◌≤◌, ◌<◌, ◌≡◌, ◌≢◌, ◌∙◌, refl, ap, false, List, [], ◌∷◌, ◌++◌, length,
  length-append, some, arith, add32, success, le→leb, ne→==, ◌==◌,
}
use oh_my_os.Memory.{Mem, write}
use oh_my_os.Memory.Copy.{write_self, write_ne}
use oh_my_os.CString.{IsString}
use oh_my_os.KString.{
  KString, Alloc, string_try_expand, put_char, append_expanded, ksappend_char, kspop_char,
}

-- The string holds the characters `xs` and a NUL, and fewer than 2 ^ 31 of them.
pub record IsText (m : Mem) (s : KString) (xs : List ℕ) : Type 0 where
  pub bytes : IsString m s.str xs
  pub count : length xs ≡ s.length
  pub small : s.length < 2 ^ 31

-- A byte that is not NUL in place of the NUL, and a NUL behind it, put the byte behind a string.
IsString-snoc :
    (m m' : Mem) (p c : ℕ) (xs : List ℕ)
    → c ≢ 0
    → ((a : ℕ) → p ≤ a → a < p + length xs → m' a ≡ m a)
    → m' (p + length xs) ≡ c
    → m' (p + length xs + 1) ≡ 0
    → IsString m p xs
    → IsString m' p (xs ++ c ∷ [])
IsString-snoc m m' p c [] nz same at_c at_0 h =
    (ap m' (omega arith) ∙ at_c, nz, ap m' (omega arith) ∙ at_0)
IsString-snoc m m' p c (x ∷ xs) nz same at_c at_0 (e, x_nz, h) = (
  same p (omega arith) (omega arith) ∙ e,
  x_nz,
  IsString-snoc m m' (p + 1) c xs nz (λ a lo hi. same a (omega arith) (omega arith))
      (ap m' (omega arith) ∙ at_c) (ap m' (omega arith) ∙ at_0) h,
)

-- A NUL in place of the last byte of a string takes it off.
IsString-unsnoc :
    (m m' : Mem) (p : ℕ) (xs : List ℕ) (c : ℕ)
    → ((a : ℕ) → p ≤ a → a < p + length xs → m' a ≡ m a)
    → m' (p + length xs) ≡ 0
    → IsString m p (xs ++ c ∷ [])
    → IsString m' p xs × (m (p + length xs) ≡ c)
IsString-unsnoc m m' p [] c same at_0 (e, _, _) =
    (ap m' (omega arith) ∙ at_0, ap m (omega arith) ∙ e)
IsString-unsnoc m m' p (x ∷ xs) c same at_0 (e, x_nz, h) =
    let (tail, last) =
      IsString-unsnoc m m' (p + 1) xs c (λ a lo hi. same a (omega arith) (omega arith))
        (ap m' (omega arith) ∙ at_0) h in
    ((same p (omega arith) (omega arith) ∙ e, x_nz, tail), ap m (omega arith) ∙ last)

-- the memory behind `put_char`
abbrev pub appended : Mem → ℕ → ℕ → Mem
appended m end c = write (write m end c) (end + 1) 0

appended_lem :
    (m : Mem) (end c : ℕ)
    → (appended m end c end ≡ c)
      × (appended m end c (end + 1) ≡ 0)
      × ((a : ℕ) → a < end → appended m end c a ≡ m a)
unfolding write
appended_lem m end c = (ground arith, ground arith, λ a h. ground arith)

abbrev pub longer : KString → KString
longer s = record s { length = s.length + 1 }

-- While the capacity is above the length, `ksappend_char` succeeds in place, whatever `kmalloc` would
-- answer: it writes the character and a NUL.
ksappend_char_in_place :
    (alloc : Alloc) (m : Mem) (s : KString) (c : ℕ)
    → s.length < s.capacity
    → s.length < 2 ^ 31
    → ksappend_char alloc m s c ≡ some (success, appended m (s.str + s.length) c, longer s)
unfolding ksappend_char string_try_expand append_expanded put_char
ksappend_char_in_place alloc m s c room small =
    let e : add32 s.length 1 ≡ s.length + 1 = omega arith in
    let e' : s.str + (s.length + 1) ≡ s.str + s.length + 1 = omega arith in
    rw e (rw (le→leb (s.length + 1) s.capacity (omega arith)) (rw (e, e') refl))

-- On a text of fewer than 2 ^ 31 - 1 characters, with a capacity above the length and a character
-- other than NUL, `ksappend_char` succeeds and puts the character behind the text, and `kspop_char`
-- after it gives the character back and leaves the text as it was; whatever `kmalloc` would answer.
pub kspop_char-ksappend_char :
    (alloc : Alloc) (m : Mem) (s : KString) (xs : List ℕ) (c : ℕ)
    → IsText m s xs
    → c ≢ 0
    → s.length < s.capacity
    → s.length + 1 < 2 ^ 31
    → let m' = appended m (s.str + s.length) c in
      let (c', m'', s'') = kspop_char m' (longer s) in
      (ksappend_char alloc m s c ≡ some (success, m', longer s))
      × IsText m' (longer s) (xs ++ c ∷ [])
      × (c' ≡ c)
      × IsText m'' s'' xs
unfolding kspop_char
kspop_char-ksappend_char alloc m s xs c text nz room small =
    let q = s.str + s.length in
    let t = appended m q c in
    let (at_c, at_0, same) = appended_lem m q c in
    let same_to : (a : ℕ) → s.str ≤ a → a < s.str + length xs → t a ≡ m a =
      λ a lo hi. same a (omega (arith, text.count)) in
    let end : s.str + length xs ≡ q = omega (arith, text.count) in
    let snoc : IsString t s.str (xs ++ c ∷ []) =
      IsString-snoc m t s.str c xs nz same_to (ap t end ∙ at_c) (ap (λ a. t (a + 1)) end ∙ at_0)
        text.bytes in
    let back : s.length + 1 - 1 ≡ s.length = omega arith in
    let some_left : (s.length + 1 == 0) ≡ false =
      ne→== (s.length + 1) 0 (λ e. absurd (omega (arith, e))) in
    let (gone, _) =
      IsString-unsnoc t (write t q 0) s.str xs c
        (λ a lo hi. write_ne t q 0 a (omega (arith, text.count)))
        (ap (write t q 0) end ∙ write_self t q 0) snoc in
    (
      ksappend_char_in_place alloc m s c room (omega arith),
      record {
        bytes = snoc;
        count = omega (arith, length-append xs (c ∷ []), text.count);
        small = small;
      },
      rw (some_left, back) at_c,
      rw (some_left, back) (record { bytes = gone; count = text.count; small = text.small }),
    )
