-- ===== src/Keyboard/Keys.antt =====
-- What a key does to the flags and to the characters.
use oh_my_os.Base.{
  ℕ, zero, suc, ◌+◌, ◌-◌, ◌<◌, ◌≡◌, ◌≢◌, inl, inr, ◌∙◌, ap, refl, arith, Bool, true, false,
  Bool-cases, not, ◌&&◌, ◌||◌, List, [], ◌∷◌, ltb, leb, ltb→lt, le→leb, ◌==◌, ne→==, ==→ne,
  if◌then◌else◌,
}
use oh_my_os.Keyboard.{
  Flags, xor, code_shift, code_ctl, code_alt, get, special, normalmap_keys, shiftmap_keys,
  ctlmap_keys, normalmap_row, shiftmap_row, ctlmap_row, normalmap, shiftmap, ctlmap, charcode,
  swap_case, press, release, keyboard_device_getc, keyboard_read_all_buffer,
}

-- the flags behind some bytes
abbrev pub flags_after : List ℕ → Flags → Flags
flags_after bytes f = (keyboard_read_all_buffer bytes f).1

-- The bytes of a key that is pressed and let go of, with or without the escape in front of each.
abbrev pub stroke : Bool → ℕ → List ℕ
stroke true k = 0xE0 ∷ k ∷ 0xE0 ∷ (k + 0x80) ∷ []
stroke false k = k ∷ (k + 0x80) ∷ []

-- the code of the key in the tables
abbrev pub code : Bool → ℕ → ℕ
code true k = k + 0x80
code false k = k

-- The flags `f` with the modifiers of one key off and its lock turned over.
abbrev pub struck : ℕ → Flags → Flags
struck scan f = record f {
  shift = f.shift && not (code_shift scan);
  ctl = f.ctl && not (code_ctl scan);
  alt = f.alt && not (code_alt scan);
  capslock = xor f.capslock (scan == 0x3A);
  numlock = xor f.numlock (scan == 0x45);
  scrolllock = xor f.scrolllock (scan == 0x46);
  e0esc = false;
}

absorb : (a b : Bool) → ((a || b) && not b) ≡ (a && not b)
absorb true true = refl
absorb true false = refl
absorb false true = refl
absorb false false = refl

modifiers : Bool → Bool → Bool → ℕ → Flags → Flags
modifiers s c a scan f = record (struck scan f) { shift = s; ctl = c; alt = a }

release-press : (scan : ℕ) (f : Flags) → release scan (press scan f) ≡ struck scan f
unfolding release press modifiers
release-press scan f =
    let s = code_shift scan in
    let c = code_ctl scan in
    let a = code_alt scan in
    ap (λ b. modifiers b ((f.ctl || c) && not c) ((f.alt || a) && not a) scan f) (absorb f.shift s)
    ∙ ap (λ b. modifiers (f.shift && not s) b ((f.alt || a) && not a) scan f) (absorb f.ctl c)
    ∙ ap (λ b. modifiers (f.shift && not s) (f.ctl && not c) b scan f) (absorb f.alt a)

abbrev flags_of : ℕ × Bool × Flags → Flags
flags_of (c, reboots, f) = f

press_keeps : (scan : ℕ) (f : Flags) → (press scan (record f { e0esc = false })).e0esc ≡ false
unfolding press
press_keeps scan f = refl

release-press_escaped :
    (scan : ℕ) (f : Flags)
    → release scan (record (press scan (record f { e0esc = false })) { e0esc = true })
      ≡ struck scan f
unfolding release press
release-press_escaped scan f = release-press scan f

either : (b c : Bool) (k : ℕ) → b ≡ c → (if b then k + 0x80 else k) ≡ code c k
either true true k e = refl
either false false k e = refl
either true false k e = cc
either false true k e = cc

-- a key that goes down, and one that comes up
getc_down :
    (b : Bool) (k : ℕ) (f : Flags)
    → k < 0x80
    → f.e0esc ≡ b
    → flags_of (keyboard_device_getc k f) ≡ press (code b k) (record f { e0esc = false })
unfolding keyboard_device_getc
getc_down b k f lt e =
    let below : leb 0x80 k ≡ false = ground (arith, lt) in
    rw (ne→== k 0xE0 (λ q. absurd (omega (arith, lt, q))), below)
      (ap (λ scan. press scan (record f { e0esc = false })) (either f.e0esc b k e))

getc_up :
    (b : Bool) (k : ℕ) (f : Flags)
    → k < 0x80
    → k ≢ 0x60
    → f.e0esc ≡ b
    → flags_of (keyboard_device_getc (k + 0x80) f) ≡ release (code b k) f
unfolding keyboard_device_getc
getc_up b k f lt ne e =
    let back : k + 0x80 - 0x80 ≡ k = omega arith in
    rw
      (
        ne→== (k + 0x80) 0xE0 (λ q. ne (omega (arith, q))),
        le→leb 0x80 (k + 0x80) (omega arith),
        back,
      )
      (ap (λ scan. release scan f) (either f.e0esc b k e))

getc_escape : (f : Flags) → flags_of (keyboard_device_getc 0xE0 f) ≡ record f { e0esc = true }
unfolding keyboard_device_getc
getc_escape f = refl

-- A key that is pressed and let go of, from a state without a pending escape, leaves the flags as they
-- were but for its own: its modifiers are off and its lock is turned over. The same holds of the keys
-- that come with an escape byte. The key 0x60, whose release code is the escape byte, is left out.
pub keyboard_read_all_buffer-stroke :
    (escaped : Bool) (k : ℕ) (f : Flags)
    → k < 0x80
    → k ≢ 0x60
    → f.e0esc ≡ false
    → flags_after (stroke escaped k) f ≡ struck (code escaped k) f
unfolding keyboard_read_all_buffer
keyboard_read_all_buffer-stroke false k f lt ne e =
    ap (λ g. flags_of (keyboard_device_getc (k + 0x80) g)) (getc_down false k f lt e)
    ∙ getc_up false k (press k (record f { e0esc = false })) lt ne (press_keeps k f)
    ∙ release-press k (record f { e0esc = false })
keyboard_read_all_buffer-stroke true k f lt ne e =
    let after : Flags = press (k + 0x80) (record f { e0esc = false }) in
    ap
      (λ g. flags_of (
        keyboard_device_getc (k + 0x80)
          (flags_of (keyboard_device_getc 0xE0 (flags_of (keyboard_device_getc k g))))))
      (getc_escape f)
    ∙ ap (λ g. flags_of (keyboard_device_getc (k + 0x80) (flags_of (keyboard_device_getc 0xE0 g))))
        (getc_down true k (record f { e0esc = true }) lt refl)
    ∙ ap (λ g. flags_of (keyboard_device_getc (k + 0x80) g)) (getc_escape after)
    ∙ getc_up true k (record after { e0esc = true }) lt ne refl
    ∙ release-press_escaped (k + 0x80) f

-- Every number of a list is a byte.
abbrev all_bytes : List ℕ → Bool
all_bytes [] = true
all_bytes (c ∷ cs) = ltb c 0x100 && all_bytes cs

abbrev pub AreCharacters : List ℕ → Type 0
AreCharacters [] = Unit
AreCharacters (c ∷ cs) = ((c ≢ 0) × (c < 0x100)) × AreCharacters cs

and_true : (b c : Bool) → (b && c) ≡ true → (b ≡ true) × (c ≡ true)
and_true true c e = (refl, e)
and_true false c e = cc

get_byte : (row : List ℕ) (i : ℕ) → all_bytes row ≡ true → get row i < 0x100
get_byte [] i h = omega arith
get_byte (c ∷ cs) zero h = ltb→lt c 0x100 (and_true (ltb c 0x100) (all_bytes cs) h).0
get_byte (c ∷ cs) (suc i) h = get_byte cs i (and_true (ltb c 0x100) (all_bytes cs) h).1

if_byte : (b : Bool) (x y : ℕ) → x < 0x100 → y < 0x100 → (if b then x else y) < 0x100
if_byte true x y p q = p
if_byte false x y p q = q

all_key_bytes : List (ℕ × ℕ) → Bool
all_key_bytes [] = true
all_key_bytes ((key, c) ∷ keys) = ltb c 0x100 && all_key_bytes keys

special_byte :
    (keys : List (ℕ × ℕ)) (c scan : ℕ)
    → all_key_bytes keys ≡ true
    → c < 0x100
    → special keys c scan < 0x100
unfolding all_key_bytes
special_byte [] c scan h lt = lt
special_byte ((key, c') ∷ keys) c scan h lt =
    let (own, others) = and_true (ltb c' 0x100) (all_key_bytes keys) h in
    if_byte (scan == key) c' (special keys c scan) (ltb→lt c' 0x100 own)
      (special_byte keys c scan others lt)

charcode_byte : (f : Flags) (scan : ℕ) → charcode f scan < 0x100
unfolding charcode normalmap shiftmap ctlmap all_key_bytes
charcode_byte f scan =
    if_byte f.ctl (ctlmap scan) (if f.shift then shiftmap scan else normalmap scan)
      (special_byte ctlmap_keys (get ctlmap_row scan) scan refl (get_byte ctlmap_row scan refl))
      (if_byte f.shift (shiftmap scan) (normalmap scan)
        (special_byte shiftmap_keys (get shiftmap_row scan) scan refl
          (get_byte shiftmap_row scan refl))
        (special_byte normalmap_keys (get normalmap_row scan) scan refl
          (get_byte normalmap_row scan refl)))

swap_case_byte : (c : ℕ) → c < 0x100 → swap_case c < 0x100
unfolding swap_case
swap_case_byte c h = ground (arith, h)

getc_byte : (scan : ℕ) (f : Flags) → (keyboard_device_getc scan f).0 < 0x100
unfolding keyboard_device_getc
getc_byte scan f = elim (Bool-cases (scan == 0xE0)) [
  | inl e ↦ rw e (omega arith)
  | inr n ↦ rw n (elim (Bool-cases (leb 0x80 scan)) [
    | inl up ↦ rw up (omega arith)
    | inr down ↦ rw down (
        let s = if f.e0esc then scan + 0x80 else scan in
        let g = press s (record f { e0esc = false }) in
        if_byte g.capslock (swap_case (charcode g s)) (charcode g s)
          (swap_case_byte (charcode g s) (charcode_byte g s)) (charcode_byte g s))
  ])
]

add_character :
    (c : ℕ) (cs : List ℕ)
    → c < 0x100
    → AreCharacters cs
    → AreCharacters (if c == 0 then cs else c ∷ cs)
add_character c cs lt h = elim (Bool-cases (c == 0)) [
  | inl e ↦ rw e h
  | inr n ↦ rw n ((==→ne c 0 n, lt), h)
]

-- Whatever bytes the controller has and whatever the flags, `keyboard_read_all_buffer` hands over
-- characters that are bytes and not 0.
pub keyboard_read_all_buffer-AreCharacters :
    (bytes : List ℕ) (f : Flags) → AreCharacters (keyboard_read_all_buffer bytes f).0
unfolding keyboard_read_all_buffer
keyboard_read_all_buffer-AreCharacters [] f = tt
keyboard_read_all_buffer-AreCharacters (scan ∷ bytes) f =
    add_character (keyboard_device_getc scan f).0
      (keyboard_read_all_buffer bytes (keyboard_device_getc scan f).2).0 (getc_byte scan f)
      (keyboard_read_all_buffer-AreCharacters bytes (keyboard_device_getc scan f).2)
