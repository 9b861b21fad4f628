-- ===== src/Keyboard.antt =====
-- kernel/keyboard.c: scan codes of the keyboard become characters. The flags of `shift` are Booleans,
-- and the bytes that the controller has ready are a list.
pub mod Keys
mod Tests
use oh_my_os.Base.{
  ℕ, zero, suc, ◌+◌, ◌-◌, Bool, true, false, not, ◌&&◌, ◌||◌, List, [], ◌∷◌, leb, ◌==◌,
  if◌then◌else◌,
}

-- SHIFT, CTL, ALT, CAPSLOCK, NUMLOCK, SCROLLLOCK and E0ESC
pub record Flags : Type 0 where
  pub shift : Bool
  pub ctl : Bool
  pub alt : Bool
  pub capslock : Bool
  pub numlock : Bool
  pub scrolllock : Bool
  pub e0esc : Bool

abbrev pub xor : Bool → Bool → Bool
xor true b = not b
xor false b = b

-- whether `shiftcode[data]` has SHIFT, CTL and ALT
pub code_shift : ℕ → Bool
code_shift scan = scan == 0x2A || scan == 0x36

pub code_ctl : ℕ → Bool
code_ctl scan = scan == 0x1D || scan == 0x9D

pub code_alt : ℕ → Bool
code_alt scan = scan == 0x38 || scan == 0xB8

-- an entry of the first part of a table, and 0 behind it
abbrev pub get : List ℕ → ℕ → ℕ
get [] i = 0
get (c ∷ cs) zero = c
get (c ∷ cs) (suc i) = get cs i

-- the entries with a code of their own, before the others
abbrev pub special : List (ℕ × ℕ) → ℕ → ℕ → ℕ
special [] c scan = c
special ((key, c') ∷ keys) c scan = if scan == key then c' else special keys c scan

-- `normalmap`, the characters by their codes
abbrev normalmap_row : List ℕ
normalmap_row =
    0 ∷ 27 ∷ 49 ∷ 50 ∷ 51 ∷ 52 ∷ 53 ∷ 54 ∷ 55 ∷ 56 ∷ 57 ∷ 48 ∷ 45 ∷ 61 ∷ 8 ∷ 9 ∷ 113 ∷ 119 ∷ 101
    ∷ 114 ∷ 116 ∷ 121 ∷ 117 ∷ 105 ∷ 111 ∷ 112 ∷ 91 ∷ 93 ∷ 10 ∷ 0 ∷ 97 ∷ 115 ∷ 100 ∷ 102 ∷ 103 ∷ 104
    ∷ 106 ∷ 107 ∷ 108 ∷ 59 ∷ 39 ∷ 96 ∷ 0 ∷ 92 ∷ 122 ∷ 120 ∷ 99 ∷ 118 ∷ 98 ∷ 110 ∷ 109 ∷ 44 ∷ 46 ∷ 47
    ∷ 0 ∷ 42 ∷ 0 ∷ 32 ∷ 0 ∷ 0 ∷ 0 ∷ 0 ∷ 0 ∷ 0 ∷ 0 ∷ 0 ∷ 0 ∷ 0 ∷ 0 ∷ 0 ∷ 0 ∷ 55 ∷ 56 ∷ 57 ∷ 45 ∷ 52
    ∷ 53 ∷ 54 ∷ 43 ∷ 49 ∷ 50 ∷ 51 ∷ 48 ∷ 46 ∷ 0 ∷ 0 ∷ 0 ∷ 0 ∷ []

abbrev normalmap_keys : List (ℕ × ℕ)
normalmap_keys =
    (0xC7, 0xE0)
    ∷ (0x9C, 0xA)
    ∷ (0xB5, 0x2F)
    ∷ (0xC8, 0xE2)
    ∷ (0xC9, 0xE6)
    ∷ (0xCB, 0xE4)
    ∷ (0xCD, 0xE5)
    ∷ (0xCF, 0xE1)
    ∷ (0xD0, 0xE3)
    ∷ (0xD1, 0xE7)
    ∷ (0xD2, 0xE8)
    ∷ (0xD3, 0xE9)
    ∷ []

pub normalmap : ℕ → ℕ
normalmap scan = special normalmap_keys (get normalmap_row scan) scan

-- `shiftmap`
abbrev shiftmap_row : List ℕ
shiftmap_row =
    0 ∷ 27 ∷ 33 ∷ 64 ∷ 35 ∷ 36 ∷ 37 ∷ 94 ∷ 38 ∷ 42 ∷ 40 ∷ 41 ∷ 95 ∷ 43 ∷ 8 ∷ 9 ∷ 81 ∷ 87 ∷ 69 ∷ 82
    ∷ 84 ∷ 89 ∷ 85 ∷ 73 ∷ 79 ∷ 80 ∷ 123 ∷ 125 ∷ 10 ∷ 0 ∷ 65 ∷ 83 ∷ 68 ∷ 70 ∷ 71 ∷ 72 ∷ 74 ∷ 75 ∷ 76
    ∷ 58 ∷ 34 ∷ 126 ∷ 0 ∷ 124 ∷ 90 ∷ 88 ∷ 67 ∷ 86 ∷ 66 ∷ 78 ∷ 77 ∷ 60 ∷ 62 ∷ 63 ∷ 0 ∷ 42 ∷ 0 ∷ 32
    ∷ 0 ∷ 0 ∷ 0 ∷ 0 ∷ 0 ∷ 0 ∷ 0 ∷ 0 ∷ 0 ∷ 0 ∷ 0 ∷ 0 ∷ 0 ∷ 55 ∷ 56 ∷ 57 ∷ 45 ∷ 52 ∷ 53 ∷ 54 ∷ 43 ∷ 49
    ∷ 50 ∷ 51 ∷ 48 ∷ 46 ∷ 0 ∷ 0 ∷ 0 ∷ 0 ∷ []

abbrev shiftmap_keys : List (ℕ × ℕ)
shiftmap_keys =
    (0xC7, 0xE0)
    ∷ (0x9C, 0xA)
    ∷ (0xB5, 0x2F)
    ∷ (0xC8, 0xE2)
    ∷ (0xC9, 0xE6)
    ∷ (0xCB, 0xE4)
    ∷ (0xCD, 0xE5)
    ∷ (0xCF, 0xE1)
    ∷ (0xD0, 0xE3)
    ∷ (0xD1, 0xE7)
    ∷ (0xD2, 0xE8)
    ∷ (0xD3, 0xE9)
    ∷ []

pub shiftmap : ℕ → ℕ
shiftmap scan = special shiftmap_keys (get shiftmap_row scan) scan

-- `ctlmap`
abbrev ctlmap_row : List ℕ
ctlmap_row =
    0 ∷ 0 ∷ 0 ∷ 0 ∷ 0 ∷ 0 ∷ 0 ∷ 0 ∷ 0 ∷ 0 ∷ 0 ∷ 0 ∷ 0 ∷ 0 ∷ 0 ∷ 0 ∷ 17 ∷ 23 ∷ 5 ∷ 18 ∷ 20 ∷ 25 ∷ 21
    ∷ 9 ∷ 15 ∷ 16 ∷ 0 ∷ 0 ∷ 13 ∷ 0 ∷ 1 ∷ 19 ∷ 4 ∷ 6 ∷ 7 ∷ 8 ∷ 10 ∷ 11 ∷ 12 ∷ 0 ∷ 0 ∷ 0 ∷ 0 ∷ 28 ∷ 26
    ∷ 24 ∷ 3 ∷ 22 ∷ 2 ∷ 14 ∷ 13 ∷ 0 ∷ 0 ∷ 239 ∷ 0 ∷ 0 ∷ []

abbrev ctlmap_keys : List (ℕ × ℕ)
ctlmap_keys =
    (0x97, 0xE0)
    ∷ (0xB5, 0xEF)
    ∷ (0xC8, 0xE2)
    ∷ (0xC9, 0xE6)
    ∷ (0xCB, 0xE4)
    ∷ (0xCD, 0xE5)
    ∷ (0xCF, 0xE1)
    ∷ (0xD0, 0xE3)
    ∷ (0xD1, 0xE7)
    ∷ (0xD2, 0xE8)
    ∷ (0xD3, 0xE9)
    ∷ []

pub ctlmap : ℕ → ℕ
ctlmap scan = special ctlmap_keys (get ctlmap_row scan) scan

-- `charcode[shift & (CTL | SHIFT)][data]`
pub charcode : Flags → ℕ → ℕ
charcode f scan = if f.ctl then ctlmap scan else if f.shift then shiftmap scan else normalmap scan

-- the letters of CAPSLOCK
pub swap_case : ℕ → ℕ
swap_case c = if leb 97 c && leb c 122 then c - 32 else if leb 65 c && leb c 90 then c + 32 else c

-- `shift |= shiftcode[data]; shift ^= togglecode[data];`
pub press : ℕ → Flags → Flags
press scan f = record f {
  shift = f.shift || code_shift scan;
  ctl = f.ctl || code_ctl scan;
  alt = f.alt || code_alt scan;
  capslock = xor f.capslock (scan == 0x3A);
  numlock = xor f.numlock (scan == 0x45);
  scrolllock = xor f.scrolllock (scan == 0x46);
}

-- `shift &= ~(shiftcode[data] | E0ESC);`
pub release : ℕ → Flags → Flags
release scan f = record f {
  shift = f.shift && not (code_shift scan);
  ctl = f.ctl && not (code_ctl scan);
  alt = f.alt && not (code_alt scan);
  e0esc = false;
}

-- `keyboard_device_getc` for a byte that the controller has ready: the character, 0 for none, whether it
-- calls `reboot`, and the flags.
pub keyboard_device_getc : ℕ → Flags → ℕ × Bool × Flags
unfolding press release
keyboard_device_getc scan f =
    if scan == 0xE0
    then (0, false, record f { e0esc = true })
    else if leb 0x80 scan
    then (0, false, release (if f.e0esc then scan else scan - 0x80) f)
    else (let scan' = if f.e0esc then scan + 0x80 else scan in
        let f' = press scan' (record f { e0esc = false }) in
        let c = charcode f' scan' in
        let c' = if f'.capslock then swap_case c else c in
        (c', f'.ctl && f'.alt && (c' == 0xE9), f'))

-- The characters that `keyboard_read_all_buffer` hands to `enqueue`, in order, and the flags; `reboot`
-- has no effect here.
pub keyboard_read_all_buffer : List ℕ → Flags → List ℕ × Flags
keyboard_read_all_buffer [] f = ([], f)
keyboard_read_all_buffer (scan ∷ bytes) f =
    let (c, reboots, f') = keyboard_device_getc scan f in
    let (cs, f'') = keyboard_read_all_buffer bytes f' in (if c == 0 then cs else c ∷ cs, f'')
