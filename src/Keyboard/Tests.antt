-- ===== src/Keyboard/Tests.antt =====
-- The keyboard at work, and its theorems on some keys.
use oh_my_os.Base.{◌≡◌, refl, arith, true, false, [], ◌∷◌}
use oh_my_os.Keyboard.{
  Flags, keyboard_device_getc, keyboard_read_all_buffer, press, release, charcode, normalmap,
  shiftmap, code_shift, code_ctl, code_alt,
}
use oh_my_os.Keyboard.Keys.{
  AreCharacters, flags_after, stroke, code, struck, keyboard_read_all_buffer-stroke,
  keyboard_read_all_buffer-AreCharacters,
}

abbrev none_held : Flags
none_held = record {
  shift = false;
  ctl = false;
  alt = false;
  capslock = false;
  numlock = false;
  scrolllock = false;
  e0esc = false;
}

-- the characters A and b, with SHIFT down for the first
run_keys :
    (keyboard_read_all_buffer (0x2A ∷ 0x1E ∷ 0x9E ∷ 0xAA ∷ 0x30 ∷ 0xB0 ∷ []) none_held).0
    ≡ 65 ∷ 98 ∷ []
unfolding keyboard_read_all_buffer keyboard_device_getc press release charcode normalmap shiftmap
    code_shift code_ctl code_alt
run_keys = refl

-- Both keys of SHIFT are down and one is let go of: SHIFT is off while the other key is still down.
run_both_shifts : (flags_after (0x2A ∷ 0x36 ∷ 0xAA ∷ []) none_held).shift ≡ false
unfolding keyboard_read_all_buffer keyboard_device_getc press release code_shift
run_both_shifts = refl

keyboard_read_all_buffer-stroke_example :
    flags_after (stroke true 0x1D) none_held ≡ struck (code true 0x1D) none_held
keyboard_read_all_buffer-stroke_example =
    keyboard_read_all_buffer-stroke true 0x1D none_held (omega arith)
      (λ e. absurd (omega (arith, e))) refl

keyboard_read_all_buffer-AreCharacters_example :
    AreCharacters (keyboard_read_all_buffer (0x2A ∷ 0x1E ∷ 0xE0 ∷ 0x48 ∷ []) none_held).0
keyboard_read_all_buffer-AreCharacters_example =
    keyboard_read_all_buffer-AreCharacters (0x2A ∷ 0x1E ∷ 0xE0 ∷ 0x48 ∷ []) none_held
