-- ===== src/Number/Tests.antt =====
-- Runs of the number functions, and their theorems at concrete numbers.
use oh_my_os.Base.{◌≡◌, refl, arith, some, none}
use oh_my_os.Memory.{Mem, write}
use oh_my_os.Number.{
  reverse_loop, reverse_str, hex_digits, pad_zeros, to_hex, hex_loop, hex_to_value,
}
use oh_my_os.Number.Hex.{hex_to_value-to_hex}

abbrev blank : Mem
blank a = 0

runs :
    ((to_hex blank 0xb8000 20).0 29 ≡ b'0')
    × ((to_hex blank 0xb8000 20).0 25 ≡ b'b')
    × (hex_to_value blank 20 10 ≡ none)
unfolding to_hex reverse_str reverse_loop hex_digits pad_zeros hex_to_value hex_loop write
runs = (refl, refl, refl)

hex_to_value-to_hex_example : hex_to_value (to_hex blank 0xb8000 20).0 20 10 ≡ some 0xb8000
hex_to_value-to_hex_example = hex_to_value-to_hex blank 0xb8000 20 10 (omega arith) (omega arith)
