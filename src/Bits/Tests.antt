-- ===== src/Bits/Tests.antt =====
-- Runs of the bit operations, and their theorems at concrete words.
use oh_my_os.Base.{◌≡◌, refl}
use oh_my_os.Bits.{
  narrow, fls, ilog2_roundup, ilog2_rounddown, roundup_pow_of_two, round_down, round_up,
}

lengths : (fls 0 ≡ 0) × (fls 1 ≡ 1) × (fls 0x80000000 ≡ 32) × (fls 4095 ≡ 12) × (fls 4096 ≡ 13)
unfolding fls narrow
lengths = (refl, refl, refl, refl, refl)

roundings : (roundup_pow_of_two 33 ≡ 64) × (round_up 4097 4096 ≡ 8192) × (ilog2_rounddown 33 ≡ 5)
unfolding roundup_pow_of_two ilog2_roundup ilog2_rounddown fls narrow round_up round_down
roundings = (refl, refl, refl)
