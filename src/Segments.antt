-- ===== src/Segments.antt =====
-- The segment descriptors of mm/memory.c. A descriptor is a record of its bit fields.
mod Tests
use oh_my_os.Base.{
  ℕ, ◌+◌, ◌*◌, ◌/◌, ◌%◌, ◌^◌, ◌<◌, ◌≡◌, ap, refl, arith, Bool, true, false, List, [], ◌∷◌,
  if◌then◌else◌,
}

pub record SegDesc : Type 0 where
  pub lim_15_0 : ℕ
  pub base_15_0 : ℕ
  pub base_23_16 : ℕ
  pub type : ℕ
  pub s : ℕ
  pub dpl : ℕ
  pub present : ℕ
  pub lim_19_16 : ℕ
  pub avl : ℕ
  pub l : ℕ
  pub db : ℕ
  pub gran : Bool
  pub base_31_24 : ℕ

-- `seg_init` with a `type` of 8 bits, of which the field keeps 4
unfoldable pub seg_init : ℕ → ℕ → ℕ → ℕ → Bool → SegDesc
seg_init type base limit dpl gran =
    let limit' = if gran then limit / 2 ^ 12 else limit in
    record {
      lim_15_0 = limit' % 2 ^ 16;
      base_15_0 = base % 2 ^ 16;
      base_23_16 = base / 2 ^ 16 % 2 ^ 8;
      type = type % 2 ^ 4;
      s = 1;
      dpl = dpl % 2 ^ 2;
      present = 1;
      lim_19_16 = limit' / 2 ^ 16 % 2 ^ 4;
      avl = 0;
      l = 0;
      db = 1;
      gran = gran;
      base_31_24 = base / 2 ^ 24 % 2 ^ 8;
    }

abbrev pub sta_x : ℕ
sta_x = 8

abbrev pub sta_w : ℕ
sta_w = 2

abbrev pub sta_r : ℕ
sta_r = 2

-- The entries of the table from SEG_KTEXT on that `gdt_init` writes; DPL_KERNEL is 0 and DPL_USER 3.
unfoldable pub gdt_init : List SegDesc
gdt_init =
    seg_init (sta_x + sta_r) 0 4294967295 0 true
    ∷ seg_init sta_w 0 4294967295 0 true
    ∷ seg_init (sta_x + sta_r) 0 4294967295 3 true
    ∷ seg_init sta_w 0 4294967295 3 true
    ∷ []

-- the base and the last byte of a segment, as the processor reads them
abbrev pub base_of : SegDesc → ℕ
base_of d = d.base_15_0 + 2 ^ 16 * d.base_23_16 + 2 ^ 24 * d.base_31_24

abbrev pub last_of : SegDesc → ℕ
last_of d =
    let units = d.lim_15_0 + 2 ^ 16 * d.lim_19_16 in if d.gran then units * 2 ^ 12 + 4095 else units

-- A descriptor of pages keeps the base, and the limit up to the end of its page.
pub seg_init-paged :
    (type base limit dpl : ℕ)
    → base < 2 ^ 32
    → limit < 2 ^ 32
    → (base_of (seg_init type base limit dpl true) ≡ base)
      × (last_of (seg_init type base limit dpl true) ≡ limit / 2 ^ 12 * 2 ^ 12 + 4095)
unfolding seg_init
seg_init-paged type base limit dpl b l = (omega arith, omega arith)

-- A descriptor of bytes keeps a limit of 20 bits.
pub seg_init-exact :
    (type base limit dpl : ℕ)
    → base < 2 ^ 32
    → limit < 2 ^ 20
    → (base_of (seg_init type base limit dpl false) ≡ base)
      × (last_of (seg_init type base limit dpl false) ≡ limit)
unfolding seg_init
seg_init-exact type base limit dpl b l = (omega arith, omega arith)
