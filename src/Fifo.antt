-- ===== src/Fifo.antt =====
-- libs/fifo.c: a byte ring over memory that the caller owns. One slot always stays free.
pub mod Inv
pub mod Contents
pub mod Copy
pub mod Refine
pub mod Spec
mod Tests
use oh_my_os.Base.{
  ℕ, ◌+◌, ◌-◌, ◌%◌, Bool, min, ltb, ◌==◌, if◌then◌else◌, add32, sub32, Status, success, enoent,
  enospc,
}
use oh_my_os.Memory.{Mem, memcpy}

-- The fields `in` and `out` are `in_pos` and `out_pos`.
pub record Fifo : Type 0 where
  pub in_pos : ℕ
  pub out_pos : ℕ
  pub buffer : ℕ
  pub size : ℕ

pub fifo_init : ℕ → ℕ → Fifo
fifo_init buffer size = record { in_pos = 0; out_pos = 0; buffer = buffer; size = size }

pub fifo_len : Fifo → ℕ
fifo_len f = sub32 (add32 f.in_pos f.size) f.out_pos % f.size

pub fifo_avail : Fifo → ℕ
unfolding fifo_len
fifo_avail f = sub32 (sub32 f.size 1) (fifo_len f)

pub fifo_is_empty : Fifo → Bool
fifo_is_empty f = f.in_pos == f.out_pos

pub fifo_is_full : Fifo → Bool
fifo_is_full f = add32 f.in_pos 1 % f.size == f.out_pos

-- up to the end of the buffer, then from its start
pub fifo_copy_in : Mem → Fifo → (src len off : ℕ) → Mem
fifo_copy_in m f src len off =
    let l = min len (sub32 f.size off) in
    memcpy (memcpy m (f.buffer + off) src l) f.buffer (src + l) (len - l)

pub fifo_in : Mem → Fifo → (src size : ℕ) → Status × Mem × Fifo
fifo_in m f src size = if ltb (fifo_avail f) size then (enospc, m, f) else (
  success,
  fifo_copy_in m f src size f.in_pos,
  record f { in_pos = add32 f.in_pos size % f.size },
)

pub fifo_copy_out : Mem → Fifo → (dst len off : ℕ) → Mem
fifo_copy_out m f dst len off =
    let l = min len (sub32 f.size off) in
    memcpy (memcpy m dst (f.buffer + off) l) (dst + l) f.buffer (len - l)

pub fifo_out : Mem → Fifo → (dst size : ℕ) → Status × Mem × Fifo
fifo_out m f dst size = if ltb (fifo_len f) size then (enoent, m, f) else (
  success,
  fifo_copy_out m f dst size f.out_pos,
  record f { out_pos = add32 f.out_pos size % f.size },
)

pub fifo_out_peek : Mem → Fifo → (dst size : ℕ) → Status × Mem
fifo_out_peek m f dst size =
    if ltb (fifo_len f) size then (enoent, m) else (success, fifo_copy_out m f dst size f.out_pos)

pub fifo_skip : Fifo → ℕ → Status × Fifo
fifo_skip f size =
    if ltb (fifo_len f) size
    then (enoent, f)
    else (success, record f { out_pos = add32 f.out_pos size % f.size })
