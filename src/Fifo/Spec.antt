-- ===== src/Fifo/Spec.antt =====
-- What a fifo promises: a queue of at most `cap` bytes, moved in blocks that fit whole or not at all.
use oh_my_os.Base.{
  ℕ, ◌+◌, List, [], ◌++◌, ltb, if◌then◌else◌, length, take, drop, Status, success, enospc, enoent,
}

abbrev pub push : ℕ → List ℕ → List ℕ → Status × List ℕ
push cap q xs = if ltb cap (length q + length xs) then (enospc, q) else (success, q ++ xs)

-- the status, the block handed over and the bytes left
abbrev pub pop : List ℕ → ℕ → Status × List ℕ × List ℕ
pop q n = if ltb (length q) n then (enoent, [], q) else (success, take n q, drop n q)

-- what a call that answers `s` has handed over of a block
abbrev pub block : Status → List ℕ → List ℕ
block success xs = xs
block _ xs = []
