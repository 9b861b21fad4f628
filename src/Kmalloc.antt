-- ===== src/Kmalloc.antt =====
-- mm/kmalloc.c: the sizes that `kmalloc` serves, and the block allocator of `kmalloc_early`.
pub mod Early
pub mod Size
mod Tests
use oh_my_os.Base.{ℕ, ◌+◌, ◌*◌, ◌/◌, ◌^◌, Bool, leb, if◌then◌else◌}
use oh_my_os.Bits.{ilog2_roundup, round_up}

abbrev pub min_size : ℕ
min_size = 8

abbrev pub page_size : ℕ
page_size = 4096

abbrev pub kmem_cache_max_order : ℕ
kmem_cache_max_order = 7

-- KMEM_CACHE_MAX_SIZE
abbrev pub kmem_cache_max_size : ℕ
kmem_cache_max_size = 1024

-- the order of the block that `kmalloc_early` asks for, in units of `min_size` bytes
pub early_order : ℕ → ℕ
early_order size = ilog2_roundup (size / min_size)

-- What `kmalloc` turns a size into once the caches stand: an object of the cache of an order, or
-- pages of an order.
pub data Request : Type 0 where
  cache : ℕ → Request
  pages : ℕ → Request

pub request : ℕ → Request
request size =
    if leb size kmem_cache_max_size
    then cache (ilog2_roundup (round_up size min_size / min_size))
    else pages (ilog2_roundup (round_up size page_size / page_size))

-- the bytes that a request gets
abbrev pub bytes_of : Request → ℕ
bytes_of (cache order) = min_size * 2 ^ order
bytes_of (pages order) = page_size * 2 ^ order
