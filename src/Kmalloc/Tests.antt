-- ===== src/Kmalloc/Tests.antt =====
-- The theorems on sizes at concrete sizes.
use oh_my_os.Base.{◌≤◌, arith}
use oh_my_os.Kmalloc.{bytes_of, request}
use oh_my_os.Kmalloc.Size.{HasCache, request_fits}

request_fits_example : (100 ≤ bytes_of (request 100)) × HasCache (request 100)
request_fits_example = request_fits 100 (omega arith) (omega arith)
