-- ===== src/Base/Errno.antt =====
-- What a function that returns `0` or `-E...` answers (include/error.h).
pub data Status : Type 0 where
  success enoent enomem enodev einval enospc : Status
