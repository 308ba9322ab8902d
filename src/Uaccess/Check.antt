-- ===== src/Uaccess/Check.antt =====
-- What `uva_check_range` accepts.
use hobby_os_kernel.Common.{ℕ, Bool, not, ◌&&◌, leb}
use hobby_os_kernel.Paging.Entry.{is_canonical, pml4_index}

-- The two tests of an end of the range: it is in the user half.
abbrev user_end : ℕ → Bool
user_end v = is_canonical v && not (leb 256 (pml4_index v))
