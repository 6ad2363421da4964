-- ===== src/Fds.antt =====
-- The descriptor table of libsel4muslcsys (muslcsys/io.h), which is not part of this repository:
-- the fields that ruby_alloc.c and ruby_syscall_fs.c read and write.
use cruby_on_sel.Prelude.{ℕ, ℤ, Bool, true, false, Option}

-- `cpio_file_data_t`: where the contents start, their size, and the read position.
pub record CpioFile : Type 0 where
  pub start : ℕ
  pub size : ℕ
  pub current : ℕ

-- FILE_TYPE_CPIO and every other kind.
pub data FileType : Type 0 where
  cpio other : FileType

abbrev pub is_cpio : FileType → Bool
is_cpio cpio = true
is_cpio other = false

-- `muslcsys_fd_t`; `address` is its `data` pointer, and `contents` what it leads to, `none` for NULL.
pub record FdEntry : Type 0 where
  pub filetype : FileType
  pub address : ℕ
  pub contents : Option CpioFile

-- `valid_fd` and `get_fd_struct`.
pub record FdTable : Type 0 where
  pub valid_fd : ℤ → Bool
  pub get_fd_struct : ℤ → Option FdEntry
