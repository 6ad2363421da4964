-- ===== src/Fs/Open.antt =====
-- Opening files, and fstat, in ruby_syscall_fs.c: lines 145 to 255 and 278 to 324.
use cruby_on_sel.Prelude.{
  ℕ, ◌%◌, ◌^◌, Bool, ◌||◌, not, ◌==◌, if◌then◌else◌, Option, none, some, ℤ, pos, negsuc, ◌==ℤ◌,
  bit_and,
}
use cruby_on_sel.Errno.{efault, erofs, enoent, emfile, enomem, ebadf, Result, ok, err}
use cruby_on_sel.Memory.{null}
use cruby_on_sel.Fds.{CpioFile, FdEntry, FdTable, cpio, is_cpio}
use cruby_on_sel.Alloc.Header.{Heap, Run, done, hang}
use cruby_on_sel.Alloc.Malloc.{malloc}
use cruby_on_sel.Fs.Source.{FileName, Archive, Stat, normalize_path, find_file, fill_regular, stat}

-- What libsel4muslcsys offers on its descriptors, in a state `T` of its own: `allocate_fd` (`none` for
-- -EMFILE), `add_free_fd`, and a write through the pointer of `get_fd_struct`.
pub record FdOps (T : Type 0) : Type 0 where
  pub view : T → FdTable
  pub allocate_fd : T → Option ℕ × T
  pub add_free_fd : ℕ → T → T
  pub put_fd_struct : ℕ → FdEntry → T → T

-- The descriptors, and the heap of ruby_alloc.c.
pub record Files (T : Type 0) : Type 0 where
  pub table : T
  pub heap : Heap

-- O_ACCMODE of musl, and O_RDONLY.
abbrev pub o_accmode : ℕ
o_accmode = 0x200003

abbrev pub o_rdonly : ℕ
o_rdonly = 0

unfoldable pub reads_only : ℕ → Bool
reads_only flags = bit_and flags o_accmode == o_rdonly

-- `sizeof(cpio_file_data_t)`: a pointer and two numbers of 32 bits.
abbrev pub file_data_size : ℕ
file_data_size = 16

-- AT_FDCWD, -100.
abbrev pub at_cwd : ℤ
at_cwd = negsuc 99

abbrev pub start_in : Archive → Option FileName → ℕ
start_in a none = 0
start_in a (some name) = a.start_of name

-- The descriptor and the state after it; `none` if the allocator does not return.
abbrev pub Opening : Type 0 → Type 0
Opening T = Option (Result ℕ × Files T)

module _ {T : Type 0} (ops : FdOps T) where
  -- The end of open_cpio, at what `malloc` returned.
  abbrev pub attach : (fd start size : ℕ) → T → Run (Result ℕ) → Opening T
  attach fd start size t hang = none
  attach fd start size t (done (err e) h) = some (
    err enomem,
    record {
      table =
          ops.add_free_fd fd
            (ops.put_fd_struct fd (record { filetype = cpio; address = null; contents = none }) t);
      heap = h;
    },
  )
  attach fd start size t (done (ok ptr) h) = some (
    ok fd,
    record {
      table =
          ops.put_fd_struct fd
            (record {
              filetype = cpio;
              address = ptr;
              contents = some (record { start = start; size = size % 2 ^ 32; current = 0 });
            })
            t;
      heap = h;
    },
  )

  -- At what `allocate_fd` returned.
  abbrev pub with_fd : (start size : ℕ) → Heap → Option ℕ × T → Opening T
  with_fd start size h (none, t) = some (err emfile, record { table = t; heap = h })
  with_fd start size h (some fd, t) = attach fd start size t (malloc file_data_size h)

  -- At what `find_file` returned.
  abbrev pub with_file : (start : ℕ) → Option ℕ → Files T → Opening T
  with_file start none s = some (err enoent, s)
  with_file start (some size) s = with_fd start size s.heap (ops.allocate_fd s.table)

  -- A path is `none` for NULL.
  unfoldable pub open_cpio : Archive → Option FileName → (flags : ℕ) → Files T → Opening T
  open_cpio a none flags s = some (err efault, s)
  open_cpio a (some p) flags s =
      if reads_only flags
      then with_file (start_in a (normalize_path (some p))) (find_file a (some p)) s
      else some (err erofs, s)

  unfoldable pub ruby_sys_open : Archive → Option FileName → (flags : ℕ) → Files T → Opening T
  ruby_sys_open a path flags s = open_cpio a path flags s

  unfoldable pub ruby_sys_openat :
      Archive → (dirfd : ℤ) → Option FileName → (flags : ℕ) → Files T → Opening T
  ruby_sys_openat a dirfd path flags s = open_cpio a path flags s

  -- The system call is `ruby_sys_openat`, which is installed for it, on AT_FDCWD.
  unfoldable pub open_file : Archive → Option FileName → (flags : ℕ) → Files T → Opening T
  open_file a none flags s = some (err efault, s)
  open_file a (some p) flags s =
      if reads_only flags
      then ruby_sys_openat a at_cwd (normalize_path (some p)) o_rdonly s
      else some (err erofs, s)

  unfoldable pub openat :
      Archive → (dirfd : ℤ) → Option FileName → (flags : ℕ) → Files T → Opening T
  openat a dirfd path flags s = open_file a path flags s

unfoldable pub lstat : Archive → (fuel : ℕ) → Option FileName → (has_buffer : Bool) → Result Stat
lstat a fuel path has_buffer = stat a fuel path has_buffer

unfoldable pub fstatat :
    Archive
    → (fuel : ℕ) → (dirfd : ℤ) → Option FileName
    → (has_buffer : Bool) → (flags : ℕ) → Result Stat
fstatat a fuel dirfd path has_buffer flags = stat a fuel path has_buffer

-- S_IFCHR | S_IRUSR | S_IWUSR
abbrev pub device_mode : ℕ
device_mode = 0x2180

abbrev pub fill_device : Stat
fill_device = record {
  st_mode = device_mode;
  st_nlink = 1;
  st_size = 0;
  st_blksize = 4096;
  st_blocks = 0;
}

abbrev pub stat_contents : Option CpioFile → Result Stat
stat_contents none = err ebadf
stat_contents (some file) = ok (fill_regular file.size)

abbrev pub stat_entry : Option FdEntry → Result Stat
stat_entry none = err ebadf
stat_entry (some entry) = if is_cpio entry.filetype then stat_contents entry.contents else err ebadf

unfoldable pub is_standard : ℤ → Bool
is_standard fd = fd ==ℤ pos 0 || fd ==ℤ pos 1 || fd ==ℤ pos 2

unfoldable pub fstat : FdTable → ℤ → (has_buffer : Bool) → Result Stat
fstat fds fd has_buffer =
    if not has_buffer
    then err efault
    else if is_standard fd
    then ok fill_device
    else if fds.valid_fd fd
    then stat_entry (fds.get_fd_struct fd)
    else err ebadf
