-- ===== src/Script/Loading.antt =====
-- read_script of ruby.c, with open and fstat of ruby_syscall_fs.c and the allocator of ruby_alloc.c.
use cruby_on_sel.Prelude.{ℕ, ◌+◌, ◌-◌, ◌≤◌, ◌<◌, ◌≡◌, false, ◌==◌, List, none, some, pos}
use cruby_on_sel.Errno.{Errno, err}
use cruby_on_sel.Fds.{CpioFile}
use cruby_on_sel.Alloc.Header.{Heap, default_alignment, header_size, capacity_of}
use cruby_on_sel.Alloc.Malloc.{free}
use cruby_on_sel.Alloc.Invariant.{is_live}
use cruby_on_sel.Alloc.Granted.{Granted}
use cruby_on_sel.Alloc.Arena.{NoRoom}
use cruby_on_sel.Alloc.Owners.{Owns}
use cruby_on_sel.Fs.Open.{FdOps, Files, file_data_size}
use cruby_on_sel.Fs.Opened.{entry_of}
use cruby_on_sel.Script.Source.{Io, Loading}
use cruby_on_sel.Script.Filling.{Filled}

-- `sys_close` gives the block of a file's entry back to the allocator.
abbrev pub ClosesFiles : {T : Type 0} → FdOps T → Io T → Type 0
ClosesFiles {T} ops io =
    (fd ptr : ℕ) (file : CpioFile) (s : Files T)
    → (ops.view s.table).get_fd_struct (pos fd) ≡ some (entry_of ptr file)
    → (t : T) × (io.sys_close fd s ≡ record { table = t; heap = free ptr s.heap })

-- Why a file has not been loaded: no block for its entry, no block for its bytes and a NUL once the
-- entry has one, or a `read` that failed after the first `used` bytes.
pub data Stopped {T : Type 0} (ops : FdOps T) (io : Io T) (s : Files T) (blocks idle : List ℕ)
    (fd start size : ℕ) : Type 0 where
  no_entry :
      NoRoom file_data_size default_alignment s.heap idle
      → Stopped ops io s blocks idle fd start size
  no_buffer :
      {d ptr : ℕ} {h : Heap} {blocks₁ idle₁ : List ℕ}
      → Granted file_data_size default_alignment s.heap blocks idle d ptr h blocks₁ idle₁
      → NoRoom (size + 1) default_alignment h idle₁
      → Stopped ops io s blocks idle fd start size
  read_failed :
      {d ptr b buffer used : ℕ} {h : Heap} {blocks₁ idle₁ blocks₂ idle₂ : List ℕ} {s' : Files T}
      {e : Errno}
      → Granted file_data_size default_alignment s.heap blocks idle d ptr h blocks₁ idle₁
      → Filled ops fd ptr start size h blocks₁ idle₁ b buffer blocks₂ idle₂ used s'
      → used < size
      → io.sys_read fd (buffer + used) (size + 1 - used - 1) s' ≡ (err e, s')
      → Stopped ops io s blocks idle fd start size

-- What read_script leaves of the state `s`: a new block that holds the file's bytes and a NUL, or NULL, with
-- the reason.
-- No other block is left over, and those that had an owner keep all their bytes.
pub data Loads {T : Type 0} (ops : FdOps T) (io : Io T) (s : Files T) (blocks idle : List ℕ)
    (fd start size : ℕ) : Loading T → Type 0 where
  loaded :
      (b : ℕ) {t : T} {h : Heap} {blocks' idle' : List ℕ}
      → is_live blocks idle b ≡ false
      → Owns s.heap blocks idle (λ c. c == b) h blocks' idle'
      → size + 1 ≤ capacity_of h.memory b
      → ((i : ℕ) → i < size → h.memory (b + header_size + i) ≡ (s.heap).memory (start + i))
      → h.memory (b + header_size + size) ≡ 0
      → Loads ops io s blocks idle fd start size
          (some (some (b + header_size), record { table = t; heap = h }))
  not_loaded :
      {t : T} {h : Heap} {blocks' idle' : List ℕ}
      → Stopped ops io s blocks idle fd start size
      → Owns s.heap blocks idle (λ c. false) h blocks' idle'
      → Loads ops io s blocks idle fd start size (some (none, record { table = t; heap = h }))
