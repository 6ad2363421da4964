-- ===== src/Examples/Scripts.antt =====
-- Examples for open, mmap of a file, read_script and posix_memalign: an empty heap, and a library
-- that serves files.
use cruby_on_sel.Prelude.{
  ℕ, suc, ◌+◌, ◌-◌, ◌≡◌, length, refl, ap, sym, arith, true, false, not, ◌||◌, ◌==◌, ltb, min,
  if◌then◌else◌, [], ◌∷◌, Option, some, none, ℤ, pos, ◌==ℤ◌, inl,
}
use mathlib.Core.Option.{some_inj}
use cruby_on_sel.Errno.{Result, ok, err, einval, ebadf}
use cruby_on_sel.Memory.{null, memcpy}
use cruby_on_sel.Fds.{CpioFile, FdEntry}
use cruby_on_sel.Alloc.Header.{done, is_power_of_two}
use cruby_on_sel.Alloc.Malloc.{free, posix_memalign, at_least_one, at_least_default}
use cruby_on_sel.Alloc.Aligned.{Stores, posix_memalign-Stores}
use cruby_on_sel.Poll.Lookup.{==ℤ_ne}
use cruby_on_sel.Fs.Source.{FileName, Archive, stat}
use cruby_on_sel.Fs.Paths.{after_slashes, after_dots}
use cruby_on_sel.Fs.Open.{FdOps, Files, reads_only, o_rdonly, open_file}
use cruby_on_sel.Fs.Opened.{FdLaws, Opens, entry_of, open-Opens}
use cruby_on_sel.Fs.Mapped.{Maps, mmap-open}
use cruby_on_sel.Examples.Allocator.{empty_heap, empty_heap-IsHeap}
use cruby_on_sel.Script.Source.{Io, Interpreter}
use cruby_on_sel.Script.Running.{shell_name}

-- Descriptors are handed out in order, and never again.
pub record Entries : Type 0 where
  pub next : ℕ
  pub entry : ℤ → Option FdEntry

abbrev in_order : FdOps Entries
in_order = record {
  view = λ t. record { valid_fd = λ fd. true; get_fd_struct = t.entry };
  allocate_fd = λ t. (some (3 + t.next), record t { next = suc t.next });
  add_free_fd = λ fd t. t;
  put_fd_struct = λ fd e t. record t { entry = λ x. if x ==ℤ pos fd then some e else t.entry x };
}

in_order-FdLaws : FdLaws in_order
in_order-FdLaws = record {
  fresh = λ t t' fd e. (
    ground (arith, some_inj.0 (ap (λ x. x.0) e)),
    refl,
    λ other ne. ap (λ x. x.1.entry other) (sym e),
  );
  freed = λ t fd other ne. refl;
  put_valid = λ t fd e. refl;
  put_here = λ t fd e. ground arith;
  put_others = λ t fd e other ne. rw (==ℤ_ne other (pos fd) ne) refl;
}

-- A read gives what is asked for and left, and a closed entry's block is freed.
abbrev count_at : CpioFile → ℕ → ℕ
count_at file count = min count (file.size - file.current)

abbrev with_address : ℕ → Option CpioFile → Option (ℕ × CpioFile)
with_address ptr none = none
with_address ptr (some file) = some (ptr, file)

abbrev file_of : Option FdEntry → Option (ℕ × CpioFile)
file_of none = none
file_of (some e) = with_address e.address e.contents

abbrev served :
    (fd buf count : ℕ) → Files Entries → Option (ℕ × CpioFile) → Result ℕ × Files Entries
served fd buf count s none = (err ebadf, s)
served fd buf count s (some (ptr, file)) = (
  ok (count_at file count),
  record {
    table =
        in_order.put_fd_struct fd
          (entry_of ptr (record file { current = file.current + count_at file count })) s.table;
    heap = record (s.heap) {
      memory = memcpy buf (file.start + file.current) (count_at file count) (s.heap).memory;
    };
  },
)

abbrev closed : Files Entries → Option (ℕ × CpioFile) → Files Entries
closed s none = s
closed s (some (ptr, file)) = record { table = s.table; heap = free ptr s.heap }

abbrev plain_io : Io Entries
plain_io = record {
  sys_read = λ fd buf count s. served fd buf count s (file_of ((s.table).entry (pos fd)));
  sys_close = λ fd s. closed s (file_of ((s.table).entry (pos fd)));
}

abbrev at_first : Files Entries
at_first = record { table = record { next = 0; entry = λ x. none }; heap = empty_heap }

-- The only file is "a", of 600 bytes.
abbrev size_in_archive : FileName → Option ℕ
size_in_archive (a ∷ []) = if a == 97 then some 600 else none
size_in_archive _ = none

abbrev archive : Archive
archive = record {
  get_file = size_in_archive;
  start_of = λ name. 0x4000;
  get_entry = λ i. if i == 0 then some (97 ∷ []) else none;
}

abbrev a_file : CpioFile
a_file = record { start = 0x4000; size = 600; current = 0 }

-- "/./a"
open-Opens_example :
    Opens in_order 3 a_file
      (stat archive 1 (some (after_slashes 1 (after_dots 1 (97 ∷ [])))) true)
      at_first
      []
      []
      (open_file in_order archive
        (some (after_slashes 1 (after_dots 1 (97 ∷ []))))
        o_rdonly
        at_first)
unfolding reads_only
open-Opens_example =
    open-Opens in_order in_order-FdLaws archive 1 1 1 (97 ∷ []) 600 o_rdonly 3 at_first
      (record { next = 1; entry = λ x. none }) refl refl refl (omega arith) refl refl
      empty_heap-IsHeap

mmap-open_example :
    Maps in_order 3 a_file 5000 2 100 at_first [] [] (
      open_file in_order archive
        (some (after_slashes 1 (after_dots 1 (97 ∷ []))))
        o_rdonly
        at_first)
unfolding reads_only
mmap-open_example =
    mmap-open in_order in_order-FdLaws archive 1 1 (97 ∷ []) 600 o_rdonly 3 5000 2 100 at_first
      (record { next = 1; entry = λ x. none }) refl refl refl (omega arith) refl refl
      empty_heap-IsHeap (omega arith) (omega arith) refl (omega arith) (omega arith)
      (inl (omega arith))

-- The only file is "shell.rb", of 30 bytes.
abbrev shell_archive : Archive
shell_archive = record {
  get_file = λ name. if length name == 8 then some 30 else none;
  start_of = λ name. 0x4000;
  get_entry = λ i. if i == 0 then some shell_name else none;
}

-- An interpreter without effects.
abbrev idle_ruby : Interpreter Entries
idle_ruby = record {
  initialize = λ s. s;
  eval = λ script s. (0, s);
  report = λ s. s;
  finalize = λ s. s;
}

posix_memalign-Stores_example :
    ((0x2000 == null || ltb 64 8 || not (is_power_of_two 64)) ≡ false
      → Stores 0x2000
          (at_least_one 100)
          (at_least_default 64)
          empty_heap
          []
          []
          (posix_memalign 0x2000 64 100 empty_heap))
    × ((0x2000 == null || ltb 64 8 || not (is_power_of_two 64)) ≡ true
        → posix_memalign 0x2000 64 100 empty_heap ≡ done (err einval) empty_heap)
posix_memalign-Stores_example =
    posix_memalign-Stores 0x2000 64 100 empty_heap-IsHeap (inl (omega arith)) (omega arith)
      (omega arith)
