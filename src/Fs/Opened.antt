-- ===== src/Fs/Opened.antt =====
-- open and fstat of ruby_syscall_fs.c, with the allocator of ruby_alloc.c.
use cruby_on_sel.Prelude.{
  ℕ, ◌%◌, ◌^◌, ◌<◌, ◌≡◌, ◌≢◌, refl, ap, ◌∙◌, arith, true, false, List, none, some, ℤ, pos,
}
use cruby_on_sel.Errno.{enomem, Result, ok, err}
use cruby_on_sel.Memory.{null}
use cruby_on_sel.Fds.{CpioFile, FdEntry, cpio}
use cruby_on_sel.Alloc.Header.{Heap, Run, default_alignment}
use cruby_on_sel.Alloc.Malloc.{malloc}
use cruby_on_sel.Alloc.Invariant.{IsHeap}
use cruby_on_sel.Alloc.Granted.{Granted}
use cruby_on_sel.Alloc.Zeroed.{power_16}
use cruby_on_sel.Alloc.Arena.{NoRoom, Allocates, granted, exhausted, arena_alloc-Allocates}
use cruby_on_sel.Fs.Source.{
  FileName, slash, Archive, Stat, normalize_path, find_file, fill_regular, stat,
}
use cruby_on_sel.Fs.Paths.{
  starts_with, starts_with_dot, after_slashes, after_dots, find_file-normalizes,
}
use cruby_on_sel.Fs.Open.{
  FdOps, Files, file_data_size, reads_only, Opening, attach, open_cpio, ruby_sys_openat, open_file,
  is_standard, fstat,
}

-- Every descriptor but one keeps its entry.
abbrev pub Keeps : {T : Type 0} → FdOps T → (fd : ℕ) → T → T → Type 0
Keeps ops fd t t' =
    (other : ℤ)
    → other ≢ pos fd
    → (ops.view t').get_fd_struct other ≡ (ops.view t).get_fd_struct other

-- What libsel4muslcsys documents: a descriptor that is handed out is valid and is none of the standard
-- ones, a write to an entry is read back, and no function touches the entries of other descriptors.
pub record FdLaws {T : Type 0} (ops : FdOps T) : Type 0 where
  pub fresh :
      (t t' : T) (fd : ℕ)
      → ops.allocate_fd t ≡ (some fd, t')
      → (2 < fd) × ((ops.view t').valid_fd (pos fd) ≡ true) × Keeps ops fd t t'
  pub freed : (t : T) (fd : ℕ) → Keeps ops fd t (ops.add_free_fd fd t)
  pub put_valid :
      (t : T) (fd : ℕ) (e : FdEntry)
      → (ops.view (ops.put_fd_struct fd e t)).valid_fd (pos fd) ≡ (ops.view t).valid_fd (pos fd)
  pub put_here :
      (t : T) (fd : ℕ) (e : FdEntry)
      → (ops.view (ops.put_fd_struct fd e t)).get_fd_struct (pos fd) ≡ some e
  pub put_others : (t : T) (fd : ℕ) (e : FdEntry) → Keeps ops fd t (ops.put_fd_struct fd e t)

-- The entry of a file of the archive; `ptr` is the block that holds its data.
abbrev pub entry_of : (ptr : ℕ) → CpioFile → FdEntry
entry_of ptr file = record { filetype = cpio; address = ptr; contents = some file }

-- A file is opened as `fd`, in a block of the heap that had no owner, and `fstat` reports `expected`; or
-- no block can be had, and the heap is as before. No other descriptor changes.
pub data Opens {T : Type 0} (ops : FdOps T) (fd : ℕ) (file : CpioFile) (expected : Result Stat)
    (s : Files T) (blocks idle : List ℕ) : Opening T → Type 0 where
  opened :
      {t : T} {h : Heap} {b ptr : ℕ} {blocks' idle' : List ℕ}
      → Granted file_data_size default_alignment s.heap blocks idle b ptr h blocks' idle'
      → fstat (ops.view t) (pos fd) true ≡ expected
      → (ops.view t).get_fd_struct (pos fd) ≡ some (entry_of ptr file)
      → Keeps ops fd s.table t
      → Opens ops fd file expected s blocks idle (some (ok fd, record { table = t; heap = h }))
  no_memory :
      {t : T}
      → NoRoom file_data_size default_alignment s.heap idle
      → Keeps ops fd s.table t
      → Opens ops fd file expected s blocks idle
          (some (err enomem, record { table = t; heap = s.heap }))

Keeps-then :
    {T : Type 0} (ops : FdOps T) (fd : ℕ) (t t' t'' : T)
    → Keeps ops fd t t'
    → Keeps ops fd t' t''
    → Keeps ops fd t t''
Keeps-then ops fd t t' t'' k k' other ne = k' other ne ∙ k other ne

pub not_standard : (fd : ℕ) → 2 < fd → is_standard (pos fd) ≡ false
unfolding is_standard
not_standard fd high = ground arith

module _ {T : Type 0} (ops : FdOps T) (laws : FdLaws ops) where
  fstat-put :
      (t : T) (fd ptr : ℕ) (file : CpioFile)
      → 2 < fd
      → (ops.view t).valid_fd (pos fd) ≡ true
      → fstat (ops.view (ops.put_fd_struct fd (entry_of ptr file) t)) (pos fd) true
        ≡ ok (fill_regular file.size)
  unfolding fstat
  fstat-put t fd ptr file high valid =
      let entry = entry_of ptr file in
      rw (not_standard fd high, laws.put_valid t fd entry, valid, laws.put_here t fd entry) refl

  attach-Opens :
      {blocks idle : List ℕ} (s : Files T) (t : T) (fd start size : ℕ)
      → ops.allocate_fd s.table ≡ (some fd, t)
      → size < 2 ^ 32
      → {r : Run (Result ℕ)} → Allocates file_data_size default_alignment s.heap blocks idle r
      → Opens ops fd
          (record { start = start; size = size; current = 0 })
          (ok (fill_regular size))
          s
          blocks
          idle
          (attach ops fd start size t r)
  attach-Opens s t fd start size got small (granted {ptr} g) =
      let (high, valid, kept) = laws.fresh s.table t fd got in
      let file : CpioFile = record { start = start; size = size % 2 ^ 32; current = 0 } in
      let entry = entry_of ptr file in
      let whole : size % 2 ^ 32 ≡ size = omega arith in
      opened g (fstat-put t fd ptr file high valid ∙ ap (λ n. ok (fill_regular n)) whole)
        (laws.put_here t fd entry
          ∙ ap (λ n. some (entry_of ptr (record { start = start; size = n; current = 0 }))) whole)
        (Keeps-then ops fd s.table t (ops.put_fd_struct fd entry t) kept
          (laws.put_others t fd entry))
  attach-Opens s t fd start size got small (exhausted misses short) =
      let entry : FdEntry = record { filetype = cpio; address = null; contents = none } in
      let put = ops.put_fd_struct fd entry t in
      let (high, valid, kept) = laws.fresh s.table t fd got in
      no_memory (record { misses = misses; full = short })
        (Keeps-then ops fd s.table put (ops.add_free_fd fd put)
          (Keeps-then ops fd s.table t put kept (laws.put_others t fd entry)) (laws.freed put fd))

  pub open_file-regular :
      {blocks idle : List ℕ} (a : Archive) (slashes dots : ℕ) (name : FileName) (size flags fd : ℕ)
      (s : Files T) (t : T)
      → starts_with slash name ≡ false
      → starts_with_dot name ≡ false
      → a.get_file name ≡ some size
      → size < 2 ^ 32
      → reads_only flags ≡ true
      → ops.allocate_fd s.table ≡ (some fd, t)
      → IsHeap s.heap blocks idle
      → Opens ops fd
          (record { start = a.start_of name; size = size; current = 0 })
          (ok (fill_regular size))
          s
          blocks
          idle
          (open_file ops a (some (after_slashes slashes (after_dots dots name))) flags s)
  unfolding open_file ruby_sys_openat open_cpio malloc after_slashes after_dots reads_only
  open_file-regular a slashes dots name size flags fd s t plain no_dot file small reading got v =
      let (path, found) = find_file-normalizes a slashes dots name plain no_dot in
      let again : normalize_path (some name) ≡ some name =
        (find_file-normalizes a 0 0 name plain no_dot).0 in
      let there : find_file a (some name) ≡ a.get_file name =
        (find_file-normalizes a 0 0 name plain no_dot).1 in
      rw (reading, path, there, again, file, got)
        (attach-Opens s t fd (a.start_of name) size got small (
          arena_alloc-Allocates file_data_size default_alignment v (omega arith) (omega arith)
            power_16))

  -- Any number of slashes and then of "./" before the name of a file in the archive, where the name
  -- starts with neither: opening it to read, with a free descriptor and a well-formed heap, gives
  -- that descriptor, placed at the start of that file's contents, on which `fstat` reports what
  -- `stat` reports for the path, in a block that had no owner; or ENOMEM, with the heap unchanged.
  -- No other descriptor changes.
  pub open-Opens :
      {blocks idle : List ℕ} (a : Archive) (fuel slashes dots : ℕ) (name : FileName)
      (size flags fd : ℕ) (s : Files T) (t : T)
      → starts_with slash name ≡ false
      → starts_with_dot name ≡ false
      → a.get_file name ≡ some size
      → size < 2 ^ 32
      → reads_only flags ≡ true
      → ops.allocate_fd s.table ≡ (some fd, t)
      → IsHeap s.heap blocks idle
      → Opens ops fd
          (record { start = a.start_of name; size = size; current = 0 })
          (stat a fuel (some (after_slashes slashes (after_dots dots name))) true)
          s
          blocks
          idle
          (open_file ops a (some (after_slashes slashes (after_dots dots name))) flags s)
  unfolding stat
  open-Opens a fuel slashes dots name size flags fd s t plain no_dot file small reading got v =
      let (path, found) = find_file-normalizes a slashes dots name plain no_dot in
      rw (found, file)
        (open_file-regular a slashes dots name size flags fd s t plain no_dot file small reading got
          v)
