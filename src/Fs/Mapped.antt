-- ===== src/Fs/Mapped.antt =====
-- open of ruby_syscall_fs.c and then mmap of ruby_alloc.c on the descriptor: a file of the archive in
-- memory.
use cruby_on_sel.Prelude.{
  ℕ, min, ◌+◌, ◌-◌, ◌^◌, ◌≤◌, ◌<◌, ◌≡◌, refl, ◌∙◌, arith, true, false, ◌⊎◌, Bool-cases, inl, inr,
  List, some, pos, bit_and,
}
use cruby_on_sel.Errno.{enomem, ok, err}
use cruby_on_sel.Memory.{Memory}
use cruby_on_sel.Fds.{FdTable, CpioFile}
use cruby_on_sel.Alloc.Header.{Heap, arena_size, default_alignment}
use cruby_on_sel.Alloc.Mmap.{mmap, map_anonymous, cpio_file_for_fd}
use cruby_on_sel.Alloc.Invariant.{IsHeap}
use cruby_on_sel.Alloc.Granted.{Granted}
use cruby_on_sel.Alloc.Arena.{NoRoom}
use cruby_on_sel.Alloc.Zeroed.{Fills, Fills-map, Copied}
use cruby_on_sel.Alloc.Pages.{wants_file, page_bytes, mmap-Copied}
use cruby_on_sel.Fs.Source.{FileName, slash, Archive, Stat, fill_regular}
use cruby_on_sel.Fs.Paths.{starts_with, starts_with_dot, after_slashes, after_dots}
use cruby_on_sel.Fs.Open.{FdOps, Files, file_data_size, reads_only, Opening, open_file, fstat}
use cruby_on_sel.Fs.Opened.{
  FdLaws, Opens, opened, no_memory, entry_of, not_standard, open_file-regular,
}

-- Opened as `fd`, a mapping of the descriptor is granted in whole pages, page aligned, with the
-- file's bytes from `offset` on, as the memory had them before the file was opened, and zeros after
-- them, or there is no room for it; or the file could not be opened for want of memory.
pub data Maps {T : Type 0} (ops : FdOps T) (fd : ℕ) (file : CpioFile) (length mflags offset : ℕ)
    (s : Files T) (blocks idle : List ℕ) : Opening T → Type 0 where
  mapped :
      {t : T} {h : Heap} {b ptr : ℕ} {blocks' idle' : List ℕ}
      → Granted file_data_size default_alignment s.heap blocks idle b ptr h blocks' idle'
      → Fills
          (page_bytes length)
          4096
          h
          blocks'
          idle'
          (Copied
            (s.heap).memory
            (file.start + offset)
            (min length (file.size - offset))
            (page_bytes length))
          (mmap (ops.view t) length mflags (pos fd) (pos offset) h)
      → Maps ops fd file length mflags offset s blocks idle
          (some (ok fd, record { table = t; heap = h }))
  not_opened :
      {t : T}
      → NoRoom file_data_size default_alignment s.heap idle
      → Maps ops fd file length mflags offset s blocks idle
          (some (err enomem, record { table = t; heap = s.heap }))

-- A descriptor that `fstat` knows is valid.
valid_of-fstat :
    (fds : FdTable) (fd : ℕ) (found : Stat)
    → 2 < fd
    → fstat fds (pos fd) true ≡ ok found
    → fds.valid_fd (pos fd) ≡ true
unfolding fstat
valid_of-fstat fds fd found high e = elim (Bool-cases (fds.valid_fd (pos fd))) [
  | inl valid ↦ valid
  | inr bad ↦ absurd (let wrong = rw (not_standard fd high, bad) at e in cc)
]

-- mmap finds the file that was opened.
cpio_file-entry :
    (fds : FdTable) (fd ptr : ℕ) (file : CpioFile)
    → fds.valid_fd (pos fd) ≡ true
    → fds.get_fd_struct (pos fd) ≡ some (entry_of ptr file)
    → cpio_file_for_fd fds (pos fd) ≡ some file
unfolding cpio_file_for_fd
cpio_file-entry fds fd ptr file valid entry = rw (valid, entry) refl

module _ {T : Type 0} (ops : FdOps T) (fd : ℕ) (file : CpioFile) (length mflags offset : ℕ)
    (s : Files T) {blocks idle : List ℕ} (high : 2 < fd) (positive : 0 < length)
    (fits : length + 4096 ≤ 2 ^ 64) (plain : bit_and mflags map_anonymous ≡ 0)
    (within : offset ≤ file.size) (in_word : file.start + file.size < 2 ^ 64)
    (apart : (file.start + file.size ≤ (s.heap).arena)
      ⊎ ((s.heap).arena + arena_size ≤ file.start)) where
  -- Opening writes nothing to the archive.
  archive_kept :
      {h : Heap} {b ptr : ℕ} {blocks' idle' : List ℕ}
      → Granted file_data_size default_alignment s.heap blocks idle b ptr h blocks' idle'
      → (place : ℕ) (m : Memory)
      → Copied h.memory
          (file.start + offset)
          (min length (file.size - offset))
          (page_bytes length)
          place
          m
      → Copied
          (s.heap).memory
          (file.start + offset)
          (min length (file.size - offset))
          (page_bytes length)
          place
          m
  archive_kept g place m c = record {
    contents = λ i lt. c.contents i lt ∙ g.elsewhere (file.start + offset + i) (ground arith);
    padding = c.padding;
  }

  Opens-Maps :
      {o : Opening T}
      → Opens ops fd file (ok (fill_regular file.size)) s blocks idle o
      → Maps ops fd file length mflags offset s blocks idle o
  Opens-Maps (no_memory room kept) = not_opened room
  Opens-Maps (opened {t} {h} {ptr = ptr} g known entry kept) =
      let fds = ops.view t in
      let found =
        cpio_file-entry fds fd ptr file (valid_of-fstat fds fd (fill_regular file.size) high known)
          entry in
      let wanted : wants_file mflags (pos fd) ≡ true = ground (arith, plain) in
      mapped g (
        Fills-map (archive_kept g) (
          mmap-Copied g.valid fds length mflags offset (pos fd) file positive fits wanted found
            within in_word (rw g.same_arena apart)))

-- A file of the archive, opened by any spelling of its path (slashes, then "./", then its name,
-- which starts with neither) to read, with a free descriptor and a well-formed heap, and then
-- mapped from an offset within the file: unless memory runs out, the mapping is a new block of
-- whole pages, page aligned, that holds the file's bytes from there on, up to the length asked for,
-- and zeros after them. The archive lies outside the arena, and the length is above 0 and a page
-- below the end of `size_t`.
pub mmap-open :
    {T : Type 0} (ops : FdOps T)
    → FdLaws ops
    → {blocks idle : List ℕ} (a : Archive) (slashes dots : ℕ) (name : FileName)
      (size flags fd length mflags offset : ℕ) (s : Files T) (t : T)
    → starts_with slash name ≡ false
    → starts_with_dot name ≡ false
    → a.get_file name ≡ some size
    → size < 2 ^ 32
    → reads_only flags ≡ true
    → ops.allocate_fd s.table ≡ (some fd, t)
    → IsHeap s.heap blocks idle
    → 0 < length
    → length + 4096 ≤ 2 ^ 64
    → bit_and mflags map_anonymous ≡ 0
    → offset ≤ size
    → a.start_of name + size < 2 ^ 64
    → (a.start_of name + size ≤ (s.heap).arena) ⊎ ((s.heap).arena + arena_size ≤ a.start_of name)
    → Maps ops fd
        (record { start = a.start_of name; size = size; current = 0 })
        length
        mflags
        offset
        s
        blocks
        idle
        (open_file ops a (some (after_slashes slashes (after_dots dots name))) flags s)
mmap-open ops laws a slashes dots name size flags fd length mflags offset s t plain no_dot file
      small reading got v positive fits mapped_file within in_word apart =
    Opens-Maps ops fd (record { start = a.start_of name; size = size; current = 0 }) length mflags
      offset s (laws.fresh s.table t fd got).0 positive fits mapped_file within in_word apart
      (open_file-regular ops laws a slashes dots name size flags fd s t plain no_dot file small
        reading got v)
