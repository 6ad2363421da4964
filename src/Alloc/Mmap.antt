-- ===== src/Alloc/Mmap.antt =====
-- ruby_alloc.c, lines 291 to 454: mappings out of the arena.
use cruby_on_sel.Prelude.{
  ℕ, ◌+◌, ◌-◌, ◌&&◌, ◌||◌, not, ◌==◌, ltb, if◌then◌else◌, bit_and, Option, none, some, ℤ, pos,
  negsuc, is_negative,
}
use cruby_on_sel.Errno.{einval, enomem, enodev, Result, ok, err}
use cruby_on_sel.Memory.{null, memcpy}
use cruby_on_sel.Fds.{FdTable, CpioFile, is_cpio}
use cruby_on_sel.Alloc.Header.{word, mmap_alignment, complement, Heap, Run, done, and_then}
use cruby_on_sel.Alloc.Malloc.{arena_alloc, zero_fill, free}

-- MAP_ANONYMOUS on x86-64
abbrev pub map_anonymous : ℕ
map_anonymous = 0x20

unfoldable pub cpio_file_for_fd : FdTable → ℤ → Option CpioFile
cpio_file_for_fd fds fd =
    if is_negative fd || not (fds.valid_fd fd) then none else elim (fds.get_fd_struct fd) [
      | none ↦ none
      | some entry ↦ if is_cpio entry.filetype then entry.contents else none
    ]

abbrev pub round_to_pages : ℕ → ℕ
round_to_pages length =
    bit_and (word (length + (mmap_alignment - 1))) (complement (mmap_alignment - 1))

-- A fresh block of whole pages, all zero.
unfoldable pub zeroed_pages : ℕ → Heap → Run (Result ℕ)
zeroed_pages rounded h = and_then (arena_alloc rounded mmap_alignment h) (zero_fill rounded)

-- `available` of `mmap`: what the file has from `offset` on, up to `length`.
abbrev pub available : ℕ → CpioFile → ℕ → ℕ
available length file offset =
    if ltb length (file.size - offset) then length else file.size - offset

-- `memcpy(ptr, file->start + offset, available)`
unfoldable pub copy_file : ℕ → CpioFile → ℕ → Result ℕ → Heap → Run (Result ℕ)
copy_file length file offset (ok ptr) h = done (ok ptr) (record h {
  memory = memcpy ptr (word (file.start + offset)) (available length file offset) h.memory;
})
copy_file length file offset (err e) h = done (err e) h

-- The file-backed case.
unfoldable pub map_file : ℕ → Option CpioFile → ℤ → Heap → Run (Result ℕ)
map_file length none offset h = done (err enodev) h
map_file length (some file) (negsuc _) h = done (err einval) h
map_file length (some file) (pos offset) h =
    if ltb file.size offset
    then done (err einval) h
    else and_then (zeroed_pages (round_to_pages length) h) (copy_file length file offset)

unfoldable pub mmap : FdTable → ℕ → ℕ → ℤ → ℤ → Heap → Run (Result ℕ)
mmap fds length flags fd offset h =
    if length == 0
    then done (err einval) h
    else (if ltb (round_to_pages length) length
        then done (err enomem) h
        else (if bit_and flags map_anonymous == 0 && not (is_negative fd)
            then map_file length (cpio_file_for_fd fds fd) offset h
            else zeroed_pages (round_to_pages length) h))

-- `length` is ignored.
unfoldable pub munmap : ℕ → ℕ → Heap → Heap
munmap addr length h = if addr == null then h else free addr h

-- Never possible, whatever the arguments.
unfoldable pub mremap : ℕ → ℕ → ℕ → ℕ → Heap → Run (Result ℕ)
mremap old_addr old_len new_len flags h = done (err enomem) h
