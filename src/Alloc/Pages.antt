-- ===== src/Alloc/Pages.antt =====
-- `mmap` of ruby_alloc.c, lines 322 to 393: whole pages, zeroed, with the contents of the file if
-- there is one.
use cruby_on_sel.Prelude.{
  ℕ, min, ◌+◌, ◌-◌, ◌*◌, ◌/◌, ◌%◌, ◌^◌, ◌≤◌, ◌<◌, ◌≡◌, ◌⊎◌, Bool, true, false, ◌&&◌, not, List,
  arith, ltb, ◌==◌, bit_and, some, ℤ, pos, is_negative,
}
use cruby_on_sel.Errno.{enomem, err}
use cruby_on_sel.Fds.{FdTable, CpioFile}
use cruby_on_sel.Bits.{high_mask}
use cruby_on_sel.Alloc.Header.{Heap, done, arena_size, word}
use cruby_on_sel.Alloc.Mmap.{
  mmap, zeroed_pages, round_to_pages, map_anonymous, map_file, available, cpio_file_for_fd,
}
use cruby_on_sel.Alloc.Align.{IsAlignedUp}
use cruby_on_sel.Alloc.Invariant.{IsHeap}
use cruby_on_sel.Alloc.Arena.{arena_alloc-Allocates}
use cruby_on_sel.Alloc.Zeroed.{
  Fills, Fills-map, Zeros, Copied, zero_fill-Fills, copy_file-Fills, power_4096,
}

round_to_pages_lem :
    (length : ℕ) → round_to_pages length ≡ 4096 * (word (length + 4095) / 4096 % 2 ^ 52)
round_to_pages_lem length = high_mask 12 52 (word (length + 4095))

-- A length is rounded up to the next page, unless the sum wraps: then the result is 0.
pub round_to_pages-IsAlignedUp :
    (length : ℕ) → length + 4096 ≤ 2 ^ 64 → IsAlignedUp 4096 length (round_to_pages length)
round_to_pages-IsAlignedUp length fits = omega (arith, round_to_pages_lem length)

pub round_to_pages_wraps :
    (length : ℕ) → 2 ^ 64 < length + 4096 → length < 2 ^ 64 → round_to_pages length ≡ 0
round_to_pages_wraps length over word = omega (arith, round_to_pages_lem length)

-- The bytes of the fewest pages that hold `length` bytes.
abbrev pub page_bytes : ℕ → ℕ
page_bytes length = 4096 * ((length + 4095) / 4096)

round_to_pages_count :
    (length : ℕ) → length + 4096 ≤ 2 ^ 64 → round_to_pages length ≡ page_bytes length
round_to_pages_count length fits = omega (arith, round_to_pages_lem length)

-- As many bytes are copied as were asked for, or as the file has from the offset on.
available-min :
    (length offset : ℕ) (file : CpioFile)
    → offset ≤ file.size
    → file.start + file.size < 2 ^ 64
    → available length file offset ≡ min length (file.size - offset)
available-min length offset file within in_word = ground arith

-- The test of `mmap` for a mapping of a file.
abbrev pub wants_file : ℕ → ℤ → Bool
wants_file flags fd = bit_and flags map_anonymous == 0 && not (is_negative fd)

module _ {h : Heap} {blocks idle : List ℕ} (v : IsHeap h blocks idle) where
  zeroed_pages-Fills :
      (length : ℕ)
      → 0 < length
      → length + 4096 ≤ 2 ^ 64
      → Fills
          (round_to_pages length)
          4096
          h
          blocks
          idle
          (Zeros (round_to_pages length))
          (zeroed_pages (round_to_pages length) h)
  unfolding zeroed_pages
  zeroed_pages-Fills length positive fits =
      let up = round_to_pages-IsAlignedUp length fits in
      let some_page : (round_to_pages length == 0) ≡ false = ground (arith, up.above) in
      let request =
        arena_alloc-Allocates (round_to_pages length) 4096 v
          (omega (arith, round_to_pages_lem length)) (omega arith) power_4096 in
      zero_fill-Fills (round_to_pages length) (omega arith) (rw some_page at request)

  -- In a well-formed heap, a mapping without a file, of a length above 0 that stays a page below the
  -- end of `size_t`, is granted as whole pages of zero bytes, page aligned, or ENOMEM is reported for
  -- want of room with the heap unchanged.
  pub mmap-Zeros :
      (fds : FdTable) (length flags : ℕ) (fd offset : ℤ)
      → 0 < length
      → length + 4096 ≤ 2 ^ 64
      → wants_file flags fd ≡ false
      → Fills
          (round_to_pages length)
          4096
          h
          blocks
          idle
          (Zeros (round_to_pages length))
          (mmap fds length flags fd offset h)
  unfolding mmap
  mmap-Zeros fds length flags fd offset positive fits anonymous =
      let up = round_to_pages-IsAlignedUp length fits in
      let some_length : (length == 0) ≡ false = ground arith in
      let no_wrap : ltb (round_to_pages length) length ≡ false = ground (arith, up.above) in
      rw (some_length, no_wrap, anonymous) (zeroed_pages-Fills length positive fits)

  mmap-copies :
      (fds : FdTable) (length flags offset : ℕ) (fd : ℤ) (file : CpioFile)
      → 0 < length
      → length + 4096 ≤ 2 ^ 64
      → wants_file flags fd ≡ true
      → cpio_file_for_fd fds fd ≡ some file
      → offset ≤ file.size
      → file.start + file.size < 2 ^ 64
      → (file.start + file.size ≤ h.arena) ⊎ (h.arena + arena_size ≤ file.start)
      → Fills
          (round_to_pages length)
          4096
          h
          blocks
          idle
          (Copied h.memory
            (file.start + offset)
            (available length file offset)
            (round_to_pages length))
          (mmap fds length flags fd (pos offset) h)
  unfolding mmap map_file
  mmap-copies fds length flags offset fd file positive fits wanted found within in_word apart =
      let up = round_to_pages-IsAlignedUp length fits in
      let some_length : (length == 0) ≡ false = ground arith in
      let no_wrap : ltb (round_to_pages length) length ≡ false = ground (arith, up.above) in
      let inside : ltb file.size offset ≡ false = ground arith in
      rw (some_length, no_wrap, wanted, found, inside)
        (copy_file-Fills length file offset (ground (arith, up.above)) (omega arith) apart within
          (zeroed_pages-Fills length positive fits))

  -- In a well-formed heap, a mapping of a CPIO file that lies outside the arena, from an offset
  -- within the file and of a length above 0 that stays a page below the end of `size_t`, is granted
  -- in whole pages, page aligned, and holds the bytes of the file from the offset on, up to the length
  -- asked for or the end of the file, and zeros to the end of the last page; or ENOMEM is reported for want of room with the heap unchanged.
  pub mmap-Copied :
      (fds : FdTable) (length flags offset : ℕ) (fd : ℤ) (file : CpioFile)
      → 0 < length
      → length + 4096 ≤ 2 ^ 64
      → wants_file flags fd ≡ true
      → cpio_file_for_fd fds fd ≡ some file
      → offset ≤ file.size
      → file.start + file.size < 2 ^ 64
      → (file.start + file.size ≤ h.arena) ⊎ (h.arena + arena_size ≤ file.start)
      → Fills
          (page_bytes length)
          4096
          h
          blocks
          idle
          (Copied h.memory
            (file.start + offset)
            (min length (file.size - offset))
            (page_bytes length))
          (mmap fds length flags fd (pos offset) h)
  mmap-Copied fds length flags offset fd file positive fits wanted found within in_word apart =
      rw (round_to_pages_count length fits, available-min length offset file within in_word) at
        (mmap-copies fds length flags offset fd file positive fits wanted found within in_word
          apart)

-- A mapping without a file, or of a CPIO file outside the arena from an offset within it.
pub data IsMappable (arena : ℕ) (fds : FdTable) (flags : ℕ) : (fd offset : ℤ) → Type 0 where
  anonymous : {fd offset : ℤ} → wants_file flags fd ≡ false → IsMappable arena fds flags fd offset
  of_file :
      {fd : ℤ} (file : CpioFile) (offset : ℕ)
      → wants_file flags fd ≡ true
      → cpio_file_for_fd fds fd ≡ some file
      → offset ≤ file.size
      → file.start + file.size < 2 ^ 64
      → (file.start + file.size ≤ arena) ⊎ (arena + arena_size ≤ file.start)
      → IsMappable arena fds flags fd (pos offset)

-- Either way whole pages are granted.
pub mmap-Fills :
    {h : Heap} {blocks idle : List ℕ} (fds : FdTable) (length flags : ℕ) {fd offset : ℤ}
    → IsHeap h blocks idle
    → 0 < length
    → length + 4096 ≤ 2 ^ 64
    → IsMappable h.arena fds flags fd offset
    → Fills
        (round_to_pages length)
        4096
        h
        blocks
        idle
        (λ ptr m. Unit)
        (mmap fds length flags fd offset h)
mmap-Fills fds length flags v positive fits (anonymous {fd} {offset} plain) =
    Fills-map (λ ptr m p. tt) (mmap-Zeros v fds length flags fd offset positive fits plain)
mmap-Fills fds length flags v positive fits
      (of_file {fd} file offset wanted found within in_word apart) =
    Fills-map (λ ptr m p. tt)
      (mmap-copies v fds length flags offset fd file positive fits wanted found within in_word
        apart)

-- `mmap` of a length less than a page below the end of `size_t` is refused with ENOMEM, and the heap
-- is unchanged.
pub mmap-enomem :
    (fds : FdTable) (length flags : ℕ) (fd offset : ℤ) (h : Heap)
    → length < 2 ^ 64
    → 2 ^ 64 < length + 4096
    → mmap fds length flags fd offset h ≡ done (err enomem) h
unfolding mmap
mmap-enomem fds length flags fd offset h bound over =
    let zero = round_to_pages_wraps length over bound in
    let some_length : (length == 0) ≡ false = ground arith in
    let wraps : ltb (round_to_pages length) length ≡ true = ground (arith, zero) in
    rw (some_length, wraps)
