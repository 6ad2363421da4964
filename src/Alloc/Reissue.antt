-- ===== src/Alloc/Reissue.antt =====
-- A block that was just freed is the first that `reuse_free_block` looks at.
use cruby_on_sel.Prelude.{ℕ, suc, ◌+◌, ◌%◌, ◌^◌, ◌≤◌, ◌<◌, ◌≡◌, true, false, List, arith, ◌==◌, ltb}
use cruby_on_sel.Errno.{ok}
use cruby_on_sel.Memory.{null, memset, memset-inside}
use cruby_on_sel.Alloc.Header.{
  Heap, done, header_size, header_payload, capacity_of, block_matches, take_block, reuse_scan,
  reuse_free_block, is_power_of_two,
}
use cruby_on_sel.Alloc.Malloc.{arena_alloc, malloc, free, zero_fill, at_least_one, at_least_default}
use cruby_on_sel.Alloc.Mmap.{mmap, munmap, zeroed_pages, round_to_pages}
use cruby_on_sel.Fds.{FdTable}
use cruby_on_sel.Prelude.{ℤ}
use cruby_on_sel.Alloc.Invariant.{IsHeap, is_live, IsBlock-of, payload_plain}
use cruby_on_sel.Alloc.Release.{free-released, released, self}
use cruby_on_sel.Alloc.Pages.{wants_file, round_to_pages-IsAlignedUp}
use cruby_on_sel.Alloc.Align.{IsAlignedUp}
use cruby_on_sel.Alloc.Zeroed.{power_16, power_4096}

scan_head :
    (fuel size alignment a : ℕ) (h : Heap)
    → 0 < a
    → block_matches h.memory a size alignment ≡ true
    → reuse_scan (suc fuel) size alignment null a h
      ≡ done (header_payload a) (take_block size null a h)
unfolding reuse_scan
scan_head fuel size alignment a h pos hit =
    let real : (a == null) ≡ false = ground arith in rw (real, hit)

module _ {h : Heap} {blocks idle : List ℕ} (v : IsHeap h blocks idle) (a : ℕ)
    (live : is_live blocks idle a ≡ true) where
  reissue :
      (size alignment : ℕ)
      → size ≤ capacity_of h.memory a
      → (a + header_size) % alignment ≡ 0
      → reuse_free_block size alignment (released a h)
        ≡ done (a + header_size) (take_block size null a (released a h))
  unfolding reuse_free_block block_matches
  reissue size alignment room aligned =
      let plain = payload_plain v a (ground arith) in
      let kept = self v a (ground arith) (ground arith) in
      let hit : block_matches (released a h).memory a size alignment ≡ true =
        rw (kept.capacity, plain) (ground arith) in
      rw (
        scan_head 2097152 size alignment a (released a h)
            (omega (arith, IsBlock-of v a (ground arith), v.placed)) hit,
        plain,
      )

  reissue-arena_alloc :
      (size alignment : ℕ)
      → is_power_of_two (at_least_default alignment) ≡ true
      → at_least_one size ≤ capacity_of h.memory a
      → (a + header_size) % at_least_default alignment ≡ 0
      → arena_alloc size alignment (free (a + header_size) h)
        ≡ done (ok (a + header_size)) (take_block (at_least_one size) null a (released a h))
  unfolding arena_alloc
  reissue-arena_alloc size alignment power room aligned =
      let real : (a + header_size == 0) ≡ false = ground arith in
      rw (
        free-released v a live,
        power,
        reissue (at_least_one size) (at_least_default alignment) room aligned,
        real,
      )

  -- In a well-formed heap, freeing a block that has an owner and then allocating a size (at least one
  -- byte) within its capacity hands out the same block.
  pub malloc-free :
      (size : ℕ)
      → at_least_one size ≤ capacity_of h.memory a
      → malloc size (free (a + header_size) h)
        ≡ done (ok (a + header_size)) (take_block (at_least_one size) null a (released a h))
  unfolding malloc
  malloc-free size room =
      reissue-arena_alloc size 16 power_16 room (omega (arith, IsBlock-of v a (ground arith)))

  -- In a well-formed heap, `munmap` of any length at the payload of a block that has an owner and is
  -- page aligned gives up the whole block: an anonymous `mmap` right after it, of a length above 0
  -- that fits the block's capacity in whole pages, is placed at the same address and its pages are
  -- cleared, also where the caller of `munmap` kept the rest.
  pub mmap-munmap :
      (fds : FdTable) (trimmed length flags : ℕ) (fd offset : ℤ)
      → (a + header_size) % 4096 ≡ 0
      → 0 < length
      → length + 4096 ≤ 2 ^ 64
      → round_to_pages length ≤ capacity_of h.memory a
      → wants_file flags fd ≡ false
      → (h' : Heap) × (mmap fds length flags fd offset (munmap (a + header_size) trimmed h)
          ≡ done (ok (a + header_size)) h')
        × ((x : ℕ)
            → a + header_size ≤ x
            → x < a + header_size + round_to_pages length
            → h'.memory x ≡ 0)
  unfolding mmap munmap zeroed_pages zero_fill
  mmap-munmap fds trimmed length flags fd offset page positive fits room anonymous = (
    record taken { memory = memset (a + header_size) 0 (round_to_pages length) taken.memory },
    rw (real, some_length, no_wrap, anonymous, request),
    memset-inside (a + header_size) 0 (round_to_pages length) taken.memory,
  )
    where
      up : IsAlignedUp 4096 length (round_to_pages length)
      up = round_to_pages-IsAlignedUp length fits

      some_length : (length == 0) ≡ false
      some_length = ground arith

      no_wrap : ltb (round_to_pages length) length ≡ false
      no_wrap = ground (arith, up.above)

      real : (a + header_size == 0) ≡ false
      real = ground arith

      one_page : at_least_one (round_to_pages length) ≤ capacity_of h.memory a
      one_page = ground (arith, up.above)

      taken : Heap
      taken = take_block (at_least_one (round_to_pages length)) null a (released a h)

      request :
          arena_alloc (round_to_pages length) 4096 (free (a + header_size) h)
          ≡ done (ok (a + header_size)) taken
      request = reissue-arena_alloc (round_to_pages length) 4096 power_4096 one_page page
