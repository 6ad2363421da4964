-- ===== src/Examples/Allocator.antt =====
-- Examples for ruby_alloc.c: a heap with nothing allocated, and the heap after one page was mapped.
use cruby_on_sel.Prelude.{
  has, ℕ, ◌+◌, ◌-◌, ◌^◌, ◌≤◌, ◌<◌, ◌≡◌, ◌≢◌, refl, arith, true, [], ◌∷◌, inl, pos, ◌*◌, ◌==ℤ◌,
  negsuc, some,
}
use cruby_on_sel.Memory.{Same, poke}
use cruby_on_sel.Errno.{ok}
use cruby_on_sel.Fds.{CpioFile, FdTable, cpio}
use cruby_on_sel.Alloc.Header.{reuse_free_block, reuse_scan, Heap, done, header_size, capacity_of}
use cruby_on_sel.Alloc.Malloc.{
  bump, bump_at, arena_alloc, malloc, free, calloc, realloc, at_least_one, at_least_default,
}
use cruby_on_sel.Alloc.Mmap.{mmap, munmap, round_to_pages}
use cruby_on_sel.Alloc.Invariant.{IsHeap, is_live}
use cruby_on_sel.Alloc.Granted.{Granted, carved, carved-Granted}
use cruby_on_sel.Alloc.Header.{is_power_of_two, align_up}
use cruby_on_sel.Alloc.Malloc.{malloc_usable_size}
use cruby_on_sel.Alloc.Mmap.{cpio_file_for_fd}
use cruby_on_sel.Alloc.Release.{free-IsHeap}
use cruby_on_sel.Alloc.Realloc.{Resizes, realloc-Resizes}
use cruby_on_sel.Alloc.Zeroed.{Fills, Zeros, Copied, calloc-Fills}
use cruby_on_sel.Alloc.Pages.{mmap-Copied}
use cruby_on_sel.Alloc.Trim.{Trims, munmap-Trims}
use cruby_on_sel.Alloc.Reissue.{mmap-munmap}
use cruby_on_sel.Alloc.Wrap.{ClaimsAll, malloc-ClaimsAll}
use cruby_on_sel.Alloc.Client.{client, allocate, write, give_back, Reach, start, later}
use mathlib.Core.Option.{some_inj}
use cruby_on_sel.Alloc.Isolation.{subject, IsKept, Reach-IsKept}
use cruby_on_sel.Alloc.Safety.{IsSafe, Reach-IsSafe}
use cruby_on_sel.Alloc.Arena.{Allocates, arena_alloc-Allocates}

abbrev pub empty_heap : Heap
empty_heap = record { memory = λ x. 0; arena = 0x10000000; offset = 0; free_list = 0 }

pub empty_heap-IsHeap : IsHeap empty_heap [] []
empty_heap-IsHeap = record {
  placed = record { page = refl; positive = omega arith; user_half = omega arith };
  inside = omega arith;
  laid = omega arith;
  chain = refl;
  distinct = tt;
  listed = λ a h. ground arith;
  flags = λ a h. ground arith;
}

-- The header of a first mapping of one page, which ends at a page boundary.
abbrev page_block : ℕ
page_block = 0x10000fe0

abbrev page_heap : Heap
page_heap = carved page_block 4096 empty_heap

page-Granted :
    Granted 4096 4096 empty_heap [] [] page_block
      (page_block + header_size)
      page_heap
      (page_block ∷ [])
      []
page-Granted =
    carved-Granted empty_heap-IsHeap 4096 page_block (omega arith) (omega arith) refl (omega arith)
      4096 refl

arena_alloc-Allocates_example :
    Allocates
      (at_least_one 100)
      (at_least_default 8)
      page_heap
      (page_block ∷ [])
      []
      (arena_alloc 100 8 page_heap)
unfolding is_power_of_two
arena_alloc-Allocates_example =
    arena_alloc-Allocates 100 8 page-Granted.valid (omega arith) (omega arith) refl

-- The first block of 100 bytes.
abbrev first_heap : Heap
first_heap = carved 0x10000000 100 empty_heap

first_alloc : arena_alloc 100 16 empty_heap ≡ done (ok 0x10000020) first_heap
unfolding arena_alloc reuse_free_block reuse_scan bump bump_at is_power_of_two align_up
first_alloc = refl

first-Granted :
    Granted 100 16 empty_heap [] [] 0x10000000 0x10000020 first_heap (0x10000000 ∷ []) []
first-Granted =
    carved-Granted empty_heap-IsHeap 100 0x10000000 (omega arith) (omega arith) refl (omega arith)
      16 refl

-- A second block of 200 bytes.
abbrev second_heap : Heap
second_heap = carved 0x10000090 200 first_heap

second_alloc : arena_alloc 200 16 first_heap ≡ done (ok 0x100000b0) second_heap
unfolding arena_alloc reuse_free_block reuse_scan bump bump_at is_power_of_two align_up
second_alloc = refl

second-Reach : Reach (client empty_heap []) (client second_heap (0x100000b0 ∷ 0x10000020 ∷ []))
second-Reach =
    later (later start (allocate 100 16 (omega arith) (omega arith) first_alloc))
      (allocate 200 16 (omega arith) (omega arith) second_alloc)

second-Granted :
    Granted 200 16 first_heap
      (0x10000000 ∷ [])
      []
      0x10000090
      0x100000b0
      second_heap
      (0x10000000 ∷ 0x10000090 ∷ [])
      []
second-Granted =
    carved-Granted first-Granted.valid 200 0x10000090 (omega arith) (omega arith) refl (omega arith)
      16 refl

second-usable : 200 ≤ malloc_usable_size 0x100000b0 second_heap
unfolding malloc_usable_size
second-usable = second-Granted.room

-- Both blocks are owned, and a byte is written into the second one.
Reach-IsSafe_example : IsSafe (
    client
      (record second_heap { memory = poke 0x100000b1 7 second_heap.memory })
      (0x100000b0 ∷ 0x10000020 ∷ []))
Reach-IsSafe_example =
    Reach-IsSafe
      (record { placed = empty_heap-IsHeap.placed; empty = refl; no_free = refl; no_owner = refl })
      (later second-Reach
        (write 0x100000b0 0x100000b1 7 refl (omega arith) (omega (arith, second-usable))))

-- The second block is freed, and the first one stays.
Reach-IsKept_example :
    (has 0x10000020 (0x10000020 ∷ []) ≡ true)
    × IsKept 0x10000020 second_heap (free 0x100000b0 second_heap)
unfolding subject
Reach-IsKept_example =
    Reach-IsKept
      (record { placed = empty_heap-IsHeap.placed; empty = refl; no_free = refl; no_owner = refl })
      second-Reach (give_back 0x100000b0 refl) 0x10000020 refl
      (λ e. absurd (ground (arith, some_inj.0 e)))

free-IsHeap_example :
    IsHeap (free (page_block + header_size) page_heap) (page_block ∷ []) (page_block ∷ [])
    × ((b : ℕ)
        → is_live (page_block ∷ []) [] b ≡ true
        → b ≢ page_block
        → Same b
            (header_size + capacity_of page_heap.memory b)
            page_heap.memory
            (free (page_block + header_size) page_heap).memory)
free-IsHeap_example = free-IsHeap page_block page-Granted.valid page-Granted.live

realloc-Resizes_example :
    Resizes page_heap
      (page_block ∷ [])
      []
      page_block
      8000
      (realloc (page_block + header_size) 8000 page_heap)
realloc-Resizes_example =
    realloc-Resizes page_block 8000 page-Granted.valid page-Granted.live (omega arith) (omega arith)

calloc-Fills_example :
    Fills
      (at_least_one (3 * 40))
      16
      page_heap
      (page_block ∷ [])
      []
      (Zeros (3 * 40))
      (calloc 3 40 page_heap)
calloc-Fills_example = calloc-Fills 3 40 page-Granted.valid (omega arith)

abbrev script : CpioFile
script = record { start = 0x400000; size = 5000; current = 0 }

-- Descriptor 3 is the script; no other descriptor is in use.
abbrev open_files : FdTable
open_files = record {
  valid_fd = λ fd. fd ==ℤ pos 3;
  get_fd_struct = λ fd. some (record { filetype = cpio; address = 0x5000; contents = some script });
}

mmap-Copied_example :
    Fills 8192 4096 page_heap
      (page_block ∷ [])
      []
      (Copied page_heap.memory (0x400000 + 10) 4990 8192)
      (mmap open_files 5000 2 (pos 3) (pos 10) page_heap)
unfolding cpio_file_for_fd
mmap-Copied_example =
    mmap-Copied page-Granted.valid open_files 5000 2 10 (pos 3) script (omega arith) (omega arith)
      refl refl (omega arith) (omega arith) (inl (omega arith))

munmap-Trims_example :
    Trims
      (round_to_pages 10000)
      page_heap
      (page_block ∷ [])
      []
      (mmap open_files 10000 0x22 (negsuc 0) (pos 0) page_heap)
munmap-Trims_example =
    munmap-Trims page-Granted.valid open_files 10000 0x22 (negsuc 0) (pos 0) (omega arith)
      (omega arith) refl

-- The caller trims one byte and keeps the rest of the page.
mmap-munmap_example :
    (h' : Heap) × (mmap open_files 4096 0x22
        (negsuc 0)
        (pos 0)
        (munmap (page_block + header_size) 1 page_heap)
      ≡ done (ok (page_block + header_size)) h')
    × ((x : ℕ)
        → page_block + header_size ≤ x
        → x < page_block + header_size + round_to_pages 4096
        → h'.memory x ≡ 0)
mmap-munmap_example =
    mmap-munmap page-Granted.valid page_block page-Granted.live open_files 1 4096 0x22 (negsuc 0)
      (pos 0) refl (omega arith) (omega arith) page-Granted.room refl

malloc-ClaimsAll_example : ClaimsAll (2 ^ 64 - 1) empty_heap (malloc (2 ^ 64 - 1) empty_heap)
unfolding align_up
malloc-ClaimsAll_example =
    malloc-ClaimsAll empty_heap-IsHeap (2 ^ 64 - 1) (omega arith) (omega arith) (omega arith)
