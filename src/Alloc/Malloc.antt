-- ===== src/Alloc/Malloc.antt =====
-- ruby_alloc.c, lines 119 to 289: `arena_alloc` and the `malloc` family over it.
use cruby_on_sel.Prelude.{
  ℕ, ◌+◌, ◌-◌, ◌*◌, ◌/◌, ◌^◌, ◌&&◌, ◌||◌, not, ◌==◌, leb, ltb, if◌then◌else◌,
}
use cruby_on_sel.Errno.{einval, enomem, Result, ok, err, is_einval}
use cruby_on_sel.Memory.{Memory, null, store, memset, memcpy}
use cruby_on_sel.Alloc.Header.{
  word, arena_size, default_alignment, alloc_magic, header_size, Heap, Run, done, and_then, size_of,
  capacity_of, is_free_of, magic_of, set_size, set_capacity, set_next, set_is_free, set_magic,
  is_power_of_two, align_up, header_payload, payload_header, reuse_free_block,
}

-- Where the header of a new block goes.
abbrev pub header_addr : ℕ → Heap → ℕ
header_addr alignment h =
    word (align_up (word (h.arena + h.offset + header_size)) alignment + (2 ^ 64 - header_size))

unfoldable pub write_header : ℕ → ℕ → Memory → Memory
write_header a size m =
    set_magic a alloc_magic
      (set_is_free a 0 (set_next a null (set_capacity a size (set_size a size m))))

-- `arena_alloc` after the free list had nothing to offer, with the header at `header`.
unfoldable pub bump_at : ℕ → ℕ → Heap → Run (Result ℕ)
bump_at header size h =
    if ltb (word (header + header_size + size)) header
      || ltb (word (h.arena + arena_size)) (word (header + header_size + size))
    then done (err enomem) h
    else (done (ok (header_payload header)) (record h {
      memory = write_header header size h.memory;
      offset = word (word (header + header_size + size) + (2 ^ 64 - h.arena));
    }))

unfoldable pub bump : ℕ → ℕ → Heap → Run (Result ℕ)
bump size alignment h = bump_at (header_addr alignment h) size h

-- The two adjustments at the top of `arena_alloc`.
abbrev pub at_least_one : ℕ → ℕ
at_least_one size = if size == 0 then 1 else size

abbrev pub at_least_default : ℕ → ℕ
at_least_default alignment =
    if ltb alignment default_alignment then default_alignment else alignment

unfoldable pub arena_alloc : ℕ → ℕ → Heap → Run (Result ℕ)
arena_alloc size alignment h =
    if not (is_power_of_two (at_least_default alignment))
    then done (err einval) h
    else (and_then (reuse_free_block (at_least_one size) (at_least_default alignment) h)
        (λ reused h'.
          if reused == null
          then bump (at_least_one size) (at_least_default alignment) h'
          else done (ok reused) h'))

unfoldable pub malloc : ℕ → Heap → Run (Result ℕ)
malloc size = arena_alloc size default_alignment

unfoldable pub free : ℕ → Heap → Heap
free ptr h =
    if ptr == null
    then h
    else (if not (magic_of h.memory (payload_header ptr) == alloc_magic)
          || not (is_free_of h.memory (payload_header ptr) == 0)
        then h
        else record h {
          memory =
              set_next (payload_header ptr) h.free_list
                (set_is_free (payload_header ptr) 1 h.memory);
          free_list = payload_header ptr;
        })

-- `memset(ptr, 0, total)` if the allocation succeeded.
unfoldable pub zero_fill : ℕ → Result ℕ → Heap → Run (Result ℕ)
zero_fill total (ok ptr) h = done (ok ptr) (record h { memory = memset ptr 0 total h.memory })
zero_fill total (err e) h = done (err e) h

unfoldable pub calloc : ℕ → ℕ → Heap → Run (Result ℕ)
calloc count size h =
    if not (count == 0) && ltb ((2 ^ 64 - 1) / count) size
    then done (err enomem) h
    else and_then (malloc (word (count * size)) h) (zero_fill (word (count * size)))

-- `realloc` once a larger block has been found at `new_ptr`.
unfoldable pub move_block : ℕ → ℕ → ℕ → ℕ → Heap → Heap
move_block old_size size ptr new_ptr h = free ptr (record h {
  memory = memcpy new_ptr ptr (if ltb old_size size then old_size else size) h.memory;
})

-- `realloc` after the call of `malloc`; `old_size` was read before it.
unfoldable pub move_result : ℕ → ℕ → ℕ → Result ℕ → Heap → Run (Result ℕ)
move_result old_size size ptr (ok new_ptr) h =
    done (ok new_ptr) (move_block old_size size ptr new_ptr h)
move_result old_size size ptr (err e) h = done (err e) h

unfoldable pub realloc : ℕ → ℕ → Heap → Run (Result ℕ)
realloc ptr size h =
    if ptr == null
    then malloc size h
    else (if size == 0
        then done (ok null) (free ptr h)
        else (if leb size (capacity_of h.memory (payload_header ptr))
            then done (ok ptr) (record h { memory = set_size (payload_header ptr) size h.memory })
            else and_then (malloc size h)
                (move_result (size_of h.memory (payload_header ptr)) size ptr)))

-- The end of `posix_memalign`; `memptr` is the address that receives the pointer.
unfoldable pub store_result : ℕ → Result ℕ → Heap → Run (Result (Unit {0}))
store_result memptr (ok ptr) h = done (ok tt) (record h { memory = store 8 memptr ptr h.memory })
store_result memptr (err e) h = done (err (if is_einval e then einval else enomem)) h

unfoldable pub posix_memalign : ℕ → ℕ → ℕ → Heap → Run (Result (Unit {0}))
posix_memalign memptr alignment size h =
    if memptr == null || ltb alignment 8 || not (is_power_of_two alignment)
    then done (err einval) h
    else and_then (arena_alloc size alignment h) (store_result memptr)

unfoldable pub aligned_alloc : ℕ → ℕ → Heap → Run (Result ℕ)
aligned_alloc alignment size h =
    if alignment == 0 || not (is_power_of_two alignment)
    then done (err einval) h
    else arena_alloc size alignment h

unfoldable pub malloc_usable_size : ℕ → Heap → ℕ
malloc_usable_size ptr h = if ptr == null then 0 else capacity_of h.memory (payload_header ptr)
