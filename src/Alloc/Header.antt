-- ===== src/Alloc/Header.antt =====
-- ruby_alloc.c, lines 44 to 117: the state of the allocator, `alloc_header_t` as it lies in memory,
-- alignment, and the walk over the free list.
use cruby_on_sel.Prelude.{
  ℕ, zero, suc, ◌+◌, ◌-◌, ◌*◌, ◌%◌, ◌^◌, Bool, ◌&&◌, not, bit_and, ◌==◌, leb, if◌then◌else◌,
}
use cruby_on_sel.Memory.{Memory, null, load, store}

-- `size_t` and `uintptr_t` arithmetic wraps.
abbrev pub word : ℕ → ℕ
word n = n % 2 ^ 64

-- RUBY_ALLOC_ARENA_SIZE
abbrev pub arena_size : ℕ
arena_size = 64 * 1024 * 1024

-- `sizeof(void *) * 2`
abbrev pub default_alignment : ℕ
default_alignment = 16

abbrev pub mmap_alignment : ℕ
mmap_alignment = 4096

abbrev pub alloc_magic : ℕ
alloc_magic = 0x52414c43

-- `sizeof(alloc_header_t)`
abbrev pub header_size : ℕ
header_size = 32

-- The memory, the address where `ruby_alloc_arena` was placed, and the two other statics.
pub record Heap : Type 0 where
  pub memory : Memory
  pub arena : ℕ
  pub offset : ℕ
  pub free_list : ℕ

-- A loop that does not end is `hang`.
pub data Run (A : Type 0) : Type 0 where
  done : A → Heap → Run A
  hang : Run A

abbrev pub and_then : {A B : Type 0} → Run A → (A → Heap → Run B) → Run B
and_then (done a h) k = k a h
and_then hang k = hang

-- The fields of the header at an address.
abbrev pub size_of : Memory → ℕ → ℕ
size_of m a = load 8 a m

abbrev pub capacity_of : Memory → ℕ → ℕ
capacity_of m a = load 8 (a + 8) m

abbrev pub next_of : Memory → ℕ → ℕ
next_of m a = load 8 (a + 16) m

abbrev pub is_free_of : Memory → ℕ → ℕ
is_free_of m a = load 4 (a + 24) m

abbrev pub magic_of : Memory → ℕ → ℕ
magic_of m a = load 4 (a + 28) m

abbrev pub set_size : ℕ → ℕ → Memory → Memory
set_size a v = store 8 a v

abbrev pub set_capacity : ℕ → ℕ → Memory → Memory
set_capacity a v = store 8 (a + 8) v

abbrev pub set_next : ℕ → ℕ → Memory → Memory
set_next a v = store 8 (a + 16) v

abbrev pub set_is_free : ℕ → ℕ → Memory → Memory
set_is_free a v = store 4 (a + 24) v

abbrev pub set_magic : ℕ → ℕ → Memory → Memory
set_magic a v = store 4 (a + 28) v

unfoldable pub is_power_of_two : ℕ → Bool
is_power_of_two value = not (value == 0) && bit_and value (word (value + (2 ^ 64 - 1))) == 0

-- `~x`
abbrev pub complement : ℕ → ℕ
complement x = 2 ^ 64 - 1 - x

unfoldable pub align_up : ℕ → ℕ → ℕ
align_up value alignment =
    bit_and (word (value + alignment + (2 ^ 64 - 1))) (complement (word (alignment + (2 ^ 64 - 1))))

abbrev pub header_payload : ℕ → ℕ
header_payload header = word (header + header_size)

abbrev pub payload_header : ℕ → ℕ
payload_header ptr = word (ptr + (2 ^ 64 - header_size))

unfoldable pub block_matches : Memory → ℕ → ℕ → ℕ → Bool
block_matches m header size alignment =
    leb size (capacity_of m header) && header_payload header % alignment == 0

-- The three writes to a block that is reused.
unfoldable pub mark_used : ℕ → ℕ → Memory → Memory
mark_used current size m = set_is_free current 0 (set_next current null (set_size current size m))

-- The body of the loop at a block that matches: unlink it, then mark it.
unfoldable pub take_block : ℕ → ℕ → ℕ → Heap → Heap
take_block size prev current h =
    if prev == null
    then record h { memory = mark_used current size h.memory; free_list = next_of h.memory current }
    else record h {
      memory = mark_used current size (set_next prev (next_of h.memory current) h.memory);
    }

-- The `while` of `reuse_free_block`, with fuel.
unfoldable pub reuse_scan : ℕ → ℕ → ℕ → ℕ → ℕ → Heap → Run ℕ
reuse_scan zero size alignment prev current h = hang
reuse_scan (suc fuel) size alignment prev current h =
    let rest = reuse_scan fuel size alignment current (next_of h.memory current) h in
    if current == null
    then done null h
    else (if block_matches h.memory current size alignment
        then done (header_payload current) (take_block size prev current h)
        else rest)

-- The blocks on a free list are disjoint and lie in the arena, so no list is longer than this.
abbrev pub free_list_limit : ℕ
free_list_limit = 2097153

unfoldable pub reuse_free_block : ℕ → ℕ → Heap → Run ℕ
reuse_free_block size alignment h = reuse_scan free_list_limit size alignment null h.free_list h
