-- ===== src/Alloc/Zeroed.antt =====
-- `calloc` and `mmap` of ruby_alloc.c: blocks that arrive with known contents.
use cruby_on_sel.Prelude.{
  ℕ, ◌+◌, ◌-◌, ◌*◌, ◌/◌, ◌^◌, ◌≤◌, ◌<◌, ◌≡◌, refl, ◌∙◌, ◌⊎◌, inl, inr, true, false, ◌&&◌, not, List,
  arith, ltb, leb, ◌==◌, has, Bool-cases,
}
use cruby_on_sel.Errno.{Result, ok, err, enomem}
use cruby_on_sel.Memory.{
  Memory, memset, memset-inside, memset-outside, memcpy-inside, memcpy-outside,
}
use cruby_on_sel.Fds.{CpioFile}
use native.Mathlib.Nat.{le-div_iff_mul-le}
use cruby_on_sel.Alloc.Header.{
  Heap, Run, done, and_then, arena_size, header_size, align_up, block_matches, is_power_of_two,
  word,
}
use cruby_on_sel.Alloc.Malloc.{malloc, calloc, zero_fill, at_least_one}
use cruby_on_sel.Alloc.Mmap.{copy_file, available}
use cruby_on_sel.Alloc.Invariant.{IsHeap}
use cruby_on_sel.Alloc.Granted.{Granted}
use cruby_on_sel.Alloc.Arena.{Allocates, granted, exhausted, arena_alloc-Allocates}
use cruby_on_sel.Alloc.Payload.{Granted-filled}

-- A block is granted and its memory has the property, or there is no room and nothing has changed.
pub data Fills (size alignment : ℕ) (h : Heap) (blocks idle : List ℕ) (P : ℕ → Memory → Type 0)
    : Run (Result ℕ) → Type 0 where
  filled :
      {a ptr : ℕ} {h' : Heap} {blocks' idle' : List ℕ}
      → Granted size alignment h blocks idle a ptr h' blocks' idle'
      → P ptr h'.memory
      → Fills size alignment h blocks idle P (done (ok ptr) h')
  no_room :
      ((b : ℕ) → has b idle ≡ true → block_matches h.memory b size alignment ≡ false)
      → h.arena + arena_size < align_up (h.arena + h.offset + header_size) alignment + size
      → Fills size alignment h blocks idle P (done (err enomem) h)

pub Fills-map :
    {size alignment : ℕ} {h : Heap} {blocks idle : List ℕ} {P Q : ℕ → Memory → Type 0}
    {r : Run (Result ℕ)}
    → ((ptr : ℕ) (m : Memory) → P ptr m → Q ptr m)
    → Fills size alignment h blocks idle P r
    → Fills size alignment h blocks idle Q r
Fills-map f (filled {ptr} {h' = h'} g p) = filled g (f ptr h'.memory p)
Fills-map f (no_room misses short) = no_room misses short

-- The `n` bytes from the pointer are zero.
abbrev pub Zeros : ℕ → ℕ → Memory → Type 0
Zeros n ptr m = (x : ℕ) → ptr ≤ x → x < ptr + n → m x ≡ 0

-- The first `n` bytes are those at `source` in the old memory, and the rest up to `total` are zero.
pub record Copied (old : Memory) (source n total ptr : ℕ) (m : Memory) : Type 0 where
  pub contents : (i : ℕ) → i < n → m (ptr + i) ≡ old (source + i)
  pub padding : (i : ℕ) → n ≤ i → i < total → m (ptr + i) ≡ 0

module _ {size alignment : ℕ} {h : Heap} {blocks idle : List ℕ} where
  pub zero_fill-Fills :
      (n : ℕ) {r : Run (Result ℕ)}
      → n ≤ size
      → Allocates size alignment h blocks idle r
      → Fills size alignment h blocks idle (Zeros n) (and_then r (zero_fill n))
  unfolding zero_fill
  zero_fill-Fills n le (granted {ptr} {h' = h'} g) =
      filled (Granted-filled (memset ptr 0 n h'.memory) n g le (memset-outside ptr 0 n h'.memory))
        (memset-inside ptr 0 n h'.memory)
  zero_fill-Fills n le (exhausted misses short) = no_room misses short

  pub copy_file-Fills :
      (length : ℕ) (file : CpioFile) (offset : ℕ) {r : Run (Result ℕ)}
      → available length file offset ≤ size
      → word (file.start + offset) ≡ file.start + offset
      → (file.start + file.size ≤ h.arena) ⊎ (h.arena + arena_size ≤ file.start)
      → offset ≤ file.size
      → Fills size alignment h blocks idle (Zeros size) r
      → Fills size alignment h blocks idle
          (Copied h.memory (file.start + offset) (available length file offset) size)
          (and_then r (copy_file length file offset))
  unfolding copy_file
  copy_file-Fills length file offset le plain apart within (no_room misses short) =
      no_room misses short
  copy_file-Fills length file offset le plain apart within (filled {ptr} {h' = h'} g zeros) =
      filled
        (Granted-filled _ (available length file offset) g le
          (memcpy-outside ptr _ (available length file offset) h'.memory))
        (rw plain (record {
          contents = λ i lt.
              memcpy-inside ptr (file.start + offset) (available length file offset) h'.memory i lt
              ∙ g.elsewhere (file.start + offset + i) (ground arith);
          padding = λ i lo hi.
              memcpy-outside ptr _ (available length file offset) h'.memory (ptr + i)
                (inr (omega arith))
              ∙ zeros (ptr + i) (omega arith) (omega arith);
        }))

pub power_16 : is_power_of_two 16 ≡ true
unfolding is_power_of_two
power_16 = refl

pub power_4096 : is_power_of_two 4096 ≡ true
unfolding is_power_of_two
power_4096 = refl

-- The test of `calloc` is that of an overflow of the product.
overflow_test :
    (count size : ℕ)
    → (not (count == 0) && ltb ((2 ^ 64 - 1) / count) size) ≡ leb (2 ^ 64) (count * size)
overflow_test count size = elim (Bool-cases (count == 0)) [
  | inl empty ↦ let e : count ≡ 0 = ground arith in rw e (ground arith)
  | inr some_count ↦
      let pos : 0 < count = ground arith in
      let exact = le-div_iff_mul-le {k = count} {x = size} {y = 2 ^ 64 - 1} pos in
      elim (Bool-cases (ltb ((2 ^ 64 - 1) / count) size)) [
        | inl over ↦
            let beyond : ¬ (size * count ≤ 2 ^ 64 - 1) = λ le. ground (arith, exact.1 le) in
            rw (over, some_count) (ground arith)
        | inr fine ↦
            let below : size * count ≤ 2 ^ 64 - 1 = exact.0 (ground arith) in
            rw (fine, some_count) (ground arith)
      ]
]

-- In a well-formed heap, `calloc` of a product that stays below the last 32 values of `size_t`
-- grants a block that begins with that many zero bytes, or reports ENOMEM for want of room with the
-- heap unchanged.
pub calloc-Fills :
    {h : Heap} {blocks idle : List ℕ} (count size : ℕ)
    → IsHeap h blocks idle
    → count * size + header_size < 2 ^ 64
    → Fills
        (at_least_one (count * size))
        16
        h
        blocks
        idle
        (Zeros (count * size))
        (calloc count size h)
unfolding calloc malloc
calloc-Fills {h} count size v small =
    let plain : word (count * size) ≡ count * size = omega arith in
    let fine : leb (2 ^ 64) (count * size) ≡ false = ground arith in
    rw (overflow_test, fine, plain)
      (zero_fill-Fills (count * size) (ground arith)
        (arena_alloc-Allocates (count * size) 16 v small (omega arith) power_16))

-- `calloc` of a product that does not fit `size_t` is refused with ENOMEM, and the heap is unchanged.
pub calloc-overflow :
    (count size : ℕ) (h : Heap) → 2 ^ 64 ≤ count * size → calloc count size h ≡ done (err enomem) h
unfolding calloc
calloc-overflow count size h big =
    let over : leb (2 ^ 64) (count * size) ≡ true = ground arith in rw (overflow_test, over)
