-- ===== src/Alloc/Aligned.antt =====
-- posix_memalign of ruby_alloc.c.
use cruby_on_sel.Prelude.{
  ℕ, ◌+◌, ◌^◌, ◌≤◌, ◌<◌, ◌≡◌, ◌∙◌, refl, ◌⊎◌, inl, inr, ◌||◌, not, true, false, List, arith, ◌==◌,
  ltb, Bool-cases,
}
use cruby_on_sel.Errno.{Result, ok, err, einval, enomem}
use cruby_on_sel.Memory.{null, load, store, load-store, store-outside}
use cruby_on_sel.Alloc.Header.{
  Heap, Run, done, and_then, arena_size, default_alignment, header_size, is_power_of_two,
}
use cruby_on_sel.Alloc.Malloc.{posix_memalign, store_result, at_least_one, at_least_default}
use cruby_on_sel.Alloc.Fields.{Untouched-Same}
use cruby_on_sel.Alloc.Invariant.{IsHeap, IsBlock-of}
use cruby_on_sel.Alloc.Payload.{IsHeap-Untouched}
use cruby_on_sel.Alloc.Granted.{Granted}
use cruby_on_sel.Alloc.Zeroed.{power_16}
use cruby_on_sel.Alloc.Arena.{Allocates, granted, exhausted, arena_alloc-Allocates}

-- The 8 bytes at the address lie outside the arena.
abbrev pub IsApart : (memptr : ℕ) → Heap → Type 0
IsApart memptr h = (memptr + 8 ≤ h.arena) ⊎ (h.arena + arena_size ≤ memptr)

-- A block is granted and its address is stored, or ENOMEM is returned and nothing has changed.
pub data Stores (memptr size alignment : ℕ) (h : Heap) (blocks idle : List ℕ)
    : Run (Result (Unit {0})) → Type 0 where
  stored :
      {a ptr : ℕ} {h' : Heap} {blocks' idle' : List ℕ}
      → Granted size alignment h blocks idle a ptr h' blocks' idle'
      → IsHeap (record h' { memory = store 8 memptr ptr h'.memory }) blocks' idle'
      → load 8 memptr (store 8 memptr ptr h'.memory) ≡ ptr
      → Stores memptr size alignment h blocks idle
          (done (ok tt) (record h' { memory = store 8 memptr ptr h'.memory }))
  no_room : Stores memptr size alignment h blocks idle (done (err enomem) h)

-- A write outside the arena leaves the heap well formed.
IsHeap-outside :
    {h : Heap} {blocks idle : List ℕ} (memptr v : ℕ)
    → IsHeap h blocks idle
    → IsApart memptr h
    → IsHeap (record h { memory = store 8 memptr v h.memory }) blocks idle
IsHeap-outside {h} memptr v valid apart =
    IsHeap-Untouched valid (store 8 memptr v h.memory) (λ b b_in.
      Untouched-Same h.memory (store 8 memptr v h.memory) b (λ x lo hi.
        store-outside 8 memptr v h.memory x
          (omega (arith, IsBlock-of valid b b_in, valid.inside, apart))))

store_result-Stores :
    {size alignment : ℕ} {h : Heap} {blocks idle : List ℕ} (memptr : ℕ) {r : Run (Result ℕ)}
    → IsApart memptr h
    → Allocates size alignment h blocks idle r
    → Stores memptr size alignment h blocks idle (and_then r (store_result memptr))
unfolding store_result
store_result-Stores memptr apart (exhausted misses short) = no_room
store_result-Stores memptr apart (granted {a} {ptr} {h' = h'} g) =
    let b = IsBlock-of g.valid a (ground (arith, g.live)) in
    stored g (IsHeap-outside memptr ptr g.valid (omega (arith, apart, g.same_arena))) (
      load-store 8 memptr ptr h'.memory
      ∙ omega (arith, b, g.address, g.valid.inside, g.valid.placed))

power_default :
    (alignment : ℕ)
    → is_power_of_two alignment ≡ true
    → is_power_of_two (at_least_default alignment) ≡ true
power_default alignment power = elim (Bool-cases (ltb alignment default_alignment)) [
  | inl raised ↦ rw raised power_16
  | inr kept ↦ rw kept power
]

-- `posix_memalign` in a well-formed heap, for a size that does not reach the last 32 values of
-- `size_t` and an address outside the arena: if the address is not NULL and the alignment is a power of
-- two of at least 8, then the address of a new block of that size (of one byte for none) and alignment
-- (of 16 for 8) is stored there, or ENOMEM is returned with nothing changed. In all other cases EINVAL
-- is returned and nothing changes.
pub posix_memalign-Stores :
    {h : Heap} {blocks idle : List ℕ} (memptr alignment size : ℕ)
    → IsHeap h blocks idle
    → IsApart memptr h
    → size + header_size < 2 ^ 64
    → alignment < 2 ^ 64
    → ((memptr == null || ltb alignment 8 || not (is_power_of_two alignment)) ≡ false
        → Stores memptr
            (at_least_one size)
            (at_least_default alignment)
            h
            blocks
            idle
            (posix_memalign memptr alignment size h))
      × ((memptr == null || ltb alignment 8 || not (is_power_of_two alignment)) ≡ true
          → posix_memalign memptr alignment size h ≡ done (err einval) h)
unfolding posix_memalign
posix_memalign-Stores {h} memptr alignment size v apart small bound = (
  λ valid. rw valid (
      store_result-Stores memptr apart (
        arena_alloc-Allocates size alignment v small bound
          (power_default alignment (ground (arith, valid))))),
  λ invalid. rw invalid refl,
)
