-- ===== src/Alloc/Realloc.antt =====
-- `realloc` of ruby_alloc.c, lines 205 to 232.
use cruby_on_sel.Prelude.{
  ℕ, ◌+◌, ◌^◌, ◌≤◌, ◌<◌, ◌≡◌, refl, sym, ◌∙◌, ◌≢◌, ◌⊎◌, inl, inr, true, false, List, ◌∷◌, arith,
  ltb, leb, ◌==◌, if◌then◌else◌, has, Bool-cases,
}
use cruby_on_sel.Errno.{Result, ok, err, enomem}
use cruby_on_sel.Memory.{
  Memory, null, Same, memcpy, memcpy-inside, memcpy-outside, load-store, load-store_apart,
  store-outside,
}
use native.Mathlib.Nat.{mod-eq_of_lt}
use cruby_on_sel.Alloc.Header.{
  Heap, Run, done, and_then, arena_size, header_size, size_of, capacity_of, next_of, is_free_of,
  magic_of, set_size, align_up, block_matches,
}
use cruby_on_sel.Alloc.Malloc.{malloc, arena_alloc, free, move_block, move_result, realloc}
use cruby_on_sel.Alloc.Fields.{Apart, Untouched, Untouched-Same}
use cruby_on_sel.Alloc.Layout.{Laid-Stays}
use cruby_on_sel.Alloc.Invariant.{IsHeap, is_live, IsBlock-of, Apart-of, header_plain, Chain-keep}
use cruby_on_sel.Alloc.Granted.{Granted}
use cruby_on_sel.Alloc.Arena.{Allocates, granted, exhausted, arena_alloc-Allocates}
use cruby_on_sel.Alloc.Payload.{Granted-filled}
use cruby_on_sel.Alloc.Release.{free-IsHeap}
use cruby_on_sel.Alloc.Zeroed.{power_16}

-- The old block at `a` is idle, the new one at `a'` has an owner and begins with the old contents,
-- and every other block keeps its owner and its bytes.
pub record Moved (h : Heap) (blocks idle : List ℕ) (a size a' ptr : ℕ) (h' : Heap)
    (blocks' idle' : List ℕ) : Type 0 where
  pub valid : IsHeap h' blocks' (a ∷ idle')
  pub address : ptr ≡ a' + header_size
  pub live : is_live blocks' (a ∷ idle') a' ≡ true
  pub unowned : is_live blocks idle a' ≡ false
  pub room : size ≤ capacity_of h'.memory a'
  pub contents :
      (i : ℕ)
      → i < size_of h.memory a
      → i < size
      → h'.memory (ptr + i) ≡ h.memory (a + header_size + i)
  pub others :
      (b : ℕ)
      → is_live blocks idle b ≡ true
      → b ≢ a
      → (is_live blocks' (a ∷ idle') b ≡ true)
        × Same b (header_size + capacity_of h.memory b) h.memory h'.memory

pub data Resizes (h : Heap) (blocks idle : List ℕ) (a size : ℕ) : Run (Result ℕ) → Type 0 where
  in_place :
      {h' : Heap}
      → IsHeap h' blocks idle
      → size_of h'.memory a ≡ size
      → size ≤ capacity_of h.memory a
      → ((x : ℕ) → (x < a) ⊎ (a + 8 ≤ x) → h'.memory x ≡ h.memory x)
      → Resizes h blocks idle a size (done (ok (a + header_size)) h')
  moved :
      {a' ptr : ℕ} {h' : Heap} {blocks' idle' : List ℕ}
      → Moved h blocks idle a size a' ptr h' blocks' idle'
      → Resizes h blocks idle a size (done (ok ptr) h')
  no_room :
      ((b : ℕ) → has b idle ≡ true → block_matches h.memory b size 16 ≡ false)
      → h.arena + arena_size < align_up (h.arena + h.offset + header_size) 16 + size
      → Resizes h blocks idle a size (done (err enomem) h)

module _ (a size b : ℕ) (m : Memory) where
  -- A new `size` touches no other field, and no header apart from that one.
  resize-Apart : (b ≡ a) ⊎ Apart a b → capacity_of (set_size a size m) b ≡ capacity_of m b
  resize-Apart d = load-store_apart 8 (b + 8) 8 a size m (ground arith)

  resize_magic : (b ≡ a) ⊎ Apart a b → magic_of (set_size a size m) b ≡ magic_of m b
  resize_magic d = load-store_apart 4 (b + 28) 8 a size m (ground arith)

  resize_is_free : (b ≡ a) ⊎ Apart a b → is_free_of (set_size a size m) b ≡ is_free_of m b
  resize_is_free d = load-store_apart 4 (b + 24) 8 a size m (ground arith)

  resize_next : (b ≡ a) ⊎ Apart a b → next_of (set_size a size m) b ≡ next_of m b
  resize_next d = load-store_apart 8 (b + 16) 8 a size m (ground arith)

module _ {h : Heap} {blocks idle : List ℕ} (v : IsHeap h blocks idle) (a size : ℕ)
    (live : is_live blocks idle a ≡ true) (small : size + header_size < 2 ^ 64) where
  a_in : has a blocks ≡ true
  a_in = ground arith

  resized_size : size_of (set_size a size h.memory) a ≡ size
  resized_size = load-store 8 a size h.memory ∙ mod-eq_of_lt (omega arith)

  same_or_Apart : (b : ℕ) → has b blocks ≡ true → (b ≡ a) ⊎ Apart a b
  same_or_Apart b b_in = elim (Bool-cases (b == a)) [
    | inl same ↦ inl (ground arith)
    | inr other ↦ inr (Apart-of v a b a_in b_in (λ e. ground arith))
  ]

  resized_fits :
      size ≤ capacity_of h.memory a
      → (b : ℕ) → has b blocks ≡ true
      → (b ≡ a) ⊎ Apart a b
      → size_of (set_size a size h.memory) b ≤ capacity_of h.memory b
  resized_fits room b b_in (inl e) = rw (e, resized_size) room
  resized_fits room b b_in (inr apart) =
      omega (arith, load-store_apart 8 b 8 a size h.memory (ground arith), IsBlock-of v b b_in)

  resized-IsHeap :
      size ≤ capacity_of h.memory a
      → IsHeap (record h { memory = set_size a size h.memory }) blocks idle
  resized-IsHeap room = record {
    placed = v.placed;
    inside = v.inside;
    laid =
        Laid-Stays h.memory (set_size a size h.memory) h.arena blocks (h.arena + h.offset) v.laid
          (λ b b_in. record {
            capacity = resize-Apart a size b h.memory (same_or_Apart b b_in);
            magic = resize_magic a size b h.memory (same_or_Apart b b_in);
            fits = resized_fits room b b_in (same_or_Apart b b_in);
          });
    chain =
        Chain-keep h.memory (set_size a size h.memory) h.free_list idle v.chain
          (λ b m. resize_next a size b h.memory (same_or_Apart b (v.listed b m)));
    distinct = v.distinct;
    listed = v.listed;
    flags = λ b b_in. resize_is_free a size b h.memory (same_or_Apart b b_in) ∙ v.flags b b_in;
  }

  module _ {a' ptr : ℕ} {h1 : Heap} {blocks' idle' : List ℕ}
      (g : Granted size 16 h blocks idle a' ptr h1 blocks' idle') where
    -- The bytes that are copied.
    count : ℕ
    count = if ltb (size_of h.memory a) size then size_of h.memory a else size

    copied : Heap
    unfolding count
    copied = record h1 { memory = memcpy ptr (a + header_size) count h1.memory }

    copied-Granted : Granted size 16 h blocks idle a' ptr copied blocks' idle'
    unfolding copied
    copied-Granted =
        Granted-filled _ count g (ground arith)
          (memcpy-outside ptr (a + header_size) count h1.memory)

    ne : a ≢ a'
    ne e = ground (arith, g.unowned)

    still_live : is_live blocks' idle' a ≡ true
    still_live = g.owners a ne ∙ live

    freed :
        IsHeap (free (a + header_size) copied) blocks' (a ∷ idle')
        × ((b : ℕ)
            → is_live blocks' idle' b ≡ true
            → b ≢ a
            → Same b
                (header_size + capacity_of copied.memory b)
                copied.memory
                (free (a + header_size) copied).memory)
    freed = free-IsHeap a copied-Granted.valid still_live

    after : Heap
    unfolding copied
    after = free (a + header_size) copied

    -- A block that had an owner reads the same after the copy and after the `free`.
    kept_capacity :
        (b : ℕ)
        → is_live blocks idle b ≡ true
        → capacity_of copied.memory b ≡ capacity_of h.memory b
    kept_capacity b b_live = same.kept.capacity
      where
        same : Untouched h.memory copied.memory b
        same =
            Untouched-Same h.memory copied.memory b
              (λ x lo hi. copied-Granted.contents b b_live x lo (omega arith))

    new_block : Same a' (header_size + capacity_of copied.memory a') copied.memory after.memory
    unfolding after
    new_block = freed.1 a' g.live (λ e. ne (sym e))

    new_room : size ≤ capacity_of after.memory a'
    new_room = omega (arith, same.kept.capacity, copied-Granted.room)
      where
        same : Untouched copied.memory after.memory a'
        same =
            Untouched-Same copied.memory after.memory a' (λ x lo hi. new_block x lo (omega arith))

    new_contents :
        (i : ℕ)
        → i < size_of h.memory a
        → i < size
        → after.memory (ptr + i) ≡ h.memory (a + header_size + i)
    unfolding count copied
    new_contents i old new =
        new_block (ptr + i) (omega (arith, g.address))
          (omega (arith, g.address, copied-Granted.room))
        ∙ memcpy-inside ptr (a + header_size) count h1.memory i (ground arith)
        ∙ g.contents a live (a + header_size + i) (omega arith) (omega (arith, IsBlock-of v a a_in))

    others :
        (b : ℕ)
        → is_live blocks idle b ≡ true
        → b ≢ a
        → (is_live blocks' (a ∷ idle') b ≡ true)
          × Same b (header_size + capacity_of h.memory b) h.memory after.memory
    unfolding after
    others b b_live d = (
      ground (arith, b_live'),
      λ x lo hi.
          freed.1 b b_live' d x lo (omega (arith, kept_capacity b b_live))
          ∙ copied-Granted.contents b b_live x lo hi,
    )
      where
        b_live' : is_live blocks' idle' b ≡ true
        b_live' = g.owners b (λ e. ground (arith, g.unowned)) ∙ b_live

    Moved_lem : Moved h blocks idle a size a' ptr after blocks' idle'
    unfolding after
    Moved_lem = record {
      valid = freed.0;
      address = g.address;
      live = ground (arith, g.live, ne);
      unowned = g.unowned;
      room = new_room;
      contents = new_contents;
      others = others;
    }

    move_block_lem : move_block (size_of h.memory a) size (a + header_size) ptr h1 ≡ after
    unfolding move_block after count
    move_block_lem = refl

  move_result-Resizes :
      {r : Run (Result ℕ)}
      → Allocates size 16 h blocks idle r
      → Resizes h blocks idle a size
          (and_then r (move_result (size_of h.memory a) size (a + header_size)))
  unfolding move_result
  move_result-Resizes (granted g) = rw (move_block_lem g) (moved (Moved_lem g))
  move_result-Resizes (exhausted misses short) = no_room misses short

-- In a well-formed heap, `realloc` of a block with an owner to a size that is not 0 and does not
-- reach the last 32 values of `size_t`: the block stays where it is with the new size and all its
-- contents, or a new block begins with the old contents up to the smaller size and the old block
-- becomes idle, or ENOMEM is reported and nothing has changed.
pub realloc-Resizes :
    {h : Heap} {blocks idle : List ℕ} (a size : ℕ)
    → IsHeap h blocks idle
    → is_live blocks idle a ≡ true
    → 0 < size
    → size + header_size < 2 ^ 64
    → Resizes h blocks idle a size (realloc (a + header_size) size h)
unfolding realloc malloc
realloc-Resizes {h} {blocks} {idle} a size v live some_size small =
    rw (real, some_test, header_plain v a (a_in v a size live small))
      (elim (Bool-cases (leb size (capacity_of h.memory a))) [
        | inl room ↦ rw room (
            in_place (resized-IsHeap v a size live small (ground arith))
              (resized_size v a size live small) (ground arith) (store-outside 8 a size h.memory))
        | inr short ↦ rw short (move_result-Resizes v a size live small request)
      ])
  where
    real : (a + header_size == null) ≡ false
    real = ground arith

    some_test : (size == 0) ≡ false
    some_test = ground arith

    request : Allocates size 16 h blocks idle (arena_alloc size 16 h)
    request =
        let general = arena_alloc-Allocates size 16 v small (omega arith) power_16 in
        rw some_test at general
