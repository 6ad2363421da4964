-- ===== src/Alloc/Arena.antt =====
-- `arena_alloc` of ruby_alloc.c, lines 119 to 162, as a whole.
use cruby_on_sel.Prelude.{
  ℕ, ◌+◌, ◌-◌, ◌%◌, ◌^◌, ◌≤◌, ◌<◌, ◌≡◌, sym, ◌≢◌, inl, inr, true, false, List, arith, ltb, ◌==◌,
  if◌then◌else◌, has, remove, Bool-cases, subst, not-has-remove, has_of-remove, has-remove_ne,
  Distinct-remove, All-of_has, ne_of_has,
}
use cruby_on_sel.Errno.{Result, ok, err, enomem, einval}
use cruby_on_sel.Memory.{Memory}
use cruby_on_sel.Alloc.Header.{
  Heap, Run, done, and_then, arena_size, header_size, header_payload, size_of, capacity_of, word,
  is_free_of, is_power_of_two, align_up, block_matches, reuse_free_block,
}
use cruby_on_sel.Alloc.Malloc.{bump, bump_at, arena_alloc, at_least_one, at_least_default}
use cruby_on_sel.Alloc.Align.{is_power_of_two_sound}
use cruby_on_sel.Alloc.Fields.{Kept}
use cruby_on_sel.Alloc.Layout.{Stays, Laid-Stays}
use cruby_on_sel.Alloc.Place.{Spot, Spot_lem, spot, exponent_of_16}
use cruby_on_sel.Alloc.Invariant.{IsHeap, is_live, IsBlock-of, Disjoint-of, payload_plain}
use cruby_on_sel.Alloc.Granted.{Granted, carved-Granted}
use cruby_on_sel.Alloc.Scan.{Beyond}
use cruby_on_sel.Alloc.Reuse.{Reused, Sought, none_fits, fits, reuse_free_block-Sought}

-- A block that matches has the room and the alignment.
pub block_matches_inv :
    (m : Memory) (a size alignment : ℕ)
    → block_matches m a size alignment ≡ true
    → (size ≤ capacity_of m a) × (header_payload a % alignment ≡ 0)
unfolding block_matches
block_matches_inv m a size alignment h = ground arith

module _ {h h' : Heap} {blocks idle : List ℕ} (size alignment a : ℕ) (v : IsHeap h blocks idle)
    (small : size < 2 ^ 64) (hit : block_matches h.memory a size alignment ≡ true)
    (r : Reused h blocks idle size a h') where
  a_in : has a blocks ≡ true
  a_in = v.listed a r.mem

  a_fits : size ≤ capacity_of h.memory a
  a_fits = (block_matches_inv h.memory a size alignment hit).0

  recorded : size_of h'.memory a ≡ size
  recorded = omega (arith, r.marked.size_field)

  stays : (b : ℕ) → has b blocks ≡ true → Stays h.memory h'.memory b
  stays b b_in = elim (Bool-cases (b == a)) [
    | inl same ↦
        let e : a ≡ b = ground arith in
        subst (Stays h.memory h'.memory) e (record {
          capacity = r.marked.capacity;
          magic = r.marked.magic;
          fits = omega (arith, a_fits, recorded);
        })
    | inr other ↦
        let k : Kept h.memory h'.memory b = r.kept b b_in (λ e. ground arith) in
        record {
          capacity = k.capacity;
          magic = k.magic;
          fits = omega (arith, k.size, IsBlock-of v b b_in);
        }
  ]

  flag_after :
      (b : ℕ)
      → has b blocks ≡ true
      → is_free_of h'.memory b ≡ (if has b (remove a idle) then 1 else 0)
  flag_after b b_in = elim (Bool-cases (b == a)) [
    | inl same ↦
        let e : a ≡ b = ground arith in
        subst (λ c. is_free_of h'.memory c ≡ (if has c (remove a idle) then 1 else 0)) e
          (ground (arith, r.marked.is_free, not-has-remove a idle v.distinct))
    | inr other ↦
        let ne : b ≢ a = λ e. ground arith in
        ground (arith, (r.kept b b_in ne).is_free, v.flags b b_in, has-remove_ne b a idle ne)
  ]

  reused-IsHeap : IsHeap h' blocks (remove a idle)
  reused-IsHeap = record {
    placed = rw r.same_arena v.placed;
    inside = rw r.same_offset v.inside;
    laid =
        rw (r.same_arena, r.same_offset)
          (Laid-Stays h.memory h'.memory h.arena blocks (h.arena + h.offset) v.laid stays);
    chain = r.chain;
    distinct = Distinct-remove a idle v.distinct;
    listed = λ b m. v.listed b (has_of-remove b a idle m);
    flags = flag_after;
  }

  -- The headers of idle blocks lie outside every block that has an owner.
  owned-Beyond :
      (b x : ℕ)
      → is_live blocks idle b ≡ true
      → b ≤ x
      → x < b + (header_size + capacity_of h.memory b)
      → Beyond x idle
  owned-Beyond b x live lo hi = All-of_has idle (λ c m.
      let ne : c ≢ b = ne_of_has idle m (ground arith) in
      ground (arith, Disjoint-of v b c (ground arith) (v.listed c m) (λ e. ne (sym e))))

  reused-Granted :
      Granted size alignment h blocks idle a (header_payload a) h' blocks (remove a idle)
  reused-Granted = record {
    valid = reused-IsHeap;
    address = payload_plain v a a_in;
    live = ground (arith, a_in, not-has-remove a idle v.distinct);
    unowned = ground (arith, r.mem);
    aligned = (block_matches_inv h.memory a size alignment hit).1;
    room = omega (arith, a_fits, r.marked.capacity);
    recorded = recorded;
    owners = λ b ne. ground (arith, has-remove_ne b a idle ne);
    contents = λ b live x lo hi. r.outside x (owned-Beyond b x live lo hi);
    same_arena = r.same_arena;
    elsewhere = λ x out.
        r.outside x
          (All-of_has idle (λ c m. omega (arith, IsBlock-of v c (v.listed c m), v.inside)));
  }

-- No block can be handed out: no free one fits, and the rest of the arena is too small.
pub record NoRoom (size alignment : ℕ) (h : Heap) (idle : List ℕ) : Type 0 where
  pub misses : (b : ℕ) → has b idle ≡ true → block_matches h.memory b size alignment ≡ false
  pub full : h.arena + arena_size < align_up (h.arena + h.offset + header_size) alignment + size

-- What `arena_alloc` may do with a request it accepts: grant a block, or report that no free block
-- matches and the rest of the arena is too short.
pub data Allocates (size alignment : ℕ) (h : Heap) (blocks idle : List ℕ)
    : Run (Result ℕ) → Type 0 where
  granted :
      {a ptr : ℕ} {h' : Heap} {blocks' idle' : List ℕ}
      → Granted size alignment h blocks idle a ptr h' blocks' idle'
      → Allocates size alignment h blocks idle (done (ok ptr) h')
  exhausted :
      ((b : ℕ) → has b idle ≡ true → block_matches h.memory b size alignment ≡ false)
      → h.arena + arena_size < align_up (h.arena + h.offset + header_size) alignment + size
      → Allocates size alignment h blocks idle (done (err enomem) h)

module _ {h : Heap} {blocks idle : List ℕ} (v : IsHeap h blocks idle) where
  bump-Allocates :
      (size k : ℕ)
      → 1 ≤ size
      → size + header_size < 2 ^ 64
      → 4 ≤ k
      → k < 64
      → ((b : ℕ) → has b idle ≡ true → block_matches h.memory b size (2 ^ k) ≡ false)
      → Allocates size (2 ^ k) h blocks idle (bump size (2 ^ k) h)
  unfolding bump bump_at
  bump-Allocates size k pos small low high none =
      let s : Spot size k h a = Spot_lem size k v.placed v.inside low high small in
      elim (Bool-cases (ltb (h.arena + arena_size) (a + header_size + size))) [
        | inl full ↦
            rw (s.header, s.refused, full) (exhausted none (omega (arith, lt_of_test s full)))
        | inr room ↦
            let fits : a + header_size + size ≤ h.arena + arena_size = ground arith in
            let address : word (a + header_size) ≡ a + header_size = omega (arith, v.placed) in
            let offset : word (word (a + header_size + size) + (2 ^ 64 - h.arena))
                ≡ a + header_size + size - h.arena =
              omega (arith, v.placed, s.above) in
            rw (s.header, s.refused, room, address, offset)
              (granted (carved-Granted v size a pos s.above s.aligned_16 fits (2 ^ k) s.aligned))
      ]
    where
      a : ℕ
      a = spot k h

      lt_of_test :
          Spot size k h a
          → ltb (h.arena + arena_size) (a + header_size + size) ≡ true
          → h.arena + arena_size < align_up (h.arena + h.offset + header_size) (2 ^ k) + size
      lt_of_test s t = ground (arith, s.above, v.placed)

  after_reuse :
      (size k : ℕ)
      → 1 ≤ size
      → size + header_size < 2 ^ 64
      → 4 ≤ k
      → k < 64
      → {r : Run ℕ} → Sought h blocks idle size (2 ^ k) r
      → Allocates size (2 ^ k) h blocks idle (
          and_then r
            (λ reused h'. if reused == 0 then bump size (2 ^ k) h' else done (ok reused) h'))
  after_reuse size k pos small low high (none_fits none) =
      bump-Allocates size k pos small low high none
  after_reuse size k pos small low high (fits {a} {h' = h'} hit r) =
      let real : (header_payload a == 0) ≡ false =
        ground (arith, payload_plain v a (v.listed a r.mem)) in
      rw real (granted (reused-Granted size (2 ^ k) a v (omega arith) hit r))

-- In a heap that is well formed, a request whose size does not reach the last 32 values of `size_t`
-- and whose alignment is a power of two ends in one of two ways: a block is granted (of one byte if
-- none is asked for, at an alignment of 16 if less is asked for), or ENOMEM is reported, with the
-- heap unchanged, because no idle block matches and the block would end beyond the arena.
pub arena_alloc-Allocates :
    {h : Heap} {blocks idle : List ℕ} (size alignment : ℕ)
    → IsHeap h blocks idle
    → size + header_size < 2 ^ 64
    → alignment < 2 ^ 64
    → is_power_of_two (at_least_default alignment) ≡ true
    → Allocates
        (at_least_one size)
        (at_least_default alignment)
        h
        blocks
        idle
        (arena_alloc size alignment h)
unfolding arena_alloc
arena_alloc-Allocates {h} {blocks} {idle} size alignment v small bound power =
    let (k, high, e) = is_power_of_two_sound (at_least_default alignment) (ground arith) power in
    let low : 4 ≤ k = exponent_of_16 k (ground arith) in
    rw (power) (
      subst
        (λ n. Allocates (at_least_one size) n h blocks idle (
          and_then (reuse_free_block (at_least_one size) n h) (λ reused h'.
            if reused == 0 then bump (at_least_one size) n h' else done (ok reused) h')))
        (sym e)
        (after_reuse v (at_least_one size) k (ground arith) (ground arith) low high
          (reuse_free_block-Sought (at_least_one size) (2 ^ k) v)))

-- Any other alignment is refused with EINVAL, and the heap is unchanged.
pub arena_alloc-einval :
    (h : Heap) (size alignment : ℕ)
    → is_power_of_two (at_least_default alignment) ≡ false
    → arena_alloc size alignment h ≡ done (err einval) h
unfolding arena_alloc
arena_alloc-einval h size alignment power = rw power
