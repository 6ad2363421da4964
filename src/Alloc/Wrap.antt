-- ===== src/Alloc/Wrap.antt =====
-- The test `next < header_addr` of `arena_alloc` (ruby_alloc.c, line 149) for the sizes at which the
-- sum wraps by less than a header.
use cruby_on_sel.Prelude.{
  ℕ, ◌+◌, ◌-◌, ◌^◌, ◌≤◌, ◌<◌, ◌≡◌, ◌∙◌, false, ◌||◌, List, arith, ltb, ◌==◌, if◌then◌else◌,
}
use native.Mathlib.Nat.{mod-eq_of_lt}
use cruby_on_sel.Errno.{Result, ok}
use cruby_on_sel.Alloc.Header.{
  Heap, Run, done, and_then, word, arena_size, header_size, capacity_of,
}
use cruby_on_sel.Alloc.Malloc.{malloc, arena_alloc, bump, bump_at, write_header}
use cruby_on_sel.Alloc.Fields.{write_header-Written, Written}
use cruby_on_sel.Alloc.Place.{Spot, Spot_lem, spot}
use cruby_on_sel.Alloc.Invariant.{IsHeap, IsBlock-of}
use cruby_on_sel.Alloc.Reuse.{Sought, none_fits, fits, reuse_free_block-Sought}
use cruby_on_sel.Alloc.Arena.{block_matches_inv}
use cruby_on_sel.Alloc.Zeroed.{power_16}

-- The allocation succeeds, and the header claims the whole size.
abbrev pub ClaimsAll : ℕ → Heap → Run (Result ℕ) → Type 0
ClaimsAll size h r =
    (h' : Heap) × (r ≡ done (ok (spot 4 h + header_size)) h')
    × (capacity_of h'.memory (spot 4 h) ≡ size)

module _ {h : Heap} {blocks idle : List ℕ} (v : IsHeap h blocks idle) (size : ℕ)
    (last : 2 ^ 64 ≤ size + header_size) (bound : size < 2 ^ 64)
    (room : spot 4 h + header_size ≤ h.arena + arena_size) where
  bump-ClaimsAll : ClaimsAll size h (bump size 16 h)
  unfolding bump bump_at
  bump-ClaimsAll = (
    record h {
      memory = write_header (spot 4 h) size h.memory;
      offset = word (word (spot 4 h + header_size + size) + (2 ^ 64 - h.arena));
    },
    rw (s.header, accepted, plain),
    w.capacity ∙ mod-eq_of_lt bound,
  )
    where
      s : Spot 1 4 h (spot 4 h)
      s = Spot_lem 1 4 v.placed v.inside (omega arith) (omega arith) (omega arith)

      w : Written (spot 4 h) size h.memory (write_header (spot 4 h) size h.memory)
      w = write_header-Written (spot 4 h) size h.memory

      plain : word (spot 4 h + header_size) ≡ spot 4 h + header_size
      plain = omega (arith, v.placed)

      accepted :
          (ltb (word (spot 4 h + header_size + size)) (spot 4 h)
            || ltb (word (h.arena + arena_size)) (word (spot 4 h + header_size + size)))
          ≡ false
      accepted = ground (arith, v.placed)

  after_search :
      {r : Run ℕ}
      → Sought h blocks idle size 16 r
      → ClaimsAll size h
          (and_then r (λ reused h'. if reused == 0 then bump size 16 h' else done (ok reused) h'))
  after_search (none_fits misses) = bump-ClaimsAll
  after_search (fits {a} hit r) = absurd (
      omega (
        arith,
        (block_matches_inv h.memory a size 16 hit).0,
        IsBlock-of v a (v.listed a r.mem),
        v.inside,
      ))

  -- `malloc` of one of the last 32 values of `size_t` succeeds in every well-formed heap that has
  -- room for one more header, and the block claims more bytes than there are.
  pub malloc-ClaimsAll : ClaimsAll size h (malloc size h)
  unfolding malloc arena_alloc
  malloc-ClaimsAll =
      let some_size : (size == 0) ≡ false = ground arith in
      rw (power_16, some_size) (after_search (reuse_free_block-Sought size 16 v))
