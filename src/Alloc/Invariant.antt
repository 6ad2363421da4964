-- ===== src/Alloc/Invariant.antt =====
-- The invariant of ruby_alloc.c: blocks in the arena, and the free list threaded through some.
use cruby_on_sel.Prelude.{
  ℕ, ◌+◌, ◌≤◌, ◌<◌, ◌≡◌, ◌≢◌, Bool, true, ◌&&◌, not, List, [], ◌∷◌, arith, if◌then◌else◌, has,
  Distinct, length, length-le_of-Distinct,
}
use cruby_on_sel.Memory.{Memory, null}
use cruby_on_sel.Alloc.Header.{
  Heap, arena_size, header_size, next_of, is_free_of, header_payload, payload_header,
  free_list_limit,
}
use cruby_on_sel.Alloc.Fields.{Apart}
use cruby_on_sel.Alloc.Layout.{Laid, IsBlock, Laid-IsBlock, Laid-Disjoint, Disjoint, length-Laid}
use cruby_on_sel.Alloc.Place.{IsPlaced}

-- The `next_free` pointers lead from `p` through the headers of the list to NULL.
abbrev pub Chain : Memory → ℕ → List ℕ → Type 0
Chain m p [] = p ≡ null
Chain m p (a ∷ rest) = (p ≡ a) × (0 < a) × Chain m (next_of m a) rest

-- `blocks` are the headers in order of address, `idle` those on the free list in its order.
pub record IsHeap (h : Heap) (blocks idle : List ℕ) : Type 0 where
  pub placed : IsPlaced h.arena
  pub inside : h.offset ≤ arena_size
  pub laid : Laid h.memory h.arena blocks (h.arena + h.offset)
  pub chain : Chain h.memory h.free_list idle
  pub distinct : Distinct idle
  pub listed : (a : ℕ) → has a idle ≡ true → has a blocks ≡ true
  pub flags : (a : ℕ) → has a blocks ≡ true → is_free_of h.memory a ≡ (if has a idle then 1 else 0)

-- A block that has an owner.
abbrev pub is_live : List ℕ → List ℕ → ℕ → Bool
is_live blocks idle a = has a blocks && not (has a idle)

module _ {h : Heap} {blocks idle : List ℕ} (v : IsHeap h blocks idle) where
  pub IsBlock-of : (a : ℕ) → has a blocks ≡ true → IsBlock h.memory h.arena (h.arena + h.offset) a
  IsBlock-of a m = Laid-IsBlock h.memory h.arena blocks (h.arena + h.offset) a v.laid m

  pub Disjoint-of :
      (a b : ℕ) → has a blocks ≡ true → has b blocks ≡ true → a ≢ b → Disjoint h.memory a b
  Disjoint-of a b ma mb ne =
      Laid-Disjoint h.memory h.arena blocks (h.arena + h.offset) a b v.laid ma mb ne

  pub Apart-of : (a b : ℕ) → has a blocks ≡ true → has b blocks ≡ true → a ≢ b → Apart a b
  Apart-of a b ma mb ne = ground (arith, Disjoint-of a b ma mb ne)

  -- The free list is shorter than the fuel of `reuse_free_block`.
  pub length-idle : length idle < free_list_limit
  length-idle = omega (
    arith,
    length-le_of-Distinct idle blocks v.distinct v.listed,
    length-Laid h.memory h.arena blocks (h.arena + h.offset) v.laid,
    v.inside,
  )

  -- Addresses of headers and payloads do not wrap.
  pub payload_plain : (a : ℕ) → has a blocks ≡ true → header_payload a ≡ a + header_size
  payload_plain a m = omega (arith, IsBlock-of a m, v.placed, v.inside)

  pub header_plain : (a : ℕ) → has a blocks ≡ true → payload_header (a + header_size) ≡ a
  header_plain a m = omega (arith, IsBlock-of a m, v.placed, v.inside)

-- The `next_free` of no block on the chain has changed.
pub Chain-keep :
    (m m' : Memory) (p : ℕ) (xs : List ℕ)
    → Chain m p xs
    → ((b : ℕ) → has b xs ≡ true → next_of m' b ≡ next_of m b)
    → Chain m' p xs
Chain-keep m m' p [] c keep = c
Chain-keep m m' p (a ∷ rest) c keep = (
  c.0,
  c.1,
  rw (keep a (ground arith))
      (Chain-keep m m' (next_of m a) rest c.2 (λ b h. keep b (ground arith))),
)
