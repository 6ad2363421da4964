-- ===== src/Alloc/Payload.antt =====
-- Writes into payloads: the heap stays well formed, and so does what an allocation promised.
use cruby_on_sel.Prelude.{
  ℕ, ◌+◌, ◌≤◌, ◌<◌, ◌≡◌, sym, ◌∙◌, ◌≢◌, ◌⊎◌, inl, inr, true, List, arith, ◌==◌, has, Bool-cases,
  subst,
}
use cruby_on_sel.Memory.{Memory, Same}
use cruby_on_sel.Alloc.Header.{Heap, header_size, capacity_of}
use cruby_on_sel.Alloc.Fields.{Untouched, Untouched-Same}
use cruby_on_sel.Alloc.Layout.{Laid-Stays}
use cruby_on_sel.Alloc.Invariant.{Chain-keep, IsHeap, is_live, IsBlock-of, Disjoint-of}
use cruby_on_sel.Alloc.Granted.{Granted}

-- The two memories agree outside the `n` bytes from `p`.
abbrev pub OnlyAt : ℕ → ℕ → Memory → Memory → Type 0
OnlyAt p n m m' = (x : ℕ) → (x < p) ⊎ (p + n ≤ x) → m' x ≡ m x

module _ {h : Heap} {blocks idle : List ℕ} (v : IsHeap h blocks idle) (m' : Memory) where
  pub IsHeap-Untouched :
      ((b : ℕ) → has b blocks ≡ true → Untouched h.memory m' b)
      → IsHeap (record h { memory = m' }) blocks idle
  IsHeap-Untouched keep = record {
    placed = v.placed;
    inside = v.inside;
    laid = Laid-Stays h.memory m' h.arena blocks (h.arena + h.offset) v.laid (λ b b_in. record {
      capacity = (keep b b_in).kept.capacity;
      magic = (keep b b_in).kept.magic;
      fits = omega (arith, (keep b b_in).kept.size, IsBlock-of v b b_in);
    });
    chain = Chain-keep h.memory m' h.free_list idle v.chain (λ b m. (keep b (v.listed b m)).next);
    distinct = v.distinct;
    listed = v.listed;
    flags = λ b b_in. (keep b b_in).kept.is_free ∙ v.flags b b_in;
  }

  module _ (a n : ℕ) (a_in : has a blocks ≡ true) (within : n ≤ capacity_of h.memory a)
      (only : OnlyAt (a + header_size) n h.memory m') where
    -- No header lies in the payload of a block.
    pub payload-Untouched : (b : ℕ) → has b blocks ≡ true → Untouched h.memory m' b
    payload-Untouched b b_in = Untouched-Same h.memory m' b (λ x lo hi. only x (apart x lo hi))
      where
        apart :
            (x : ℕ)
            → b ≤ x
            → x < b + header_size
            → (x < a + header_size) ⊎ (a + header_size + n ≤ x)
        apart x lo hi = elim (Bool-cases (b == a)) [
          | inl same ↦ ground arith
          | inr other ↦ ground (arith, Disjoint-of v a b a_in b_in (λ e. ground arith))
        ]

    pub payload-IsHeap : IsHeap (record h { memory = m' }) blocks idle
    payload-IsHeap = IsHeap-Untouched payload-Untouched

    -- Other blocks keep all their bytes.
    pub payload_elsewhere :
        (b : ℕ)
        → has b blocks ≡ true
        → b ≢ a
        → Same b (header_size + capacity_of h.memory b) h.memory m'
    payload_elsewhere b b_in ne x lo hi =
        only x (ground (arith, Disjoint-of v a b a_in b_in (λ e. ne (sym e))))

-- A block that has just been granted may be filled.
pub Granted-filled :
    {size alignment : ℕ} {h : Heap} {blocks idle : List ℕ} {a ptr : ℕ} {h' : Heap}
    {blocks' idle' : List ℕ} (m' : Memory) (n : ℕ)
    → Granted size alignment h blocks idle a ptr h' blocks' idle'
    → n ≤ size
    → OnlyAt ptr n h'.memory m'
    → Granted size alignment h blocks idle a ptr (record h' { memory = m' }) blocks' idle'
Granted-filled {size} {h} {blocks} {idle} {a} {ptr} {h'} {blocks'} {idle'} m' n g le only = record {
  valid = payload-IsHeap g.valid m' a n a_in within only';
  address = g.address;
  live = g.live;
  unowned = g.unowned;
  aligned = g.aligned;
  room = omega (arith, touched.kept.capacity, g.room);
  recorded = touched.kept.size ∙ g.recorded;
  owners = g.owners;
  contents = λ b live x lo hi.
      payload_elsewhere g.valid m' a n a_in within only' b (b_in b live) (ne b live) x lo
        (omega (arith, hi, same_room b live))
      ∙ g.contents b live x lo hi;
  same_arena = g.same_arena;
  elsewhere = λ x out.
      only x
        (omega (arith, IsBlock-of g.valid a a_in, g.valid.inside, g.same_arena, g.address, within))
      ∙ g.elsewhere x out;
}
  where
    a_in : has a blocks' ≡ true
    a_in = ground (arith, g.live)

    within : n ≤ capacity_of h'.memory a
    within = omega (arith, g.room)

    only' : OnlyAt (a + header_size) n h'.memory m'
    only' = subst (λ p. OnlyAt p n h'.memory m') g.address only

    touched : Untouched h'.memory m' a
    touched = payload-Untouched g.valid m' a n a_in within only' a a_in

    ne : (b : ℕ) → is_live blocks idle b ≡ true → b ≢ a
    ne b live e = ground (arith, g.unowned)

    b_in : (b : ℕ) → is_live blocks idle b ≡ true → has b blocks' ≡ true
    b_in b live = ground (arith, g.owners b (ne b live))

    same_room :
        (b : ℕ) → is_live blocks idle b ≡ true → capacity_of h'.memory b ≡ capacity_of h.memory b
    same_room b live = same.kept.capacity
      where
        same : Untouched h.memory h'.memory b
        same = Untouched-Same h.memory h'.memory b (λ x lo hi. g.contents b live x lo (omega arith))
