-- ===== src/Alloc/Owners.antt =====
-- What a caller of ruby_alloc.c that allocates and frees leaves of a heap: the blocks of all others, and
-- those that it holds itself.
use cruby_on_sel.Prelude.{
  ℕ, ◌+◌, ◌^◌, ◌≤◌, ◌<◌, ◌≡◌, refl, ◌∙◌, ◌||◌, ◌&&◌, not, Bool, true, false, List, ◌∷◌, arith, ◌==◌,
  has, Bool-cases, inl, inr,
}
use cruby_on_sel.Memory.{Memory, Same}
use cruby_on_sel.Alloc.Zeroed.{power_16}
use cruby_on_sel.Alloc.Arena.{Allocates, arena_alloc-Allocates}
use cruby_on_sel.Alloc.Header.{Heap, default_alignment, header_size, capacity_of}
use cruby_on_sel.Alloc.Malloc.{malloc, free}
use cruby_on_sel.Alloc.Fields.{Untouched-Same}
use cruby_on_sel.Alloc.Invariant.{IsHeap, is_live}
use cruby_on_sel.Alloc.Granted.{Granted}
use cruby_on_sel.Alloc.Payload.{OnlyAt, payload-IsHeap, payload_elsewhere}
use cruby_on_sel.Alloc.Release.{free-IsHeap}

-- The second heap is well formed; its blocks with an owner are those of the first heap, which keep all
-- their bytes, and those that are held.
pub record Owns (h : Heap) (blocks idle : List ℕ) (held : ℕ → Bool) (h' : Heap)
    (blocks' idle' : List ℕ) : Type 0 where
  pub valid : IsHeap h' blocks' idle'
  pub owners : (c : ℕ) → is_live blocks' idle' c ≡ (held c || is_live blocks idle c)
  pub contents :
      (c : ℕ)
      → is_live blocks idle c ≡ true
      → Same c (header_size + capacity_of h.memory c) h.memory h'.memory

-- Blocks whose bytes stay keep their capacity.
pub capacity-Same :
    (m m' : Memory) (c n : ℕ) → Same c (header_size + n) m m' → capacity_of m' c ≡ capacity_of m c
capacity-Same m m' c n same =
    (Untouched-Same m m' c (λ x lo hi. same x lo (omega (arith, hi)))).kept.capacity

-- `malloc` of at least one byte grants a block of that size, or finds no room.
pub malloc-Allocates :
    {h : Heap} {blocks idle : List ℕ} (size : ℕ)
    → IsHeap h blocks idle
    → 0 < size
    → size + header_size < 2 ^ 64
    → Allocates size default_alignment h blocks idle (malloc size h)
unfolding malloc
malloc-Allocates size v positive small =
    let some_size : (size == 0) ≡ false = ground arith in
    let request = arena_alloc-Allocates size 16 v small (omega arith) power_16 in
    rw some_size at request

-- At the start nothing is held.
pub Owns-start :
    {h : Heap} {blocks idle : List ℕ}
    → IsHeap h blocks idle
    → Owns h blocks idle (λ c. false) h blocks idle
Owns-start v = record { valid = v; owners = λ c. refl; contents = λ c live x lo hi. refl }

module _ {h₀ h : Heap} {blocks₀ idle₀ blocks idle : List ℕ} {held : ℕ → Bool}
    (o : Owns h₀ blocks₀ idle₀ held h blocks idle) where
  still_live : (c : ℕ) → is_live blocks₀ idle₀ c ≡ true → is_live blocks idle c ≡ true
  still_live c live = ground (arith, o.owners c, live)

  Same-then :
      (m' : Memory) (c : ℕ)
      → is_live blocks₀ idle₀ c ≡ true
      → Same c (header_size + capacity_of h.memory c) h.memory m'
      → Same c (header_size + capacity_of h₀.memory c) h₀.memory m'
  Same-then m' c live same x lo hi =
      let room = capacity-Same h₀.memory h.memory c (capacity_of h₀.memory c) (o.contents c live) in
      same x lo (omega (arith, hi, room)) ∙ o.contents c live x lo hi

  pub Owns-same :
      {held' : ℕ → Bool} → ((c : ℕ) → held c ≡ held' c) → Owns h₀ blocks₀ idle₀ held' h blocks idle
  Owns-same e = record {
    valid = o.valid;
    owners = λ c. ground (arith, o.owners c, e c);
    contents = o.contents;
  }

  -- A block that is granted is held.
  pub Owns-Granted :
      {size alignment a ptr : ℕ} {h' : Heap} {blocks' idle' : List ℕ}
      → Granted size alignment h blocks idle a ptr h' blocks' idle'
      → Owns h₀ blocks₀ idle₀ (λ c. c == a || held c) h' blocks' idle'
  Owns-Granted {a} {h'} g = record {
    valid = g.valid;
    owners = λ c. elim (Bool-cases (c == a)) [
      | inl same ↦ let e : c ≡ a = ground arith in rw (e, g.live) (ground arith)
      | inr other ↦ ground (arith, g.owners c (λ e. ground arith), o.owners c)
    ];
    contents = λ c live. Same-then h'.memory c live (g.contents c (still_live c live));
  }

  -- A block that is held may be freed.
  pub Owns-free :
      (a : ℕ)
      → held a ≡ true
      → is_live blocks₀ idle₀ a ≡ false
      → Owns h₀ blocks₀ idle₀
          (λ c. not (c == a) && held c)
          (free (a + header_size) h)
          blocks
          (a ∷ idle)
  Owns-free a mine fresh =
      let (v, keep) = free-IsHeap a o.valid (ground (arith, o.owners a, mine)) in
      record {
        valid = v;
        owners = λ c. elim (Bool-cases (c == a)) [
          | inl same ↦ let e : c ≡ a = ground arith in rw e (ground (arith, fresh))
          | inr other ↦ ground (arith, o.owners c)
        ];
        contents = λ c live.
            Same-then (free (a + header_size) h).memory c live
              (keep c (still_live c live) (λ e. ground (arith, e, fresh, live)));
      }

  -- A block that is held may be written.
  pub Owns-write :
      (a n : ℕ) (m' : Memory)
      → held a ≡ true
      → is_live blocks₀ idle₀ a ≡ false
      → n ≤ capacity_of h.memory a
      → OnlyAt (a + header_size) n h.memory m'
      → Owns h₀ blocks₀ idle₀ held (record h { memory = m' }) blocks idle
  Owns-write a n m' mine fresh within only =
      let a_in : has a blocks ≡ true = ground (arith, o.owners a, mine) in
      record {
        valid = payload-IsHeap o.valid m' a n a_in within only;
        owners = o.owners;
        contents = λ c live.
            let c_in : has c blocks ≡ true = ground (arith, still_live c live) in
            Same-then m' c live (
              payload_elsewhere o.valid m' a n a_in within only c c_in
                (λ e. ground (arith, e, fresh, live)));
      }
