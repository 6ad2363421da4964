-- ===== src/Alloc/Granted.antt =====
-- What an allocation promises, and that carving a block off the end of the arena keeps it
-- (`arena_alloc` of ruby_alloc.c, lines 143 to 161).
use cruby_on_sel.Prelude.{
  ℕ, ◌+◌, ◌-◌, ◌%◌, ◌≤◌, ◌<◌, ◌≡◌, refl, ◌∙◌, ◌≢◌, ◌⊎◌, inl, inr, true, false, List, [], ◌∷◌, ◌++◌,
  arith, has, has-append, Bool-cases,
}
use cruby_on_sel.Memory.{Same}
use cruby_on_sel.Alloc.Header.{Heap, arena_size, header_size, size_of, capacity_of}
use cruby_on_sel.Alloc.Malloc.{write_header}
use cruby_on_sel.Alloc.Fields.{
  Written, write_header-Written, write_header-outside, Untouched, Untouched-Apart,
}
use cruby_on_sel.Alloc.Layout.{Stays, Laid-Stays, Laid-append}
use cruby_on_sel.Alloc.Invariant.{IsHeap, is_live, IsBlock-of, Chain-keep}

-- The block at `a` has been handed out at `ptr`: it had no owner before, it has room and the
-- alignment asked for, every block that had an owner keeps it with
-- all its bytes, and nothing outside the arena is written.
pub record Granted (size alignment : ℕ) (h : Heap) (blocks idle : List ℕ) (a ptr : ℕ) (h' : Heap)
    (blocks' idle' : List ℕ) : Type 0 where
  pub valid : IsHeap h' blocks' idle'
  pub address : ptr ≡ a + header_size
  pub live : is_live blocks' idle' a ≡ true
  pub unowned : is_live blocks idle a ≡ false
  pub aligned : ptr % alignment ≡ 0
  pub room : size ≤ capacity_of h'.memory a
  pub recorded : size_of h'.memory a ≡ size
  pub owners : (b : ℕ) → b ≢ a → is_live blocks' idle' b ≡ is_live blocks idle b
  pub contents :
      (b : ℕ)
      → is_live blocks idle b ≡ true
      → Same b (header_size + capacity_of h.memory b) h.memory h'.memory
  pub same_arena : h'.arena ≡ h.arena
  pub elsewhere : (x : ℕ) → (x < h.arena) ⊎ (h.arena + arena_size ≤ x) → h'.memory x ≡ h.memory x

-- The heap after a block of `size` bytes has been carved off at `a`.
abbrev pub carved : ℕ → ℕ → Heap → Heap
carved a size h = record h {
  memory = write_header a size h.memory;
  offset = a + header_size + size - h.arena;
}

module _ {h : Heap} {blocks idle : List ℕ} (v : IsHeap h blocks idle) (size a : ℕ)
    (some_room : 1 ≤ size) (above : h.arena + h.offset ≤ a) (sixteen : a % 16 ≡ 0)
    (fits : a + header_size + size ≤ h.arena + arena_size) where
  written : Written a size h.memory (write_header a size h.memory)
  written = write_header-Written a size h.memory

  -- Old blocks end before the new header.
  old-Untouched :
      (b : ℕ) → has b blocks ≡ true → Untouched h.memory (write_header a size h.memory) b
  old-Untouched b m =
      Untouched-Apart h.memory (write_header a size h.memory) a b
        (write_header-outside a size h.memory) (omega (arith, IsBlock-of v b m))

  old-Stays : (b : ℕ) → has b blocks ≡ true → Stays h.memory (write_header a size h.memory) b
  old-Stays b m = record {
    capacity = u.kept.capacity;
    magic = u.kept.magic;
    fits = omega (arith, u.kept.size, IsBlock-of v b m);
  }
    where
      u : Untouched h.memory (write_header a size h.memory) b
      u = old-Untouched b m

  not_old : has a blocks ≡ false
  not_old = elim (Bool-cases (has a blocks)) [
    | inr e ↦ e
    | inl e ↦ absurd (omega (arith, IsBlock-of v a e))
  ]

  not_idle : has a idle ≡ false
  not_idle = elim (Bool-cases (has a idle)) [
    | inr e ↦ e
    | inl e ↦ ground (arith, v.listed a e, not_old)
  ]

  carved-IsHeap : IsHeap (carved a size h) (blocks ++ a ∷ []) idle
  carved-IsHeap = record {
    placed = v.placed;
    inside = omega (arith, v.placed);
    laid =
        Laid-append (write_header a size h.memory) h.arena blocks (h.arena + h.offset)
          (h.arena + (a + header_size + size - h.arena)) a
          (Laid-Stays h.memory (write_header a size h.memory) h.arena blocks (h.arena + h.offset)
            v.laid old-Stays)
          (record {
            above = above;
            aligned = sixteen;
            magic = written.magic;
            room = omega (arith, written.capacity, v.placed);
            fits = omega (arith, written.capacity, written.size_field);
            below = omega (arith, written.capacity, v.placed);
          });
    chain =
        Chain-keep h.memory (write_header a size h.memory) h.free_list idle v.chain
          (λ b m. (old-Untouched b (v.listed b m)).next);
    distinct = v.distinct;
    listed = λ b m. ground (arith, v.listed b m, has-append b blocks (a ∷ []));
    flags = λ b m. elim (Bool-cases (has b blocks)) [
      | inl old ↦ (old-Untouched b old).kept.is_free ∙ v.flags b old
      | inr new ↦ ground (arith, has-append b blocks (a ∷ []), written.is_free, not_idle)
    ];
  }

  pub carved-Granted :
      (alignment : ℕ)
      → (a + header_size) % alignment ≡ 0
      → Granted size alignment h blocks idle a
          (a + header_size)
          (carved a size h)
          (blocks ++ a ∷ [])
          idle
  carved-Granted alignment aligned = record {
    valid = carved-IsHeap;
    address = refl;
    live = ground (arith, has-append a blocks (a ∷ []), not_idle);
    unowned = ground (arith, not_old);
    aligned = aligned;
    room = omega (arith, written.capacity, v.placed);
    recorded = omega (arith, written.size_field, v.placed);
    owners = λ b ne. ground (arith, has-append b blocks (a ∷ []));
    contents = λ b live x lo hi.
        write_header-outside a size h.memory x (omega (arith, IsBlock-of v b (ground arith)));
    same_arena = refl;
    elsewhere = λ x out. write_header-outside a size h.memory x (omega arith);
  }
