-- ===== src/Alloc/Release.antt =====
-- `free` of ruby_alloc.c, lines 169 to 185, on pointers that the allocator handed out.
use cruby_on_sel.Prelude.{
  ℕ, ◌+◌, ◌^◌, ◌≤◌, ◌<◌, ◌≡◌, refl, sym, ◌≢◌, inl, inr, true, false, List, [], ◌∷◌, arith, ◌==◌,
  if◌then◌else◌, has, Bool-cases, subst, ne_of_has,
}
use native.Mathlib.Nat.{mod-eq_of_lt}
use cruby_on_sel.Memory.{Memory, null, Same}
use cruby_on_sel.Alloc.Header.{
  Heap, header_size, capacity_of, is_free_of, magic_of, set_next, set_is_free, alloc_magic,
}
use cruby_on_sel.Alloc.Malloc.{free}
use cruby_on_sel.Alloc.Fields.{
  Kept, Untouched, Released, release-Released, release-outside, Untouched-Apart,
}
use cruby_on_sel.Alloc.Layout.{Stays, Laid-Stays}
use cruby_on_sel.Alloc.Invariant.{
  Chain, Chain-keep, IsHeap, is_live, IsBlock-of, Apart-of, Disjoint-of, header_plain,
}

-- The heap after the block at `a` has become the head of the free list.
abbrev pub released : ℕ → Heap → Heap
released a h = record h {
  memory = set_next a h.free_list (set_is_free a 1 h.memory);
  free_list = a;
}

head_bound :
    (m : Memory) (p : ℕ) (xs : List ℕ)
    → Chain m p xs
    → ((b : ℕ) → has b xs ≡ true → b < 2 ^ 64)
    → p < 2 ^ 64
head_bound m p [] c below = omega arith
head_bound m p (a ∷ rest) c below = omega (arith, below a (ground arith))

module _ {h : Heap} {blocks idle : List ℕ} (v : IsHeap h blocks idle) where
  pub free-released :
      (a : ℕ) → is_live blocks idle a ≡ true → free (a + header_size) h ≡ released a h
  unfolding free
  free-released a live =
      let magic : (magic_of h.memory a == alloc_magic) ≡ true =
        ground (arith, IsBlock-of v a (ground arith)) in
      let owned : (is_free_of h.memory a == 0) ≡ true = ground (arith, v.flags a (ground arith)) in
      let real : (a + header_size == null) ≡ false = ground arith in
      rw (header_plain v a (ground arith), real, magic, owned)

  -- Freeing an idle block again, or NULL, changes nothing.
  pub free-idle : (a : ℕ) → has a idle ≡ true → free (a + header_size) h ≡ h
  unfolding free
  free-idle a idle_in =
      let owned : (is_free_of h.memory a == 0) ≡ false =
        ground (arith, v.flags a (v.listed a idle_in)) in
      rw (header_plain v a (v.listed a idle_in), owned) (ground arith)

  module _ (a : ℕ) (a_in : has a blocks ≡ true) (a_out : has a idle ≡ false) where
    other : (b : ℕ) → has b blocks ≡ true → b ≢ a → Untouched h.memory (released a h).memory b
    other b b_in d =
        Untouched-Apart h.memory (released a h).memory a b (release-outside a h.memory h.free_list)
          (Apart-of v a b a_in b_in (λ e. d (sym e)))

    pub self : Released a h.free_list h.memory (released a h).memory
    self = release-Released a h.memory h.free_list

    stays : (b : ℕ) → has b blocks ≡ true → Stays h.memory (released a h).memory b
    stays b b_in = elim (Bool-cases (b == a)) [
      | inl same ↦
          let e : a ≡ b = ground arith in
          subst (Stays h.memory (released a h).memory) e (record {
            capacity = self.capacity;
            magic = self.magic;
            fits = omega (arith, self.size_field, IsBlock-of v a a_in);
          })
      | inr different ↦
          let k : Kept h.memory (released a h).memory b = (other b b_in (λ e. ground arith)).kept in
          record {
            capacity = k.capacity;
            magic = k.magic;
            fits = omega (arith, k.size, IsBlock-of v b b_in);
          }
    ]

    flag_after :
        (b : ℕ)
        → has b blocks ≡ true
        → is_free_of (released a h).memory b ≡ (if has b (a ∷ idle) then 1 else 0)
    flag_after b b_in = elim (Bool-cases (b == a)) [
      | inl same ↦
          let e : a ≡ b = ground arith in
          subst (λ c. is_free_of (released a h).memory c ≡ (if has c (a ∷ idle) then 1 else 0)) e
            (ground (arith, self.is_free))
      | inr different ↦
          let ne : b ≢ a = λ e. ground arith in
          ground (arith, (other b b_in ne).kept.is_free, v.flags b b_in)
    ]

    head_word : h.free_list < 2 ^ 64
    head_word =
        head_bound h.memory h.free_list idle v.chain
          (λ b m. omega (arith, IsBlock-of v b (v.listed b m), v.placed, v.inside))

    released-IsHeap : IsHeap (released a h) blocks (a ∷ idle)
    released-IsHeap = record {
      placed = v.placed;
      inside = v.inside;
      laid =
          Laid-Stays h.memory (released a h).memory h.arena blocks (h.arena + h.offset) v.laid
            stays;
      chain = (
        refl,
        omega (arith, IsBlock-of v a a_in, v.placed),
        rw (self.next, mod-eq_of_lt head_word)
            (Chain-keep h.memory (released a h).memory h.free_list idle v.chain
              (λ b m. (other b (v.listed b m) (ne_of_has idle m a_out)).next)),
      );
      distinct = (a_out, v.distinct);
      listed = λ b m. elim (Bool-cases (b == a)) [
        | inl same ↦ let e : b ≡ a = ground arith in rw e a_in
        | inr different ↦ v.listed b (ground arith)
      ];
      flags = flag_after;
    }

-- In a well-formed heap, freeing a block that has an owner puts it at the head of the free list: the
-- heap is well formed again, and every other block with an owner keeps all its bytes.
pub free-IsHeap :
    {h : Heap} {blocks idle : List ℕ} (a : ℕ)
    → IsHeap h blocks idle
    → is_live blocks idle a ≡ true
    → IsHeap (free (a + header_size) h) blocks (a ∷ idle)
      × ((b : ℕ)
          → is_live blocks idle b ≡ true
          → b ≢ a
          → Same b
              (header_size + capacity_of h.memory b)
              h.memory
              (free (a + header_size) h).memory)
free-IsHeap {h} {blocks} {idle} a v live = rw (free-released v a live) (
  released-IsHeap v a (ground arith) (ground arith),
  λ b b_live ne x lo hi.
      release-outside a h.memory h.free_list x
        (ground (arith, Disjoint-of v b a (ground arith) (ground arith) ne)),
)

-- The payload of the freed block itself is left as it was.
pub free-payload :
    {h : Heap} {blocks idle : List ℕ} (a x : ℕ)
    → IsHeap h blocks idle
    → is_live blocks idle a ≡ true
    → a + header_size ≤ x
    → (free (a + header_size) h).memory x ≡ h.memory x
free-payload {h} a x v live lo =
    rw (free-released v a live) (release-outside a h.memory h.free_list x (inr lo))
