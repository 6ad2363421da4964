-- ===== src/Alloc/System.antt =====
-- What a client of ruby_alloc.c may rely on, whatever it has called before.
use cruby_on_sel.Prelude.{
  ℕ, refl, ◌+◌, ◌-◌, ◌≤◌, ◌<◌, ◌≡◌, ◌∙◌, ◌≢◌, inl, inr, true, false, List, [], ◌∷◌, arith, ◌==◌,
  has, remove, Distinct, Bool-cases, has_of-remove, Distinct-remove, not-has-remove,
}
use cruby_on_sel.Errno.{Result, ok}
use cruby_on_sel.Memory.{null, poke, poke-outside}
use cruby_on_sel.Alloc.Header.{Heap, done, header_size, capacity_of, payload_header}
use cruby_on_sel.Alloc.Malloc.{realloc, free, malloc_usable_size}
use cruby_on_sel.Alloc.Mmap.{munmap}
use cruby_on_sel.Alloc.Invariant.{IsHeap, is_live, header_plain}
use cruby_on_sel.Alloc.Granted.{Granted}
use cruby_on_sel.Alloc.Payload.{payload-IsHeap}
use cruby_on_sel.Alloc.Release.{free-IsHeap}
use cruby_on_sel.Alloc.Client.{Client, client, IsStart}

-- The client's pointers are payloads of blocks that have an owner, each once.
pub record Owns (s : Client) (blocks idle : List ℕ) : Type 0 where
  pub valid : IsHeap s.heap blocks idle
  pub payload :
      (p : ℕ)
      → has p s.owned ≡ true
      → (header_size ≤ p) × (is_live blocks idle (p - header_size) ≡ true)
  pub distinct : Distinct s.owned

abbrev pub IsSound : Client → Type 0
IsSound s = (blocks : List ℕ) × (idle : List ℕ) × Owns s blocks idle

pub IsStart-IsSound : (s : Client) → IsStart s → IsSound s
IsStart-IsSound s st = (
  [],
  [],
  record {
    valid = record {
      placed = st.placed;
      inside = omega (arith, st.empty);
      laid = omega (arith, st.empty);
      chain = st.no_free;
      distinct = tt;
      listed = λ a h. ground arith;
      flags = λ a h. ground arith;
    };
    payload = λ p h. ground (arith, st.no_owner);
    distinct = rw (st.no_owner) tt;
  },
)

module _ {s : Client} {blocks idle : List ℕ} (o : Owns s blocks idle) where
  pub allocate-IsSound :
      {size alignment a ptr : ℕ} {h' : Heap} {blocks' idle' : List ℕ}
      → Granted size alignment s.heap blocks idle a ptr h' blocks' idle'
      → IsSound (client h' (ptr ∷ s.owned))
  allocate-IsSound {a} {ptr} {blocks'} {idle'} g = (
    blocks',
    idle',
    record {
      valid = g.valid;
      payload = λ p m. elim (Bool-cases (p == ptr)) [
        | inl new ↦
            let e : p - header_size ≡ a = ground (arith, g.address) in
            rw e (ground (arith, g.address), g.live)
        | inr old ↦
            let (ge, live) = o.payload p (ground arith) in
            let ne : p - header_size ≢ a = λ e. ground (arith, g.unowned) in
            (ge, g.owners (p - header_size) ne ∙ live)
      ];
      distinct = (fresh, o.distinct);
    },
  )
    where
      back : ptr - header_size ≡ a
      back = omega (arith, g.address)

      fresh : has ptr s.owned ≡ false
      fresh = elim (Bool-cases (has ptr s.owned)) [
        | inr out ↦ out
        | inl m ↦ let live = rw back at ((o.payload ptr m).1) in ground (arith, g.unowned)
      ]

  pub give_back-IsSound :
      (ptr : ℕ) → has ptr s.owned ≡ true → IsSound (client (free ptr s.heap) (remove ptr s.owned))
  give_back-IsSound ptr m = (
    blocks,
    (ptr - header_size) ∷ idle,
    record {
      valid = rw plain at ((free-IsHeap (ptr - header_size) o.valid live).0);
      payload = λ p h.
          let (p_ge, p_live) = o.payload p (has_of-remove p ptr s.owned h) in
          let ne : p ≢ ptr = λ e. ground (arith, not-has-remove ptr s.owned o.distinct) in
          let apart : (p - header_size == ptr - header_size) ≡ false = ground (arith, ge, p_ge) in
          (p_ge, ground (arith, apart, p_live));
      distinct = Distinct-remove ptr s.owned o.distinct;
    },
  )
    where
      ge : header_size ≤ ptr
      ge = (o.payload ptr m).0

      live : is_live blocks idle (ptr - header_size) ≡ true
      live = (o.payload ptr m).1

      plain : ptr - header_size + header_size ≡ ptr
      plain = omega (arith, ge)

  -- At an owned pointer `munmap` is `free`, whatever the length.
  pub munmap-free :
      (ptr length : ℕ) → has ptr s.owned ≡ true → munmap ptr length s.heap ≡ free ptr s.heap
  unfolding munmap
  munmap-free ptr length m =
      let real : (ptr == null) ≡ false = ground (arith, (o.payload ptr m).0) in rw real refl

  -- `realloc` to size 0 is `free`.
  pub realloc-free :
      (ptr : ℕ) {r : Result ℕ} {h' : Heap}
      → has ptr s.owned ≡ true
      → realloc ptr 0 s.heap ≡ done r h'
      → free ptr s.heap ≡ h'
  unfolding realloc
  realloc-free ptr {r} {h'} m e =
      let real : (ptr == null) ≡ false = ground (arith, (o.payload ptr m).0) in
      let freed : done (ok null) (free ptr s.heap) ≡ done r h' = rw real at e in cc

  pub payload_header-owned :
      (ptr : ℕ) → has ptr s.owned ≡ true → payload_header ptr ≡ ptr - header_size
  payload_header-owned ptr m =
      let (ge, live) = o.payload ptr m in
      let plain : ptr - header_size + header_size ≡ ptr = omega arith in
      rw plain at (header_plain o.valid (ptr - header_size) (ground arith))

  pub usable :
      (ptr : ℕ) (h : Heap)
      → has ptr s.owned ≡ true
      → malloc_usable_size ptr h ≡ capacity_of h.memory (ptr - header_size)
  unfolding malloc_usable_size
  usable ptr h m =
      let real : (ptr == null) ≡ false = ground (arith, (o.payload ptr m).0) in
      rw (real, payload_header-owned ptr m)

  pub write-IsSound :
      (ptr x b : ℕ)
      → has ptr s.owned ≡ true
      → ptr ≤ x
      → x < ptr + malloc_usable_size ptr s.heap
      → IsSound (client (record (s.heap) { memory = poke x b (s.heap).memory }) s.owned)
  write-IsSound ptr x b m lo hi =
      let (ge, live) = o.payload ptr m in
      let inside : x < ptr + capacity_of (s.heap).memory (ptr - header_size) =
        omega (arith, usable ptr s.heap m) in
      (
        blocks,
        idle,
        record {
          valid =
              payload-IsHeap o.valid (poke x b (s.heap).memory) (ptr - header_size)
                (capacity_of (s.heap).memory (ptr - header_size)) (ground arith) (omega arith)
                (λ y out. poke-outside x b (s.heap).memory y (omega arith));
          payload = o.payload;
          distinct = o.distinct;
        },
      )
