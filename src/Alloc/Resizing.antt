-- ===== src/Alloc/Resizing.antt =====
-- A client of ruby_alloc.c that calls realloc and calloc keeps what it may rely on.
use cruby_on_sel.Prelude.{
  ℕ, ℤ, ◌+◌, ◌-◌, ◌*◌, ◌^◌, ◌≤◌, ◌<◌, ◌≡◌, ◌≢◌, ◌∙◌, sym, inl, inr, true, false, List, ◌∷◌, arith,
  ◌==◌, has, remove, Bool-cases, has_of-remove, Distinct-remove, not-has-remove, subst,
}
use cruby_on_sel.Errno.{Errno, Result, ok, err}
use cruby_on_sel.Memory.{Memory}
use cruby_on_sel.Alloc.Header.{Heap, Run, done, header_size}
use cruby_on_sel.Alloc.Malloc.{calloc, realloc}
use cruby_on_sel.Alloc.Invariant.{IsHeap, is_live}
use cruby_on_sel.Alloc.Zeroed.{Fills, filled, no_room, calloc-Fills}
use cruby_on_sel.Alloc.Realloc.{Moved, Resizes, in_place, moved, no_room, realloc-Resizes}
use cruby_on_sel.Fds.{FdTable}
use cruby_on_sel.Alloc.Mmap.{mmap}
use cruby_on_sel.Alloc.Pages.{IsMappable, mmap-Fills}
use cruby_on_sel.Alloc.Client.{Client, client}
use cruby_on_sel.Alloc.System.{Owns, IsSound, allocate-IsSound}

module _ {s : Client} {blocks idle : List ℕ} (o : Owns s blocks idle) where
  -- What `calloc` returned, as an allocation.
  filled-IsSound :
      {size alignment ptr : ℕ} {P : ℕ → Memory → Type 0} {h' : Heap} {r : Run (Result ℕ)}
      → Fills size alignment s.heap blocks idle P r
      → r ≡ done (ok ptr) h'
      → IsSound (client h' (ptr ∷ s.owned))
  filled-IsSound {ptr} {h'} (filled {ptr = q} {h' = k} g content) e =
      let same : q ≡ ptr = cc in
      let heap : k ≡ h' = cc in
      subst (λ p. IsSound (client h' (p ∷ s.owned))) same
        (subst (λ m. IsSound (client m (q ∷ s.owned))) heap (allocate-IsSound o g))
  filled-IsSound (no_room misses short) e = cc

  unfilled_heap :
      {size alignment : ℕ} {P : ℕ → Memory → Type 0} {x : Errno} {h' : Heap} {r : Run (Result ℕ)}
      → Fills size alignment s.heap blocks idle P r
      → r ≡ done (err x) h'
      → s.heap ≡ h'
  unfilled_heap (filled g content) e = cc
  unfilled_heap (no_room misses short) e = cc

  pub calloc-IsSound :
      (count size : ℕ) {ptr : ℕ} {h' : Heap}
      → count * size + header_size < 2 ^ 64
      → calloc count size s.heap ≡ done (ok ptr) h'
      → IsSound (client h' (ptr ∷ s.owned))
  calloc-IsSound count size small e = filled-IsSound (calloc-Fills count size o.valid small) e

  pub calloc_refused :
      (count size : ℕ) {x : Errno} {h' : Heap}
      → count * size + header_size < 2 ^ 64
      → calloc count size s.heap ≡ done (err x) h'
      → s.heap ≡ h'
  calloc_refused count size small e = unfilled_heap (calloc-Fills count size o.valid small) e

  pub mmap-IsSound :
      (fds : FdTable) (length flags : ℕ) {fd offset : ℤ} {ptr : ℕ} {h' : Heap}
      → 0 < length
      → length + 4096 ≤ 2 ^ 64
      → IsMappable (s.heap).arena fds flags fd offset
      → mmap fds length flags fd offset s.heap ≡ done (ok ptr) h'
      → IsSound (client h' (ptr ∷ s.owned))
  mmap-IsSound fds length flags positive fits mappable e =
      filled-IsSound (mmap-Fills fds length flags o.valid positive fits mappable) e

  pub mmap_refused :
      (fds : FdTable) (length flags : ℕ) {fd offset : ℤ} {x : Errno} {h' : Heap}
      → 0 < length
      → length + 4096 ≤ 2 ^ 64
      → IsMappable (s.heap).arena fds flags fd offset
      → mmap fds length flags fd offset s.heap ≡ done (err x) h'
      → s.heap ≡ h'
  mmap_refused fds length flags positive fits mappable e =
      unfilled_heap (mmap-Fills fds length flags o.valid positive fits mappable) e

  module _ (ptr : ℕ) (mine : has ptr s.owned ≡ true) where
    -- The header of the block that is resized.
    abbrev a : ℕ
    a = ptr - header_size

    plain : a + header_size ≡ ptr
    plain = omega (arith, o.payload ptr mine)

    live : is_live blocks idle a ≡ true
    live = (o.payload ptr mine).1

    -- The other pointers are payloads of other blocks.
    rest_payload :
        (p : ℕ)
        → has p (remove ptr s.owned) ≡ true
        → (header_size ≤ p) × (is_live blocks idle (p - header_size) ≡ true) × (p - header_size ≢ a)
    rest_payload p m =
        let (ge, p_live) = o.payload p (has_of-remove p ptr s.owned m) in
        let ne : p ≢ ptr = λ e. ground (arith, not-has-remove ptr s.owned o.distinct, e, m) in
        (ge, p_live, λ e. ne (omega (arith, e, plain, ge)))

    in_place-IsSound :
        {h' : Heap} → IsHeap h' blocks idle → IsSound (client h' (ptr ∷ remove ptr s.owned))
    in_place-IsSound v = (
      blocks,
      idle,
      record {
        valid = v;
        payload = λ p m. elim (Bool-cases (p == ptr)) [
          | inl same ↦ let e : ptr ≡ p = ground arith in rw⁻¹ e (o.payload ptr mine)
          | inr other ↦ let (ge, p_live, ne) = rest_payload p (ground arith) in (ge, p_live)
        ];
        distinct = (not-has-remove ptr s.owned o.distinct, Distinct-remove ptr s.owned o.distinct);
      },
    )

    Moved-IsSound :
        {size a' ptr' : ℕ} {h' : Heap} {blocks' idle' : List ℕ}
        → Moved s.heap blocks idle a size a' ptr' h' blocks' idle'
        → IsSound (client h' (ptr' ∷ remove ptr s.owned))
    Moved-IsSound {a'} {ptr'} {blocks'} {idle'} g = (
      blocks',
      a ∷ idle',
      record {
        valid = g.valid;
        payload = λ p m. elim (Bool-cases (p == ptr')) [
          | inl new ↦
              let e : a' ≡ p - header_size = ground (arith, g.address) in
              (
                ground (arith, g.address),
                subst (λ c. is_live blocks' (a ∷ idle') c ≡ true) e g.live,
              )
          | inr other ↦
              let (ge, p_live, ne) = rest_payload p (ground arith) in
              (ge, (g.others (p - header_size) p_live ne).0)
        ];
        distinct = (fresh, Distinct-remove ptr s.owned o.distinct);
      },
    )
      where
        back : ptr' - header_size ≡ a'
        back = omega (arith, g.address)

        fresh : has ptr' (remove ptr s.owned) ≡ false
        fresh = elim (Bool-cases (has ptr' (remove ptr s.owned))) [
          | inr out ↦ out
          | inl m ↦
              let p_live = rw back at (rest_payload ptr' m).1 in ground (arith, p_live, g.unowned)
        ]

    Resizes-IsSound :
        {size ptr' : ℕ} {h' : Heap} {r : Run (Result ℕ)}
        → Resizes s.heap blocks idle a size r
        → r ≡ done (ok ptr') h'
        → IsSound (client h' (ptr' ∷ remove ptr s.owned))
    Resizes-IsSound {ptr'} {h'} (in_place {h' = k} v resized room rest) e =
        let same : a + header_size ≡ ptr' = cc in
        let heap : k ≡ h' = cc in
        subst (λ p. IsSound (client h' (p ∷ remove ptr s.owned))) (sym plain ∙ same)
          (subst (λ m. IsSound (client m (ptr ∷ remove ptr s.owned))) heap (in_place-IsSound v))
    Resizes-IsSound {ptr'} {h'} (moved {ptr = q} {h' = k} g) e =
        let same : q ≡ ptr' = cc in
        let heap : k ≡ h' = cc in
        subst (λ p. IsSound (client h' (p ∷ remove ptr s.owned))) same
          (subst (λ m. IsSound (client m (q ∷ remove ptr s.owned))) heap (Moved-IsSound g))
    Resizes-IsSound (no_room misses short) e = cc

    unresized_heap :
        {size : ℕ} {x : Errno} {h' : Heap} {r : Run (Result ℕ)}
        → Resizes s.heap blocks idle a size r
        → r ≡ done (err x) h'
        → s.heap ≡ h'
    unresized_heap (in_place v resized room rest) e = cc
    unresized_heap (moved g) e = cc
    unresized_heap (no_room misses short) e = cc

    pub resizes :
        (size : ℕ)
        → 0 < size
        → size + header_size < 2 ^ 64
        → Resizes s.heap blocks idle a size (realloc ptr size s.heap)
    resizes size some_size small = rw plain at (realloc-Resizes a size o.valid live some_size small)

    pub realloc-IsSound :
        (size : ℕ) {ptr' : ℕ} {h' : Heap}
        → 0 < size
        → size + header_size < 2 ^ 64
        → realloc ptr size s.heap ≡ done (ok ptr') h'
        → IsSound (client h' (ptr' ∷ remove ptr s.owned))
    realloc-IsSound size some_size small e = Resizes-IsSound (resizes size some_size small) e

    pub realloc_refused :
        (size : ℕ) {x : Errno} {h' : Heap}
        → 0 < size
        → size + header_size < 2 ^ 64
        → realloc ptr size s.heap ≡ done (err x) h'
        → s.heap ≡ h'
    realloc_refused size some_size small e = unresized_heap (resizes size some_size small) e
