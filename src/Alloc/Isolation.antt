-- ===== src/Alloc/Isolation.antt =====
-- No call of ruby_alloc.c changes a block that it was not given.
use cruby_on_sel.Prelude.{
  ℕ, ◌+◌, ◌-◌, ◌≤◌, ◌<◌, ◌≡◌, ◌≢◌, ◌∙◌, refl, sym, ap, inl, inr, true, List, ◌∷◌, arith, has,
  remove, has-remove_ne, Bool-cases, Option, none, some, subst,
}
use cruby_on_sel.Errno.{Result, ok}
use cruby_on_sel.Memory.{Memory, Same, poke, poke-outside}
use cruby_on_sel.Alloc.Header.{Heap, Run, done, header_size, capacity_of, is_power_of_two}
use cruby_on_sel.Alloc.Malloc.{malloc_usable_size, at_least_default, free}
use cruby_on_sel.Alloc.Invariant.{is_live, Disjoint-of}
use cruby_on_sel.Alloc.Granted.{Granted}
use cruby_on_sel.Alloc.Arena.{arena_alloc-Allocates, arena_alloc-einval}
use cruby_on_sel.Alloc.Release.{free-IsHeap}
use cruby_on_sel.Alloc.Zeroed.{Fills, filled, no_room, calloc-Fills}
use cruby_on_sel.Alloc.Pages.{mmap-Fills}
use cruby_on_sel.Alloc.Realloc.{Resizes, in_place, moved, no_room}
use cruby_on_sel.Alloc.Owners.{capacity-Same}
use cruby_on_sel.Alloc.Resizing.{resizes, calloc_refused, realloc_refused, mmap_refused}
use cruby_on_sel.Alloc.Client.{
  Client, Step, allocate, refuse, clear, refuse_clear, resize, refuse_resize, resize_away,
  give_back, map_pages, refuse_map, unmap, write, IsStart, Reach,
}
use cruby_on_sel.Alloc.System.{realloc-free, munmap-free, Owns, IsStart-IsSound, usable}
use cruby_on_sel.Alloc.Safety.{Granted-of, refused_of, Reach-IsSound}

-- The block that a step is about, if the client gave it one.
unfoldable pub subject : {s t : Client} → Step s t → Option ℕ
subject (allocate size alignment small bound e) = none
subject (refuse size alignment small bound e) = none
subject (clear count size small e) = none
subject (refuse_clear count size small e) = none
subject (resize ptr size m some_size small e) = some ptr
subject (refuse_resize ptr size m some_size small e) = none
subject (resize_away ptr m e) = some ptr
subject (give_back ptr m) = some ptr
subject (map_pages fds length flags positive fits mappable e) = none
subject (refuse_map fds length flags positive fits mappable e) = none
subject (unmap ptr length m) = some ptr
subject (write ptr x b m lo hi) = some ptr

-- The usable size at a pointer and all bytes of it are the same.
pub record IsKept (p : ℕ) (h h' : Heap) : Type 0 where
  pub usable_size : malloc_usable_size p h' ≡ malloc_usable_size p h
  pub bytes : (x : ℕ) → p ≤ x → x < p + malloc_usable_size p h → h'.memory x ≡ h.memory x

module _ {s : Client} {blocks idle : List ℕ} (o : Owns s blocks idle) (p : ℕ)
    (mine : has p s.owned ≡ true) where
  abbrev a : ℕ
  a = p - header_size

  -- The header and the payload of the block.
  abbrev Kept : Heap → Type 0
  Kept h' = Same a (header_size + capacity_of (s.heap).memory a) (s.heap).memory h'.memory

  IsKept-Kept : (h' : Heap) → Kept h' → IsKept p s.heap h'
  IsKept-Kept h' same = record {
    usable_size =
        usable o p h' mine
        ∙ capacity-Same (s.heap).memory h'.memory a (capacity_of (s.heap).memory a) same
        ∙ sym (usable o p s.heap mine);
    bytes =
        λ x lo hi. same x (omega arith) (omega (arith, usable o p s.heap mine, o.payload p mine));
  }

  unchanged : (h' : Heap) → s.heap ≡ h' → IsKept p s.heap h'
  unchanged h' e = subst (λ h. IsKept p s.heap h) e (IsKept-Kept s.heap (λ x lo hi. refl))

  live : is_live blocks idle a ≡ true
  live = (o.payload p mine).1

  Kept-Granted :
      {size alignment b ptr : ℕ} {h' : Heap} {blocks' idle' : List ℕ}
      → Granted size alignment s.heap blocks idle b ptr h' blocks' idle'
      → IsKept p s.heap h'
  Kept-Granted {h'} g = IsKept-Kept h' (g.contents a live)

  Kept-Fills :
      {size alignment ptr : ℕ} {P : ℕ → Memory → Type 0} {h' : Heap} {r : Run (Result ℕ)}
      → Fills size alignment s.heap blocks idle P r
      → r ≡ done (ok ptr) h'
      → IsKept p s.heap h'
  Kept-Fills {h'} (filled {h' = k} g content) e =
      let heap : k ≡ h' = cc in subst (λ h. IsKept p s.heap h) heap (Kept-Granted g)
  Kept-Fills (no_room misses short) e = cc

  module _ (q : ℕ) (other : p ≢ q) (yours : has q s.owned ≡ true) where
    apart : a ≢ q - header_size
    apart e = other (omega (arith, e, o.payload p mine, o.payload q yours))

    q_live : is_live blocks idle (q - header_size) ≡ true
    q_live = (o.payload q yours).1

    Kept-Resizes :
        {size ptr : ℕ} {h' : Heap} {r : Run (Result ℕ)}
        → Resizes s.heap blocks idle (q - header_size) size r
        → r ≡ done (ok ptr) h'
        → IsKept p s.heap h'
    Kept-Resizes {h'} (in_place {h' = k} v resized room rest) e =
        let heap : k ≡ h' = cc in
        subst (λ h. IsKept p s.heap h) heap
          (IsKept-Kept k (λ x lo hi. rest x (
            ground (
              arith,
              Disjoint-of o.valid a (q - header_size) (ground (arith, live))
                  (ground (arith, q_live)) apart,
            ))))
    Kept-Resizes {h'} (moved {h' = k} g) e =
        let heap : k ≡ h' = cc in
        subst (λ h. IsKept p s.heap h) heap (IsKept-Kept k (g.others a live apart).1)
    Kept-Resizes (no_room misses short) e = cc

    Kept-free : IsKept p s.heap (free q s.heap)
    Kept-free =
        let plain : q - header_size + header_size ≡ q = omega (arith, o.payload q yours) in
        IsKept-Kept (free q s.heap)
          (rw plain at ((free-IsHeap (q - header_size) o.valid q_live).1 a live apart))

    Kept-write :
        (x b : ℕ)
        → q ≤ x
        → x < q + malloc_usable_size q s.heap
        → IsKept p s.heap (record (s.heap) { memory = poke x b (s.heap).memory })
    Kept-write x b lo hi =
        let d =
          Disjoint-of o.valid a (q - header_size) (ground (arith, live)) (ground (arith, q_live))
            apart in
        IsKept-Kept (record (s.heap) { memory = poke x b (s.heap).memory })
          (λ y low high.
            poke-outside x b (s.heap).memory y
              (omega (arith, d, usable o q s.heap yours, o.payload q yours)))

  -- What the client still owns after one of its pointers is gone.
  still_owned : (q ptr : ℕ) → p ≢ q → has p (ptr ∷ remove q s.owned) ≡ true
  still_owned q ptr other = ground (arith, has-remove_ne p q s.owned other, mine)

Step-IsKept :
    {s t : Client} {blocks idle : List ℕ}
    → Owns s blocks idle
    → (st : Step s t) (p : ℕ) → has p s.owned ≡ true
    → subject st ≢ some p
    → (has p t.owned ≡ true) × IsKept p s.heap t.heap
unfolding subject
Step-IsKept {s} o (allocate size alignment {ptr} {h'} small bound e) p mine other =
    elim (Bool-cases (is_power_of_two (at_least_default alignment))) [
      | inl power ↦
          let (b, blocks', idle', g) =
            Granted-of (arena_alloc-Allocates size alignment o.valid small bound power) e in
          (ground (arith, mine), Kept-Granted o p mine g)
      | inr odd ↦ cc (arena_alloc-einval s.heap size alignment odd)
    ]
Step-IsKept {s} o (refuse size alignment {h'} small bound e) p mine other =
    elim (Bool-cases (is_power_of_two (at_least_default alignment))) [
      | inl power ↦
          let same =
            refused_of (arena_alloc-Allocates size alignment o.valid small bound power) e in
          (mine, unchanged o p mine h' same)
      | inr odd ↦
          let same : s.heap ≡ h' = cc (arena_alloc-einval s.heap size alignment odd) in
          (mine, unchanged o p mine h' same)
    ]
Step-IsKept o (clear count size small e) p mine other =
    (ground (arith, mine), Kept-Fills o p mine (calloc-Fills count size o.valid small) e)
Step-IsKept o (refuse_clear count size {h'} small e) p mine other =
    (mine, unchanged o p mine h' (calloc_refused o count size small e))
Step-IsKept o (resize ptr size {ptr'} m some_size small e) p mine other =
    let ne : p ≢ ptr = λ q. other (ap some (sym q)) in
    (
      still_owned o p mine ptr ptr' ne,
      Kept-Resizes o p mine ptr ne m (resizes o ptr m size some_size small) e,
    )
Step-IsKept o (refuse_resize ptr size {h'} m some_size small e) p mine other =
    (mine, unchanged o p mine h' (realloc_refused o ptr m size some_size small e))
Step-IsKept {s} o (resize_away ptr m e) p mine other =
    let ne : p ≢ ptr = λ q. other (ap some (sym q)) in
    (
      has-remove_ne p ptr s.owned ne ∙ mine,
      subst (λ h. IsKept p s.heap h) (realloc-free o ptr m e) (Kept-free o p mine ptr ne m),
    )
Step-IsKept {s} o (give_back ptr m) p mine other =
    let ne : p ≢ ptr = λ q. other (ap some (sym q)) in
    (has-remove_ne p ptr s.owned ne ∙ mine, Kept-free o p mine ptr ne m)
Step-IsKept o (map_pages fds length flags positive fits mappable e) p mine other = (
  ground (arith, mine),
  Kept-Fills o p mine (mmap-Fills fds length flags o.valid positive fits mappable) e,
)
Step-IsKept o (refuse_map fds length flags {h'} positive fits mappable e) p mine other =
    (mine, unchanged o p mine h' (mmap_refused o fds length flags positive fits mappable e))
Step-IsKept {s} o (unmap ptr length m) p mine other =
    let ne : p ≢ ptr = λ q. other (ap some (sym q)) in
    (
      has-remove_ne p ptr s.owned ne ∙ mine,
      rw (munmap-free o ptr length m) (Kept-free o p mine ptr ne m),
    )
Step-IsKept o (write ptr x b m lo hi) p mine other =
    let ne : p ≢ ptr = λ q. other (ap some (sym q)) in
    (mine, Kept-write o p mine ptr ne m x b lo hi)

-- In every state that is reached from a start with nothing allocated by calls of `arena_alloc`, `calloc`,
-- `realloc` and `free`, of `mmap` and `munmap`, and writes within owned blocks (with sizes below the last
-- 32 values of `size_t`, mapped lengths above 0 and a page below its end, and mapped files outside the
-- arena): one more such step leaves every owned block that it is not about with its owner, its usable
-- size and all its bytes, whether it succeeds or not.
pub Reach-IsKept :
    {s t u : Client}
    → IsStart s
    → Reach s t
    → (st : Step t u) (p : ℕ) → has p t.owned ≡ true
    → subject st ≢ some p
    → (has p u.owned ≡ true) × IsKept p t.heap u.heap
Reach-IsKept {s} begun r st p mine other =
    let (blocks, idle, o) = Reach-IsSound (IsStart-IsSound s begun) r in
    Step-IsKept o st p mine other
