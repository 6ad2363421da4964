-- ===== src/Alloc/Safety.antt =====
-- Memory safety of ruby_alloc.c over every sequence of calls.
use cruby_on_sel.Prelude.{
  ℕ, ◌+◌, ◌-◌, ◌%◌, ◌≤◌, ◌≡◌, ◌≢◌, ◌⊎◌, true, List, arith, has, remove, Distinct, Bool-cases, inl,
  inr, subst,
}
use cruby_on_sel.Errno.{Errno, Result, ok, err}
use cruby_on_sel.Alloc.Header.{Heap, Run, done, arena_size, header_size, is_power_of_two}
use cruby_on_sel.Alloc.Malloc.{malloc_usable_size, at_least_default}
use cruby_on_sel.Alloc.Invariant.{IsBlock-of, Disjoint-of}
use cruby_on_sel.Alloc.Granted.{Granted}
use cruby_on_sel.Alloc.Arena.{
  Allocates, granted, exhausted, arena_alloc-Allocates, arena_alloc-einval,
}
use cruby_on_sel.Alloc.Resizing.{
  calloc-IsSound, calloc_refused, realloc-IsSound, realloc_refused, mmap-IsSound, mmap_refused,
}
use cruby_on_sel.Alloc.Client.{
  Client, client, Step, allocate, refuse, clear, refuse_clear, resize, refuse_resize, resize_away,
  give_back, map_pages, refuse_map, unmap, write, IsStart, Reach, start, later,
}
use cruby_on_sel.Alloc.System.{
  realloc-free, munmap-free, IsSound, IsStart-IsSound, allocate-IsSound, give_back-IsSound,
  write-IsSound, usable,
}

module _ {size alignment : ℕ} {h : Heap} {blocks idle : List ℕ} where
  pub Granted-of :
      {r : Run (Result ℕ)} {ptr : ℕ} {h' : Heap}
      → Allocates size alignment h blocks idle r
      → r ≡ done (ok ptr) h'
      → (a : ℕ) × (blocks' : List ℕ) × (idle' : List ℕ) × Granted size alignment h blocks idle a ptr
          h' blocks' idle'
  Granted-of {ptr} {h'} (granted {a} {ptr = p} {h' = g'} {blocks'} {idle'} g) e =
      let same : p ≡ ptr = cc in
      let heap : g' ≡ h' = cc in
      (
        a,
        blocks',
        idle',
        subst (λ q. Granted size alignment h blocks idle a q h' blocks' idle') same
            (subst (λ k. Granted size alignment h blocks idle a p k blocks' idle') heap g),
      )
  Granted-of (exhausted misses short) e = cc

  pub refused_of :
      {r : Run (Result ℕ)} {e : Errno} {h' : Heap}
      → Allocates size alignment h blocks idle r
      → r ≡ done (err e) h'
      → h ≡ h'
  refused_of (granted g) e = cc
  refused_of (exhausted misses short) e = cc

Step-IsSound : {s t : Client} → IsSound s → Step s t → IsSound t
Step-IsSound {s} (blocks, idle, o) (allocate size alignment {ptr} {h'} small bound e) =
    elim (Bool-cases (is_power_of_two (at_least_default alignment))) [
      | inl power ↦
          let (a, blocks', idle', g) =
            Granted-of (arena_alloc-Allocates size alignment o.valid small bound power) e in
          allocate-IsSound o g
      | inr odd ↦ cc (arena_alloc-einval s.heap size alignment odd)
    ]
Step-IsSound {s} (blocks, idle, o) (refuse size alignment {h'} small bound e) =
    elim (Bool-cases (is_power_of_two (at_least_default alignment))) [
      | inl power ↦
          let same : s.heap ≡ h' =
            refused_of (arena_alloc-Allocates size alignment o.valid small bound power) e in
          subst (λ k. IsSound (client k s.owned)) same (blocks, idle, o)
      | inr odd ↦
          let same : s.heap ≡ h' = cc (arena_alloc-einval s.heap size alignment odd) in
          subst (λ k. IsSound (client k s.owned)) same (blocks, idle, o)
    ]
Step-IsSound (blocks, idle, o) (clear count size small e) = calloc-IsSound o count size small e
Step-IsSound {s} (blocks, idle, o) (refuse_clear count size small e) =
    subst (λ k. IsSound (client k s.owned)) (calloc_refused o count size small e) (blocks, idle, o)
Step-IsSound (blocks, idle, o) (resize ptr size m some_size small e) =
    realloc-IsSound o ptr m size some_size small e
Step-IsSound {s} (blocks, idle, o) (refuse_resize ptr size m some_size small e) =
    subst (λ k. IsSound (client k s.owned)) (realloc_refused o ptr m size some_size small e)
      (blocks, idle, o)
Step-IsSound {s} (blocks, idle, o) (resize_away ptr m e) =
    subst (λ k. IsSound (client k (remove ptr s.owned))) (realloc-free o ptr m e)
      (give_back-IsSound o ptr m)
Step-IsSound (blocks, idle, o) (give_back ptr m) = give_back-IsSound o ptr m
Step-IsSound (blocks, idle, o) (map_pages fds length flags positive fits mappable e) =
    mmap-IsSound o fds length flags positive fits mappable e
Step-IsSound {s} (blocks, idle, o) (refuse_map fds length flags positive fits mappable e) =
    subst (λ k. IsSound (client k s.owned))
      (mmap_refused o fds length flags positive fits mappable e) (blocks, idle, o)
Step-IsSound (blocks, idle, o) (unmap ptr length m) =
    rw (munmap-free o ptr length m) (give_back-IsSound o ptr m)
Step-IsSound (blocks, idle, o) (write ptr x b m lo hi) = write-IsSound o ptr x b m lo hi

pub Reach-IsSound : {s t : Client} → IsSound s → Reach s t → IsSound t
Reach-IsSound i start = i
Reach-IsSound i (later r st) = Step-IsSound (Reach-IsSound i r) st

-- What the client may rely on: it holds each pointer once, and at a pointer that it owns, and at two
-- of them, the following.
pub record IsSafe (s : Client) : Type 0 where
  pub distinct : Distinct s.owned
  pub in_arena :
      (p : ℕ)
      → has p s.owned ≡ true
      → ((s.heap).arena ≤ p)
        × (p + malloc_usable_size p s.heap ≤ (s.heap).arena + arena_size)
        × (p % 16 ≡ 0)
  pub apart :
      (p q : ℕ)
      → has p s.owned ≡ true
      → has q s.owned ≡ true
      → p ≢ q
      → (p + malloc_usable_size p s.heap ≤ q) ⊎ (q + malloc_usable_size q s.heap ≤ p)

IsSound-IsSafe : (s : Client) → IsSound s → IsSafe s
IsSound-IsSafe s (blocks, idle, o) = record {
  distinct = o.distinct;
  in_arena = λ p m.
      let (ge, live) = o.payload p m in
      let b = IsBlock-of o.valid (p - header_size) (ground arith) in
      omega (arith, b, usable o p s.heap m, ge, o.valid.inside);
  apart = λ p q mp mq ne.
      let (pe, p_live) = o.payload p mp in
      let (qe, q_live) = o.payload q mq in
      let d =
        Disjoint-of o.valid (p - header_size) (q - header_size) (ground arith) (ground arith)
          (λ e. ne (omega (arith, pe, qe))) in
      omega (arith, d, usable o p s.heap mp, usable o q s.heap mq, pe, qe);
}

-- From a start with nothing allocated, after any calls of `arena_alloc`, `calloc` and `realloc`, of
-- sizes that do not reach the last 32 values of `size_t`, of `mmap`, without a file or of a file
-- outside the arena from an offset within it, of lengths above 0 and a page below the end of
-- `size_t`, of `free` and `munmap` of owned blocks, and any writes within owned blocks: owned
-- blocks lie in the arena on 16-byte boundaries, no block that is still owned has been handed out a
-- second time, and no two owned blocks overlap.
pub Reach-IsSafe : {s t : Client} → IsStart s → Reach s t → IsSafe t
Reach-IsSafe {s} {t} st r = IsSound-IsSafe t (Reach-IsSound (IsStart-IsSound s st) r)
