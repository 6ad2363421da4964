-- ===== src/Alloc/Client.antt =====
-- The allocator of ruby_alloc.c and a client that allocates, maps, resizes, frees and writes in any
-- order. The client frees and writes through pointers that it owns, and writes within their usable size.
use cruby_on_sel.Prelude.{ℕ, ℤ, ◌+◌, ◌*◌, ◌^◌, ◌≤◌, ◌<◌, ◌≡◌, true, List, [], ◌∷◌, has, remove}
use cruby_on_sel.Errno.{Errno, Result, ok, err}
use cruby_on_sel.Memory.{null, poke}
use cruby_on_sel.Alloc.Header.{Heap, done, header_size}
use cruby_on_sel.Alloc.Malloc.{arena_alloc, calloc, realloc, free, malloc_usable_size}
use cruby_on_sel.Fds.{FdTable}
use cruby_on_sel.Alloc.Mmap.{mmap, munmap}
use cruby_on_sel.Alloc.Pages.{IsMappable}
use cruby_on_sel.Alloc.Place.{IsPlaced}

-- The heap, and the pointers that the client has been given and has not freed.
pub record Client : Type 0 where
  pub heap : Heap
  pub owned : List ℕ

abbrev pub client : Heap → List ℕ → Client
client h ps = record { heap = h; owned = ps }

-- One call, or one write of a byte.
pub data Step (s : Client) : Client → Type 0 where
  allocate :
      (size alignment : ℕ) {ptr : ℕ} {h' : Heap}
      → size + header_size < 2 ^ 64
      → alignment < 2 ^ 64
      → arena_alloc size alignment s.heap ≡ done (ok ptr) h'
      → Step s (client h' (ptr ∷ s.owned))
  refuse :
      (size alignment : ℕ) {e : Errno} {h' : Heap}
      → size + header_size < 2 ^ 64
      → alignment < 2 ^ 64
      → arena_alloc size alignment s.heap ≡ done (err e) h'
      → Step s (client h' s.owned)
  clear :
      (count size : ℕ) {ptr : ℕ} {h' : Heap}
      → count * size + header_size < 2 ^ 64
      → calloc count size s.heap ≡ done (ok ptr) h'
      → Step s (client h' (ptr ∷ s.owned))
  refuse_clear :
      (count size : ℕ) {e : Errno} {h' : Heap}
      → count * size + header_size < 2 ^ 64
      → calloc count size s.heap ≡ done (err e) h'
      → Step s (client h' s.owned)
  resize :
      (ptr size : ℕ) {ptr' : ℕ} {h' : Heap}
      → has ptr s.owned ≡ true
      → 0 < size
      → size + header_size < 2 ^ 64
      → realloc ptr size s.heap ≡ done (ok ptr') h'
      → Step s (client h' (ptr' ∷ remove ptr s.owned))
  refuse_resize :
      (ptr size : ℕ) {e : Errno} {h' : Heap}
      → has ptr s.owned ≡ true
      → 0 < size
      → size + header_size < 2 ^ 64
      → realloc ptr size s.heap ≡ done (err e) h'
      → Step s (client h' s.owned)
  resize_away :
      (ptr : ℕ) {r : Result ℕ} {h' : Heap}
      → has ptr s.owned ≡ true
      → realloc ptr 0 s.heap ≡ done r h'
      → Step s (client h' (remove ptr s.owned))
  give_back :
      (ptr : ℕ) → has ptr s.owned ≡ true → Step s (client (free ptr s.heap) (remove ptr s.owned))
  map_pages :
      (fds : FdTable) (length flags : ℕ) {fd offset : ℤ} {ptr : ℕ} {h' : Heap}
      → 0 < length
      → length + 4096 ≤ 2 ^ 64
      → IsMappable (s.heap).arena fds flags fd offset
      → mmap fds length flags fd offset s.heap ≡ done (ok ptr) h'
      → Step s (client h' (ptr ∷ s.owned))
  refuse_map :
      (fds : FdTable) (length flags : ℕ) {fd offset : ℤ} {e : Errno} {h' : Heap}
      → 0 < length
      → length + 4096 ≤ 2 ^ 64
      → IsMappable (s.heap).arena fds flags fd offset
      → mmap fds length flags fd offset s.heap ≡ done (err e) h'
      → Step s (client h' s.owned)
  unmap :
      (ptr length : ℕ)
      → has ptr s.owned ≡ true
      → Step s (client (munmap ptr length s.heap) (remove ptr s.owned))
  write :
      (ptr x b : ℕ)
      → has ptr s.owned ≡ true
      → ptr ≤ x
      → x < ptr + malloc_usable_size ptr s.heap
      → Step s (client (record (s.heap) { memory = poke x b (s.heap).memory }) s.owned)

-- The arena has been placed and nothing has been allocated.
pub record IsStart (s : Client) : Type 0 where
  pub placed : IsPlaced (s.heap).arena
  pub empty : (s.heap).offset ≡ 0
  pub no_free : (s.heap).free_list ≡ null
  pub no_owner : s.owned ≡ []

pub data Reach (s : Client) : Client → Type 0 where
  start : Reach s s
  later : {t u : Client} → Reach s t → Step t u → Reach s u
