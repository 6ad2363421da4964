-- ===== src/Alloc/Trim.antt =====
-- The caution of `munmap` in ruby_alloc.c, lines 402 to 422: a request to give back a part of a mapping.
use cruby_on_sel.Prelude.{ℕ, ◌+◌, ◌-◌, ◌^◌, ◌≤◌, ◌<◌, ◌≡◌, refl, arith, false, ◌==◌, List, ℤ}
use cruby_on_sel.Errno.{Result, ok, err, enomem}
use cruby_on_sel.Memory.{null, load-zero}
use cruby_on_sel.Fds.{FdTable}
use cruby_on_sel.Alloc.Header.{Heap, Run, done, payload_header, magic_of}
use cruby_on_sel.Alloc.Malloc.{free}
use cruby_on_sel.Alloc.Mmap.{mmap, munmap, round_to_pages}
use cruby_on_sel.Alloc.Invariant.{IsHeap, IsBlock-of}
use cruby_on_sel.Alloc.Granted.{Granted}
use cruby_on_sel.Alloc.Zeroed.{Fills, filled, no_room, Zeros}
use cruby_on_sel.Alloc.Pages.{wants_file, mmap-Zeros}

-- A mapping that was granted is not affected by `munmap` anywhere after its first bytes.
pub data Trims (size : ℕ) (h : Heap) (blocks idle : List ℕ) : Run (Result ℕ) → Type 0 where
  kept :
      {b ptr : ℕ} {h' : Heap} {blocks' idle' : List ℕ}
      → Granted size 4096 h blocks idle b ptr h' blocks' idle'
      → ((place trimmed : ℕ) → ptr + 4 ≤ place → place ≤ ptr + size → munmap place trimmed h' ≡ h')
      → Trims size h blocks idle (done (ok ptr) h')
  refused : Trims size h blocks idle (done (err enomem) h)

-- `free` passes over a pointer whose header has no magic.
free_plain :
    (h : Heap) (ptr : ℕ)
    → 32 ≤ ptr
    → ptr < 2 ^ 64
    → ((x : ℕ) → ptr - 4 ≤ x → x < ptr → h.memory x ≡ 0)
    → free ptr h ≡ h
unfolding free
free_plain h ptr above word zeros =
    let header : payload_header ptr ≡ ptr - 32 = omega arith in
    let real : (ptr == null) ≡ false = ground arith in
    let blank : magic_of h.memory (ptr - 32) ≡ 0 =
      load-zero 4 (ptr - 32 + 28) h.memory (λ x lo hi. zeros x (omega arith) (omega arith)) in
    rw (real, header, blank) refl

Fills-Trims :
    {size : ℕ} {h : Heap} {blocks idle : List ℕ} {r : Run (Result ℕ)}
    → Fills size 4096 h blocks idle (Zeros size) r
    → Trims size h blocks idle r
unfolding munmap
Fills-Trims (no_room misses short) = refused
Fills-Trims {size} (filled {a} {ptr} {h'} g zeros) = kept g (λ place trimmed lo hi.
    let b = IsBlock-of g.valid a (ground (arith, g.live)) in
    let real : (place == null) ≡ false = ground arith in
    rw real (
      free_plain h' place (omega (arith, g.address, b))
        (omega (arith, g.address, g.room, b, (g.valid).placed, (g.valid).inside))
        (λ x above below. zeros x (omega arith) (omega arith))))

-- In a well-formed heap, a mapping without a file, of a length above 0 that stays a page below the
-- end of `size_t`, is granted as whole pages or refused for want of memory. While it is as it was
-- granted, `munmap` of any length at any address after the first three bytes of it, its end
-- included, changes nothing: no part of it is given back, and the rest is kept.
pub munmap-Trims :
    {h : Heap} {blocks idle : List ℕ}
    → IsHeap h blocks idle
    → (fds : FdTable) (length flags : ℕ) (fd offset : ℤ) → 0 < length
    → length + 4096 ≤ 2 ^ 64
    → wants_file flags fd ≡ false
    → Trims (round_to_pages length) h blocks idle (mmap fds length flags fd offset h)
munmap-Trims v fds length flags fd offset positive fits anonymous =
    Fills-Trims (mmap-Zeros v fds length flags fd offset positive fits anonymous)
