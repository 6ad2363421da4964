-- ===== src/Alloc/Aliases.antt =====
-- The names with underscores of ruby_alloc.c, through which musl reaches the allocator.
use cruby_on_sel.Prelude.{ℕ, ℤ}
use cruby_on_sel.Errno.{enomem, Result, err}
use cruby_on_sel.Fds.{FdTable}
use cruby_on_sel.Alloc.Header.{Heap, Run, done}
use cruby_on_sel.Alloc.Malloc.{malloc, free, realloc}
use cruby_on_sel.Alloc.Mmap.{mmap, munmap}

unfoldable libc_malloc : ℕ → Heap → Run (Result ℕ)
libc_malloc size h = malloc size h

unfoldable libc_malloc_impl : ℕ → Heap → Run (Result ℕ)
libc_malloc_impl size h = malloc size h

unfoldable libc_free : ℕ → Heap → Heap
libc_free ptr h = free ptr h

unfoldable libc_realloc : ℕ → ℕ → Heap → Run (Result ℕ)
libc_realloc ptr size h = realloc ptr size h

unfoldable libc_mmap : FdTable → ℕ → ℕ → ℤ → ℤ → Heap → Run (Result ℕ)
libc_mmap fds length flags fd offset h = mmap fds length flags fd offset h

unfoldable libc_munmap : ℕ → ℕ → Heap → Heap
libc_munmap addr length h = munmap addr length h

-- Like `mremap`, it is never possible.
unfoldable libc_mremap : ℕ → ℕ → ℕ → ℕ → Heap → Run (Result ℕ)
libc_mremap old_addr old_len new_len flags h = done (err enomem) h
