-- ===== src/Pthread/Source.antt =====
-- ruby_pthread.c: thread-specific data, lines 38 to 45 and 129 to 167, and the stack, lines 40 to 62
-- and 314 to 346.
use cruby_on_sel.Prelude.{
  ℕ, ◌+◌, ◌*◌, ◌%◌, ◌^◌, ◌||◌, ◌==◌, ltb, leb, if◌then◌else◌, Option, none, some,
}
use cruby_on_sel.Errno.{eagain, einval, Result, ok, err}
use cruby_on_sel.Memory.{null}

abbrev pub max_keys : ℕ
max_keys = 16

-- The statics `key_values` and `next_key`; a value is a pointer.
pub record Threads : Type 0 where
  pub key_values : ℕ → ℕ
  pub next_key : ℕ

-- At program start both are zero.
abbrev pub no_keys : Threads
no_keys = record { key_values = λ _. null; next_key = 0 }

abbrev pub set_key : ℕ → ℕ → Threads → Threads
set_key key value t = record t { key_values = λ k. if k == key then value else t.key_values k }

-- The key that is stored through the pointer `key`.
unfoldable pub pthread_key_create : ℕ → Threads → Result ℕ × Threads
pthread_key_create key t =
    if key == null || leb max_keys t.next_key
    then (err eagain, t)
    else (ok t.next_key, record t { next_key = (t.next_key + 1) % 2 ^ 32 })

unfoldable pub pthread_key_delete : ℕ → Threads → Threads
pthread_key_delete key t = if ltb key max_keys then set_key key null t else t

unfoldable pub pthread_getspecific : ℕ → Threads → ℕ
pthread_getspecific key t = if leb max_keys key then null else t.key_values key

unfoldable pub pthread_setspecific : ℕ → ℕ → Threads → Result (Unit {0}) × Threads
pthread_setspecific key value t =
    if leb max_keys key then (err einval, t) else (ok tt, set_key key value t)

-- CONTROL_STACK_SIZE and STACK_PAGE_SIZE
abbrev pub control_stack_size : ℕ
control_stack_size = 1024 * 1024

abbrev pub stack_page_size : ℕ
stack_page_size = 4096

-- What is stored through `addr` and `size`; `stack` is the address of the array that the generated
-- code declares.
unfoldable pub pthread_attr_getstack : (stack addr size : ℕ) → Option ℕ × Option ℕ
pthread_attr_getstack stack addr size = (
  if addr == null then none else some (stack + stack_page_size),
  if size == null then none else some control_stack_size,
)

unfoldable pub pthread_attr_getguardsize : ℕ → Option ℕ
pthread_attr_getguardsize size = if size == null then none else some 0
