-- ===== src/Process.antt =====
-- apps/ruby/components/Ruby/src/stub/ruby_syscall_proc.c: calls on a process that does not exist.
use cruby_on_sel.Prelude.{ℕ, ◌+◌, ◌||◌, ◌==◌, ltb, if◌then◌else◌, ℤ}
use cruby_on_sel.Errno.{enoent, erange, Result, ok, err}
use cruby_on_sel.Memory.{Memory, null, poke, store}

unfoldable pub prctl : (option : ℤ) → Memory → Result ℕ × Memory
prctl option m = (ok 0, m)

unfoldable pub getcwd : (buf size : ℕ) → Memory → Result ℕ × Memory
getcwd buf size m =
    if buf == null || ltb size 2
    then (err erange, m)
    else (ok buf, poke (buf + 1) 0 (poke buf 47 m))

unfoldable pub readlink : (path buf bufsiz : ℕ) → Memory → Result ℕ × Memory
readlink path buf bufsiz m = (err enoent, m)

-- SS_DISABLE
abbrev pub ss_disable : ℕ
ss_disable = 2

-- `ss_sp`, `ss_flags` and `ss_size` of `stack_t` at 0, 8 and 16.
unfoldable pub sigaltstack : (ss old_ss : ℕ) → Memory → Result ℕ × Memory
sigaltstack ss old_ss m = (
  ok 0,
  if old_ss == null
      then m
      else store 8 (old_ss + 16) 0 (store 4 (old_ss + 8) ss_disable (store 8 old_ss null m)),
)

unfoldable pub mprotect : (addr len : ℕ) → (prot : ℤ) → Memory → Result ℕ × Memory
mprotect addr len prot m = (ok 0, m)

abbrev pub getuid : ℕ
getuid = 0

abbrev pub geteuid : ℕ
geteuid = 0

abbrev pub getgid : ℕ
getgid = 0

abbrev pub getegid : ℕ
getegid = 0
