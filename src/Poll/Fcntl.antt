-- ===== src/Poll/Fcntl.antt =====
-- fcntl of ruby_syscall_poll.c, lines 503 to 585. An argument and the flags are words of 32 bits.
use cruby_on_sel.Prelude.{
  ℕ, ◌-◌, ◌%◌, ◌^◌, not, ◌||◌, ◌==◌, if◌then◌else◌, Option, none, some, ℤ, pos, ◌==ℤ◌, bit_and,
  bit_or,
}
use cruby_on_sel.Errno.{einval, emfile, Result, ok, err}
use cruby_on_sel.Poll.Table.{find, replace, taken}
use cruby_on_sel.Poll.Source.{Descriptors, EventFd, EpollSet, put_eventfd}

-- Values of the C library's headers.
abbrev pub fd_cloexec : ℕ
fd_cloexec = 1

abbrev pub o_cloexec : ℕ
o_cloexec = 0x80000

abbrev pub o_rdonly : ℕ
o_rdonly = 0

abbrev pub o_wronly : ℕ
o_wronly = 1

-- F_GETFL, F_SETFL, F_GETFD, F_SETFD, F_DUPFD, F_DUPFD_CLOEXEC, and every other command.
pub data Command : Type 0 where
  getfl setfl getfd setfd dupfd dupfd_cloexec other : Command

-- What the first switch returns, and the flags it leaves.
unfoldable pub flag_command : Command → (arg flags : ℕ) → Result ℕ × ℕ
flag_command getfl arg flags = (ok flags, flags)
flag_command setfl arg flags = (ok 0, arg % 2 ^ 32)
flag_command getfd arg flags =
    (ok (if not (bit_and flags o_cloexec == 0) then fd_cloexec else 0), flags)
flag_command setfd arg flags = (
  ok 0,
  if not (bit_and arg fd_cloexec == 0)
      then bit_or flags o_cloexec
      else bit_and flags (2 ^ 32 - 1 - o_cloexec),
)
flag_command dupfd arg flags = (err emfile, flags)
flag_command dupfd_cloexec arg flags = (err emfile, flags)
flag_command other arg flags = (err einval, flags)

-- The second switch, for every other descriptor.
unfoldable pub plain_command : Command → ℤ → Result ℕ
plain_command getfl fd = if fd ==ℤ pos 1 || fd ==ℤ pos 2 then ok o_wronly else ok o_rdonly
plain_command setfl fd = ok 0
plain_command getfd fd = ok 0
plain_command setfd fd = ok 0
plain_command dupfd fd = err emfile
plain_command dupfd_cloexec fd = err emfile
plain_command other fd = err einval

-- A write through the pointer to the set's flags.
abbrev pub put_set_flags : ℤ → EpollSet → ℕ → Descriptors → Descriptors
put_set_flags fd set flags d = record d {
  fake_epolls = replace fd (taken fd (record set { set_flags = flags })) d.fake_epolls;
}

-- The last two arguments are what the two searches found.
abbrev pub fcntl_found :
    ℤ
    → Command
    → (arg : ℕ) → Descriptors
    → Option EventFd
    → Option EpollSet
    → Result ℕ × Descriptors
fcntl_found fd cmd arg d (some event) set = (
  (flag_command cmd arg event.flags).0,
  put_eventfd fd (record event { flags = (flag_command cmd arg event.flags).1 }) d,
)
fcntl_found fd cmd arg d none (some set) = (
  (flag_command cmd arg set.set_flags).0,
  put_set_flags fd set (flag_command cmd arg set.set_flags).1 d,
)
fcntl_found fd cmd arg d none none = (plain_command cmd fd, d)

unfoldable pub fcntl : ℤ → Command → (arg : ℕ) → Descriptors → Result ℕ × Descriptors
fcntl fd cmd arg d = fcntl_found fd cmd arg d (find fd d.fake_eventfds) (find fd d.fake_epolls)
