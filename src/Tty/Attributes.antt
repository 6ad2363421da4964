-- ===== src/Tty/Attributes.antt =====
-- tcgetattr and tcsetattr of ruby_syscall_tty.c.
use cruby_on_sel.Prelude.{◌≡◌, refl, true, Bool-cases, inl, inr, some, ℤ}
use cruby_on_sel.Errno.{ok}
use cruby_on_sel.Tty.Console.{
  Termios, Console, is_console, console_termios_init, tcgetattr, tcsetattr,
}

-- The attributes that `tcsetattr` stores through one of the descriptors 0, 1 and 2 are those that
-- `tcgetattr` returns through any of them, whatever the action, which
-- changes nothing; the window size stays.
pub tcsetattr-tcgetattr :
    (fd fd' : ℤ) (action : ℤ) (t : Termios) (c : Console)
    → is_console fd ≡ true
    → is_console fd' ≡ true
    → ((tcsetattr fd action (some t) c).0 ≡ ok 0)
      × (tcgetattr fd' true (tcsetattr fd action (some t) c).1
          ≡ (ok t, (tcsetattr fd action (some t) c).1))
      × ((tcsetattr fd action (some t) c).1.rows ≡ c.rows)
      × ((tcsetattr fd action (some t) c).1.cols ≡ c.cols)
      × ((tcsetattr fd action (some t) c).1.size_known ≡ c.size_known)
unfolding tcgetattr tcsetattr console_termios_init
tcsetattr-tcgetattr fd fd' action t c here there = elim (Bool-cases c.termios_ready) [
  | inl ready ↦ rw (here, there, ready) (refl, refl, refl, refl, refl)
  | inr fresh ↦ rw (here, there, fresh) (refl, refl, refl, refl, refl)
]
