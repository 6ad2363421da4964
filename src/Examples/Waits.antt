-- ===== src/Examples/Waits.antt =====
-- Examples for poll, fcntl, readv, and the terminal.
use cruby_on_sel.Prelude.{
  negsuc, ℕ, ◌%◌, ◌^◌, ◌≡◌, ◌≢◌, refl, arith, Bool, true, false, List, [], ◌∷◌, ◌++◌, Option, some,
  none, ℤ, pos, ◌==ℤ◌, length, inl, inr,
}
use cruby_on_sel.Errno.{ok, err, enosys}
use cruby_on_sel.Bits.Flags.{bit}
use cruby_on_sel.Poll.Table.{Slot, taken, find}
use cruby_on_sel.Poll.Source.{Descriptors, EventFd, read}
use cruby_on_sel.Poll.Serial.{SerialRing, SerialLine, Iovec}
use cruby_on_sel.Poll.Polling.{PollFd, Notifications, Polled, poll_fds}
use cruby_on_sel.Poll.Promises.{IsTimer, Wakes}
use cruby_on_sel.Poll.Timeouts.{IsAnswered, poll_fds-IsAnswered}
use cruby_on_sel.Poll.Fcntl.{Command, getfd, setfd, getfl, setfl, fcntl}
use cruby_on_sel.Poll.FlagLaws.{fcntl-flags}
use cruby_on_sel.Poll.Readv.{readv, of_counter, after_empty, readv-read}
use cruby_on_sel.Examples.Devices.{no_handlers}
use cruby_on_sel.Tty.Report.{escape, bracket, semicolon, capital_r}
use cruby_on_sel.Tty.Parse.{are_digits, decimal}
use cruby_on_sel.Tty.Console.{
  Termios, Console, Terminal, tiocgwinsz, is_console, cooked, first_size, size_of_console, ioctl,
}
use cruby_on_sel.Tty.Winsize.{Sends, ioctl-measures, ioctl-asks_once}

abbrev silent_ring : SerialRing
silent_ring = record { head = 0; tail = 0; buf = λ i. 0 }

abbrev silent_line : SerialLine
silent_line = record { ring = silent_ring; typed = []; time = 0 }

-- No input comes, and an armed timer ends the next wait. The state says whether it is armed.
abbrev one_timer : Notifications Bool
one_timer = record {
  ring = λ w. silent_ring;
  start = λ t w. (true, true);
  stop = λ w. false;
  wait = λ w. (w, false);
}

one_timer-IsTimer : IsTimer one_timer (λ w. w)
one_timer-IsTimer = record {
  stops = λ w. refl;
  refuses = λ t w e. absurd (ground (arith, e));
  waits = λ w e. refl;
  wait_keeps = λ w e. absurd (ground (arith, e));
}

-- Counter 1000 is at 0.
abbrev zero_counter : List (Slot EventFd)
zero_counter = taken (pos 1000) (record { flags = 0; counter = 0 }) ∷ []

-- The standard input, the counter and an unused entry.
abbrev waited_for : List PollFd
waited_for =
    record { fd = pos 0; events = 1; revents = 0 }
    ∷ record { fd = pos 1000; events = 1; revents = 1 }
    ∷ record { fd = negsuc 0; events = 5; revents = 0 }
    ∷ []

poll_fds-IsAnswered_example :
    (r : Polled Bool) × (poll_fds one_timer zero_counter 4 0x3000 waited_for (pos 5) false
      ≡ some (ok r))
    × IsAnswered one_timer (λ w. w) zero_counter (pos 5) waited_for r
unfolding Wakes
poll_fds-IsAnswered_example =
    poll_fds-IsAnswered one_timer (λ w. w) one_timer-IsTimer zero_counter (pos 5) waited_for 1 4
      0x3000 false (omega arith) refl (omega arith) (λ set accepted. inr (inl (refl, refl)))
      (λ forever watching. absurd (ground (arith, forever)))

-- Counter 1000 holds 7.
abbrev seven : EventFd
seven = record { flags = 0; counter = 7 }

abbrev one_counter : Descriptors
one_counter = record {
  fake_eventfds = taken (pos 1000) seven ∷ [];
  fake_epolls = [];
  memory = λ x. 0;
}

seven-found : find (pos 1000) one_counter.fake_eventfds ≡ some seven
unfolding find
seven-found = refl

fcntl-flags_example :
    ((fcntl (pos 1000) getfd 0 (fcntl (pos 1000) setfd 1 one_counter).1).0 ≡ ok (bit 0 1))
    × ((event' : EventFd) × (find (pos 1000) (fcntl (pos 1000) setfd 1 one_counter).1.fake_eventfds
          ≡ some event')
        × (event'.counter ≡ seven.counter)
        × (bit 0 event'.flags ≡ bit 0 seven.flags))
    × ((fcntl (pos 1000) getfl 0 (fcntl (pos 1000) setfl 1 one_counter).1).0 ≡ ok (1 % 2 ^ 32))
    × (find (pos 1000) (fcntl (pos 1000) setfl 1 one_counter).1.fake_eventfds
        ≡ some (record seven { flags = 1 % 2 ^ 32 }))
    × ((cmd : Command) (fd' : ℤ)
        → fd' ≢ pos 1000
        → find fd' (fcntl (pos 1000) cmd 1 one_counter).1.fake_eventfds
          ≡ find fd' one_counter.fake_eventfds)
fcntl-flags_example = fcntl-flags (pos 1000) seven 1 0 one_counter seven-found

abbrev eight_bytes : Iovec
eight_bytes = record { iov_base = 0x3000; iov_len = 8 }

abbrev four_bytes : Iovec
four_bytes = record { iov_base = 0x4000; iov_len = 4 }

readv-read_example :
    readv no_handlers
      (λ fd iov m. (err enosys, m))
      (λ n r. ([], r))
      0
      (pos 1000)
      (some (after_empty 1 (eight_bytes ∷ four_bytes ∷ [])))
      (pos (length (after_empty 1 (eight_bytes ∷ four_bytes ∷ []))))
      silent_line
      one_counter
    ≡ of_counter silent_line (read no_handlers (pos 1000) 0x3000 8 one_counter)
readv-read_example =
    readv-read no_handlers (λ fd iov m. (err enosys, m)) (λ n r. ([], r)) 0 (pos 1000) seven 1
      eight_bytes (four_bytes ∷ []) silent_line one_counter seven-found refl refl (omega arith)

-- Attributes without local modes.
abbrev raw : Termios
raw = record cooked { c_lflag = 0 }

abbrev new_console : Console
new_console =
    first_size
      (record { termios = raw; termios_ready = false; rows = 0; cols = 0; size_known = false })

-- A terminal that gives the bytes of its state, whatever is written.
abbrev next_byte : List ℕ → Option ℕ × List ℕ
next_byte [] = (none, [])
next_byte (c ∷ cs) = (some c, cs)

abbrev is_some_byte : List ℕ → Bool
is_some_byte [] = false
is_some_byte (c ∷ cs) = true

abbrev recorded : Terminal (List ℕ)
recorded = record { put = λ cs w. w; has_input = λ w. (is_some_byte w, w); take_byte = next_byte }

-- ESC [ 5 0 ; 9 9 R, of 50 rows and 99 columns.
abbrev fifty : List ℕ
fifty = 53 ∷ 48 ∷ []

abbrev ninety_nine : List ℕ
ninety_nine = 57 ∷ 57 ∷ []

abbrev reply : List ℕ
reply = escape ∷ bracket ∷ (fifty ++ semicolon ∷ (ninety_nine ++ capital_r ∷ []))

reply-Sends : Sends recorded reply reply []
unfolding Sends
reply-Sends = (
  _,
  _,
  refl,
  refl,
  (
    _,
    _,
    refl,
    refl,
    (
      _,
      _,
      refl,
      refl,
      (
        _,
        _,
        refl,
        refl,
        (_, _, refl, refl, (_, _, refl, refl, (_, _, refl, refl, (_, _, refl, refl, refl)))),
      ),
    ),
  ),
)

ioctl-measures_example : ioctl recorded (pos 0) tiocgwinsz true (new_console, reply) ≡ (
  ok (
      some (record {
        ws_row = decimal 0 fifty % 2 ^ 16;
        ws_col = decimal 0 ninety_nine % 2 ^ 16;
        ws_xpixel = 0;
        ws_ypixel = 0;
      })),
  (
    record new_console {
      rows = decimal 0 fifty % 2 ^ 16;
      cols = decimal 0 ninety_nine % 2 ^ 16;
      size_known = true;
    },
    [],
  ),
)
unfolding are_digits decimal
ioctl-measures_example =
    ioctl-measures recorded new_console reply [] [] fifty ninety_nine refl reply-Sends refl refl
      refl refl (omega arith) (omega arith) (omega arith)

ioctl-asks_once_example :
    ((pos 1 ==ℤ pos 0) ≡ false
      → ioctl recorded (pos 1) tiocgwinsz true (new_console, reply)
        ≡ (ok (some (size_of_console new_console)), (new_console, reply)))
    × (ioctl recorded
          (pos 1)
          tiocgwinsz
          true
          (ioctl recorded (pos 0) tiocgwinsz true (new_console, reply)).1
        ≡ ioctl recorded (pos 0) tiocgwinsz true (new_console, reply))
unfolding is_console
ioctl-asks_once_example = ioctl-asks_once recorded (pos 1) (new_console, reply) refl
