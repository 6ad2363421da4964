-- ===== src/Examples/Readers.antt =====
-- Examples for the calls that readers of the standard input and of event counters make in turn.
use cruby_on_sel.Prelude.{
  ◌≡◌, ◌≢◌, refl, arith, Bool, true, false, ◌⊎◌, inr, List, [], ◌∷◌, none, some, pos, negsuc,
  is_negative,
}
use mathlib.Core.List.{Mem}
use cruby_on_sel.Errno.{Result, ok}
use cruby_on_sel.Memory.{load, store, load-store}
use cruby_on_sel.Poll.Table.{taken, find, is_full, claim, replace}
use cruby_on_sel.Poll.Source.{
  Descriptors, EventFd, EpollEvent, EpollSet, no_watches, add, del, read, write, eventfd, close,
}
use cruby_on_sel.Poll.Epoll.{epoll_ctl, epoll_wait}
use cruby_on_sel.Poll.Watches.{IsUnique}
use cruby_on_sel.Poll.Wakeup.{when_watched, when_written, when_read, epoll_wait-write}
use cruby_on_sel.Poll.Stale.{epoll_wait-close}
use cruby_on_sel.Poll.Serial.{SerialLine, serial_has_input}
use cruby_on_sel.Poll.Queue.{IsRing, Passes, Passes-none, bytes_from}
use cruby_on_sel.Poll.Polling.{Notifications, Polled, poll_fds}
use cruby_on_sel.Poll.Promises.{IsTimer, Wakes, Disarms}
use cruby_on_sel.Poll.Wired.{IsWired}
use cruby_on_sel.Poll.Handover.{stdin_entry, Readable, poll-readv}
use cruby_on_sel.Examples.Lines.{server, server-IsServer, line}
use cruby_on_sel.Examples.Devices.{
  five, one_set, watched, table, table-IsTable, set-found, counter-found, watches-IsUnique,
  no_handlers,
}

abbrev line_at : Bool → SerialLine
line_at false = record { ring = record { head = 0; tail = 0; buf = λ i. 97 }; typed = []; time = 0 }
line_at true = record {
  ring = record { head = 0; tail = 1; buf = λ i. 97 };
  typed = 97 ∷ [];
  time = 1;
}

-- The state says whether the timer is armed, and whether the one byte has come. The byte comes during
-- the first wait; a wait after that is ended by an armed timer.
abbrev wait_byte : Bool × Bool → Bool × (Bool × Bool)
wait_byte (armed, false) = (false, (armed, true))
wait_byte (armed, true) = (armed, (false, true))

abbrev one_byte : Notifications (Bool × Bool)
one_byte = record {
  ring = λ w. (line_at w.1).ring;
  start = λ t w. (true, (true, w.1));
  stop = λ w. (false, w.1);
  wait = wait_byte;
}

wait_byte-idle : (w : Bool × Bool) → w.0 ≡ false → (wait_byte w).1.0 ≡ false
wait_byte-idle (armed, false) e = e
wait_byte-idle (armed, true) e = refl

wait_byte-keeps : (w : Bool × Bool) → serial_has_input (line_at (wait_byte w).1.1).ring ≡ true
wait_byte-keeps (armed, false) = refl
wait_byte-keeps (armed, true) = refl

one_byte-IsTimer : IsTimer one_byte (λ w. w.0)
one_byte-IsTimer = record {
  stops = λ w. refl;
  refuses = λ t w e. absurd (ground (arith, e));
  waits = wait_byte-idle;
  wait_keeps = λ w e. wait_byte-keeps w;
}

line_at-IsRing : (b : Bool) → IsRing (line_at b).ring
line_at-IsRing false = (omega arith, omega arith)
line_at-IsRing true = (omega arith, omega arith)

arrives : (w : Bool × Bool) → Passes [] (line_at w.1) (line_at (wait_byte w).1.1)
unfolding bytes_from
arrives (armed, false) = record {
  arrived = 97 ∷ [];
  history = refl;
  order = refl;
  ring = line_at-IsRing true;
}
arrives (armed, true) = Passes-none (line_at true) (line_at-IsRing true)

one_byte-IsWired : IsWired one_byte (λ w. line_at w.1)
one_byte-IsWired = record {
  ring = λ w. refl;
  valid = λ w. line_at-IsRing w.1;
  start = λ t w. Passes-none (line_at w.1) (line_at-IsRing w.1);
  stop = λ w. Passes-none (line_at w.1) (line_at-IsRing w.1);
  wait = arrives;
}

-- A wait of at most five nanoseconds; the timer is started, and the byte comes before it ends.
poll-readv_example :
    (r : Polled (Bool × Bool)) × (poll_fds one_byte [] 4 0x4000
        (stdin_entry 0 ∷ [])
        (pos 5)
        (false, false)
      ≡ some (ok r))
    × Disarms one_byte (λ w. w.0) (pos 5) r.world
    × (((r.ready ≡ 0) × (is_negative (pos 5) ≡ false))
        ⊎ ((r.ready ≡ 1) × Readable (λ w. line_at w.1) server 3 line [] (λ x. 0) (false, false) r))
unfolding Wakes
poll-readv_example =
    poll-readv one_byte (λ w. w.0) (λ w. line_at w.1) server one_byte-IsTimer one_byte-IsWired
      server-IsServer [] (pos 5) 0 1 4 0x4000 (false, false) 3 line [] (λ x. 0) (omega arith) refl
      (omega arith) (λ set accepted. inr (inr refl)) (λ forever. absurd (ground (arith, forever)))
      (omega arith) (omega arith)

-- Counter 1000 is at 0, and set 1100 watches nothing; a buffer at 0x2000 holds 7.
abbrev idle : EventFd
idle = record { flags = 0; counter = 0 }

abbrev empty_set : EpollSet
empty_set = record { set_flags = 0; watches = no_watches }

abbrev pipe : Descriptors
pipe = record {
  fake_eventfds = taken (pos 1000) idle ∷ [];
  fake_epolls = taken (pos 1100) empty_set ∷ [];
  memory = store 8 0x2000 7 (λ x. 0);
}

idle-found : find (pos 1000) pipe.fake_eventfds ≡ some idle
unfolding find
idle-found = refl

empty_set-found : find (pos 1100) pipe.fake_epolls ≡ some empty_set
unfolding find
empty_set-found = refl

no_watches-IsUnique : IsUnique no_watches
unfolding IsUnique
no_watches-IsUnique = ground (arith, tt)

no_watches-free : (find (pos 1000) no_watches ≡ none) × (is_full no_watches ≡ false)
unfolding find is_full
no_watches-free = (refl, refl)

seven-stored : load 8 0x2000 pipe.memory ≢ 0
seven-stored = λ z. omega (arith, load-store 8 0x2000 7 (λ x. 0), z)

abbrev reader : EpollEvent
reader = record { events = 1; user_data = 42 }

abbrev wait_at : Descriptors → Result (List EpollEvent)
wait_at d = epoll_wait no_handlers (pos 1100) 1 (pos 8) (negsuc 0) d

abbrev pipe_watched : Descriptors
pipe_watched = when_watched no_handlers (pos 1100) (pos 1000) reader 0x2000 0x3000 8 pipe

abbrev pipe_written : Descriptors
pipe_written = when_written no_handlers (pos 1100) (pos 1000) reader 0x2000 0x3000 8 pipe

abbrev pipe_read : Descriptors
pipe_read = when_read no_handlers (pos 1100) (pos 1000) reader 0x2000 0x3000 8 pipe

epoll_wait-write_example :
    ((epoll_ctl no_handlers (pos 1100) add (pos 1000) (some reader) pipe).0 ≡ ok 0)
    × (wait_at pipe_watched ≡ wait_at pipe)
    × ((write no_handlers (pos 1000) 0x2000 8 pipe_watched).0 ≡ ok 8)
    × ((ready : List EpollEvent) × (wait_at pipe_written ≡ ok ready)
        × Mem (record { events = 1; user_data = 42 }) ready)
    × ((read no_handlers (pos 1000) 0x3000 8 pipe_written).0 ≡ ok 8)
    × (load 8 0x3000 pipe_read.memory ≡ load 8 0x2000 pipe.memory)
    × (wait_at pipe_read ≡ wait_at pipe)
epoll_wait-write_example =
    epoll_wait-write no_handlers (pos 1100) (pos 1000) empty_set idle reader 0x2000 0x3000 8 0 7
      (negsuc 0) pipe empty_set-found idle-found refl refl no_watches-IsUnique no_watches-free.0
      no_watches-free.1 (omega arith) (omega arith) seven-stored (omega arith) (omega arith)
      (omega arith)

-- Counter 1000 is closed, and its number is given out again.
abbrev opened_again : Descriptors
opened_again = (eventfd 3 0 (close no_handlers (pos 1000) table).1).1

same_number : eventfd 3 0 (close no_handlers (pos 1000) table).1 ≡ (ok (pos 1000), opened_again)
unfolding eventfd close find claim replace
same_number = refl

one_set-found : find (pos 1000) one_set.watches ≡ some watched
unfolding find
one_set-found = refl

epoll_wait-close_example :
    (wait_at (close no_handlers (pos 1000) table).1
      ≡ wait_at (epoll_ctl no_handlers (pos 1100) del (pos 1000) none table).1)
    × ((ready : List EpollEvent) × (wait_at opened_again ≡ ok ready)
        × Mem (record { events = 1; user_data = 42 }) ready)
epoll_wait-close_example =
    let (closed, again) =
      epoll_wait-close no_handlers (pos 1100) (pos 1000) one_set five watched 0 7 (negsuc 0) table
        table-IsTable set-found counter-found watches-IsUnique one_set-found (omega arith)
        (omega arith) in
    (closed, again 3 0 opened_again same_number (omega arith))
