-- ===== src/Examples/Devices.antt =====
-- Examples for the event counters and epoll sets.
use cruby_on_sel.Prelude.{
  List, ◌⊎◌, ℕ, suc, ◌-◌, ◌^◌, ◌<◌, ◌≡◌, ◌≢◌, refl, arith, true, false, [], ◌∷◌, ℤ, pos, negsuc,
  some, none, replicate, take, bit_and, ◌==◌, if◌then◌else◌, length,
}
use cruby_on_sel.Errno.{Result, ok, err, einval, eagain, emfile, eexist, enospc, enoent, enosys}
use cruby_on_sel.Memory.{load}
use cruby_on_sel.Poll.Table.{Slot, taken, find, is_full, IsNumbered}
use cruby_on_sel.Poll.Source.{
  Descriptors, Kernel, EventFd, EpollEvent, EpollSet, eventfd, read, write, close, no_watch,
  no_watches, efd_semaphore,
}
use cruby_on_sel.Poll.Epoll.{control, epoll_wait}
use cruby_on_sel.Poll.Source.{add, mod_event, del}
use cruby_on_sel.Poll.Counters.{IsTable, IsOpened, eventfd-IsOpened, read-takes, close-frees}
use cruby_on_sel.Poll.Permits.{
  Exchange, post, acquire, Balances, total_posted, total_taken, after_exchanges, exchanges-Balances,
}
use cruby_on_sel.Poll.Watches.{IsUnique, Reports, epoll_wait-ready}
use cruby_on_sel.Poll.Control.{IsMapped, control-add, control-change}
use cruby_on_sel.Poll.Machine.{
  Call, after_calls, open_counter, open_set, control_set, write_to, read_from, set_flags, close_it,
}
use cruby_on_sel.Poll.Fcntl.{setfd}
use cruby_on_sel.Poll.Kinds.{at_start, calls-IsTable_kinds, calls-IsSound}

-- A kernel without handlers.
abbrev pub no_handlers : Kernel
no_handlers = record {
  sys_read = λ fd buf count m. (err enosys, m);
  sys_write = λ fd buf count m. (err enosys, m);
  sys_close = λ fd. err enosys;
  sys_epoll_ctl = λ epfd op fd event. err enosys;
  sys_epoll_wait = λ epfd events maxevents timeout. err enosys;
}

abbrev free_eventfd : Slot EventFd
free_eventfd = record { used = false; fd = pos 0; content = record { flags = 0; counter = 0 } }

abbrev free_epoll : Slot EpollSet
free_epoll = record {
  used = false;
  fd = pos 0;
  content = record { set_flags = 0; watches = no_watches };
}

abbrev pub five : EventFd
five = record { flags = 0; counter = 5 }

abbrev pub watched : EpollEvent
watched = record { events = 1; user_data = 42 }

-- A set that watches counter 1000.
abbrev pub one_set : EpollSet
one_set = record { set_flags = 0; watches = taken (pos 1000) watched ∷ replicate 7 no_watch }

-- Counter 1000 holds 5, and set 1100 watches it; a buffer at 0x2000 holds 7.
abbrev pub table : Descriptors
table = record {
  fake_eventfds = taken (pos 1000) five ∷ replicate 3 free_eventfd;
  fake_epolls = taken (pos 1100) one_set ∷ free_epoll ∷ [];
  memory = λ x. if x == 0x2000 then 7 else 0;
}

pub table-IsTable : IsTable table
unfolding IsNumbered
table-IsTable = record {
  eventfd_numbers = (λ u. refl, (λ u. ground arith, (λ u. ground arith, (λ u. ground arith, tt))));
  eventfd_count = refl;
  epoll_numbers = (λ u. refl, (λ u. ground arith, tt));
  epoll_count = refl;
}

pub watches-IsUnique : IsUnique one_set.watches
unfolding IsUnique find
watches-IsUnique = (
  λ u. refl,
  (
    λ u. ground arith,
    (
      λ u. ground arith,
      (
        λ u. ground arith,
        (λ u. ground arith, (λ u. ground arith, (λ u. ground arith, (λ u. ground arith, tt)))),
      ),
    ),
  ),
)

eventfd-IsOpened_example :
    (is_full table.fake_eventfds ≡ false
      → (fd : ℤ) × (d' : Descriptors) × (eventfd 3 0 table ≡ (ok fd, d'))
        × IsOpened 3 0 table fd d')
    × (is_full table.fake_eventfds ≡ true → eventfd 3 0 table ≡ (err emfile, table))
eventfd-IsOpened_example = eventfd-IsOpened 3 0 table table-IsTable

pub counter-found : find (pos 1000) table.fake_eventfds ≡ some five
unfolding find
counter-found = refl

pub set-found : find (pos 1100) table.fake_epolls ≡ some one_set
unfolding find
set-found = refl

abbrev written : Result ℕ × Descriptors
written = write no_handlers (pos 1000) 0x2000 8 table

abbrev was_read : Result ℕ × Descriptors
was_read = read no_handlers (pos 1000) 0x3000 8 table

read-takes_example :
    (five.counter ≡ 0 → was_read ≡ (err eagain, table))
    × (five.counter ≢ 0
        → (was_read.0 ≡ ok 8)
          × (bit_and five.flags efd_semaphore ≡ 0
              → (load 8 0x3000 was_read.1.memory ≡ five.counter)
                × (find (pos 1000) was_read.1.fake_eventfds ≡ some (record five { counter = 0 })))
          × (bit_and five.flags efd_semaphore ≢ 0
              → (load 8 0x3000 was_read.1.memory ≡ 1)
                × (find (pos 1000) was_read.1.fake_eventfds
                    ≡ some (record five { counter = five.counter - 1 })))
          × ((fd' : ℤ)
              → fd' ≢ pos 1000
              → find fd' was_read.1.fake_eventfds ≡ find fd' table.fake_eventfds))
read-takes_example =
    read-takes no_handlers (pos 1000) five 0x3000 8 table counter-found (omega arith) (omega arith)
      (omega arith)

abbrev closed : Result ℕ × Descriptors
closed = close no_handlers (pos 1000) table

close-frees_example :
    (closed.0 ≡ ok 0)
    × (find (pos 1000) closed.1.fake_eventfds ≡ none)
    × ((fd' : ℤ) → fd' ≢ pos 1000 → find fd' closed.1.fake_eventfds ≡ find fd' table.fake_eventfds)
    × (closed.1.fake_epolls ≡ table.fake_epolls)
    × IsTable closed.1
close-frees_example = close-frees no_handlers (pos 1000) five table table-IsTable counter-found

control-add_example :
    (find (pos 1001) one_set.watches ≢ none
      → control add (pos 1001) (some watched) one_set.watches ≡ (err eexist, one_set.watches))
    × (find (pos 1001) one_set.watches ≡ none
        → is_full one_set.watches ≡ true
        → control add (pos 1001) (some watched) one_set.watches ≡ (err enospc, one_set.watches))
    × (find (pos 1001) one_set.watches ≡ none
        → is_full one_set.watches ≡ false
        → IsMapped
            (pos 1001)
            (some watched)
            one_set.watches
            (control add (pos 1001) (some watched) one_set.watches))
control-add_example = control-add (pos 1001) watched one_set.watches watches-IsUnique

control-change_example :
    (find (pos 1000) one_set.watches ≢ none
      → IsMapped
          (pos 1000)
          (some watched)
          one_set.watches
          (control mod_event (pos 1000) (some watched) one_set.watches)
        × IsMapped (pos 1000) none one_set.watches (control del (pos 1000) none one_set.watches))
    × (find (pos 1000) one_set.watches ≡ none
        → (control mod_event (pos 1000) (some watched) one_set.watches
            ≡ (err enoent, one_set.watches))
          × (control del (pos 1000) none one_set.watches ≡ (err enoent, one_set.watches)))
control-change_example = control-change (pos 1000) watched none one_set.watches watches-IsUnique

epoll_wait-ready_example :
    ((es : List EpollEvent) × Reports table.fake_eventfds one_set.watches es
      × ((n : ℕ)
          → epoll_wait no_handlers (pos 1100) (suc 0x2fff) (pos (suc n)) (negsuc 0) table
            ≡ ok (take (suc n) es)))
    × ((n : ℕ)
        → epoll_wait no_handlers (pos 1100) (suc 0x2fff) (negsuc n) (negsuc 0) table ≡ err einval)
    × (epoll_wait no_handlers (pos 1100) (suc 0x2fff) (pos 0) (negsuc 0) table ≡ err einval)
    × ((maxevents : ℤ)
        → epoll_wait no_handlers (pos 1100) 0 maxevents (negsuc 0) table ≡ err einval)
epoll_wait-ready_example =
    epoll_wait-ready no_handlers (pos 1100) one_set 0x2fff (negsuc 0) table set-found

-- A counter and a set are opened, the set watches the counter, which is written, marked, read and closed.
abbrev session : List Call
session =
    open_counter 0 0
    ∷ open_set 0
    ∷ control_set (pos 1100) add (pos 1000) (some watched)
    ∷ write_to (pos 1000) 0x2000 8
    ∷ set_flags (pos 1000) setfd 1
    ∷ read_from (pos 1000) 0x3000 8
    ∷ close_it (pos 1000)
    ∷ []

calls-IsTable_kinds_example :
    IsTable (after_calls no_handlers session (at_start (λ x. 1)))
    × ((fd : ℤ)
        → (find fd (after_calls no_handlers session (at_start (λ x. 1))).fake_eventfds ≡ none)
          ⊎ (find fd (after_calls no_handlers session (at_start (λ x. 1))).fake_epolls ≡ none))
calls-IsTable_kinds_example = calls-IsTable_kinds no_handlers session (λ x. 1)

calls-IsSound_example :
    ((fd : ℤ) (event : EventFd)
      → find fd (after_calls no_handlers session (at_start (λ x. 1))).fake_eventfds ≡ some event
      → event.counter < 2 ^ 64)
    × ((epfd : ℤ) (set : EpollSet)
        → find epfd (after_calls no_handlers session (at_start (λ x. 1))).fake_epolls ≡ some set
        → IsUnique set.watches × (length set.watches ≡ 8))
calls-IsSound_example = calls-IsSound no_handlers session (λ x. 1)

-- A write of the value at 0x2000, a read, and a read to NULL.
abbrev exchanges : List Exchange
exchanges = post 0x2000 ∷ acquire 0x3000 ∷ acquire 0 ∷ []

exchanges-Balances_example :
    Balances no_handlers
      (pos 1000)
      five
      (total_posted no_handlers (pos 1000) exchanges table)
      (total_taken no_handlers (pos 1000) exchanges table)
      (after_exchanges no_handlers (pos 1000) exchanges table)
exchanges-Balances_example =
    exchanges-Balances no_handlers (pos 1000) exchanges five table counter-found (omega arith)
