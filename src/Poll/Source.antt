-- ===== src/Poll/Source.antt =====
-- The state of ruby_syscall_poll.c, lines 60 to 90, and its event counters: eventfd, the read and
-- write of a counter, close and fcntl. A descriptor that is not one of its own goes to the system
-- call, which is not part of this repository: the record `Kernel`.
use cruby_on_sel.Prelude.{
  ℕ, ◌+◌, ◌-◌, ◌%◌, ◌^◌, false, ◌||◌, not, ◌==◌, ltb, if◌then◌else◌, List, Option, none, some,
  replicate, ℤ, pos, negsuc, bit_and,
}
use cruby_on_sel.Errno.{einval, eagain, emfile, Result, ok, err}
use cruby_on_sel.Memory.{Memory, null, load, store}
use cruby_on_sel.Poll.Table.{Slot, find, replace, taken, claim}

abbrev pub fake_eventfd_base : ℕ
fake_eventfd_base = 1000

abbrev pub fake_eventfd_count : ℕ
fake_eventfd_count = 4

abbrev pub fake_epoll_base : ℕ
fake_epoll_base = 1100

abbrev pub fake_epoll_count : ℕ
fake_epoll_count = 2

abbrev pub fake_epoll_watch_count : ℕ
fake_epoll_watch_count = 8

-- Values of the C library's headers.
abbrev pub efd_semaphore : ℕ
efd_semaphore = 1

abbrev pub epollin : ℕ
epollin = 1

-- `fake_eventfd_t`, less `used` and `fd`, which `Slot` has.
pub record EventFd : Type 0 where
  pub flags : ℕ
  pub counter : ℕ

-- `struct epoll_event`
pub record EpollEvent : Type 0 where
  pub events : ℕ
  pub user_data : ℕ

-- `fake_epoll_t`, less `used` and `fd`.
pub record EpollSet : Type 0 where
  pub set_flags : ℕ
  pub watches : List (Slot EpollEvent)

-- The statics of the file, and the memory that its pointers lead to.
pub record Descriptors : Type 0 where
  pub fake_eventfds : List (Slot EventFd)
  pub fake_epolls : List (Slot EpollSet)
  pub memory : Memory

-- EPOLL_CTL_ADD, EPOLL_CTL_MOD, EPOLL_CTL_DEL, and every other value of `op`.
pub data ControlOp : Type 0 where
  add mod_event del unknown : ControlOp

-- The system calls that an unknown descriptor is passed on to.
pub record Kernel : Type 0 where
  pub sys_read : ℤ → (buf count : ℕ) → Memory → Result ℕ × Memory
  pub sys_write : ℤ → (buf count : ℕ) → Memory → Result ℕ × Memory
  pub sys_close : ℤ → Result ℕ
  pub sys_epoll_ctl : (epfd : ℤ) → ControlOp → (fd : ℤ) → Option EpollEvent → Result ℕ
  pub sys_epoll_wait :
      (epfd : ℤ) → (events : ℕ) → (maxevents timeout : ℤ) → Result (List EpollEvent)

-- The descriptor and the array that the loop ends with; `none` when no entry was free.
abbrev pub opened_eventfd : Descriptors → Option (ℤ × List (Slot EventFd)) → Result ℤ × Descriptors
opened_eventfd d none = (err emfile, d)
opened_eventfd d (some (fd, slots)) = (ok fd, record d { fake_eventfds = slots })

unfoldable pub eventfd : (initval flags : ℕ) → Descriptors → Result ℤ × Descriptors
eventfd initval flags d = opened_eventfd d (
    claim (λ i. pos (fake_eventfd_base + i)) (record { flags = flags; counter = initval }) 0
      d.fake_eventfds)

-- A write through the pointer to the counter's entry.
abbrev pub put_eventfd : ℤ → EventFd → Descriptors → Descriptors
put_eventfd fd event d = record d { fake_eventfds = replace fd (taken fd event) d.fake_eventfds }

-- What a read takes from a counter, and what it leaves.
unfoldable pub taken_from : EventFd → ℕ × EventFd
taken_from event =
    if not (bit_and event.flags efd_semaphore == 0)
    then (1, record event { counter = event.counter - 1 })
    else (event.counter, record event { counter = 0 })

unfoldable pub read_eventfd : ℤ → EventFd → (buf count : ℕ) → Descriptors → Result ℕ × Descriptors
read_eventfd fd event buf count d =
    if buf == null || ltb count 8
    then (err einval, d)
    else if event.counter == 0
    then (err eagain, d)
    else (
      ok 8,
      record (put_eventfd fd (taken_from event).1 d) {
        memory = store 8 buf (taken_from event).0 d.memory;
      },
    )

-- The last argument is what `fake_eventfd_from_fd` found.
abbrev pub read_found :
    Kernel → ℤ → (buf count : ℕ) → Descriptors → Option EventFd → Result ℕ × Descriptors
read_found k fd buf count d (some event) = read_eventfd fd event buf count d
read_found k fd buf count d none = (
  (k.sys_read fd buf count d.memory).0,
  record d { memory = (k.sys_read fd buf count d.memory).1 },
)

unfoldable pub read : Kernel → ℤ → (buf count : ℕ) → Descriptors → Result ℕ × Descriptors
read k fd buf count d = read_found k fd buf count d (find fd d.fake_eventfds)

unfoldable pub write_eventfd : ℤ → EventFd → (buf count : ℕ) → Descriptors → Result ℕ × Descriptors
write_eventfd fd event buf count d = if buf == null || ltb count 8 then (err einval, d) else (
  ok 8,
  put_eventfd fd (record event { counter = (event.counter + load 8 buf d.memory) % 2 ^ 64 }) d,
)

-- The last argument is what `fake_eventfd_from_fd` found.
abbrev pub write_found :
    Kernel → ℤ → (buf count : ℕ) → Descriptors → Option EventFd → Result ℕ × Descriptors
write_found k fd buf count d (some event) = write_eventfd fd event buf count d
write_found k fd buf count d none = (
  (k.sys_write fd buf count d.memory).0,
  record d { memory = (k.sys_write fd buf count d.memory).1 },
)

unfoldable pub write : Kernel → ℤ → (buf count : ℕ) → Descriptors → Result ℕ × Descriptors
write k fd buf count d = write_found k fd buf count d (find fd d.fake_eventfds)

-- What `close` leaves in an entry; the number is -1.
abbrev pub released {ℓ} : {A : Type ℓ} → A → Slot A
released a = record { used = false; fd = negsuc 0; content = a }

abbrev pub no_watch : Slot EpollEvent
no_watch = record { used = false; fd = pos 0; content = record { events = 0; user_data = 0 } }

-- The watches after `memset(..., 0, ...)`.
abbrev pub no_watches : List (Slot EpollEvent)
no_watches = replicate fake_epoll_watch_count no_watch

-- The last two arguments are what the two searches found.
abbrev pub close_found :
    Kernel → ℤ → Descriptors → Option EventFd → Option EpollSet → Result ℕ × Descriptors
close_found k fd d (some event) set = (
  ok 0,
  record d {
    fake_eventfds = replace fd (released (record { flags = 0; counter = 0 })) d.fake_eventfds;
  },
)
close_found k fd d none (some set) = (
  ok 0,
  record d {
    fake_epolls =
        replace fd (released (record { set_flags = 0; watches = no_watches })) d.fake_epolls;
  },
)
close_found k fd d none none = (k.sys_close fd, d)

unfoldable pub close : Kernel → ℤ → Descriptors → Result ℕ × Descriptors
close k fd d = close_found k fd d (find fd d.fake_eventfds) (find fd d.fake_epolls)
