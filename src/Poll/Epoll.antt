-- ===== src/Poll/Epoll.antt =====
-- The epoll sets of ruby_syscall_poll.c, lines 141 to 270.
use cruby_on_sel.Prelude.{
  ℕ, zero, suc, ◌+◌, Bool, false, ◌&&◌, ◌||◌, not, ◌==◌, ltb, if◌then◌else◌, List, [], ◌∷◌, Option,
  none, some, ℤ, pos, negsuc, is_negative, ◌==ℤ◌, bit_and,
}
use cruby_on_sel.Errno.{einval, emfile, eexist, enospc, enoent, Result, ok, err}
use cruby_on_sel.Poll.Table.{Slot, find, replace, taken, claim}
use cruby_on_sel.Poll.Source.{
  Descriptors, Kernel, EventFd, EpollEvent, EpollSet, fake_epoll_base, epollin, no_watches,
  ControlOp, add, mod_event, del,
}

abbrev pub opened_epoll : Descriptors → Option (ℤ × List (Slot EpollSet)) → Result ℤ × Descriptors
opened_epoll d none = (err emfile, d)
opened_epoll d (some (fd, slots)) = (ok fd, record d { fake_epolls = slots })

unfoldable pub epoll_create1 : ℕ → Descriptors → Result ℤ × Descriptors
epoll_create1 flags d = opened_epoll d (
    claim (λ i. pos (fake_epoll_base + i)) (record { set_flags = flags; watches = no_watches }) 0
      d.fake_epolls)

unfoldable pub epoll_create : ℤ → Descriptors → Result ℤ × Descriptors
epoll_create size d =
    if is_negative size || size ==ℤ pos 0 then (err einval, d) else epoll_create1 0 d

-- What a case of the switch returns, and the watches it leaves.
abbrev pub Outcome : Type 0
Outcome = Result ℕ × List (Slot EpollEvent)

abbrev pub claimed : List (Slot EpollEvent) → Option (ℤ × List (Slot EpollEvent)) → Outcome
claimed watches (some (n, watches')) = (ok 0, watches')
claimed watches none = (err enospc, watches)

-- The `Option` is the watch that the first loop of the case meets.
unfoldable pub add_watch : ℤ → EpollEvent → List (Slot EpollEvent) → Option EpollEvent → Outcome
add_watch fd event watches (some old) = (err eexist, watches)
add_watch fd event watches none = claimed watches (claim (λ i. fd) event 0 watches)

unfoldable pub modify_watch : ℤ → EpollEvent → List (Slot EpollEvent) → Option EpollEvent → Outcome
modify_watch fd event watches (some old) = (ok 0, replace fd (taken fd event) watches)
modify_watch fd event watches none = (err enoent, watches)

-- Only `used` is written.
unfoldable pub delete_watch : ℤ → List (Slot EpollEvent) → Option EpollEvent → Outcome
delete_watch fd watches (some old) =
    (ok 0, replace fd (record { used = false; fd = fd; content = old }) watches)
delete_watch fd watches none = (err enoent, watches)

-- The switch; `event` is `none` for NULL.
unfoldable pub control : ControlOp → ℤ → Option EpollEvent → List (Slot EpollEvent) → Outcome
control add fd (some event) watches = add_watch fd event watches (find fd watches)
control mod_event fd (some event) watches = modify_watch fd event watches (find fd watches)
control del fd event watches = delete_watch fd watches (find fd watches)
control _ fd _ watches = (err einval, watches)

-- A write through the pointer to the set's entry.
abbrev pub put_watches : ℤ → EpollSet → List (Slot EpollEvent) → Descriptors → Descriptors
put_watches epfd set watches d = record d {
  fake_epolls = replace epfd (taken epfd (record set { watches = watches })) d.fake_epolls;
}

-- The `Option` is what `fake_epoll_from_fd` found.
abbrev pub ctl_found :
    Kernel
    → (epfd : ℤ) → ControlOp
    → (fd : ℤ) → Option EpollEvent
    → Descriptors
    → Option EpollSet
    → Result ℕ × Descriptors
ctl_found k epfd op fd event d (some set) = (
  (control op fd event set.watches).0,
  put_watches epfd set (control op fd event set.watches).1 d,
)
ctl_found k epfd op fd event d none = (k.sys_epoll_ctl epfd op fd event, d)

unfoldable pub epoll_ctl :
    Kernel
    → (epfd : ℤ) → ControlOp
    → (fd : ℤ) → Option EpollEvent
    → Descriptors
    → Result ℕ × Descriptors
epoll_ctl k epfd op fd event d = ctl_found k epfd op fd event d (find epfd d.fake_epolls)

abbrev pub is_signalled : EpollEvent → Option EventFd → Bool
is_signalled watched (some event) = ltb 0 event.counter && not (bit_and watched.events epollin == 0)
is_signalled watched none = false

-- The watch is in use, and its descriptor is a counter that is not 0.
unfoldable pub is_ready : List (Slot EventFd) → Slot EpollEvent → Bool
is_ready eventfds w = w.used && is_signalled w.content (find w.fd eventfds)

-- The loop: `room` is `maxevents - ready`.
unfoldable pub collect : List (Slot EventFd) → (room : ℕ) → List (Slot EpollEvent) → List EpollEvent
collect eventfds zero ws = []
collect eventfds (suc room) [] = []
collect eventfds (suc room) (w ∷ ws) =
    let rest = collect eventfds (if is_ready eventfds w then room else suc room) ws in
    if is_ready eventfds w then record w.content { events = epollin } ∷ rest else rest

abbrev pub wait_found :
    Kernel
    → (epfd : ℤ) → (events : ℕ) → (maxevents timeout : ℤ) → Descriptors
    → Option EpollSet
    → Result (List EpollEvent)
wait_found k epfd events maxevents timeout d none = k.sys_epoll_wait epfd events maxevents timeout
wait_found k epfd zero maxevents timeout d (some set) = err einval
wait_found k epfd (suc events) (negsuc n) timeout d (some set) = err einval
wait_found k epfd (suc events) (pos zero) timeout d (some set) = err einval
wait_found k epfd (suc events) (pos (suc n)) timeout d (some set) =
    ok (collect d.fake_eventfds (suc n) set.watches)

-- The events that are stored through `events`; the value returned is their number.
unfoldable pub epoll_wait :
    Kernel
    → (epfd : ℤ) → (events : ℕ) → (maxevents timeout : ℤ) → Descriptors
    → Result (List EpollEvent)
epoll_wait k epfd events maxevents timeout d =
    wait_found k epfd events maxevents timeout d (find epfd d.fake_epolls)

unfoldable epoll_pwait :
    Kernel
    → (epfd : ℤ) → (events : ℕ) → (maxevents timeout : ℤ) → (sigmask : ℕ) → Descriptors
    → Result (List EpollEvent)
epoll_pwait k epfd events maxevents timeout sigmask d = epoll_wait k epfd events maxevents timeout d
