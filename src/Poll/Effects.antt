-- ===== src/Poll/Effects.antt =====
-- What each call on the descriptors of ruby_syscall_poll.c does to the tables, as a sequence of
-- elementary changes.
use cruby_on_sel.Prelude.{
  ℕ, ◌+◌, ◌^◌, ◌<◌, ◌≡◌, refl, sym, ◌∙◌, arith, ◌||◌, not, Bool-cases, Option-cases, List, Option,
  none, some, length, ℤ, pos, ◌==◌, ltb, inl, inr, bit_and,
}
use mathlib.Core.Option.{some-ne-none}
use cruby_on_sel.Errno.{Errno, err}
use cruby_on_sel.Memory.{Memory, null}
use cruby_on_sel.Poll.Table.{Slot, taken, find, replace, claim, is_full}
use cruby_on_sel.Poll.Source.{
  Descriptors, Kernel, EventFd, EpollEvent, EpollSet, efd_semaphore, fake_eventfd_base,
  fake_epoll_base, no_watch, no_watches, eventfd, read, read_eventfd, write, write_eventfd, close,
  taken_from, released, ControlOp, add, mod_event, del, unknown,
}
use cruby_on_sel.Poll.Epoll.{Outcome, control, epoll_create1, epoll_ctl}
use cruby_on_sel.Poll.Fcntl.{Command, fcntl}
use cruby_on_sel.Poll.Watches.{IsUnique}
use cruby_on_sel.Poll.Control.{control-add, control-change}

-- No descriptor is watched twice if none was, and the number of entries stays.
abbrev pub StaysUnique : List (Slot EpollEvent) → List (Slot EpollEvent) → Type 0
StaysUnique ws ws' = IsUnique ws → IsUnique ws' × (length ws' ≡ length ws)

abbrev pub closed_counter : Slot EventFd
closed_counter = released (record { flags = 0; counter = 0 })

abbrev pub closed_set : Slot EpollSet
closed_set = released (record { set_flags = 0; watches = no_watches })

-- One elementary change.
pub data Effect (d : Descriptors) : Descriptors → Type 0 where
  writes_memory : (m : Memory) → Effect d (record d { memory = m })
  opens_counter :
      (event : EventFd) {n : ℤ} {slots : List (Slot EventFd)}
      → event.counter < 2 ^ 64
      → claim (λ i. pos (fake_eventfd_base + i)) event 0 d.fake_eventfds ≡ some (n, slots)
      → Effect d (record d { fake_eventfds = slots })
  puts_counter :
      (fd : ℤ) (event event' : EventFd)
      → find fd d.fake_eventfds ≡ some event
      → (event.counter < 2 ^ 64 → event'.counter < 2 ^ 64)
      → Effect d (record d { fake_eventfds = replace fd (taken fd event') d.fake_eventfds })
  drops_counter :
      (fd : ℤ) → Effect d (record d { fake_eventfds = replace fd closed_counter d.fake_eventfds })
  opens_set :
      (flags : ℕ) {n : ℤ} {slots : List (Slot EpollSet)}
      → claim
          (λ i. pos (fake_epoll_base + i))
          (record { set_flags = flags; watches = no_watches })
          0
          d.fake_epolls
        ≡ some (n, slots)
      → Effect d (record d { fake_epolls = slots })
  puts_set :
      (fd : ℤ) (set set' : EpollSet)
      → find fd d.fake_epolls ≡ some set
      → StaysUnique set.watches set'.watches
      → Effect d (record d { fake_epolls = replace fd (taken fd set') d.fake_epolls })
  drops_set : (fd : ℤ) → Effect d (record d { fake_epolls = replace fd closed_set d.fake_epolls })

pub data Effects (d : Descriptors) : Descriptors → Type 0 where
  nothing : Effects d d
  later : {d' d'' : Descriptors} → Effects d d' → Effect d' d'' → Effects d d''

pub one : {d d' : Descriptors} → Effect d d' → Effects d d'
one e = later nothing e

pub Effects-append : {d d' d'' : Descriptors} → Effects d d' → Effects d' d'' → Effects d d''
Effects-append p nothing = p
Effects-append p (later q e) = later (Effects-append p q) e

refused-StaysUnique :
    {ws : List (Slot EpollEvent)} {r : Outcome} {e : Errno}
    → r ≡ (err e, ws)
    → IsUnique ws
    → IsUnique r.1 × (length r.1 ≡ length ws)
refused-StaysUnique q u = rw q (u, refl)

control-StaysUnique :
    (op : ControlOp) (fd : ℤ) (event : Option EpollEvent) (ws : List (Slot EpollEvent))
    → StaysUnique ws (control op fd event ws).1
unfolding control
control-StaysUnique add fd none ws = λ u. (u, refl)
control-StaysUnique add fd (some event) ws = λ u.
    let (watched, full, fresh) = control-add fd event ws u in
    elim (Option-cases (find fd ws)) [
      | inr (old, e) ↦ refused-StaysUnique (watched (λ n. some-ne-none _ (sym e ∙ n))) u
      | inl new ↦ elim (Bool-cases (is_full ws)) [
        | inl none_free ↦ refused-StaysUnique (full new none_free) u
        | inr room ↦ let m = fresh new room in (m.unique, m.size)
      ]
    ]
control-StaysUnique mod_event fd none ws = λ u. (u, refl)
control-StaysUnique mod_event fd (some event) ws = λ u.
    let (changed, missing) = control-change fd event none ws u in
    elim (Option-cases (find fd ws)) [
      | inr (old, e) ↦ let m = (changed (λ n. some-ne-none _ (sym e ∙ n))).0 in (m.unique, m.size)
      | inl new ↦ refused-StaysUnique (missing new).0 u
    ]
control-StaysUnique del fd event ws = λ u.
    let (changed, missing) = control-change fd no_watch.content event ws u in
    elim (Option-cases (find fd ws)) [
      | inr (old, e) ↦ let m = (changed (λ n. some-ne-none _ (sym e ∙ n))).1 in (m.unique, m.size)
      | inl new ↦ refused-StaysUnique (missing new).1 u
    ]
control-StaysUnique unknown fd event ws = λ u. (u, refl)

pub eventfd-Effects :
    (initval flags : ℕ) (d : Descriptors) → initval < 2 ^ 64 → Effects d (eventfd initval flags d).1
unfolding eventfd
eventfd-Effects initval flags d small =
    let event : EventFd = record { flags = flags; counter = initval } in
    elim (Option-cases (claim (λ i. pos (fake_eventfd_base + i)) event 0 d.fake_eventfds)) [
      | inl full ↦ rw full nothing
      | inr ((n, slots), e) ↦ rw e (one (opens_counter event small e))
    ]

pub epoll_create1-Effects : (flags : ℕ) (d : Descriptors) → Effects d (epoll_create1 flags d).1
unfolding epoll_create1
epoll_create1-Effects flags d =
    let set : EpollSet = record { set_flags = flags; watches = no_watches } in
    elim (Option-cases (claim (λ i. pos (fake_epoll_base + i)) set 0 d.fake_epolls)) [
      | inl full ↦ rw full nothing
      | inr ((n, slots), e) ↦ rw e (one (opens_set flags e))
    ]

taken_from-small :
    (event : EventFd) → event.counter < 2 ^ 64 → (taken_from event).1.counter < 2 ^ 64
unfolding taken_from
taken_from-small event small = elim (Bool-cases (not (bit_and event.flags efd_semaphore == 0))) [
  | inl semaphore ↦ rw semaphore (omega arith)
  | inr plain ↦ rw plain (omega arith)
]

pub read-Effects :
    (k : Kernel) (fd : ℤ) (buf count : ℕ) (d : Descriptors) → Effects d (read k fd buf count d).1
unfolding read read_eventfd
read-Effects k fd buf count d = elim (Option-cases (find fd d.fake_eventfds)) [
  | inl e ↦ rw e (one (writes_memory _))
  | inr (event, e) ↦ rw e (elim (Bool-cases (buf == null || ltb count 8)) [
    | inl bad ↦ rw bad nothing
    | inr fine ↦ rw fine (elim (Bool-cases (event.counter == 0)) [
      | inl empty ↦ rw empty nothing
      | inr some_left ↦ rw some_left (
          later (one (puts_counter fd event (taken_from event).1 e (taken_from-small event)))
            (writes_memory _))
    ])
  ])
]

pub write-Effects :
    (k : Kernel) (fd : ℤ) (buf count : ℕ) (d : Descriptors) → Effects d (write k fd buf count d).1
unfolding write write_eventfd
write-Effects k fd buf count d = elim (Option-cases (find fd d.fake_eventfds)) [
  | inl e ↦ rw e (one (writes_memory _))
  | inr (event, e) ↦ rw e (elim (Bool-cases (buf == null || ltb count 8)) [
    | inl bad ↦ rw bad nothing
    | inr fine ↦ rw fine (one (puts_counter fd event _ e (λ small. omega arith)))
  ])
]

pub close-Effects : (k : Kernel) (fd : ℤ) (d : Descriptors) → Effects d (close k fd d).1
unfolding close
close-Effects k fd d = elim (Option-cases (find fd d.fake_eventfds)) [
  | inr (event, e) ↦ rw e (one (drops_counter fd))
  | inl e ↦ elim (Option-cases (find fd d.fake_epolls)) [
    | inl e' ↦ rw (e, e') nothing
    | inr (set, e') ↦ rw (e, e') (one (drops_set fd))
  ]
]

pub epoll_ctl-Effects :
    (k : Kernel) (epfd : ℤ) (op : ControlOp) (fd : ℤ) (event : Option EpollEvent) (d : Descriptors)
    → Effects d (epoll_ctl k epfd op fd event d).1
unfolding epoll_ctl
epoll_ctl-Effects k epfd op fd event d = elim (Option-cases (find epfd d.fake_epolls)) [
  | inl e ↦ rw e nothing
  | inr (set, e) ↦ rw e (one (puts_set epfd set _ e (control-StaysUnique op fd event set.watches)))
]

pub fcntl-Effects :
    (fd : ℤ) (cmd : Command) (arg : ℕ) (d : Descriptors) → Effects d (fcntl fd cmd arg d).1
unfolding fcntl
fcntl-Effects fd cmd arg d = elim (Option-cases (find fd d.fake_eventfds)) [
  | inr (event, e) ↦ rw e (one (puts_counter fd event _ e (λ small. small)))
  | inl e ↦ elim (Option-cases (find fd d.fake_epolls)) [
    | inl e' ↦ rw (e, e') nothing
    | inr (set, e') ↦ rw (e, e') (one (puts_set fd set _ e' (λ u. (u, refl))))
  ]
]
