-- ===== src/Poll/Wakeup.antt =====
-- A communication pipe over ruby_syscall_poll.c: an event counter that an epoll set watches.
use cruby_on_sel.Prelude.{
  ℕ, suc, ◌+◌, ◌%◌, ◌^◌, ◌≤◌, ◌<◌, ◌≡◌, ◌≢◌, refl, sym, ap, ◌∙◌, arith, true, false, ◌||◌, ◌==◌,
  ltb, inl, inr, Bool-cases, List, none, some, length, ℤ, pos, ◌==ℤ◌, ==ℤ_iff, bit_and,
}
use mathlib.Core.List.{Mem}
use cruby_on_sel.Errno.{ok}
use cruby_on_sel.Memory.{null, load, load-lt}
use cruby_on_sel.Poll.Table.{Slot, find, is_full}
use cruby_on_sel.Poll.Lookup.{find-replace_self}
use cruby_on_sel.Poll.Source.{
  Descriptors, Kernel, EventFd, EpollEvent, EpollSet, epollin, efd_semaphore, add, read,
  read_eventfd, write,
}
use cruby_on_sel.Poll.Epoll.{is_signalled, add_watch, control, epoll_ctl, epoll_wait}
use cruby_on_sel.Poll.Watches.{IsUnique, ready_watches}
use cruby_on_sel.Poll.Counters.{write-adds, read-takes}
use cruby_on_sel.Poll.Control.{IsMapped, control-add}
use cruby_on_sel.Poll.Ready.{ready_watches-agree, claim-silent, signalled-Mem, wait-all}

-- The set after EPOLL_CTL_ADD of a silent counter.
record IsWatched (epfd fd : ℤ) (watch : EpollEvent) (set : EpollSet) (d d' : Descriptors)
    : Type 0 where
  pub watches : List (Slot EpollEvent)
  pub set_found : find epfd d'.fake_epolls ≡ some (record set { watches = watches })
  pub watch_found : find fd watches ≡ some watch
  pub eventfds : d'.fake_eventfds ≡ d.fake_eventfds
  pub memory : d'.memory ≡ d.memory
  pub size : length watches ≡ length set.watches
  pub silent : ready_watches d.fake_eventfds watches ≡ ready_watches d.fake_eventfds set.watches

epoll_ctl-IsWatched :
    (k : Kernel) (epfd fd : ℤ) (set : EpollSet) (event : EventFd) (watch : EpollEvent)
    (d : Descriptors)
    → find epfd d.fake_epolls ≡ some set
    → find fd d.fake_eventfds ≡ some event
    → event.counter ≡ 0
    → IsUnique set.watches
    → find fd set.watches ≡ none
    → is_full set.watches ≡ false
    → ((epoll_ctl k epfd add fd (some watch) d).0 ≡ ok 0)
      × IsWatched epfd fd watch set d (epoll_ctl k epfd add fd (some watch) d).1
unfolding epoll_ctl control add_watch
epoll_ctl-IsWatched k epfd fd set event watch d found known silent unique new room =
    let (ws', e, same) =
      claim-silent d.fake_eventfds fd event watch 0 set.watches known silent room in
    let mapped : IsMapped fd (some watch) set.watches (ok 0, ws') =
      rw (new, e) at ((control-add fd watch set.watches unique).2 new room) in
    let there : find epfd d.fake_epolls ≢ none = λ n. absurd (ground (arith, found, n)) in
    rw (found, new, e)
      (
        refl,
        record {
          watches = ws';
          set_found = find-replace_self epfd (record set { watches = ws' }) d.fake_epolls there;
          watch_found = mapped.here;
          eventfds = refl;
          memory = refl;
          size = mapped.size;
          silent = same;
        },
      )

-- A read leaves the epoll sets.
read_epolls :
    (k : Kernel) (fd : ℤ) (event : EventFd) (out count : ℕ) (d : Descriptors)
    → find fd d.fake_eventfds ≡ some event
    → (read k fd out count d).1.fake_epolls ≡ d.fake_epolls
unfolding read read_eventfd
read_epolls k fd event out count d known = elim (Bool-cases (out == null || ltb count 8)) [
  | inl bad ↦ rw (known, bad) refl
  | inr given ↦ elim (Bool-cases (event.counter == 0)) [
    | inl drained ↦ rw (known, given, drained) refl
    | inr some_left ↦ rw (known, given, some_left) refl
  ]
]

-- Two arrays that agree on one number and on all others agree.
find-agree :
    (fd : ℤ) (es es' : List (Slot EventFd))
    → find fd es ≡ find fd es'
    → ((fd' : ℤ) → fd' ≢ fd → find fd' es ≡ find fd' es')
    → (fd' : ℤ) → find fd' es ≡ find fd' es'
find-agree fd es es' here others fd' = elim (Bool-cases (fd' ==ℤ fd)) [
  | inl e ↦ let same : fd' ≡ fd = (==ℤ_iff fd' fd).0 e in rw same here
  | inr ne ↦ others fd' (λ q. absurd (ground (arith, ne, (==ℤ_iff fd' fd).1 q)))
]

-- A silent counter after a write: it holds the value.
record IsWritten (fd : ℤ) (event : EventFd) (value : ℕ) (d d' : Descriptors) : Type 0 where
  pub counts : find fd d'.fake_eventfds ≡ some (record event { counter = value })
  pub others : (fd' : ℤ) → fd' ≢ fd → find fd' d'.fake_eventfds ≡ find fd' d.fake_eventfds
  pub epolls : d'.fake_epolls ≡ d.fake_epolls

write-IsWritten :
    (k : Kernel) (fd : ℤ) (event : EventFd) (buf count : ℕ) (d : Descriptors)
    → find fd d.fake_eventfds ≡ some event
    → event.counter ≡ 0
    → buf ≢ null
    → 8 ≤ count
    → ((write k fd buf count d).0 ≡ ok 8)
      × IsWritten fd event (load 8 buf d.memory) d (write k fd buf count d).1
write-IsWritten k fd event buf count d known silent real large =
    let (wrote, counted, others, kept, sets) = write-adds k fd event buf count d known real large in
    let sum : (event.counter + load 8 buf d.memory) % 2 ^ 64 ≡ load 8 buf d.memory =
      omega (arith, silent, load-lt 8 buf d.memory) in
    (wrote, record { counts = rw sum at counted; others = others; epolls = sets })

-- Reading it gives the value back and leaves the counters as they were before the write.
read-IsWritten :
    (k : Kernel) (fd : ℤ) (event : EventFd) (value out count : ℕ) (d d' : Descriptors)
    → find fd d.fake_eventfds ≡ some event
    → event.counter ≡ 0
    → bit_and event.flags efd_semaphore ≡ 0
    → value < 2 ^ 64
    → value ≢ 0
    → out ≢ null
    → 8 ≤ count
    → IsWritten fd event value d d'
    → ((read k fd out count d').0 ≡ ok 8)
      × (load 8 out (read k fd out count d').1.memory ≡ value)
      × ((fd' : ℤ) → find fd' (read k fd out count d').1.fake_eventfds ≡ find fd' d.fake_eventfds)
      × ((read k fd out count d').1.fake_epolls ≡ d.fake_epolls)
read-IsWritten k fd event value out count d d' known silent plain small nonzero real large w =
    let holding : EventFd = record event { counter = value } in
    let (took, plainly, semaphore, rest) =
      (read-takes k fd holding out count d' w.counts small real large).1 nonzero in
    let (got, drained) = plainly plain in
    let old : record event { counter = 0 } ≡ event =
      ap (λ c. record event { counter = c }) (sym silent) in
    (
      took,
      got,
      find-agree fd _ d.fake_eventfds (drained ∙ ap some old ∙ sym known)
          (λ fd' apart. rest fd' apart ∙ w.others fd' apart),
      read_epolls k fd holding out count d' w.counts ∙ w.epolls,
    )

module _ (k : Kernel) (epfd fd : ℤ) (watch : EpollEvent) (buf out count : ℕ) (d : Descriptors) where
  -- The counter is watched, then written from `buf`, and then read into `out`.
  abbrev pub when_watched : Descriptors
  when_watched = (epoll_ctl k epfd add fd (some watch) d).1

  abbrev pub when_written : Descriptors
  when_written = (write k fd buf count when_watched).1

  abbrev pub when_read : Descriptors
  when_read = (read k fd out count when_written).1

-- An event counter as a communication pipe: let it be open in the plain mode, at 0 and not watched,
-- and let an open epoll set that watches no descriptor twice have a free entry. Adding the counter
-- to the set, with a watch that asks for EPOLLIN, succeeds and makes nothing more ready; after a
-- value that is not 0 is written, `epoll_wait`, with an array for every watch, reports the watch
-- with its user data; a read gives the value written, and after it `epoll_wait` reports what it
-- reported in the beginning. The buffers of the write and the read are not NULL and have at least
-- eight bytes.
pub epoll_wait-write :
    (k : Kernel) (epfd fd : ℤ) (set : EpollSet) (event : EventFd) (watch : EpollEvent)
    (buf out count events n : ℕ) (timeout : ℤ) (d : Descriptors)
    → find epfd d.fake_epolls ≡ some set
    → find fd d.fake_eventfds ≡ some event
    → event.counter ≡ 0
    → bit_and event.flags efd_semaphore ≡ 0
    → IsUnique set.watches
    → find fd set.watches ≡ none
    → is_full set.watches ≡ false
    → length set.watches ≤ suc n
    → bit_and watch.events epollin ≢ 0
    → load 8 buf d.memory ≢ 0
    → buf ≢ null
    → out ≢ null
    → 8 ≤ count
    → let wait = λ (d' : Descriptors). epoll_wait k epfd (suc events) (pos (suc n)) timeout d' in
      let d₁ = when_watched k epfd fd watch buf out count d in
      let d₂ = when_written k epfd fd watch buf out count d in
      let d₃ = when_read k epfd fd watch buf out count d in
      ((epoll_ctl k epfd add fd (some watch) d).0 ≡ ok 0)
      × (wait d₁ ≡ wait d)
      × ((write k fd buf count d₁).0 ≡ ok 8)
      × ((ready : List EpollEvent) × (wait d₂ ≡ ok ready)
          × Mem (record watch { events = epollin }) ready)
      × ((read k fd out count d₂).0 ≡ ok 8)
      × (load 8 out d₃.memory ≡ load 8 buf d.memory)
      × (wait d₃ ≡ wait d)
epoll_wait-write k epfd fd set event watch buf out count events n timeout d found known silent plain
      unique new room fits asked some_value real_in real_out large =
    let d₁ = when_watched k epfd fd watch buf out count d in
    let d₂ = when_written k epfd fd watch buf out count d in
    let d₃ = when_read k epfd fd watch buf out count d in
    let (added, w) =
      epoll_ctl-IsWatched k epfd fd set event watch d found known silent unique new room in
    let known₁ : find fd d₁.fake_eventfds ≡ some event = rw w.eventfds known in
    let value : load 8 buf d₁.memory ≡ load 8 buf d.memory = ap (load 8 buf) w.memory in
    let (wrote, written) : ((write k fd buf count d₁).0 ≡ ok 8)
        × IsWritten fd event (load 8 buf d.memory) d₁ (write k fd buf count d₁).1 =
      rw value at (write-IsWritten k fd event buf count d₁ known₁ silent real_in large) in
    let (took, got, same, sets) =
      read-IsWritten k fd event (load 8 buf d.memory) out count d₁ d₂ known₁ silent plain
        (omega (arith, load-lt 8 buf d.memory)) some_value real_out large written in
    let fits' : length w.watches ≤ suc n = omega (arith, w.size, fits) in
    let set' : EpollSet = record set { watches = w.watches } in
    let at_start = wait-all k epfd set events n timeout d found fits in
    let at_add = wait-all k epfd set' events n timeout d₁ w.set_found fits' in
    let at_write =
      wait-all k epfd set' events n timeout d₂ (ap (find epfd) written.epolls ∙ w.set_found)
        fits' in
    let at_read =
      wait-all k epfd set' events n timeout d₃ (ap (find epfd) sets ∙ w.set_found) fits' in
    let signalled : is_signalled watch (find fd d₂.fake_eventfds) ≡ true =
      rw written.counts (ground (arith, some_value, asked)) in
    (
      added,
      at_add ∙ ap ok (ap (λ es. ready_watches es w.watches) w.eventfds ∙ w.silent) ∙ sym at_start,
      wrote,
      (
        ready_watches d₂.fake_eventfds w.watches,
        at_write,
        signalled-Mem d₂.fake_eventfds fd watch w.watches w.watch_found signalled,
      ),
      took,
      got,
      at_read
          ∙ ap ok (
              ready_watches-agree d₃.fake_eventfds d.fake_eventfds w.watches
                (λ fd'. same fd' ∙ ap (find fd') w.eventfds)
              ∙ w.silent)
          ∙ sym at_start,
    )
