-- ===== src/Poll/Stale.antt =====
-- The watches of a counter that is closed, in ruby_syscall_poll.c.
use cruby_on_sel.Prelude.{
  ℕ, suc, ◌≤◌, ◌<◌, ◌≡◌, ◌≢◌, refl, sym, ap, subst, ◌∙◌, arith, true, false, inl, inr, Bool-cases,
  List, [], ◌∷◌, none, some, length, ℤ, pos, ==ℤ_iff, bit_and,
}
use mathlib.Core.List.{Mem}
use cruby_on_sel.Errno.{ok}
use cruby_on_sel.Poll.Table.{Slot, answers, find, replace, is_full}
use cruby_on_sel.Poll.Lookup.{find-replace_self, length-replace}
use cruby_on_sel.Poll.Source.{
  Descriptors, Kernel, EventFd, EpollEvent, EpollSet, epollin, del, eventfd, close,
}
use cruby_on_sel.Poll.Epoll.{is_ready, is_signalled, delete_watch, control, epoll_ctl, epoll_wait}
use cruby_on_sel.Poll.Watches.{IsUnique, ready_watches}
use cruby_on_sel.Poll.Counters.{IsTable, eventfd-IsOpened, close-frees}
use cruby_on_sel.Poll.Ready.{signalled-Mem, wait-all}

module _ (fd : ℤ) (es es' : List (Slot EventFd)) (gone : find fd es' ≡ none)
    (others : (fd' : ℤ) → fd' ≢ fd → find fd' es' ≡ find fd' es) where
  -- Where the number is not watched, its counter does not matter.
  unwatched :
      (ws : List (Slot EpollEvent)) → find fd ws ≡ none → ready_watches es' ws ≡ ready_watches es ws
  unfolding find ready_watches is_ready
  unwatched [] new = refl
  unwatched (w ∷ ws) new = elim (Bool-cases (answers fd w)) [
    | inl here ↦ absurd (let wrong = rw here at new in cc)
    | inr apart ↦
        let rest = unwatched ws (rw apart at new) in
        elim (Bool-cases w.used) [
          | inr free ↦ rw free rest
          | inl used ↦
              let ne : w.fd ≢ fd =
                λ q. absurd (ground (arith, apart, used, (==ℤ_iff w.fd fd).1 q)) in
              rw (others w.fd ne, rest) refl
        ]
  ]

  -- Where it is watched once, the watch counts as much as one that was deleted.
  closed-deleted :
      (left : Slot EpollEvent) (ws : List (Slot EpollEvent))
      → left.used ≡ false
      → IsUnique ws
      → ready_watches es' ws ≡ ready_watches es (replace fd left ws)
  unfolding find replace ready_watches is_ready IsUnique
  closed-deleted left [] free u = refl
  closed-deleted left (w ∷ ws) free u = elim (Bool-cases (answers fd w)) [
    | inl here ↦
        let used : w.used ≡ true = ground arith in
        let same : w.fd ≡ fd = (==ℤ_iff w.fd fd).0 (ground arith) in
        let once : find fd ws ≡ none = subst (λ x. find x ws ≡ none) same (u.0 used) in
        rw (here, free, same, gone, used) (unwatched ws once)
    | inr apart ↦
        let rest = closed-deleted left ws free u.1 in
        elim (Bool-cases w.used) [
          | inr unused ↦ rw (apart, unused) rest
          | inl used ↦
              let ne : w.fd ≢ fd =
                λ q. absurd (ground (arith, apart, used, (==ℤ_iff w.fd fd).1 q)) in
              rw (apart, others w.fd ne, rest) refl
        ]
  ]

-- The watches that EPOLL_CTL_DEL leaves.
abbrev pub without : ℤ → EpollEvent → EpollSet → EpollSet
without fd watch set = record set {
  watches = replace fd (record { used = false; fd = fd; content = watch }) set.watches;
}

del_lem :
    (k : Kernel) (epfd fd : ℤ) (set : EpollSet) (watch : EpollEvent) (d : Descriptors)
    → find epfd d.fake_epolls ≡ some set
    → find fd set.watches ≡ some watch
    → let d' = (epoll_ctl k epfd del fd none d).1 in
      (find epfd d'.fake_epolls ≡ some (without fd watch set))
      × (d'.fake_eventfds ≡ d.fake_eventfds)
unfolding epoll_ctl control delete_watch
del_lem k epfd fd set watch d found known =
    let there : find epfd d.fake_epolls ≢ none = λ n. absurd (ground (arith, found, n)) in
    rw (found, known) (find-replace_self epfd (without fd watch set) d.fake_epolls there, refl)

-- `eventfd` gave out this number.
reopened :
    (initval flags : ℕ) (fd : ℤ) (d d' : Descriptors)
    → IsTable d
    → eventfd initval flags d ≡ (ok fd, d')
    → (find fd d'.fake_eventfds ≡ some (record { flags = flags; counter = initval }))
      × (d'.fake_epolls ≡ d.fake_epolls)
reopened initval flags fd d d' t e = elim (Bool-cases (is_full d.fake_eventfds)) [
  | inl full ↦ absurd (let wrong = sym ((eventfd-IsOpened initval flags d t).1 full) ∙ e in cc)
  | inr room ↦
      let (fd₁, d₁, e₁, o) = (eventfd-IsOpened initval flags d t).0 room in
      let same = sym e₁ ∙ e in
      let number : fd₁ ≡ fd = cc in
      let state : d₁ ≡ d' = ap (λ x. x.1) same in
      subst
        (λ x.
          (find fd x.fake_eventfds ≡ some (record { flags = flags; counter = initval }))
          × (x.fake_epolls ≡ d.fake_epolls))
        state
        (
          subst (λ n. find n d₁.fake_eventfds ≡ some (record { flags = flags; counter = initval }))
              number o.counts,
          o.epolls,
        )
]

-- A counter that an epoll set watches for input is closed. Right after that `epoll_wait`, with an
-- array for every watch, reports what it would report if the watch had been deleted with
-- EPOLL_CTL_DEL instead. But the watch is still there: if `eventfd` then gives out the same number,
-- with an initial value that is not 0, `epoll_wait` reports the new counter with the user data of
-- the old one.
pub epoll_wait-close :
    (k : Kernel) (epfd fd : ℤ) (set : EpollSet) (event : EventFd) (watch : EpollEvent)
    (events n : ℕ) (timeout : ℤ) (d : Descriptors)
    → IsTable d
    → find epfd d.fake_epolls ≡ some set
    → find fd d.fake_eventfds ≡ some event
    → IsUnique set.watches
    → find fd set.watches ≡ some watch
    → length set.watches ≤ suc n
    → bit_and watch.events epollin ≢ 0
    → (epoll_wait k epfd (suc events) (pos (suc n)) timeout (close k fd d).1
        ≡ epoll_wait k epfd (suc events) (pos (suc n)) timeout (epoll_ctl k epfd del fd none d).1)
      × ((initval flags : ℕ) (d' : Descriptors)
          → eventfd initval flags (close k fd d).1 ≡ (ok fd, d')
          → 0 < initval
          → (ready : List EpollEvent) × (epoll_wait k epfd (suc events) (pos (suc n)) timeout d'
              ≡ ok ready)
            × Mem (record watch { events = epollin }) ready)
epoll_wait-close k epfd fd set event watch events n timeout d t found open_now unique known fits
      asked =
    let d₁ = (close k fd d).1 in
    let (done, gone, others, sets, t₁) = close-frees k fd event d t open_now in
    let (deleted, counters) = del_lem k epfd fd set watch d found known in
    let found₁ : find epfd d₁.fake_epolls ≡ some set = ap (find epfd) sets ∙ found in
    let left : Slot EpollEvent = record { used = false; fd = fd; content = watch } in
    let size = length-replace fd left set.watches in
    (
      wait-all k epfd set events n timeout d₁ found₁ fits
          ∙ ap ok (
              closed-deleted fd d.fake_eventfds d₁.fake_eventfds gone others left set.watches refl
                unique
              ∙ sym (ap (λ es. ready_watches es (replace fd left set.watches)) counters))
          ∙ sym (
              wait-all k epfd (without fd watch set) events n timeout
                (epoll_ctl k epfd del fd none d).1 deleted (omega (arith, size, fits))),
      λ initval flags d' again positive.
          let (counts, sets') = reopened initval flags fd d₁ d' t₁ again in
          let found' : find epfd d'.fake_epolls ≡ some set = ap (find epfd) sets' ∙ found₁ in
          let signalled : is_signalled watch (find fd d'.fake_eventfds) ≡ true =
            rw counts (ground (arith, positive, asked)) in
          (
            ready_watches d'.fake_eventfds set.watches,
            wait-all k epfd set events n timeout d' found' fits,
            signalled-Mem d'.fake_eventfds fd watch set.watches known signalled,
          ),
    )
