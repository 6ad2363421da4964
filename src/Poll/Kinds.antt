-- ===== src/Poll/Kinds.antt =====
-- The descriptors of ruby_syscall_poll.c from program start on.
use cruby_on_sel.Prelude.{
  ◌+◌, ◌≡◌, refl, ◌∙◌, sym, arith, false, ◌⊎◌, inl, inr, List, [], ◌∷◌, none, some, length, ◌<◌,
  ◌^◌, ℤ, pos, replicate,
}
use cruby_on_sel.Memory.{Memory}
use cruby_on_sel.Poll.Table.{Slot, find, IsNumbered}
use cruby_on_sel.Poll.Numbered.{find-number}
use cruby_on_sel.Poll.Source.{
  Descriptors, Kernel, fake_eventfd_base, fake_eventfd_count, fake_epoll_base, fake_epoll_count,
  no_watches, fake_epoll_watch_count, EventFd, EpollSet,
}
use cruby_on_sel.Poll.Counters.{IsTable}
use cruby_on_sel.Poll.Effects.{Effect, Effects, nothing, later}
use cruby_on_sel.Poll.Keeping.{Effect-IsTable}
use cruby_on_sel.Poll.Watches.{IsUnique}
use cruby_on_sel.Poll.Sound.{
  IsCounter, IsWatching, IsSound, find-Holds, no_watches-IsWatching, Effect-IsSound,
}
use cruby_on_sel.Poll.Machine.{Call, after_call, after_calls, call-Effects}

abbrev pub unused {ℓ} : {A : Type ℓ} → A → Slot A
unused a = record { used = false; fd = pos 0; content = a }

-- The statics are zero at program start.
abbrev pub at_start : Memory → Descriptors
at_start m = record {
  fake_eventfds = replicate fake_eventfd_count (unused (record { flags = 0; counter = 0 }));
  fake_epolls =
      replicate fake_epoll_count (unused (record { set_flags = 0; watches = no_watches }));
  memory = m;
}

at_start-IsTable : (m : Memory) → IsTable (at_start m)
unfolding IsNumbered
at_start-IsTable m = record {
  eventfd_numbers =
      (λ u. ground arith, (λ u. ground arith, (λ u. ground arith, (λ u. ground arith, tt))));
  eventfd_count = refl;
  epoll_numbers = (λ u. ground arith, (λ u. ground arith, tt));
  epoll_count = refl;
}

at_start-IsSound : (m : Memory) → IsSound (at_start m)
at_start-IsSound m = record {
  counters = (omega arith, (omega arith, (omega arith, (omega arith, tt))));
  sets = (no_watches-IsWatching 0, (no_watches-IsWatching 0, tt));
}

-- What every elementary change keeps, every sequence of calls keeps.
module _ (P : Descriptors → Type 0) (keeps : (d d' : Descriptors) → Effect d d' → P d → P d') where
  Effects-keep : {d d' : Descriptors} → Effects d d' → P d → P d'
  Effects-keep nothing p = p
  Effects-keep (later q e) p = keeps _ _ e (Effects-keep q p)

  calls-keep : (k : Kernel) (cs : List Call) (d : Descriptors) → P d → P (after_calls k cs d)
  unfolding after_calls
  calls-keep k [] d p = p
  calls-keep k (c ∷ cs) d p =
      calls-keep k cs (after_call k c d) (Effects-keep (call-Effects k c d) p)

-- No number belongs to a counter and to a set.
kinds_differ :
    (d : Descriptors) (fd : ℤ)
    → IsTable d
    → (find fd d.fake_eventfds ≡ none) ⊎ (find fd d.fake_epolls ≡ none)
kinds_differ d fd t = elim (find-number fake_eventfd_base fd d.fake_eventfds t.eventfd_numbers) [
  | inl e ↦ inl e
  | inr (i, lt, q) ↦ elim (find-number fake_epoll_base fd d.fake_epolls t.epoll_numbers) [
    | inl e ↦ inr e
    | inr (j, lt', q') ↦
        let same : pos (fake_eventfd_base + i) ≡ pos (fake_epoll_base + j) = sym q ∙ q' in
        absurd (ground (arith, t.eventfd_count))
  ]
]

-- From program start, after any calls of eventfd, eventfd_read, eventfd_write, epoll_create1, read, readv
-- on a counter, write, close, fcntl and epoll_ctl, with any kernel behind them: every entry in use
-- carries the number of its place, the arrays have their lengths, and no number belongs both to a
-- counter and to an epoll set.
pub calls-IsTable_kinds :
    (k : Kernel) (cs : List Call) (m : Memory)
    → IsTable (after_calls k cs (at_start m))
      × ((fd : ℤ)
          → (find fd (after_calls k cs (at_start m)).fake_eventfds ≡ none)
            ⊎ (find fd (after_calls k cs (at_start m)).fake_epolls ≡ none))
calls-IsTable_kinds k cs m =
    let t =
      calls-keep IsTable (λ d d' e t. Effect-IsTable e t) k cs (at_start m) (at_start-IsTable m) in
    (t, λ fd. kinds_differ (after_calls k cs (at_start m)) fd t)

-- From program start, after any calls of eventfd, eventfd_read, eventfd_write, epoll_create1, read,
-- readv on a counter, write, close, fcntl and epoll_ctl, with any kernel behind them: every open
-- counter is a number of 64 bits, and every open epoll set has eight entries and watches no
-- descriptor twice.
pub calls-IsSound :
    (k : Kernel) (cs : List Call) (m : Memory)
    → ((fd : ℤ) (event : EventFd)
        → find fd (after_calls k cs (at_start m)).fake_eventfds ≡ some event
        → event.counter < 2 ^ 64)
      × ((epfd : ℤ) (set : EpollSet)
          → find epfd (after_calls k cs (at_start m)).fake_epolls ≡ some set
          → IsUnique set.watches × (length set.watches ≡ fake_epoll_watch_count))
calls-IsSound k cs m =
    let v =
      calls-keep IsSound (λ d d' e v. Effect-IsSound e v) k cs (at_start m) (at_start-IsSound m) in
    (
      λ fd event e. find-Holds IsCounter fd event _ v.counters e,
      λ epfd set e. find-Holds IsWatching epfd set _ v.sets e,
    )
