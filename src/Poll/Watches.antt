-- ===== src/Poll/Watches.antt =====
-- The watches of one epoll set of ruby_syscall_poll.c as a finite map from descriptors to events, and
-- what epoll_wait reports of them.
use cruby_on_sel.Prelude.{
  ℕ, zero, suc, ◌+◌, ◌≡◌, ◌≢◌, refl, ap, sym, subst, ◌∙◌, arith, true, false, inl, inr, Bool-cases,
  if◌then◌else◌, List, [], ◌∷◌, none, some, take, bit_and, ◌&&◌, Option, ℤ, pos, negsuc, ◌==ℤ◌,
  ==ℤ_iff,
}
use cruby_on_sel.Errno.{einval, ok, err}
use cruby_on_sel.Poll.Table.{Slot, taken, answers, find, replace, claim, is_full}
use cruby_on_sel.Poll.Lookup.{==ℤ_ne, find-replace_other, IsClaimed, IsClaimed-now, IsClaimed-later}
use cruby_on_sel.Poll.Source.{Descriptors, Kernel, EventFd, EpollEvent, EpollSet, epollin}
use cruby_on_sel.Poll.Epoll.{is_ready, is_signalled, collect, epoll_wait}

-- No two entries in use have one number.
unfoldable pub IsUnique {ℓ} : {A : Type ℓ} → List (Slot A) → Type ℓ
IsUnique [] = Unit
IsUnique (s ∷ ss) = (s.used ≡ true → find s.fd ss ≡ none) × IsUnique ss

module _ {ℓ} {A : Type ℓ} where
  pub IsUnique-replace :
      (fd : ℤ) (new : Slot A) (ss : List (Slot A))
      → IsUnique ss
      → new.fd ≡ fd
      → IsUnique (replace fd new ss)
  unfolding IsUnique replace
  IsUnique-replace fd new [] u e = tt
  IsUnique-replace fd new (s ∷ ss) u e = elim (Bool-cases (answers fd s)) [
    | inl here ↦
        let same : s.fd ≡ new.fd = (==ℤ_iff s.fd fd).0 (ground arith) ∙ sym e in
        rw here (λ used. subst (λ x. find x ss ≡ none) same (u.0 (ground arith)), u.1)
    | inr later ↦ rw later (
      λ used.
          let ne : s.fd ≢ fd = λ q. absurd (ground (arith, (==ℤ_iff s.fd fd).1 q)) in
          let apart : answers s.fd new ≡ false =
            rw e (ground (arith, ==ℤ_ne fd s.fd (λ q. ne (sym q)))) in
          find-replace_other fd s.fd new ss ne apart ∙ u.0 used,
      IsUnique-replace fd new ss u.1 e,
    )
  ]

  pub find-deleted :
      (fd : ℤ) (new : Slot A) (ss : List (Slot A))
      → IsUnique ss
      → new.used ≡ false
      → find fd (replace fd new ss) ≡ none
  unfolding IsUnique replace find
  find-deleted fd new [] u free = refl
  find-deleted fd new (s ∷ ss) u free = elim (Bool-cases (answers fd s)) [
    | inr later ↦ rw (later, later) (find-deleted fd new ss u.1 free)
    | inl here ↦
        let same : s.fd ≡ fd = (==ℤ_iff s.fd fd).0 (ground arith) in
        rw (here, free) (subst (λ x. find x ss ≡ none) same (u.0 (ground arith)))
  ]

  pub IsUnique-IsClaimed :
      (fd : ℤ) (a : A) (i : ℕ) (ss : List (Slot A))
      → IsUnique ss
      → find fd ss ≡ none
      → is_full ss ≡ false
      → (ss' : List (Slot A)) × (claim (λ i. fd) a i ss ≡ some (fd, ss'))
        × IsClaimed a ss fd ss'
        × IsUnique ss'
  unfolding IsUnique find claim is_full
  IsUnique-IsClaimed fd a i [] u new room = absurd (ground arith)
  IsUnique-IsClaimed fd a i (s ∷ ss) u new room = elim (Bool-cases s.used) [
    | inr free ↦
        (taken fd a ∷ ss, rw free refl, IsClaimed-now a s ss fd free, (λ used. rw free at new, u.1))
    | inl used ↦
        let apart : (s.fd ==ℤ fd) ≡ false = ground (arith, new) in
        let (ss', e, c, u') =
          IsUnique-IsClaimed fd a (i + 1) ss u.1 (rw (used, apart) at new) (rw used at room) in
        (
          s ∷ ss',
          simp (used, e),
          IsClaimed-later a s ss fd ss' c,
          (
            λ w.
                c.others s.fd (λ q. absurd (ground (arith, apart, (==ℤ_iff s.fd fd).1 q)))
                ∙ u.0 used,
            u',
          ),
        )
  ]

-- The first `n` ready watches, in the order of the array, with EPOLLIN as the event.
unfoldable pub ready_watches : List (Slot EventFd) → List (Slot EpollEvent) → List EpollEvent
ready_watches eventfds [] = []
ready_watches eventfds (w ∷ ws) =
    if is_ready eventfds w
    then record w.content { events = epollin } ∷ ready_watches eventfds ws
    else ready_watches eventfds ws

collect-take :
    (eventfds : List (Slot EventFd)) (room : ℕ) (ws : List (Slot EpollEvent))
    → collect eventfds room ws ≡ take room (ready_watches eventfds ws)
unfolding collect ready_watches
collect-take eventfds zero ws = refl
collect-take eventfds (suc room) [] = refl
collect-take eventfds (suc room) (w ∷ ws) = elim (Bool-cases (is_ready eventfds w)) [
  | inl e ↦ rw (e, collect-take eventfds room ws) refl
  | inr e ↦ rw e (collect-take eventfds (suc room) ws)
]

-- `epoll_wait` on an open set reports the ready watches, cut to `maxevents`, or EINVAL.
pub epoll_wait-collects :
    (k : Kernel) (epfd : ℤ) (set : EpollSet) (events : ℕ) (timeout : ℤ) (d : Descriptors)
    → find epfd d.fake_epolls ≡ some set
    → ((n : ℕ)
        → epoll_wait k epfd (suc events) (pos (suc n)) timeout d
          ≡ ok (take (suc n) (ready_watches d.fake_eventfds set.watches)))
      × ((n : ℕ) → epoll_wait k epfd (suc events) (negsuc n) timeout d ≡ err einval)
      × (epoll_wait k epfd (suc events) (pos 0) timeout d ≡ err einval)
      × ((maxevents : ℤ) → epoll_wait k epfd 0 maxevents timeout d ≡ err einval)
unfolding epoll_wait
epoll_wait-collects k epfd set events timeout d known = rw known (
  λ n. ap ok (collect-take d.fake_eventfds (suc n) set.watches),
  λ n. refl,
  refl,
  λ maxevents. refl,
)

-- There is input for a watch: the entry is in use, its number is that of an open counter, the counter
-- is not 0, and EPOLLIN is asked for.
pub record HasInput (eventfds : List (Slot EventFd)) (w : Slot EpollEvent) : Type 0 where
  pub in_use : w.used ≡ true
  pub event : EventFd
  pub opened : find w.fd eventfds ≡ some event
  pub counted : event.counter ≢ 0
  pub asked : bit_and (w.content).events 1 ≢ 0

-- The report has an entry for each watch with input, in the order of the watches, with the watch's
-- data and EPOLLIN, and none for any other.
pub data Reports (eventfds : List (Slot EventFd))
    : List (Slot EpollEvent) → List EpollEvent → Type 0 where
  at_end : Reports eventfds [] []
  with_input :
      {w : Slot EpollEvent} {ws : List (Slot EpollEvent)} {es : List EpollEvent}
      → HasInput eventfds w
      → Reports eventfds ws es
      → Reports eventfds (w ∷ ws) (record w.content { events = 1 } ∷ es)
  without_input :
      {w : Slot EpollEvent} {ws : List (Slot EpollEvent)} {es : List EpollEvent}
      → ¬ HasInput eventfds w
      → Reports eventfds ws es
      → Reports eventfds (w ∷ ws) es

HasInput-signalled :
    (eventfds : List (Slot EventFd)) (w : Slot EpollEvent) (o : Option EventFd)
    → find w.fd eventfds ≡ o
    → w.used && is_signalled w.content o ≡ true
    → HasInput eventfds w
HasInput-signalled eventfds w none e s = absurd (ground (arith, s))
HasInput-signalled eventfds w (some event) e s = record {
  in_use = ground (arith, s);
  event = event;
  opened = e;
  counted = ground (arith, s);
  asked = ground (arith, s);
}

signalled-HasInput :
    (eventfds : List (Slot EventFd)) (w : Slot EpollEvent)
    → HasInput eventfds w
    → is_ready eventfds w ≡ true
unfolding is_ready
signalled-HasInput eventfds w i =
    let used = i.in_use in
    let counted = i.counted in
    let asked = i.asked in rw (used, i.opened) (ground (arith, counted, asked))

ready_watches-Reports :
    (eventfds : List (Slot EventFd)) (ws : List (Slot EpollEvent))
    → Reports eventfds ws (ready_watches eventfds ws)
unfolding ready_watches is_ready
ready_watches-Reports eventfds [] = at_end
ready_watches-Reports eventfds (w ∷ ws) = elim (Bool-cases (is_ready eventfds w)) [
  | inl e ↦ rw e (
      with_input (HasInput-signalled eventfds w (find w.fd eventfds) refl e)
        (ready_watches-Reports eventfds ws))
  | inr e ↦ rw e (
      without_input (λ i. absurd (ground (arith, e, signalled-HasInput eventfds w i)))
        (ready_watches-Reports eventfds ws))
]

-- `epoll_wait` on an open set, with an array for at least one event, whatever the timeout is: there is
-- one list of reports, the first `maxevents` of which are returned. It has exactly the watches in
-- use whose number is that of an open counter that is not 0 and that ask for EPOLLIN, in the order
-- of the array, each with its own data. Without an array, or with `maxevents` 0 or below, EINVAL is
-- reported.
pub epoll_wait-ready :
    (k : Kernel) (epfd : ℤ) (set : EpollSet) (events : ℕ) (timeout : ℤ) (d : Descriptors)
    → find epfd d.fake_epolls ≡ some set
    → ((es : List EpollEvent) × Reports d.fake_eventfds set.watches es
        × ((n : ℕ) → epoll_wait k epfd (suc events) (pos (suc n)) timeout d ≡ ok (take (suc n) es)))
      × ((n : ℕ) → epoll_wait k epfd (suc events) (negsuc n) timeout d ≡ err einval)
      × (epoll_wait k epfd (suc events) (pos 0) timeout d ≡ err einval)
      × ((maxevents : ℤ) → epoll_wait k epfd 0 maxevents timeout d ≡ err einval)
epoll_wait-ready k epfd set events timeout d known =
    let (collects, negative, nothing, no_array) =
      epoll_wait-collects k epfd set events timeout d known in
    (
      (
        ready_watches d.fake_eventfds set.watches,
        ready_watches-Reports d.fake_eventfds set.watches,
        collects,
      ),
      negative,
      nothing,
      no_array,
    )
