-- ===== src/Poll/Ready.antt =====
-- What makes a watch of ruby_syscall_poll.c ready.
use cruby_on_sel.Prelude.{
  ℕ, zero, suc, ◌+◌, ◌≤◌, ◌≡◌, refl, ap, ◌∙◌, subst, arith, true, false, ltb, inl, inr, Bool-cases,
  List, [], ◌∷◌, some, length, take, ℤ, pos, ==ℤ_iff,
}
use mathlib.Core.Option.{some_inj}
use mathlib.Core.List.{Mem, mem-cons_self, mem-cons_of_mem}
use cruby_on_sel.Errno.{ok}
use cruby_on_sel.Poll.Table.{Slot, taken, answers, find, claim, is_full}
use cruby_on_sel.Poll.Source.{Descriptors, Kernel, EventFd, EpollEvent, EpollSet, epollin}
use cruby_on_sel.Poll.Epoll.{is_ready, is_signalled, epoll_wait}
use cruby_on_sel.Poll.Watches.{ready_watches, epoll_wait-collects}

module _ (eventfds : List (Slot EventFd)) where
  -- Counters that answer alike make the same watches ready.
  pub ready_watches-agree :
      (eventfds' : List (Slot EventFd)) (ws : List (Slot EpollEvent))
      → ((fd : ℤ) → find fd eventfds ≡ find fd eventfds')
      → ready_watches eventfds ws ≡ ready_watches eventfds' ws
  unfolding ready_watches is_ready
  ready_watches-agree eventfds' [] same = refl
  ready_watches-agree eventfds' (w ∷ ws) same =
      rw (same w.fd, ready_watches-agree eventfds' ws same) refl

  length-ready_watches :
      (ws : List (Slot EpollEvent)) → length (ready_watches eventfds ws) ≤ length ws
  unfolding ready_watches
  length-ready_watches [] = omega arith
  length-ready_watches (w ∷ ws) = elim (Bool-cases (is_ready eventfds w)) [
    | inl e ↦ rw e (omega (arith, length-ready_watches ws))
    | inr e ↦ rw e (omega (arith, length-ready_watches ws))
  ]

  -- A new watch of a counter that is 0 makes nothing ready.
  pub claim-silent :
      (fd : ℤ) (event : EventFd) (watch : EpollEvent) (i : ℕ) (ws : List (Slot EpollEvent))
      → find fd eventfds ≡ some event
      → event.counter ≡ 0
      → is_full ws ≡ false
      → (ws' : List (Slot EpollEvent)) × (claim (λ i. fd) watch i ws ≡ some (fd, ws'))
        × (ready_watches eventfds ws' ≡ ready_watches eventfds ws)
  unfolding claim is_full ready_watches is_ready
  claim-silent fd event watch i [] known silent room = absurd (ground arith)
  claim-silent fd event watch i (s ∷ ss) known silent room = elim (Bool-cases s.used) [
    | inr free ↦
        let quiet : ltb 0 event.counter ≡ false = ground arith in
        (taken fd watch ∷ ss, rw free refl, rw (known, quiet, free) refl)
    | inl used ↦
        let (ss', e, same) =
          claim-silent fd event watch (i + 1) ss known silent (rw used at room) in
        (s ∷ ss', simp (used, e), rw same refl)
  ]

  -- A watch of a counter that is not 0 is among the ready ones.
  pub signalled-Mem :
      (fd : ℤ) (watch : EpollEvent) (ws : List (Slot EpollEvent))
      → find fd ws ≡ some watch
      → is_signalled watch (find fd eventfds) ≡ true
      → Mem (record watch { events = epollin }) (ready_watches eventfds ws)
  unfolding find ready_watches is_ready
  signalled-Mem fd watch [] known signalled = absurd cc
  signalled-Mem fd watch (w ∷ ws) known signalled = elim (Bool-cases (answers fd w)) [
    | inl here ↦
        let same : w.fd ≡ fd = (==ℤ_iff w.fd fd).0 (ground arith) in
        let content : w.content ≡ watch = some_inj.0 (rw here at known) in
        let used : w.used ≡ true = ground arith in
        let ready : is_signalled w.content (find w.fd eventfds) ≡ true =
          rw (same, content) signalled in
        rw (used, ready)
          (subst
            (λ x.
              Mem (record x { events = epollin })
                (record w.content { events = epollin } ∷ ready_watches eventfds ws))
            content mem-cons_self)
    | inr apart ↦
        let rest = signalled-Mem fd watch ws (rw apart at known) signalled in
        elim (Bool-cases (is_ready eventfds w)) [
          | inl ready ↦ rw ready (mem-cons_of_mem _ rest)
          | inr idle ↦ rw idle rest
        ]
  ]

take_all : {A : Type 0} (xs : List A) (n : ℕ) → length xs ≤ n → take n xs ≡ xs
take_all [] zero h = refl
take_all [] (suc n) h = refl
take_all (x ∷ xs) zero h = absurd (omega arith)
take_all (x ∷ xs) (suc n) h = ap (λ l. x ∷ l) (take_all xs n (omega arith))

-- An array with room for every watch receives all that are ready.
pub wait-all :
    (k : Kernel) (epfd : ℤ) (set : EpollSet) (events n : ℕ) (timeout : ℤ) (d : Descriptors)
    → find epfd d.fake_epolls ≡ some set
    → length set.watches ≤ suc n
    → epoll_wait k epfd (suc events) (pos (suc n)) timeout d
      ≡ ok (ready_watches d.fake_eventfds set.watches)
wait-all k epfd set events n timeout d known room =
    (epoll_wait-collects k epfd set events timeout d known).0 n
    ∙ ap ok (
        take_all (ready_watches d.fake_eventfds set.watches) (suc n)
          (omega (arith, length-ready_watches d.fake_eventfds set.watches)))
