-- ===== src/Poll/Timeouts.antt =====
-- poll_fds of ruby_syscall_poll.c from its entry: liveness, what it reports, and its timer.
use cruby_on_sel.Prelude.{
  ℕ, zero, suc, ◌+◌, ◌<◌, ◌≡◌, ◌≢◌, refl, ap, sym, ◌∙◌, arith, Bool, true, false, ◌&&◌, not, ◌==◌,
  Bool-cases, List, [], ◌∷◌, map, some, inl, inr, ℤ, pos, negsuc, is_negative, ◌==ℤ◌,
}
use cruby_on_sel.Errno.{ok}
use cruby_on_sel.Memory.{null}
use cruby_on_sel.Poll.Table.{Slot}
use cruby_on_sel.Poll.Source.{EventFd}
use cruby_on_sel.Poll.Serial.{serial_has_input}
use cruby_on_sel.Poll.Polling.{
  PollFd, Notifications, clear, watches_stdin, check_fd, count_ready, is_positive, nanoseconds_of,
  Polled, arm, poll_rounds, is_empty, returned, poll_fds,
}
use cruby_on_sel.Poll.Waiting.{
  Quiet, Quiet-clear, reported, check_fd-reported, number_reporting, count_ready_lem,
}
use cruby_on_sel.Poll.Promises.{IsTimer, Wakes, Leaves, Disarms, not_armed, timer_refused}
use cruby_on_sel.Poll.Ending.{
  wait-IsEnded, wait-Wakes, rounds-IsEnded, round_ends, round_waits, some_of_over, not_over,
  IsEnded-eq, is_over, IsEnded, positive_not-negative,
}

watches_stdin-clear : (fds : List PollFd) → watches_stdin (map clear fds) ≡ watches_stdin fds
watches_stdin-clear [] = refl
watches_stdin-clear (p ∷ ps) = rw (watches_stdin-clear ps) refl

sign_cases :
    (timeout : ℤ)
    → (timeout ==ℤ pos 0) ≡ false
    → is_positive timeout ≡ false
    → is_negative timeout ≡ true
sign_cases (pos n) nonzero p = absurd (ground arith)
sign_cases (negsuc n) nonzero p = refl

map-check :
    (eventfds : List (Slot EventFd)) (input : Bool) (fds : List PollFd)
    → map (check_fd eventfds input) (map clear fds)
      ≡ map {A = PollFd} {B = PollFd} (λ p. record p { revents = reported eventfds input p }) fds
unfolding reported
map-check eventfds input [] = refl
map-check eventfds input (p ∷ ps) =
    rw (check_fd-reported eventfds input (clear p) refl, map-check eventfds input ps) refl

module _ {W : Type 0} (n : Notifications W) (running : W → Bool) (timer : IsTimer n running)
    (eventfds : List (Slot EventFd)) (timeout : ℤ) (fds : List PollFd) (quiet : Quiet fds) where
  abbrev over_at : Bool → W → Bool
  over_at expired w = is_over n running timer eventfds timeout fds quiet expired w

  abbrev started : W → Bool × W
  started w = n.start (nanoseconds_of timeout) w

  arm_first : (w : W) → is_positive timeout ≡ true → arm n timeout false w ≡ started w
  unfolding arm
  arm_first w set = rw set refl

  -- Without a timer the call does not wait.
  refused-IsEnded :
      (fuel : ℕ) (w : W)
      → running w ≡ false
      → over_at false w ≡ false
      → is_positive timeout ≡ true
      → (started w).0 ≡ false
      → IsEnded n running timer eventfds timeout fds quiet
          (poll_rounds n eventfds timeout (watches_stdin fds) (suc fuel) false false fds w)
  unfolding poll_rounds
  refused-IsEnded fuel w idle going set refused = (
    record {
      ready = 0;
      fds = map (check_fd eventfds (serial_has_input (n.ring w))) fds;
      world = (started w).1;
    },
    rw (going, arm_first w set, refused) refl,
    record {
      seen = w;
      left = timer_refused refused;
      reports = refl;
      counts = sym (not_over n running timer eventfds timeout fds quiet w going).0;
      disarmed = not_armed (timer.refuses (nanoseconds_of timeout) w refused ∙ idle);
      forever = λ e. absurd (positive_not-negative timeout set e);
    },
  )

  -- With a timer the round waits, whatever has come while the timer was started.
  accepted-IsEnded :
      (k fuel : ℕ) (w : W)
      → k + 2 < suc fuel
      → over_at false w ≡ false
      → is_positive timeout ≡ true
      → (started w).0 ≡ true
      → Wakes n timeout k (started w).1
      → IsEnded n running timer eventfds timeout fds quiet
          (poll_rounds n eventfds timeout (watches_stdin fds) (suc fuel) false false fds w)
  accepted-IsEnded k zero w le going set accepted wakes = absurd (omega arith)
  accepted-IsEnded k (suc fuel) w le going set accepted wakes =
      let armed = arm_first w set in
      let first = rw armed at (
        round_waits n running timer eventfds timeout fds quiet (suc fuel) false w going
          (ap (λ x. x.0) armed ∙ accepted)) in
      let rest =
        wait-IsEnded n running timer eventfds timeout fds quiet fuel (started w).1 (λ quietly.
          rounds-IsEnded n running timer eventfds timeout fds quiet k (suc fuel)
            (n.wait (started w).1).1 (omega arith) (λ unset. absurd (ground arith))
            (wait-Wakes n running timer eventfds timeout fds quiet k (started w).1 quietly
              wakes)) in
      IsEnded-eq n running timer eventfds timeout fds quiet (rw set at first) (rw set at rest)

  -- The first round starts the timer if there is a time limit; then the loop goes on from there.
  first-IsEnded :
      (k fuel : ℕ) (w : W)
      → k + 2 < fuel
      → running w ≡ false
      → (is_positive timeout ≡ true → (started w).0 ≡ true → Wakes n timeout k (started w).1)
      → (is_negative timeout ≡ true → watches_stdin fds ≡ true → Wakes n timeout k w)
      → IsEnded n running timer eventfds timeout fds quiet
          (poll_rounds n eventfds timeout (watches_stdin fds) fuel false false fds w)
  first-IsEnded k zero w le idle limited unlimited = absurd (omega arith)
  first-IsEnded k (suc fuel) w le idle limited unlimited = elim (Bool-cases (over_at false w)) [
    | inl over ↦
        round_ends n running timer eventfds timeout fds quiet fuel false false w over
          (λ e. not_armed idle) (some_of_over n running timer eventfds timeout fds quiet w over)
    | inr going ↦ elim (Bool-cases (is_positive timeout)) [
      | inr none_set ↦
          let forever = sign_cases timeout (ground arith) none_set in
          rw none_set at (
            rounds-IsEnded n running timer eventfds timeout fds quiet k (suc fuel) w (omega arith)
              (λ e. idle) (unlimited forever (ground arith)))
      | inl set ↦ elim (Bool-cases (started w).0) [
        | inr refused ↦ refused-IsEnded fuel w idle going set refused
        | inl accepted ↦ accepted-IsEnded k fuel w le going set accepted (limited set accepted)
      ]
    ]
  ]

-- What poll_fds answers: every descriptor keeps its number and its request and reports the bits
-- that held when the last round looked, the value is the number of descriptors that report, the
-- timer is not armed or has expired, and a call without a time limit that watches the standard input has something
-- to report.
pub record IsAnswered {W : Type 0} (n : Notifications W) (running : W → Bool)
    (eventfds : List (Slot EventFd)) (timeout : ℤ) (fds : List PollFd) (r : Polled W) : Type 0 where
  pub seen : W
  pub left : Leaves n timeout seen r.world
  pub reports :
      r.fds
      ≡ map {A = PollFd} {B = PollFd}
          (λ p. record p { revents = reported eventfds (serial_has_input (n.ring seen)) p })
          fds
  pub counts : r.ready ≡ number_reporting r.fds
  pub disarmed : Disarms n running timeout r.world
  pub forever : is_negative timeout ≡ true → watches_stdin fds ≡ true → 0 < r.ready

-- Given a notification and a timer that keep to `IsTimer`, with input that may come at any time,
-- and the timer not armed at the start: a call of poll_fds with descriptors returns, for every
-- number of rounds above `k` + 2, where input arrives within `k` waits or, with a time limit, the
-- timer ends one of them (nothing is asked where the call need not wait: with a limit of 0, or if
-- the timer cannot be started). Each descriptor then reports what holds in the last round, after
-- which only the timer is stopped or refused: nothing on a negative number, input on 0 when the
-- serial line has some, on an open counter unless it is 0 and on any other always, and output
-- always, as far as the descriptor asks for it. The value is the number of those that report. The
-- timer is not left armed, unless a wait that returned its bit has ended the call.
pub poll_fds-IsAnswered :
    {W : Type 0} (n : Notifications W) (running : W → Bool)
    → IsTimer n running
    → (eventfds : List (Slot EventFd)) (timeout : ℤ) (fds : List PollFd) (k fuel address : ℕ)
      (w : W)
    → address ≢ null
    → running w ≡ false
    → k + 2 < fuel
    → (is_positive timeout ≡ true
        → (n.start (nanoseconds_of timeout) w).0 ≡ true
        → Wakes n timeout k (n.start (nanoseconds_of timeout) w).1)
    → (is_negative timeout ≡ true → watches_stdin fds ≡ true → Wakes n timeout k w)
    → (r : Polled W) × (poll_fds n eventfds fuel address fds timeout w ≡ some (ok r))
      × IsAnswered n running eventfds timeout fds r
unfolding poll_fds
poll_fds-IsAnswered n running timer eventfds timeout fds k fuel address w real idle le limited
      unlimited =
    let given : (address == null && not (is_empty fds)) ≡ false = ground arith in
    let same = watches_stdin-clear fds in
    let (r, e, p) =
      first-IsEnded n running timer eventfds timeout (map clear fds) (Quiet-clear fds) k fuel w le
        idle limited (λ forever watching. unlimited forever (sym same ∙ watching)) in
    let same_reports = p.reports ∙ map-check eventfds (serial_has_input (n.ring p.seen)) fds in
    (
      r,
      rw given (ap returned (rw same at e)),
      record {
        seen = p.seen;
        left = p.left;
        reports = same_reports;
        counts =
            p.counts
            ∙ ap count_ready same_reports
            ∙ count_ready_lem eventfds (serial_has_input (n.ring p.seen)) fds
            ∙ sym (ap number_reporting same_reports);
        disarmed = p.disarmed;
        forever = λ forever watching. p.forever forever (same ∙ watching);
      },
    )
