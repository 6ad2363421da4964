-- ===== src/Poll/Wired.antt =====
-- poll_fds of ruby_syscall_poll.c beside the serial line: waiting takes no input.
use cruby_on_sel.Prelude.{
  ℕ, zero, suc, ◌<◌, ◌≡◌, sym, ap, arith, Bool, true, false, ◌&&◌, ◌||◌, not, ◌==◌, ltb, inl, inr,
  Bool-cases, List, [], map, Option, none, some, if◌then◌else◌, length, length-append, ℤ, pos,
  ◌==ℤ◌,
}
use mathlib.Core.Option.{some_inj, some-ne-none}
use cruby_on_sel.Errno.{ok}
use cruby_on_sel.Memory.{null}
use cruby_on_sel.Poll.Table.{Slot}
use cruby_on_sel.Poll.Source.{EventFd}
use cruby_on_sel.Poll.Serial.{SerialLine, serial_has_input}
use cruby_on_sel.Poll.Queue.{
  IsRing, queued, queued_empty, Passes, Passes-none, Passes-then, queued_next,
}
use cruby_on_sel.Poll.Polling.{
  PollFd, Notifications, clear, watches_stdin, is_empty, returned, check_fd, count_ready,
  is_positive, nanoseconds_of, Polled, arm, poll_rounds, poll_fds,
}
use cruby_on_sel.Poll.Promises.{Leaves, as_seen, timer_stopped, timer_refused}

-- The devices that poll_fds waits on have the serial line among them, with its indices within the array,
-- and in each of their calls the server only appends to it.
pub record IsWired {W : Type 0} (n : Notifications W) (line : W → SerialLine) : Type 0 where
  pub ring : (w : W) → n.ring w ≡ (line w).ring
  pub valid : (w : W) → IsRing (line w).ring
  pub start : (t : ℕ) (w : W) → Passes [] (line w) (line (n.start t w).1)
  pub stop : (w : W) → Passes [] (line w) (line (n.stop w))
  pub wait : (w : W) → Passes [] (line w) (line (n.wait w).1)

queued-nonempty :
    (l : SerialLine) → IsRing l.ring → serial_has_input l.ring ≡ true → 0 < length (queued l.ring)
queued-nonempty l h e = omega (arith, ap length (queued_next l h e))

-- Input stays while nothing is read.
pub Passes-has_input :
    {l l' : SerialLine}
    → Passes [] l l'
    → IsRing l.ring
    → serial_has_input l.ring ≡ true
    → serial_has_input l'.ring ≡ true
Passes-has_input {l} {l'} p h e = elim (Bool-cases (serial_has_input l'.ring)) [
  | inl there ↦ there
  | inr gone ↦
      let none_left = ap length (queued_empty l'.ring p.ring gone) in
      absurd (
        omega (
          arith,
          none_left,
          ap length p.order,
          length-append (queued l.ring) p.arrived,
          queued-nonempty l h e,
        ))
]

returned_inj : {A : Type 0} (o : Option A) (a : A) → returned o ≡ some (ok a) → o ≡ some a
returned_inj none a e = absurd (some-ne-none _ (sym e))
returned_inj (some b) a e = cc

module _ {W : Type 0} (n : Notifications W) (line : W → SerialLine) (wired : IsWired n line)
    (eventfds : List (Slot EventFd)) (timeout : ℤ) where
  arm-Passes : (armed : Bool) (w : W) → Passes [] (line w) (line (arm n timeout armed w).1)
  unfolding arm
  arm-Passes armed w = elim (Bool-cases (is_positive timeout && not armed)) [
    | inl e ↦ rw e (wired.start (nanoseconds_of timeout) w)
    | inr e ↦ rw e (Passes-none (line w) (wired.valid w))
  ]

  ended-Passes : (armed : Bool) (w : W) → Passes [] (line w) (line (if armed then n.stop w else w))
  ended-Passes true w = wired.stop w
  ended-Passes false w = Passes-none (line w) (wired.valid w)

  -- Waiting takes no input.
  poll_rounds-Passes :
      (watching : Bool) (fuel : ℕ) (armed expired : Bool) (fds : List PollFd) (w : W) (r : Polled W)
      → poll_rounds n eventfds timeout watching fuel armed expired fds w ≡ some r
      → Passes [] (line w) (line r.world)
  unfolding poll_rounds
  poll_rounds-Passes watching zero armed expired fds w r e = absurd (some-ne-none _ (sym e))
  poll_rounds-Passes watching (suc fuel) armed expired fds w r e =
      let fds' = map (check_fd eventfds (serial_has_input (n.ring w))) fds in
      let started = arm n timeout armed w in
      let p = arm-Passes armed w in
      elim (Bool-cases (ltb 0 (count_ready fds') || expired || timeout ==ℤ pos 0 || not watching)) [
        | inl over ↦
            let last = ap (λ (q : Polled W). q.world) (some_inj.0 (rw over at e)) in
            rw (sym last) (ended-Passes armed w)
        | inr going ↦ elim (Bool-cases started.0) [
          | inr refused ↦
              let last = ap (λ (q : Polled W). q.world) (some_inj.0 (rw (going, refused) at e)) in
              rw (sym last) p
          | inl waits ↦ Passes-then p (
              Passes-then (wired.wait started.1)
                (poll_rounds-Passes watching fuel _ _ fds' _ r (rw (going, waits) at e)))
        ]
      ]

  pub left-Passes : {w w' : W} → Leaves n timeout w w' → Passes [] (line w) (line w')
  left-Passes {w} as_seen = Passes-none (line w) (wired.valid w)
  left-Passes {w} timer_stopped = wired.stop w
  left-Passes {w} (timer_refused refused) = wired.start (nanoseconds_of timeout) w

  pub poll_fds-Passes :
      (fuel address : ℕ) (fds : List PollFd) (w : W) (r : Polled W)
      → poll_fds n eventfds fuel address fds timeout w ≡ some (ok r)
      → Passes [] (line w) (line r.world)
  unfolding poll_fds
  poll_fds-Passes fuel address fds w r e =
      elim (Bool-cases (address == null && not (is_empty fds))) [
        | inl bad ↦ absurd (let wrong = rw bad at e in cc)
        | inr given ↦
            poll_rounds-Passes (watches_stdin fds) fuel false false (map clear fds) w r
              (returned_inj _ r (rw given at e))
      ]
