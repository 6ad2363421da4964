-- ===== src/Poll/Ending.antt =====
-- poll and ppoll in ruby_syscall_poll.c: the wait ends, the timer does not stay armed unless it has expired, and the
-- descriptors report what is ready.
use cruby_on_sel.Prelude.{
  ℕ, zero, suc, ◌+◌, ◌<◌, ◌≡◌, refl, ap, ◌∙◌, arith, Bool, true, false, ◌&&◌, ◌||◌, not, ltb,
  Bool-cases, if◌then◌else◌, List, map, Option, some, inl, inr, ℤ, pos, negsuc, is_negative, ◌==ℤ◌,
}
use cruby_on_sel.Poll.Table.{Slot}
use cruby_on_sel.Poll.Source.{EventFd}
use cruby_on_sel.Poll.Serial.{serial_has_input}
use cruby_on_sel.Poll.Polling.{
  PollFd, Notifications, watches_stdin, check_fd, count_ready, is_positive, Polled, arm,
  poll_rounds,
}
use cruby_on_sel.Poll.Waiting.{Quiet, check-Quiet, ready_of_input}
use cruby_on_sel.Poll.Promises.{
  IsTimer, Wakes, Disarms, not_armed, expired, as_seen, timer_stopped, IsPolled,
}

negative_ne : (timeout : ℤ) → is_negative timeout ≡ true → (timeout ==ℤ pos 0) ≡ false
negative_ne (pos n) e = absurd (ground arith)
negative_ne (negsuc n) e = refl

steady_flags :
    (p fired : Bool)
    → (p && fired) ≡ false
    → (((p || p) && not fired) ≡ p) × (((p || p) && fired) ≡ false)
steady_flags true true e = absurd (ground arith)
steady_flags true false e = (refl, refl)
steady_flags false fired e = (refl, refl)

pub positive_not-negative :
    (timeout : ℤ) → is_positive timeout ≡ true → is_negative timeout ≡ true → ⊥
positive_not-negative (pos n) p e = ground arith
positive_not-negative (negsuc n) p e = ground arith

module _ {W : Type 0} (n : Notifications W) (running : W → Bool) (timer : IsTimer n running)
    (eventfds : List (Slot EventFd)) (timeout : ℤ) (fds : List PollFd) (quiet : Quiet fds) where
  abbrev pub input_at : W → Bool
  input_at w = serial_has_input (n.ring w)

  abbrev pub IsEnded : Option (Polled W) → Type 0
  IsEnded o = (r : Polled W) × (o ≡ some r) × IsPolled n running eventfds timeout fds r

  abbrev pub ready_at : W → ℕ
  ready_at w = count_ready (map (check_fd eventfds (input_at w)) fds)

  -- A round that returns, with the timer running or not.
  stopped-IsPolled :
      (armed : Bool) (w : W)
      → (armed ≡ false → Disarms n running timeout w)
      → (is_negative timeout ≡ true → watches_stdin fds ≡ true → 0 < ready_at w)
      → IsPolled n running eventfds timeout fds (record {
        ready = ready_at w;
        fds = map (check_fd eventfds (input_at w)) fds;
        world = if armed then n.stop w else w;
      })
  stopped-IsPolled true w idle some_ready = record {
    seen = w;
    left = timer_stopped;
    reports = refl;
    counts = refl;
    disarmed = not_armed (timer.stops w);
    forever = some_ready;
  }
  stopped-IsPolled false w idle some_ready = record {
    seen = w;
    left = as_seen;
    reports = refl;
    counts = refl;
    disarmed = idle refl;
    forever = some_ready;
  }

  -- The test that ends the loop.
  abbrev pub is_over : (ended : Bool) → W → Bool
  is_over ended w = ltb 0 (ready_at w) || ended || timeout ==ℤ pos 0 || not (watches_stdin fds)

  pub round_ends :
      (fuel : ℕ) (armed ended : Bool) (w : W)
      → is_over ended w ≡ true
      → (armed ≡ false → Disarms n running timeout w)
      → (is_negative timeout ≡ true → watches_stdin fds ≡ true → 0 < ready_at w)
      → IsEnded (poll_rounds n eventfds timeout (watches_stdin fds) (suc fuel) armed ended fds w)
  unfolding poll_rounds
  round_ends fuel armed ended w over idle some_ready =
      (_, rw over refl, stopped-IsPolled armed w idle some_ready)

  pub not_over : (w : W) → is_over false w ≡ false → (ready_at w ≡ 0) × (watches_stdin fds ≡ true)
  not_over w e = ground arith

  -- A round that waits: nothing was ready, so the descriptors are as before.
  pub round_waits :
      (fuel : ℕ) (armed : Bool) (w : W)
      → is_over false w ≡ false
      → (arm n timeout armed w).0 ≡ true
      → poll_rounds n eventfds timeout (watches_stdin fds) (suc fuel) armed false fds w ≡ (
          let w' = (arm n timeout armed w).1 in
          poll_rounds n eventfds timeout
            (watches_stdin fds)
            fuel
            ((armed || is_positive timeout) && not (n.wait w').0)
            ((armed || is_positive timeout) && (n.wait w').0)
            fds
            (n.wait w').1)
  unfolding poll_rounds
  round_waits fuel armed w going waits =
      rw (going, waits, check-Quiet eventfds (input_at w) fds quiet (not_over w going).0) refl

  -- With input the loop ends, since the descriptors watch for it or the call does not wait at all.
  over_of_input : (w : W) → input_at w ≡ true → is_over false w ≡ true
  over_of_input w e = elim (Bool-cases (watches_stdin fds)) [
    | inl watching ↦ ground (arith, ready_of_input eventfds (input_at w) fds quiet e watching)
    | inr alone ↦ ground arith
  ]

  pub some_of_over :
      (w : W)
      → is_over false w ≡ true
      → is_negative timeout ≡ true
      → watches_stdin fds ≡ true
      → 0 < ready_at w
  some_of_over w over forever watching =
      let limit : (timeout ==ℤ pos 0) ≡ false = negative_ne timeout forever in ground arith

  arm_steady : (w : W) → arm n timeout (is_positive timeout) w ≡ (true, w)
  unfolding arm
  arm_steady w = elim (Bool-cases (is_positive timeout)) [ inl e ↦ rw e refl | inr e ↦ rw e refl ]

  -- What follows a wait that the timer has ended, or has not ended.
  abbrev pub after_wait : (fuel : ℕ) (fired : Bool) → W → Option (Polled W)
  after_wait fuel fired w =
      poll_rounds n eventfds timeout (watches_stdin fds) fuel
        ((is_positive timeout || is_positive timeout) && not fired)
        ((is_positive timeout || is_positive timeout) && fired) fds w

  expired-IsEnded :
      (fuel : ℕ) (w : W)
      → is_positive timeout ≡ true
      → Disarms n running timeout w
      → IsEnded (after_wait (suc fuel) true w)
  expired-IsEnded fuel w limit idle = rw limit (
      round_ends fuel false true w (ground arith) (λ e. idle)
        (λ forever. absurd (positive_not-negative timeout limit forever)))

  pub IsEnded-eq : {o o' : Option (Polled W)} → o ≡ o' → IsEnded o' → IsEnded o
  IsEnded-eq e (r, e', p) = (r, e ∙ e', p)

  pub waits_at :
      (fuel : ℕ) (w : W)
      → is_over false w ≡ false
      → poll_rounds n eventfds timeout
          (watches_stdin fds)
          (suc fuel)
          (is_positive timeout)
          false
          fds
          w
        ≡ after_wait fuel (n.wait w).0 (n.wait w).1
  waits_at fuel w going =
      let steady = arm_steady w in
      rw steady at (round_waits fuel (is_positive timeout) w going (ap (λ x. x.0) steady))

  steady_wait :
      (fuel : ℕ) (fired : Bool) (w : W)
      → (is_positive timeout && fired) ≡ false
      → after_wait fuel fired w
        ≡ poll_rounds n eventfds timeout (watches_stdin fds) fuel (is_positive timeout) false fds w
  steady_wait fuel fired w quietly =
      let flags = steady_flags (is_positive timeout) fired quietly in rw flags.1 (rw flags.0 refl)

  -- A wait that the timer has not ended is followed by the next round.
  pub wait-IsEnded :
      (fuel : ℕ) (w : W)
      → ((is_positive timeout && (n.wait w).0) ≡ false
          → IsEnded (
              poll_rounds n eventfds timeout
                (watches_stdin fds)
                (suc fuel)
                (is_positive timeout)
                false
                fds
                (n.wait w).1))
      → IsEnded (after_wait (suc fuel) (n.wait w).0 (n.wait w).1)
  wait-IsEnded fuel w later = elim (Bool-cases (is_positive timeout && (n.wait w).0)) [
    | inl fired ↦
        let limit : is_positive timeout ≡ true = ground arith in
        let ended : (n.wait w).0 ≡ true = ground arith in
        rw ended (expired-IsEnded fuel (n.wait w).1 limit (expired w limit ended))
    | inr quietly ↦
        IsEnded-eq (steady_wait (suc fuel) (n.wait w).0 (n.wait w).1 quietly) (later quietly)
  ]

  Wakes-more : (k : ℕ) (w : W) → Wakes n timeout k w → Wakes n timeout (suc k) w
  unfolding Wakes
  Wakes-more zero w wakes = inl wakes
  Wakes-more (suc k) w (inl input) = inl input
  Wakes-more (suc k) w (inr (inl fired)) = inr (inl fired)
  Wakes-more (suc k) w (inr (inr later)) = inr (inr (Wakes-more k (n.wait w).1 later))

  -- What is to come before a wait that the timer does not end is to come after it.
  pub wait-Wakes :
      (k : ℕ) (w : W)
      → (is_positive timeout && (n.wait w).0) ≡ false
      → Wakes n timeout k w
      → Wakes n timeout k (n.wait w).1
  unfolding Wakes
  wait-Wakes zero w quietly wakes = timer.wait_keeps w wakes
  wait-Wakes (suc k) w quietly (inl input) = inl (timer.wait_keeps w input)
  wait-Wakes (suc k) w quietly (inr (inl (limit, fired))) = absurd (ground arith)
  wait-Wakes (suc k) w quietly (inr (inr later)) = Wakes-more k (n.wait w).1 later

  later-Wakes :
      (k : ℕ) (w : W)
      → is_over false w ≡ false
      → (is_positive timeout && (n.wait w).0) ≡ false
      → Wakes n timeout (suc k) w
      → Wakes n timeout k (n.wait w).1
  unfolding Wakes
  later-Wakes k w going quietly (inl input) = absurd (ground (arith, over_of_input w input))
  later-Wakes k w going quietly (inr (inl (limit, fired))) = absurd (ground arith)
  later-Wakes k w going quietly (inr (inr later)) = later

  pub rounds-IsEnded :
      (k fuel : ℕ) (w : W)
      → k + 1 < fuel
      → (is_positive timeout ≡ false → running w ≡ false)
      → Wakes n timeout k w
      → IsEnded (
          poll_rounds n eventfds timeout (watches_stdin fds) fuel (is_positive timeout) false fds w)
  unfolding Wakes
  rounds-IsEnded k zero w le idle wakes = absurd (omega arith)
  rounds-IsEnded zero (suc fuel) w le idle wakes =
      let over = over_of_input w wakes in
      round_ends fuel (is_positive timeout) false w over (λ e. not_armed (idle e))
        (some_of_over w over)
  rounds-IsEnded (suc k) (suc zero) w le idle wakes = absurd (omega arith)
  rounds-IsEnded (suc k) (suc (suc fuel)) w le idle wakes = elim (Bool-cases (is_over false w)) [
    | inl over ↦
        round_ends (suc fuel) (is_positive timeout) false w over (λ e. not_armed (idle e))
          (some_of_over w over)
    | inr going ↦ IsEnded-eq (waits_at (suc fuel) w going) (
        wait-IsEnded fuel w (λ quietly.
          rounds-IsEnded k (suc fuel) (n.wait w).1 (omega arith)
            (λ unlimited. timer.waits w (idle unlimited)) (later-Wakes k w going quietly wakes)))
  ]
