-- ===== src/Poll/Waiting.antt =====
-- The waiting of poll and ppoll in ruby_syscall_poll.c: that it ends, and with what.
use cruby_on_sel.Prelude.{
  suc, ◌+◌, ◌<◌, ◌≡◌, refl, ap, sym, ◌∙◌, arith, Bool, true, false, ◌&&◌, ◌==◌, Bool-cases,
  if◌then◌else◌, List, [], ◌∷◌, map, All, not, ◌||◌, bit_and, ℕ, Option, none, some, inl, inr, pos,
  is_negative, ◌==ℤ◌, ==ℤ_iff,
}
use cruby_on_sel.Poll.Table.{Slot, find}
use cruby_on_sel.Poll.Source.{EventFd}
use cruby_on_sel.Poll.Polling.{
  pollin, pollout, PollFd, clear, wants, watches_stdin, counter_readable, is_readable, add_bit,
  check_fd, count_ready,
}

-- Nothing has been reported yet.
abbrev pub Quiet : List PollFd → Type 0
Quiet = All (λ (p : PollFd). p.revents ≡ 0)

pub Quiet-clear : (fds : List PollFd) → Quiet (map clear fds)
Quiet-clear [] = tt
Quiet-clear (p ∷ ps) = (refl, Quiet-clear ps)

-- Nothing can be read from a counter that is 0.
abbrev pub is_dry : Option EventFd → Bool
is_dry none = false
is_dry (some event) = event.counter == 0

-- What holds for a descriptor, a bit for each event. A negative number has none. 1 is for input that is
-- asked for: on 0 when the serial line has some, on an open counter unless it is 0, on all others
-- always. 4 is for output that is asked for.
unfoldable pub reported : List (Slot EventFd) → (input : Bool) → PollFd → ℕ
reported eventfds input p =
    if is_negative p.fd
    then 0
    else (if bit_and p.events 1 == 0
          || (if p.fd ==ℤ pos 0 then not input else is_dry (find p.fd eventfds))
        then 0
        else 1)
      + (if bit_and p.events 4 == 0 then 0 else 4)

-- How many descriptors report something.
unfoldable pub number_reporting : List PollFd → ℕ
number_reporting [] = 0
number_reporting (p ∷ ps) = (if p.revents == 0 then 0 else 1) + number_reporting ps

counter_bit :
    (o : Option EventFd) (asked : Bool)
    → ◌≡◌ {A = ℕ}
        (if counter_readable o && asked then 1 else 0)
        (if not asked || is_dry o then 0 else 1)
counter_bit none true = refl
counter_bit none false = refl
counter_bit (some event) true = ground arith
counter_bit (some event) false = ground arith

stdin_bit :
    (input asked : Bool)
    → ◌≡◌ {A = ℕ} (if input && asked then 1 else 0) (if not asked || not input then 0 else 1)
stdin_bit true true = refl
stdin_bit true false = refl
stdin_bit false true = refl
stdin_bit false false = refl

not-not : (b : Bool) → not (not b) ≡ b
not-not true = refl
not-not false = refl

two_bits :
    (a b : Bool)
    → add_bit pollout b (add_bit pollin a 0) ≡ (if a then 1 else 0) + (if b then 4 else 0)
two_bits true true = refl
two_bits true false = refl
two_bits false true = refl
two_bits false false = refl

module _ (eventfds : List (Slot EventFd)) (input : Bool) where
  read_bit :
      (p : PollFd)
      → ◌≡◌ {A = ℕ} (if is_readable eventfds input p.fd && wants pollin p then 1 else 0) (
          if bit_and p.events 1 == 0
            || (if p.fd ==ℤ pos 0 then not input else is_dry (find p.fd eventfds))
          then 0
          else 1)
  unfolding is_readable
  read_bit p = elim (Bool-cases (p.fd ==ℤ pos 0)) [
    | inl e ↦ rw (e, stdin_bit input (wants pollin p), not-not (bit_and p.events 1 == 0)) refl
    | inr e ↦
        rw (e, counter_bit (find p.fd eventfds) (wants pollin p), not-not (bit_and p.events 1 == 0))
          refl
  ]

  write_bit :
      (p : PollFd)
      → ◌≡◌ {A = ℕ} (if wants pollout p then 4 else 0) (if bit_and p.events 4 == 0 then 0 else 4)
  write_bit p = elim (Bool-cases (bit_and p.events 4 == 0)) [
    | inl e ↦ rw e refl
    | inr e ↦ rw e refl
  ]

  pub check_fd-reported :
      (p : PollFd)
      → p.revents ≡ 0
      → check_fd eventfds input p ≡ record p { revents = reported eventfds input p }
  unfolding check_fd reported
  check_fd-reported p zero_now = elim (Bool-cases (is_negative p.fd)) [
    | inl e ↦ rw e (ap (λ r. record p { revents = r }) zero_now)
    | inr e ↦ rw e (
        ap (λ r. record p { revents = r })
          (ap
              (λ r.
                add_bit pollout (wants pollout p)
                  (add_bit pollin (is_readable eventfds input p.fd && wants pollin p) r))
              zero_now
            ∙ two_bits (is_readable eventfds input p.fd && wants pollin p) (wants pollout p)
            ∙ ap (λ b. b + (if wants pollout p then 4 else 0)) (read_bit p)
            ∙ ap
                (λ b.
                  (if bit_and p.events 1 == 0
                      || (if p.fd ==ℤ pos 0 then not input else is_dry (find p.fd eventfds))
                    then 0
                    else 1)
                  + b)
                (write_bit p)))
  ]

  -- The first descriptor counts exactly when something is reported for it.
  count_ready-next :
      (p : PollFd) (ps : List PollFd)
      → p.revents ≡ 0
      → count_ready (check_fd eventfds input p ∷ ps)
        ≡ (if reported eventfds input p == 0 then count_ready ps else suc (count_ready ps))
  unfolding count_ready reported
  count_ready-next p ps zero_now =
      rw (check_fd-reported p zero_now)
        (elim (Bool-cases (is_negative p.fd)) [ inl e ↦ rw e refl | inr e ↦ rw e refl ])

  -- The code counts the descriptors that report something.
  pub count_ready_lem :
      (fds : List PollFd)
      → count_ready (
          map {A = PollFd} {B = PollFd} (λ p. record p { revents = reported eventfds input p }) fds)
        ≡ number_reporting (
            map {A = PollFd} {B = PollFd}
              (λ p. record p { revents = reported eventfds input p })
              fds)
  unfolding count_ready number_reporting reported
  count_ready_lem [] = refl
  count_ready_lem (p ∷ ps) = elim (Bool-cases (is_negative p.fd)) [
    | inl e ↦ rw e (omega (arith, count_ready_lem ps))
    | inr e ↦ rw (e, count_ready_lem ps) (ground arith)
  ]

  -- While nothing is ready the round leaves the descriptors as they are.
  pub check-Quiet :
      (fds : List PollFd)
      → Quiet fds
      → count_ready (map (check_fd eventfds input) fds) ≡ 0
      → map (check_fd eventfds input) fds ≡ fds
  check-Quiet [] q e = refl
  check-Quiet (p ∷ ps) q e =
      let step = count_ready-next p (map (check_fd eventfds input) ps) q.0 in
      let none_here : reported eventfds input p ≡ 0 = ground (arith, step) in
      let none_later : count_ready (map (check_fd eventfds input) ps) ≡ 0 = ground (arith, step) in
      let same : check_fd eventfds input p ≡ p =
        check_fd-reported p q.0 ∙ ap (λ r. record p { revents = r }) (none_here ∙ sym q.0) in
      rw (check-Quiet ps q.1 none_later) (ap (λ x. x ∷ ps) same)

  -- Input makes a descriptor ready that watches for it.
  pub ready_of_input :
      (fds : List PollFd)
      → Quiet fds
      → input ≡ true
      → watches_stdin fds ≡ true
      → 0 < count_ready (map (check_fd eventfds input) fds)
  unfolding reported is_readable
  ready_of_input [] q i e = absurd (ground arith)
  ready_of_input (p ∷ ps) q i e =
      let step = count_ready-next p (map (check_fd eventfds input) ps) q.0 in
      elim (Bool-cases (p.fd ==ℤ pos 0 && wants pollin p)) [
        | inr other ↦ ground (arith, step, ready_of_input ps q.1 i)
        | inl here ↦
            let stdin : p.fd ≡ pos 0 = (==ℤ_iff p.fd (pos 0)).0 (ground arith) in
            let natural : is_negative p.fd ≡ false = rw stdin refl in ground (arith, step, natural)
      ]
