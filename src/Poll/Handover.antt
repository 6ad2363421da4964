-- ===== src/Poll/Handover.antt =====
-- poll_fds and serial_readv of ruby_syscall_poll.c one after the other, as a reader of the standard
-- input calls them, while SerialServer goes on writing.
use cruby_on_sel.Prelude.{
  ℕ, zero, suc, ◌+◌, ◌<◌, ◌≡◌, ◌≢◌, refl, ap, ◌∙◌, arith, Bool, true, false, ◌⊎◌, inl, inr,
  Bool-cases, List, [], ◌∷◌, map, some, if◌then◌else◌, ℤ, pos, is_negative,
}
use cruby_on_sel.Errno.{ok}
use cruby_on_sel.Memory.{Memory, null}
use cruby_on_sel.Poll.Table.{Slot}
use cruby_on_sel.Poll.Source.{EventFd}
use cruby_on_sel.Poll.Serial.{
  SerialLine, Server, Serial, Iovec, acts, serial_has_input, serial_readv,
}
use cruby_on_sel.Poll.Queue.{IsRing, IsServer, Passes, Passes-none, Passes-then, acts-Passes}
use cruby_on_sel.Poll.Delivery.{IsDelivered, after_acts, serial_readv-IsDelivered}
use cruby_on_sel.Poll.Polling.{
  pollin, PollFd, Notifications, is_positive, nanoseconds_of, Polled, poll_fds,
}
use cruby_on_sel.Poll.Waiting.{reported, number_reporting}
use cruby_on_sel.Poll.Promises.{IsTimer, Wakes, Disarms}
use cruby_on_sel.Poll.Timeouts.{poll_fds-IsAnswered}
use cruby_on_sel.Poll.Wired.{IsWired, Passes-has_input, left-Passes, poll_fds-Passes}

-- A record for the standard input, watched for input only.
abbrev pub stdin_entry : ℕ → PollFd
stdin_entry before = record { fd = pos 0; events = pollin; revents = before }

after_acts-Passes :
    (server : Server)
    → IsServer server
    → (j : ℕ) (l : SerialLine) → IsRing l.ring
    → Passes [] l (after_acts server j l)
after_acts-Passes server lawful zero l h = Passes-none l h
after_acts-Passes server lawful (suc j) l h =
    let p = acts-Passes server lawful l h in
    Passes-then p (after_acts-Passes server lawful j (acts server l) p.ring)

IsDelivered-after :
    {room a : ℕ} {s : Serial} {n : ℕ} {s' : Serial} {l : SerialLine}
    → Passes [] l s.serial_line
    → IsDelivered room a s n s'
    → IsDelivered room a (record { serial_line = l; memory = s.memory }) n s'
IsDelivered-after p d = record {
  passed = Passes-then p d.passed;
  bound = d.bound;
  end = d.end;
  outside = d.outside;
}

-- The one entry reports exactly whether there is input.
stdin_ready :
    (eventfds : List (Slot EventFd)) (input : Bool) (before : ℕ)
    → number_reporting (
        map {A = PollFd} {B = PollFd}
          (λ p. record p { revents = reported eventfds input p })
          (stdin_entry before ∷ []))
      ≡ (if input then 1 else 0)
unfolding number_reporting reported
stdin_ready eventfds true before = refl
stdin_ready eventfds false before = refl

-- What follows a call that waited for the standard input, from state `w`.
abbrev pub Readable :
    {W : Type 0}
    → (W → SerialLine)
    → Server
    → ℕ
    → Iovec
    → List Iovec
    → Memory
    → W
    → Polled W
    → Type 0
Readable line server j v vs m w r =
    (got : ℕ) × (s' : Serial) × (serial_readv server 0 (v ∷ vs)
        (record { serial_line = after_acts server j (line r.world); memory = m })
      ≡ some (ok got, s'))
    × (0 < got)
    × IsDelivered v.iov_len v.iov_base (record { serial_line = line w; memory = m }) got s'

after_wait-Readable :
    {W : Type 0} (line : W → SerialLine) (server : Server)
    → IsServer server
    → (j : ℕ) (v : Iovec) (vs : List Iovec) (m : Memory) (w : W) (r : Polled W)
    → IsRing (line w).ring
    → Passes [] (line w) (line r.world)
    → serial_has_input (line r.world).ring ≡ true
    → v.iov_len ≢ 0
    → v.iov_base ≢ null
    → Readable line server j v vs m w r
after_wait-Readable line server lawful j v vs m w r h p e some_len real =
    let q = after_acts-Passes server lawful j (line r.world) p.ring in
    let (got, s', read, positive, d) =
      serial_readv-IsDelivered server lawful 0 0 v vs
        (record { serial_line = after_acts server j (line r.world); memory = m }) (omega arith)
        q.ring (Passes-has_input q p.ring e) some_len real in
    (got, s', read, positive, IsDelivered-after (Passes-then p q) d)

-- A reader waits with poll_fds for the standard input alone and then reads into buffers of which the
-- first is neither empty nor NULL. The timer keeps to `IsTimer` and is not armed at the start, the
-- server keeps to its law, the calls of the timer and the wait take no byte from the serial line
-- (`IsWired`), and there are more than `k` + 2 rounds, where input arrives within `k` waits or, with
-- a time limit, the timer ends one of them (nothing is asked with a limit of 0, or if the timer
-- cannot be started). The wait returns, with the timer not armed, unless a wait that returned its
-- bit has ended the call. Either it reports nothing, and there was a time limit; or it reports one
-- descriptor, and then the read returns without waiting, whatever the server does in between (`j`
-- actions) and during it: at least one byte, and what is read, followed by what is left, is what
-- waited before the call of poll_fds, followed by what has arrived since.
pub poll-readv :
    {W : Type 0} (n : Notifications W) (running : W → Bool) (line : W → SerialLine)
    (server : Server)
    → IsTimer n running
    → IsWired n line
    → IsServer server
    → (eventfds : List (Slot EventFd)) (timeout : ℤ) (before k fuel address : ℕ) (w : W) (j : ℕ)
      (v : Iovec) (vs : List Iovec) (m : Memory)
    → address ≢ null
    → running w ≡ false
    → k + 2 < fuel
    → (is_positive timeout ≡ true
        → (n.start (nanoseconds_of timeout) w).0 ≡ true
        → Wakes n timeout k (n.start (nanoseconds_of timeout) w).1)
    → (is_negative timeout ≡ true → Wakes n timeout k w)
    → v.iov_len ≢ 0
    → v.iov_base ≢ null
    → (r : Polled W) × (poll_fds n eventfds fuel address (stdin_entry before ∷ []) timeout w
        ≡ some (ok r))
      × Disarms n running timeout r.world
      × (((r.ready ≡ 0) × (is_negative timeout ≡ false))
          ⊎ ((r.ready ≡ 1) × Readable line server j v vs m w r))
poll-readv n running line server timer wired lawful eventfds timeout before k fuel address w j v vs
      m real idle le limited unlimited some_len target =
    let (r, e, a) =
      poll_fds-IsAnswered n running timer eventfds timeout (stdin_entry before ∷ []) k fuel address
        w real idle le limited (λ forever watching. unlimited forever) in
    let p = poll_fds-Passes n line wired eventfds timeout fuel address _ w r e in
    let q = left-Passes n line wired eventfds timeout a.left in
    let input = serial_has_input (line a.seen).ring in
    let counted : r.ready ≡ (if input then 1 else 0) =
      a.counts
      ∙ ap number_reporting a.reports
      ∙ stdin_ready eventfds (serial_has_input (n.ring a.seen)) before
      ∙ (rw (wired.ring a.seen) refl) in
    (
      r,
      e,
      a.disarmed,
      elim (Bool-cases input) [
        | inl there ↦
            let now = Passes-has_input q (wired.valid a.seen) there in
            inr (
              (rw there at counted),
              after_wait-Readable line server lawful j v vs m w r (wired.valid w) p now some_len
                  target,
            )
        | inr nothing ↦
            let zero_ready : r.ready ≡ 0 = rw nothing at counted in
            inl (
              zero_ready,
              (elim (Bool-cases (is_negative timeout)) [
                | inl unending ↦ absurd (omega (arith, zero_ready, a.forever unending refl))
                | inr limit ↦ limit
              ]),
            )
      ],
    )
