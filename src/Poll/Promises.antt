-- ===== src/Poll/Promises.antt =====
-- poll and ppoll in ruby_syscall_poll.c: what they rely on, and what they leave.
use cruby_on_sel.Prelude.{ℕ, zero, suc, ◌<◌, ◌≡◌, Bool, true, false, List, map, ◌⊎◌, ℤ, is_negative}
use cruby_on_sel.Poll.Table.{Slot}
use cruby_on_sel.Poll.Source.{EventFd}
use cruby_on_sel.Poll.Serial.{serial_has_input}
use cruby_on_sel.Poll.Polling.{
  PollFd, Notifications, nanoseconds_of, watches_stdin, check_fd, count_ready, is_positive, Polled,
}

-- What TimeServer promises of the one timer: `running` says whether it is armed. Input may come during
-- each of its calls, and a wait leaves input that is there.
pub record IsTimer {W : Type 0} (n : Notifications W) (running : W → Bool) : Type 0 where
  pub stops : (w : W) → running (n.stop w) ≡ false
  pub refuses : (t : ℕ) (w : W) → (n.start t w).0 ≡ false → running (n.start t w).1 ≡ running w
  pub waits : (w : W) → running w ≡ false → running (n.wait w).1 ≡ false
  pub wait_keeps :
      (w : W) → serial_has_input (n.ring w) ≡ true → serial_has_input (n.ring (n.wait w).1) ≡ true

-- From `w` on, input is there after at most `k` waits, or the timer, if there is a time limit, has
-- ended one of them.
unfoldable pub Wakes : {W : Type 0} → Notifications W → (timeout : ℤ) → ℕ → W → Type 0
Wakes n timeout zero w = serial_has_input (n.ring w) ≡ true
Wakes n timeout (suc k) w =
    (serial_has_input (n.ring w) ≡ true)
    ⊎ (((is_positive timeout ≡ true) × ((n.wait w).0 ≡ true)) ⊎ Wakes n timeout k (n.wait w).1)

-- The state that a call leaves, from the one that its last round has seen: that one, or the one after
-- the timer is stopped, or after TimeServer refused to start it.
pub data Leaves {W : Type 0} (n : Notifications W) (timeout : ℤ) : W → W → Type 0 where
  as_seen : {w : W} → Leaves n timeout w w
  timer_stopped : {w : W} → Leaves n timeout w (n.stop w)
  timer_refused :
      {w : W}
      → (n.start (nanoseconds_of timeout) w).0 ≡ false
      → Leaves n timeout w (n.start (nanoseconds_of timeout) w).1

-- The timer in the state that a call leaves: it is not armed, or the state is that after a wait that
-- returned the timer's bit, which the code takes for the expiry of the timer and does not stop.
pub data Disarms {W : Type 0} (n : Notifications W) (running : W → Bool) (timeout : ℤ)
    : W → Type 0 where
  not_armed : {w : W} → running w ≡ false → Disarms n running timeout w
  expired :
      (w : W)
      → is_positive timeout ≡ true
      → (n.wait w).0 ≡ true
      → Disarms n running timeout (n.wait w).1

-- What a call leaves: each descriptor reports what the last round has seen, the number returned is that
-- of the descriptors that report, the timer is not armed or has expired, and a call without a time limit that
-- watches the standard input has something to report.
pub record IsPolled {W : Type 0} (n : Notifications W) (running : W → Bool)
    (eventfds : List (Slot EventFd)) (timeout : ℤ) (fds : List PollFd) (r : Polled W) : Type 0 where
  pub seen : W
  pub left : Leaves n timeout seen r.world
  pub reports : r.fds ≡ map (check_fd eventfds (serial_has_input (n.ring seen))) fds
  pub counts : r.ready ≡ count_ready r.fds
  pub disarmed : Disarms n running timeout r.world
  pub forever : is_negative timeout ≡ true → watches_stdin fds ≡ true → 0 < r.ready
