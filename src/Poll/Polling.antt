-- ===== src/Poll/Polling.antt =====
-- poll and ppoll in ruby_syscall_poll.c, lines 612 to 724. The serial ring, the notification and
-- TimeServer stand outside this repository: `W` is their state and `Notifications` what the code calls.
use cruby_on_sel.Prelude.{
  ℕ, zero, suc, ◌+◌, ◌*◌, Bool, true, false, ◌&&◌, ◌||◌, not, ◌==◌, ltb, if◌then◌else◌, List, [],
  ◌∷◌, map, Option, none, some, ℤ, pos, negsuc, is_negative, ◌==ℤ◌, bit_and, bit_or,
}
use cruby_on_sel.Errno.{efault, Result, ok, err}
use cruby_on_sel.Memory.{null}
use cruby_on_sel.Clock.Source.{TimeSpec}
use cruby_on_sel.Poll.Table.{Slot, find}
use cruby_on_sel.Poll.Source.{EventFd}
use cruby_on_sel.Poll.Serial.{SerialRing, serial_has_input}

-- Values of the C library's headers.
abbrev pub pollin : ℕ
pollin = 1

abbrev pub pollout : ℕ
pollout = 4

-- `struct pollfd`
pub record PollFd : Type 0 where
  pub fd : ℤ
  pub events : ℕ
  pub revents : ℕ

-- `start` is timeout_oneshot_relative and says whether it returned 0; `stop` is timeout_stop; `wait`
-- is seL4_Wait and says whether the badge has the timer's bit.
pub record Notifications (W : Type 0) : Type 0 where
  pub ring : W → SerialRing
  pub start : ℕ → W → Bool × W
  pub stop : W → W
  pub wait : W → Bool × W

abbrev pub clear : PollFd → PollFd
clear p = record p { revents = 0 }

abbrev pub wants : ℕ → PollFd → Bool
wants bit p = not (bit_and p.events bit == 0)

abbrev pub watches_stdin : List PollFd → Bool
watches_stdin [] = false
watches_stdin (p ∷ ps) = (p.fd ==ℤ pos 0 && wants pollin p) || watches_stdin ps

-- A counter that is not 0, and every descriptor that is no counter.
abbrev pub counter_readable : Option EventFd → Bool
counter_readable (some event) = ltb 0 event.counter
counter_readable none = true

unfoldable pub is_readable : List (Slot EventFd) → (input : Bool) → ℤ → Bool
is_readable eventfds input fd = if fd ==ℤ pos 0 then input else counter_readable (find fd eventfds)

abbrev pub add_bit : ℕ → Bool → ℕ → ℕ
add_bit bit given r = if given then bit_or r bit else r

-- One round of the inner loop.
unfoldable pub check_fd : List (Slot EventFd) → (input : Bool) → PollFd → PollFd
check_fd eventfds input p = if is_negative p.fd then p else record p {
  revents =
      add_bit pollout (wants pollout p)
        (add_bit pollin (is_readable eventfds input p.fd && wants pollin p) p.revents);
}

-- `ready` after the inner loop; entries with a negative number are passed over.
unfoldable pub count_ready : List PollFd → ℕ
count_ready [] = 0
count_ready (p ∷ ps) =
    if is_negative p.fd || p.revents == 0 then count_ready ps else suc (count_ready ps)

abbrev pub is_positive : ℤ → Bool
is_positive (pos n) = ltb 0 n
is_positive (negsuc n) = false

abbrev pub nanoseconds_of : ℤ → ℕ
nanoseconds_of (pos n) = n
nanoseconds_of (negsuc n) = 0

-- What poll_fds returns, the descriptors it leaves, and the state of the devices.
pub record Polled (W : Type 0) : Type 0 where
  pub ready : ℕ
  pub fds : List PollFd
  pub world : W

-- The timer is started in the first round that waits, if there is a time limit; whether the code goes
-- on to wait.
unfoldable pub arm : {W : Type 0} → Notifications W → (timeout : ℤ) → (armed : Bool) → W → Bool × W
arm n timeout armed w =
    if is_positive timeout && not armed then n.start (nanoseconds_of timeout) w else (true, w)

module _ {W : Type 0} (n : Notifications W) (eventfds : List (Slot EventFd)) (timeout : ℤ)
    (watching : Bool) where
  -- The outer loop with fuel, one unit for each round; `none` when it still waits.
  unfoldable pub poll_rounds : ℕ → (armed expired : Bool) → List PollFd → W → Option (Polled W)
  poll_rounds zero armed expired fds w = none
  poll_rounds (suc fuel) armed expired fds w =
      let fds' = map (check_fd eventfds (serial_has_input (n.ring w))) fds in
      let armed' = armed || is_positive timeout in
      let (fired, w') = n.wait (arm n timeout armed w).1 in
      let rest = poll_rounds fuel (armed' && not fired) (armed' && fired) fds' w' in
      if ltb 0 (count_ready fds') || expired || timeout ==ℤ pos 0 || not watching
      then some
          (record { ready = count_ready fds'; fds = fds'; world = if armed then n.stop w else w })
      else if (arm n timeout armed w).0
      then rest
      else some (record { ready = 0; fds = fds'; world = (arm n timeout armed w).1 })

abbrev pub is_empty {ℓ} : {A : Type ℓ} → List A → Bool
is_empty [] = true
is_empty (x ∷ xs) = false

abbrev pub returned {ℓ} : {A : Type ℓ} → Option A → Option (Result A)
returned none = none
returned (some a) = some (ok a)

-- `address` is the pointer `fds`.
unfoldable pub poll_fds :
    {W : Type 0}
    → Notifications W
    → List (Slot EventFd)
    → (fuel address : ℕ) → List PollFd
    → (timeout : ℤ) → W
    → Option (Result (Polled W))
poll_fds n eventfds fuel address fds timeout w =
    if address == null && not (is_empty fds)
    then some (err efault)
    else returned
        (poll_rounds n eventfds timeout (watches_stdin fds) fuel false false (map clear fds) w)

-- The time limit of `poll`, in milliseconds, and of `ppoll`, where a `timespec` is not negative and its
-- nanoseconds stay below 2^63.
unfoldable pub poll_timeout : ℤ → ℤ
poll_timeout (pos ms) = pos (ms * 1000000)
poll_timeout (negsuc ms) = negsuc 0

unfoldable pub ppoll_timeout : Option TimeSpec → ℤ
ppoll_timeout none = negsuc 0
ppoll_timeout (some t) = pos (t.tv_sec * 1000000000 + t.tv_nsec)

module _ {W : Type 0} (n : Notifications W) (eventfds : List (Slot EventFd)) (fuel : ℕ) where
  unfoldable pub ruby_sys_poll :
      (address : ℕ) → List PollFd → (timeout : ℤ) → W → Option (Result (Polled W))
  ruby_sys_poll address fds timeout w =
      poll_fds n eventfds fuel address fds (poll_timeout timeout) w

  unfoldable pub ruby_sys_ppoll :
      (address : ℕ) → List PollFd → (timeout : Option TimeSpec) → W → Option (Result (Polled W))
  ruby_sys_ppoll address fds timeout w =
      poll_fds n eventfds fuel address fds (ppoll_timeout timeout) w
