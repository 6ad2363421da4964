-- ===== src/Clock/Readings.antt =====
-- The readings of ruby_syscall_clock.c go forward, whatever mixture of calls makes them.
use cruby_on_sel.Prelude.{
  ℕ, ◌+◌, ◌*◌, ◌%◌, ◌^◌, ◌≤◌, ◌<◌, ◌≡◌, ◌≢◌, refl, arith, false, ◌==◌, List, [], ◌∷◌, length,
}
use cruby_on_sel.Errno.{ok}
use cruby_on_sel.Memory.{null}
use cruby_on_sel.Clock.Source.{
  Clock, TimeSpec, TimeVal, step_ns, ns_per_s, fake_clock_read, clock_gettime, gettimeofday, time,
}

-- A call that reads the clock, with the pointer it is given.
pub data Call : Type 0 where
  gettime timeofday seconds : ℕ → Call

unfoldable pub after_call : Call → Clock → Clock
after_call (gettime ts) c = (clock_gettime 0 ts c).1
after_call (timeofday tv) c = (gettimeofday tv 0 c).1
after_call (seconds t) c = (time t c).2

unfoldable pub after_calls : List Call → Clock → Clock
after_calls [] c = c
after_calls (k ∷ ks) c = after_calls ks (after_call k c)

abbrev pub nanoseconds : TimeSpec → ℕ
nanoseconds t = t.tv_sec * ns_per_s + t.tv_nsec

-- A call advances the clock by one step, or, given NULL, not at all.
after_call_bounds :
    (k : Call) (c : Clock)
    → c.fake_clock_ns + step_ns < 2 ^ 64
    → (c.fake_clock_ns ≤ (after_call k c).fake_clock_ns)
      × ((after_call k c).fake_clock_ns ≤ c.fake_clock_ns + step_ns)
unfolding after_call clock_gettime gettimeofday time fake_clock_read
after_call_bounds (gettime ts) c room = ground arith
after_call_bounds (timeofday tv) c room = ground arith
after_call_bounds (seconds t) c room = ground arith

after_calls_bounds :
    (ks : List Call) (c : Clock)
    → c.fake_clock_ns + step_ns * length ks < 2 ^ 64
    → (c.fake_clock_ns ≤ (after_calls ks c).fake_clock_ns)
      × ((after_calls ks c).fake_clock_ns ≤ c.fake_clock_ns + step_ns * length ks)
unfolding after_calls
after_calls_bounds [] c room = omega arith
after_calls_bounds (k ∷ ks) c room =
    let one = after_call_bounds k c (omega arith) in
    omega (arith, one, after_calls_bounds ks (after_call k c) (omega (arith, one)))

-- Until the counter reaches 2 ^ 64: two calls of `clock_gettime` with any calls between them succeed,
-- the nanosecond parts are below a second, and the second time is at least one step after the first.
pub clock_gettime_advances :
    (clk clk' ts ts' : ℕ) (ks : List Call) (c : Clock)
    → ts ≢ null
    → ts' ≢ null
    → c.fake_clock_ns + step_ns * (length ks + 2) < 2 ^ 64
    → (t : TimeSpec) × (t' : TimeSpec) × ((clock_gettime clk ts c).0 ≡ ok t)
      × ((clock_gettime clk' ts' (after_calls ks (clock_gettime clk ts c).1)).0 ≡ ok t')
      × (t.tv_nsec < ns_per_s)
      × (t'.tv_nsec < ns_per_s)
      × (nanoseconds t + step_ns ≤ nanoseconds t')
unfolding clock_gettime fake_clock_read
clock_gettime_advances clk clk' ts ts' ks c some_ts some_ts' room =
    let given : (ts == null) ≡ false = ground arith in
    let given' : (ts' == null) ≡ false = ground arith in
    let first : Clock = record { fake_clock_ns = (c.fake_clock_ns + step_ns) % 2 ^ 64 } in
    let middle = after_calls_bounds ks first (omega arith) in
    rw (given, given') (_, _, refl, refl, omega arith, omega arith, omega (arith, middle))

-- `gettimeofday` stores the microseconds of the reading that `clock_gettime` would have stored.
pub gettimeofday_agrees :
    (clk ts tv tz : ℕ) (c : Clock)
    → ts ≢ null
    → tv ≢ null
    → (t : TimeSpec) × (v : TimeVal) × (clock_gettime clk ts c ≡ (ok t, (gettimeofday tv tz c).1))
      × ((gettimeofday tv tz c).0 ≡ ok v)
      × (v.tv_sec ≡ t.tv_sec)
      × (v.tv_usec * 1000 ≤ t.tv_nsec)
      × (t.tv_nsec < v.tv_usec * 1000 + 1000)
      × (v.tv_usec < 1000000)
unfolding clock_gettime gettimeofday fake_clock_read
gettimeofday_agrees clk ts tv tz c some_ts some_tv =
    let given : (ts == null) ≡ false = ground arith in
    let given' : (tv == null) ≡ false = ground arith in
    rw (given, given') (_, _, refl, refl, refl, omega arith, omega arith, omega arith)
