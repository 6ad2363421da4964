-- ===== src/Clock/Source.antt =====
-- The functions of ruby_syscall_clock.c. An address of 0 is NULL; what a call stores through its
-- pointer is part of what it returns.
use cruby_on_sel.Prelude.{ℕ, ◌+◌, ◌/◌, ◌%◌, ◌^◌, ◌==◌, if◌then◌else◌, Option, none, some}
use cruby_on_sel.Errno.{efault, Result, ok, err}
use cruby_on_sel.Memory.{null}

-- FAKE_CLOCK_STEP_NS and NS_PER_S
abbrev pub step_ns : ℕ
step_ns = 1000000

abbrev pub ns_per_s : ℕ
ns_per_s = 1000000000

-- The static `fake_clock_ns`.
pub record Clock : Type 0 where
  pub fake_clock_ns : ℕ

pub record TimeSpec : Type 0 where
  pub tv_sec : ℕ
  pub tv_nsec : ℕ

pub record TimeVal : Type 0 where
  pub tv_sec : ℕ
  pub tv_usec : ℕ

unfoldable pub fake_clock_read : Clock → TimeSpec × Clock
fake_clock_read c =
    let now = (c.fake_clock_ns + step_ns) % 2 ^ 64 in
    (record { tv_sec = now / ns_per_s; tv_nsec = now % ns_per_s }, record { fake_clock_ns = now })

unfoldable pub clock_gettime : ℕ → ℕ → Clock → Result TimeSpec × Clock
clock_gettime clk ts c =
    let (t, c') = fake_clock_read c in if ts == null then (err efault, c) else (ok t, c')

unfoldable pub clock_getres : ℕ → ℕ → Result (Option TimeSpec)
clock_getres clk ts =
    if ts == null then ok none else ok (some (record { tv_sec = 0; tv_nsec = step_ns }))

unfoldable pub gettimeofday : ℕ → ℕ → Clock → Result TimeVal × Clock
gettimeofday tv tz c =
    let (t, c') = fake_clock_read c in
    if tv == null
    then (err efault, c)
    else (ok (record { tv_sec = t.tv_sec; tv_usec = t.tv_nsec / 1000 }), c')

-- The value returned, and what is stored through `t`.
unfoldable pub time : ℕ → Clock → ℕ × Option ℕ × Clock
time t c =
    let (now, c') = fake_clock_read c in
    (now.tv_sec, if t == null then none else some now.tv_sec, c')
