-- ===== src/Pthread/Stubs.antt =====
-- ruby_pthread.c, lines 64 to 127, 169 to 312 and 333 to 394: the calls that have nothing to do in a
-- program of one thread. Each takes the memory and returns it with its result.
use cruby_on_sel.Prelude.{ℕ, zero, suc, Bool, ◌==◌, if◌then◌else◌, Option, none, ℤ}
use cruby_on_sel.Errno.{eagain, esrch, etimedout, Result, ok, err}
use cruby_on_sel.Memory.{Memory, null, store, memset}

-- The sizes of the types of <pthread.h> and <sched.h>, and `sigemptyset`.
pub record Headers : Type 0 where
  pub mutex_size : ℕ
  pub cond_size : ℕ
  pub rwlock_size : ℕ
  pub attr_size : ℕ
  pub condattr_size : ℕ
  pub sched_param_size : ℕ
  pub sigemptyset : (set : ℕ) → Memory → Memory

abbrev pub Status : Type 0
Status = Result (Unit {0}) × Memory

-- `if (object != NULL) memset(object, 0, sizeof(*object)); return 0;`
abbrev pub cleared : (object size : ℕ) → Memory → Status
cleared object size m = (ok tt, if object == null then m else memset object 0 size m)

-- What is stored through a pointer, if it is not NULL.
abbrev pub stored_at : (width ptr value : ℕ) → Memory → Memory
stored_at width ptr value m = if ptr == null then m else store width ptr value m

-- SCHED_OTHER
abbrev pub sched_other : ℕ
sched_other = 0

unfoldable pub pthread_create : (thread attr start arg : ℕ) → Memory → Status
pthread_create thread attr start arg m = (err eagain, stored_at 8 thread 0 m)

-- The loop without end, with fuel.
unfoldable pub pthread_exit : (fuel value : ℕ) → Option (Unit {0})
pthread_exit zero value = none
pthread_exit (suc fuel) value = pthread_exit fuel value

unfoldable pub pthread_join : (thread value : ℕ) → Memory → Status
pthread_join thread value m = (err esrch, stored_at 8 value null m)

abbrev pub pthread_self : ℕ
pthread_self = 1

abbrev pub pthread_equal : ℕ → ℕ → Bool
pthread_equal a b = a == b

unfoldable pub pthread_detach : (thread : ℕ) → Memory → Status
pthread_detach thread m = (ok tt, m)

unfoldable pub pthread_kill : (thread : ℕ) → (sig : ℤ) → Memory → Status
pthread_kill thread sig m = (ok tt, m)

unfoldable pub pthread_mutex_destroy : (mutex : ℕ) → Memory → Status
pthread_mutex_destroy mutex m = (ok tt, m)

unfoldable pub pthread_mutex_lock : (mutex : ℕ) → Memory → Status
pthread_mutex_lock mutex m = (ok tt, m)

unfoldable pub pthread_mutex_unlock : (mutex : ℕ) → Memory → Status
pthread_mutex_unlock mutex m = (ok tt, m)

unfoldable pub pthread_mutex_trylock : (mutex : ℕ) → Memory → Status
pthread_mutex_trylock mutex m = (ok tt, m)

unfoldable pub pthread_cond_destroy : (cond : ℕ) → Memory → Status
pthread_cond_destroy cond m = (ok tt, m)

unfoldable pub pthread_cond_signal : (cond : ℕ) → Memory → Status
pthread_cond_signal cond m = (ok tt, m)

unfoldable pub pthread_cond_broadcast : (cond : ℕ) → Memory → Status
pthread_cond_broadcast cond m = (ok tt, m)

unfoldable pub pthread_cond_wait : (cond : ℕ) → (mutex : ℕ) → Memory → Status
pthread_cond_wait cond mutex m = (ok tt, m)

unfoldable pub pthread_rwlock_destroy : (lock : ℕ) → Memory → Status
pthread_rwlock_destroy lock m = (ok tt, m)

unfoldable pub pthread_rwlock_rdlock : (lock : ℕ) → Memory → Status
pthread_rwlock_rdlock lock m = (ok tt, m)

unfoldable pub pthread_rwlock_wrlock : (lock : ℕ) → Memory → Status
pthread_rwlock_wrlock lock m = (ok tt, m)

unfoldable pub pthread_rwlock_unlock : (lock : ℕ) → Memory → Status
pthread_rwlock_unlock lock m = (ok tt, m)

unfoldable pub pthread_attr_destroy : (attr : ℕ) → Memory → Status
pthread_attr_destroy attr m = (ok tt, m)

unfoldable pub pthread_attr_setdetachstate : (attr : ℕ) → (state : ℤ) → Memory → Status
pthread_attr_setdetachstate attr state m = (ok tt, m)

unfoldable pub pthread_attr_setinheritsched : (attr : ℕ) → (inherit : ℤ) → Memory → Status
pthread_attr_setinheritsched attr inherit m = (ok tt, m)

unfoldable pub pthread_attr_setstacksize : (attr : ℕ) → (size : ℕ) → Memory → Status
pthread_attr_setstacksize attr size m = (ok tt, m)

unfoldable pub pthread_condattr_destroy : (attr : ℕ) → Memory → Status
pthread_condattr_destroy attr m = (ok tt, m)

unfoldable pub pthread_condattr_setclock : (attr : ℕ) → (clock : ℤ) → Memory → Status
pthread_condattr_setclock attr clock m = (ok tt, m)

unfoldable pub pthread_setname_np : (thread : ℕ) → (name : ℕ) → Memory → Status
pthread_setname_np thread name m = (ok tt, m)

unfoldable pub pthread_setschedparam : (thread : ℕ) → (policy : ℤ) → (param : ℕ) → Memory → Status
pthread_setschedparam thread policy param m = (ok tt, m)

unfoldable pub pthread_cond_timedwait : (cond : ℕ) → (mutex : ℕ) → (timeout : ℕ) → Memory → Status
pthread_cond_timedwait cond mutex timeout m = (err etimedout, m)

module _ (headers : Headers) where
  unfoldable pub pthread_sigmask : (how : ℤ) → (set oldset : ℕ) → Memory → Status
  pthread_sigmask how set oldset m =
      (ok tt, if oldset == null then m else headers.sigemptyset oldset m)

  unfoldable pub pthread_mutex_init : (mutex attr : ℕ) → Memory → Status
  pthread_mutex_init mutex attr m = cleared mutex headers.mutex_size m

  unfoldable pub pthread_cond_init : (cond attr : ℕ) → Memory → Status
  pthread_cond_init cond attr m = cleared cond headers.cond_size m

  unfoldable pub pthread_rwlock_init : (lock attr : ℕ) → Memory → Status
  pthread_rwlock_init lock attr m = cleared lock headers.rwlock_size m

  unfoldable pub pthread_attr_init : (attr : ℕ) → Memory → Status
  pthread_attr_init attr m = cleared attr headers.attr_size m

  unfoldable pub pthread_getattr_np : (thread attr : ℕ) → Memory → Status
  pthread_getattr_np thread attr m = pthread_attr_init attr m

  unfoldable pub pthread_condattr_init : (attr : ℕ) → Memory → Status
  pthread_condattr_init attr m = cleared attr headers.condattr_size m

  unfoldable pub pthread_getschedparam : (thread policy param : ℕ) → Memory → Status
  pthread_getschedparam thread policy param m =
      cleared param headers.sched_param_size (stored_at 4 policy sched_other m)
