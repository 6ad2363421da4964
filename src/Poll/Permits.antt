-- ===== src/Poll/Permits.antt =====
-- The event counters of ruby_syscall_poll.c as semaphores: writes post permits and reads take them, one
-- or all at a time.
use cruby_on_sel.Prelude.{
  ℕ, ◌+◌, ◌-◌, ◌%◌, ◌^◌, ◌≤◌, ◌<◌, ◌≡◌, refl, ◌∙◌, arith, ◌||◌, ◌==◌, inl, inr, Bool-cases, List,
  [], ◌∷◌, some, ℤ, bit_and,
}
use cruby_on_sel.Errno.{Result, ok, err}
use cruby_on_sel.Memory.{null, load}
use cruby_on_sel.Poll.Table.{find}
use cruby_on_sel.Poll.Source.{
  Descriptors, Kernel, EventFd, efd_semaphore, read, write, read_eventfd, write_eventfd,
}
use cruby_on_sel.Poll.Counters.{write-adds, read-takes}

-- A write of 8 bytes from, or a read of 8 bytes to, a buffer.
pub data Exchange : Type 0 where
  post acquire : ℕ → Exchange

-- The permits that count where the call succeeds.
abbrev pub when_ok : Result ℕ → ℕ → ℕ
when_ok (ok n) permits = permits
when_ok (err e) permits = 0

module _ (k : Kernel) (fd : ℤ) where
  abbrev pub after_exchange : Exchange → Descriptors → Descriptors
  after_exchange (post buf) d = (write k fd buf 8 d).1
  after_exchange (acquire buf) d = (read k fd buf 8 d).1

  unfoldable pub after_exchanges : List Exchange → Descriptors → Descriptors
  after_exchanges [] d = d
  after_exchanges (x ∷ xs) d = after_exchanges xs (after_exchange x d)

  -- A write posts the number in its buffer.
  abbrev pub posted_by : Exchange → Descriptors → ℕ
  posted_by (post buf) d = when_ok (write k fd buf 8 d).0 (load 8 buf d.memory)
  posted_by (acquire buf) d = 0

  -- A read takes the number that it leaves in its buffer.
  abbrev pub taken_by : Exchange → Descriptors → ℕ
  taken_by (post buf) d = 0
  taken_by (acquire buf) d = when_ok (read k fd buf 8 d).0 (load 8 buf (read k fd buf 8 d).1.memory)

  unfoldable pub total_posted : List Exchange → Descriptors → ℕ
  total_posted [] d = 0
  total_posted (x ∷ xs) d = posted_by x d + total_posted xs (after_exchange x d)

  unfoldable pub total_taken : List Exchange → Descriptors → ℕ
  total_taken [] d = 0
  total_taken (x ∷ xs) d = taken_by x d + total_taken xs (after_exchange x d)

  -- The counter after some permits were posted and some taken: its mode is the
  -- same, and the permits that it holds are accounted for.
  pub record Balances (event : EventFd) (given gone : ℕ) (d' : Descriptors) : Type 0 where
    pub event' : EventFd
    pub opened : find fd d'.fake_eventfds ≡ some event'
    pub mode : event'.flags ≡ event.flags
    pub small : event'.counter < 2 ^ 64
    pub bound : event'.counter + gone ≤ event.counter + given
    pub balance : (event'.counter + gone) % 2 ^ 64 ≡ (event.counter + given) % 2 ^ 64

  unchanged :
      (event : EventFd) (d : Descriptors)
      → find fd d.fake_eventfds ≡ some event
      → event.counter < 2 ^ 64
      → Balances event 0 0 d
  unchanged event d known small = record {
    event' = event;
    opened = known;
    mode = refl;
    small = small;
    bound = omega arith;
    balance = refl;
  }

  post-Balances :
      (event : EventFd) (buf : ℕ) (d : Descriptors)
      → find fd d.fake_eventfds ≡ some event
      → event.counter < 2 ^ 64
      → Balances event (posted_by (post buf) d) 0 (write k fd buf 8 d).1
  unfolding write write_eventfd
  post-Balances event buf d known small = elim (Bool-cases (buf == null)) [
    | inl null_buf ↦ rw (known, null_buf) (unchanged event d known small)
    | inr real ↦
        let w = write-adds k fd event buf 8 d known (ground arith) (omega arith) in
        rw (w.0) (record {
          event' = record event { counter = (event.counter + load 8 buf d.memory) % 2 ^ 64 };
          opened = w.1;
          mode = refl;
          small = omega arith;
          bound = omega arith;
          balance = omega arith;
        })
  ]

  acquire-Balances :
      (event : EventFd) (buf : ℕ) (d : Descriptors)
      → find fd d.fake_eventfds ≡ some event
      → event.counter < 2 ^ 64
      → Balances event 0 (taken_by (acquire buf) d) (read k fd buf 8 d).1
  unfolding read read_eventfd
  acquire-Balances event buf d known small = elim (Bool-cases (buf == null || event.counter == 0)) [
    | inl refused ↦ elim (Bool-cases (buf == null)) [
      | inl null_buf ↦ rw (known, null_buf) (unchanged event d known small)
      | inr real ↦
          let r =
            (read-takes k fd event buf 8 d known small (ground arith) (omega arith)).0
              (ground arith) in
          rw r (unchanged event d known small)
    ]
    | inr granted ↦
        let r =
          (read-takes k fd event buf 8 d known small (ground arith) (omega arith)).1
            (ground arith) in
        elim (Bool-cases (bit_and event.flags efd_semaphore == 0)) [
          | inl plain ↦
              let (got, left) = r.1 (ground arith) in
              rw (r.0, got)
                (record {
                  event' = record event { counter = 0 };
                  opened = left;
                  mode = refl;
                  small = omega arith;
                  bound = omega arith;
                  balance = omega arith;
                })
          | inr semaphore ↦
              let (got, left) = r.2 (ground arith) in
              rw (r.0, got)
                (record {
                  event' = record event { counter = event.counter - 1 };
                  opened = left;
                  mode = refl;
                  small = omega arith;
                  bound = ground arith;
                  balance = ground arith;
                })
        ]
  ]

  exchange-Balances :
      (x : Exchange) (event : EventFd) (d : Descriptors)
      → find fd d.fake_eventfds ≡ some event
      → event.counter < 2 ^ 64
      → Balances event (posted_by x d) (taken_by x d) (after_exchange x d)
  exchange-Balances (post buf) event d known small = post-Balances event buf d known small
  exchange-Balances (acquire buf) event d known small = acquire-Balances event buf d known small

  -- An open counter below 2^64, in the plain or the semaphore mode, after any writes and reads of
  -- 8 bytes through any buffers, those included that are refused: it is still open in the same
  -- mode; what it holds and what successful reads gave are together at most what it held and what
  -- successful writes added, and the same modulo 2^64.
  pub exchanges-Balances :
      (xs : List Exchange) (event : EventFd) (d : Descriptors)
      → find fd d.fake_eventfds ≡ some event
      → event.counter < 2 ^ 64
      → Balances event (total_posted xs d) (total_taken xs d) (after_exchanges xs d)
  unfolding after_exchanges total_posted total_taken
  exchanges-Balances [] event d known small = unchanged event d known small
  exchanges-Balances (x ∷ xs) event d known small =
      let now = exchange-Balances x event d known small in
      let later = exchanges-Balances xs now.event' (after_exchange x d) now.opened now.small in
      record {
        event' = later.event';
        opened = later.opened;
        mode = later.mode ∙ now.mode;
        small = later.small;
        bound = omega (arith, now.bound, later.bound);
        balance = omega (arith, now.balance, later.balance);
      }
