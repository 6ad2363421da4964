-- ===== src/Poll/Counters.antt =====
-- The event counters of ruby_syscall_poll.c: the numbers handed out, and what passes through a counter.
use cruby_on_sel.Prelude.{
  ℕ, ◌+◌, ◌-◌, ◌%◌, ◌^◌, ◌≤◌, ◌<◌, ◌≡◌, ◌≢◌, refl, sym, ◌∙◌, arith, true, false, ◌||◌, not, none,
  some, length, ℤ, pos, bit_and, ◌==◌, ltb,
}
use cruby_on_sel.Errno.{eagain, emfile, ok, err}
use cruby_on_sel.Memory.{null, load, load-store}
use cruby_on_sel.Poll.Table.{Slot, find, is_full, IsNumbered}
use cruby_on_sel.Poll.Lookup.{
  ==ℤ_ne, find-replace_self, find-replace_other, length-replace, claim-none,
}
use cruby_on_sel.Poll.Numbered.{claim-fresh, find-released, IsNumbered-replace}
use cruby_on_sel.Poll.Source.{
  Descriptors, Kernel, EventFd, efd_semaphore, fake_eventfd_base, fake_eventfd_count,
  fake_epoll_base, fake_epoll_count, eventfd, read, read_eventfd, write, write_eventfd, close,
  taken_from, released,
}

-- Every entry in use carries its own number, and the arrays have their fixed lengths.
pub record IsTable (d : Descriptors) : Type 0 where
  pub eventfd_numbers : IsNumbered fake_eventfd_base d.fake_eventfds
  pub eventfd_count : length d.fake_eventfds ≡ fake_eventfd_count
  pub epoll_numbers : IsNumbered fake_epoll_base d.fake_epolls
  pub epoll_count : length d.fake_epolls ≡ fake_epoll_count

-- A counter that `eventfd` opened: its number was free, it now holds the initial value, and no other
-- descriptor changed.
pub record IsOpened (initval flags : ℕ) (d : Descriptors) (fd : ℤ) (d' : Descriptors) : Type 0 where
  pub number : (k : ℕ) × (fd ≡ pos (fake_eventfd_base + k)) × (k < fake_eventfd_count)
  pub was_free : find fd d.fake_eventfds ≡ none
  pub counts : find fd d'.fake_eventfds ≡ some (record { flags = flags; counter = initval })
  pub others : (fd' : ℤ) → fd' ≢ fd → find fd' d'.fake_eventfds ≡ find fd' d.fake_eventfds
  pub epolls : d'.fake_epolls ≡ d.fake_epolls
  pub table : IsTable d'

-- In a table whose entries in use carry their own numbers: while fewer than four counters are open,
-- `eventfd` opens one with a number in 1000 to 1003 that no open counter has, holding the initial
-- value; when all four are open it reports EMFILE and changes nothing.
pub eventfd-IsOpened :
    (initval flags : ℕ) (d : Descriptors)
    → IsTable d
    → (is_full d.fake_eventfds ≡ false
        → (fd : ℤ) × (d' : Descriptors) × (eventfd initval flags d ≡ (ok fd, d'))
          × IsOpened initval flags d fd d')
      × (is_full d.fake_eventfds ≡ true → eventfd initval flags d ≡ (err emfile, d))
unfolding eventfd
eventfd-IsOpened initval flags d t = (
  λ room.
      let event : EventFd = record { flags = flags; counter = initval } in
      let (k, ss', e, c, lo, hi, new, num) =
        claim-fresh fake_eventfd_base event 0 d.fake_eventfds t.eventfd_numbers room in
      (
        pos (fake_eventfd_base + k),
        record d { fake_eventfds = ss' },
        rw e refl,
        record {
          number = (k, refl, omega (arith, t.eventfd_count));
          was_free = new;
          counts = c.here new;
          others = c.others;
          epolls = refl;
          table = record {
            eventfd_numbers = num;
            eventfd_count = c.size ∙ t.eventfd_count;
            epoll_numbers = t.epoll_numbers;
            epoll_count = t.epoll_count;
          };
        },
      ),
  λ full.
      rw
        (claim-none (λ i. pos (fake_eventfd_base + i)) (record { flags = flags; counter = initval })
          0 d.fake_eventfds full)
        refl,
)

-- Writing to an open counter from a buffer of at least eight bytes returns 8 and adds the buffer's
-- value modulo 2^64; the other counters, the epoll sets and the memory stay.
pub write-adds :
    (k : Kernel) (fd : ℤ) (event : EventFd) (buf count : ℕ) (d : Descriptors)
    → find fd d.fake_eventfds ≡ some event
    → buf ≢ null
    → 8 ≤ count
    → ((write k fd buf count d).0 ≡ ok 8)
      × (find fd (write k fd buf count d).1.fake_eventfds
          ≡ some (record event { counter = (event.counter + load 8 buf d.memory) % 2 ^ 64 }))
      × ((fd' : ℤ)
          → fd' ≢ fd
          → find fd' (write k fd buf count d).1.fake_eventfds ≡ find fd' d.fake_eventfds)
      × ((write k fd buf count d).1.memory ≡ d.memory)
      × ((write k fd buf count d).1.fake_epolls ≡ d.fake_epolls)
unfolding write write_eventfd
write-adds k fd event buf count d opened real large =
    let valid : (buf == null || ltb count 8) ≡ false = ground arith in
    rw (opened, valid)
      (
        refl,
        find-replace_self fd _ d.fake_eventfds (λ n. absurd (ground (arith, opened, n))),
        λ fd' ne. find-replace_other fd fd' _ d.fake_eventfds ne (==ℤ_ne fd fd' (λ e. ne (sym e))),
        refl,
        refl,
      )

-- Reading an open counter of 64 bits that is not 0 into a buffer of at least eight bytes returns 8.
-- In the plain mode it stores the whole counter and leaves 0; in the semaphore mode it stores 1 and
-- leaves one less. Other counters stay. A counter that is 0 gives EAGAIN, and nothing changes.
pub read-takes :
    (k : Kernel) (fd : ℤ) (event : EventFd) (buf count : ℕ) (d : Descriptors)
    → find fd d.fake_eventfds ≡ some event
    → event.counter < 2 ^ 64
    → buf ≢ null
    → 8 ≤ count
    → (event.counter ≡ 0 → read k fd buf count d ≡ (err eagain, d))
      × (event.counter ≢ 0
          → ((read k fd buf count d).0 ≡ ok 8)
            × (bit_and event.flags efd_semaphore ≡ 0
                → (load 8 buf (read k fd buf count d).1.memory ≡ event.counter)
                  × (find fd (read k fd buf count d).1.fake_eventfds
                      ≡ some (record event { counter = 0 })))
            × (bit_and event.flags efd_semaphore ≢ 0
                → (load 8 buf (read k fd buf count d).1.memory ≡ 1)
                  × (find fd (read k fd buf count d).1.fake_eventfds
                      ≡ some (record event { counter = event.counter - 1 })))
            × ((fd' : ℤ)
                → fd' ≢ fd
                → find fd' (read k fd buf count d).1.fake_eventfds ≡ find fd' d.fake_eventfds))
unfolding read read_eventfd taken_from
read-takes k fd event buf count d opened small real large =
    let valid : (buf == null || ltb count 8) ≡ false = ground arith in
    let known : find fd d.fake_eventfds ≢ none = λ n. absurd (ground (arith, opened, n)) in
    (
      λ z. let empty : (event.counter == 0) ≡ true = ground arith in rw (opened, valid, empty) refl,
      λ nz.
          let some_left : (event.counter == 0) ≡ false = ground arith in
          rw (opened, valid, some_left)
            (
              refl,
              λ plain.
                  let mode : not (bit_and event.flags efd_semaphore == 0) ≡ false = ground arith in
                  rw mode (
                    load-store 8 buf event.counter d.memory ∙ omega arith,
                    find-replace_self fd _ d.fake_eventfds known,
                  ),
              λ semaphore.
                  let mode : not (bit_and event.flags efd_semaphore == 0) ≡ true = ground arith in
                  rw mode (
                    load-store 8 buf 1 d.memory ∙ omega arith,
                    find-replace_self fd _ d.fake_eventfds known,
                  ),
              λ fd' ne.
                  find-replace_other fd fd' _ d.fake_eventfds ne (==ℤ_ne fd fd' (λ e. ne (sym e))),
            ),
    )

-- In a table whose entries in use carry their own numbers, closing an open counter returns 0, and its
-- number belongs to no counter afterwards; no other counter and no epoll set changes, and the table
-- keeps that form.
pub close-frees :
    (k : Kernel) (fd : ℤ) (event : EventFd) (d : Descriptors)
    → IsTable d
    → find fd d.fake_eventfds ≡ some event
    → ((close k fd d).0 ≡ ok 0)
      × (find fd (close k fd d).1.fake_eventfds ≡ none)
      × ((fd' : ℤ) → fd' ≢ fd → find fd' (close k fd d).1.fake_eventfds ≡ find fd' d.fake_eventfds)
      × ((close k fd d).1.fake_epolls ≡ d.fake_epolls)
      × IsTable (close k fd d).1
unfolding close
close-frees k fd event d t known =
    let new : Slot EventFd = released (record { flags = 0; counter = 0 }) in
    rw known (
      refl,
      find-released fake_eventfd_base fd new d.fake_eventfds t.eventfd_numbers refl,
      λ fd' ne. find-replace_other fd fd' new d.fake_eventfds ne refl,
      refl,
      record {
        eventfd_numbers =
            IsNumbered-replace fake_eventfd_base fd new d.fake_eventfds t.eventfd_numbers
              (λ u. absurd (ground (arith, u)));
        eventfd_count = length-replace fd new d.fake_eventfds ∙ t.eventfd_count;
        epoll_numbers = t.epoll_numbers;
        epoll_count = t.epoll_count;
      },
    )
