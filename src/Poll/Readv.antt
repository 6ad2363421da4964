-- ===== src/Poll/Readv.antt =====
-- readv, eventfd_read and eventfd_write of ruby_syscall_poll.c.
use cruby_on_sel.Prelude.{
  ℕ, zero, suc, ◌+◌, ◌<◌, ◌≡◌, ◌≢◌, refl, ap, ◌∙◌, arith, Bool, true, false, ◌||◌, not, ◌==◌, ltb,
  if◌then◌else◌, List, [], ◌∷◌, Option, none, some, Bool-cases, inl, inr, ℤ, pos, is_negative,
  ◌==ℤ◌, bit_and, length,
}
use cruby_on_sel.Errno.{einval, Result, ok, err}
use cruby_on_sel.Memory.{Memory, null, store}
use cruby_on_sel.Poll.Table.{find}
use cruby_on_sel.Poll.Lookup.{find-replace_self}
use cruby_on_sel.Poll.Source.{
  Descriptors, Kernel, EventFd, efd_semaphore, read, read_eventfd, taken_from, write,
}
use cruby_on_sel.Poll.Serial.{SerialLine, Server, Serial, Iovec, serial_readv}

-- `read(...) == sizeof(*value)`
abbrev pub is_eight : Result ℕ → Bool
is_eight (ok n) = n == 8
is_eight (err e) = false

-- Whether 0 is returned, and not -1.
unfoldable pub eventfd_read : Kernel → ℤ → (value : ℕ) → Descriptors → Bool × Descriptors
eventfd_read k fd value d = (is_eight (read k fd value 8 d).0, (read k fd value 8 d).1)

-- `slot` is the address of the parameter `value` on the stack.
unfoldable pub eventfd_write : Kernel → ℤ → (slot value : ℕ) → Descriptors → Bool × Descriptors
eventfd_write k fd slot value d =
    let r = write k fd slot 8 (record d { memory = store 8 slot value d.memory }) in
    (is_eight r.0, r.1)

-- What follows the read into one buffer; `rest` is the loop over the buffers after it.
abbrev pub after_buffer :
    (total len : ℕ)
    → (ℕ → Descriptors → Result ℕ × Descriptors)
    → Result ℕ × Descriptors
    → Result ℕ × Descriptors
after_buffer total len rest (err e, d) = (if ltb 0 total then ok total else err e, d)
after_buffer total len rest (ok n, d) = if n == len then rest (total + n) d else (ok (total + n), d)

-- The loop over the buffers.
unfoldable pub readv_counter :
    Kernel → ℤ → List Iovec → (total : ℕ) → Descriptors → Result ℕ × Descriptors
readv_counter k fd [] total d = (ok total, d)
readv_counter k fd (v ∷ vs) total d =
    if v.iov_len == 0
    then readv_counter k fd vs total d
    else after_buffer total v.iov_len (λ t d'. readv_counter k fd vs t d')
        (read k fd v.iov_base v.iov_len d)

-- The result, the serial line and the tables; `none` while the standard input has not come.
abbrev pub Answer : Type 0
Answer = Option (Result ℕ × SerialLine × Descriptors)

abbrev pub of_serial : Descriptors → Option (Result ℕ × Serial) → Answer
of_serial d none = none
of_serial d (some (r, s)) = some (r, s.serial_line, record d { memory = s.memory })

abbrev pub of_counter : SerialLine → Result ℕ × Descriptors → Answer
of_counter line (r, d) = some (r, line, d)

-- What the system call returns, with the memory as it leaves it.
abbrev pub of_system : SerialLine → Descriptors → Result ℕ × Memory → Answer
of_system line d (r, m) = some (r, line, record d { memory = m })

-- Counters have the loop, and every other descriptor the system call `sys_readv`.
abbrev pub readv_found :
    Kernel
    → (sys_readv : ℤ → List Iovec → Memory → Result ℕ × Memory) → ℤ
    → List Iovec
    → SerialLine
    → Descriptors
    → Option EventFd
    → Answer
readv_found k sys_readv fd iov line d (some event) = of_counter line (readv_counter k fd iov 0 d)
readv_found k sys_readv fd iov line d none = of_system line d (sys_readv fd iov d.memory)

-- `iov` is `none` for NULL, and otherwise has `iovcnt` entries.
unfoldable pub readv :
    Kernel
    → (sys_readv : ℤ → List Iovec → Memory → Result ℕ × Memory) → (server : Server) → (fuel : ℕ) → ℤ
    → Option (List Iovec)
    → (iovcnt : ℤ) → SerialLine
    → Descriptors
    → Answer
readv k sys_readv server fuel fd none iovcnt line d = some (err einval, line, d)
readv k sys_readv server fuel fd (some iov) iovcnt line d =
    if is_negative iovcnt
    then some (err einval, line, d)
    else if fd ==ℤ pos 0
    then of_serial d
        (serial_readv server fuel iov (record { serial_line = line; memory = d.memory }))
    else readv_found k sys_readv fd iov line d (find fd d.fake_eventfds)

-- A counter that is 0 gives nothing to any buffer.
readv_counter-drained :
    (k : Kernel) (fd : ℤ) (event : EventFd) (vs : List Iovec) (total : ℕ) (d : Descriptors)
    → find fd d.fake_eventfds ≡ some event
    → event.counter ≡ 0
    → 0 < total
    → readv_counter k fd vs total d ≡ (ok total, d)
unfolding readv_counter read read_eventfd
readv_counter-drained k fd event [] total d known drained some_read = refl
readv_counter-drained k fd event (v ∷ vs) total d known drained some_read =
    let positive : ltb 0 total ≡ true = ground arith in
    let nothing : (event.counter == 0) ≡ true = ground arith in
    elim (Bool-cases (v.iov_len == 0)) [
      | inl none_asked ↦
          rw none_asked (readv_counter-drained k fd event vs total d known drained some_read)
      | inr asked ↦ elim (Bool-cases (v.iov_base == null || ltb v.iov_len 8)) [
        | inl bad ↦ rw (asked, known, bad, positive) refl
        | inr fine ↦ rw (asked, known, fine, nothing, positive) refl
      ]
    ]

-- After a first buffer took 8 bytes and drained the counter, no other buffer takes any.
after_buffer-drained :
    (k : Kernel) (fd : ℤ) (event : EventFd) (len : ℕ) (vs : List Iovec) (d : Descriptors)
    → find fd d.fake_eventfds ≡ some event
    → event.counter ≡ 0
    → after_buffer 0 len (λ t d'. readv_counter k fd vs t d') (ok 8, d) ≡ (ok 8, d)
after_buffer-drained k fd event len vs d known drained = elim (Bool-cases (8 == len)) [
  | inl full ↦ rw full (readv_counter-drained k fd event vs 8 d known drained (omega arith))
  | inr short ↦ rw short refl
]

-- The loop on a counter in the plain mode, at a buffer that is not empty.
readv_counter-first :
    (k : Kernel) (fd : ℤ) (event : EventFd) (v : Iovec) (vs : List Iovec) (d : Descriptors)
    → find fd d.fake_eventfds ≡ some event
    → bit_and event.flags efd_semaphore ≡ 0
    → v.iov_len ≢ 0
    → readv_counter k fd (v ∷ vs) 0 d ≡ read k fd v.iov_base v.iov_len d
unfolding readv_counter read read_eventfd taken_from
readv_counter-first k fd event v vs d known plain asked =
    let some_asked : (v.iov_len == 0) ≡ false = ground arith in
    let mode : not (bit_and event.flags efd_semaphore == 0) ≡ false = ground arith in
    let none_left =
      find-replace_self fd (record event { counter = 0 }) d.fake_eventfds
        (λ n. absurd (ground (arith, known, n))) in
    elim (Bool-cases (v.iov_base == null || ltb v.iov_len 8)) [
      | inl bad ↦ rw (some_asked, known, bad) refl
      | inr fine ↦ elim (Bool-cases (event.counter == 0)) [
        | inl drained ↦ rw (some_asked, known, fine, drained) refl
        | inr some_left ↦
            rw (some_asked, known, fine, some_left, mode)
              (after_buffer-drained k fd (record event { counter = 0 }) v.iov_len vs _ none_left
                refl)
      ]
    ]

-- `n` empty buffers before the others.
unfoldable pub after_empty : ℕ → List Iovec → List Iovec
after_empty zero vs = vs
after_empty (suc n) vs = record { iov_base = null; iov_len = 0 } ∷ after_empty n vs

readv_counter-skips :
    (k : Kernel) (fd : ℤ) (n : ℕ) (vs : List Iovec) (total : ℕ) (d : Descriptors)
    → readv_counter k fd (after_empty n vs) total d ≡ readv_counter k fd vs total d
unfolding readv_counter after_empty
readv_counter-skips k fd zero vs total d = refl
readv_counter-skips k fd (suc n) vs total d = readv_counter-skips k fd n vs total d

-- On an open counter in the plain mode, other than descriptor 0, `readv` is `read` into the first
-- buffer that is not empty: the result, errors included, the tables and the memory are the same,
-- whatever empty buffers come before it and whatever buffers follow, and the serial line stays.
pub readv-read :
    (k : Kernel) (sys_readv : ℤ → List Iovec → Memory → Result ℕ × Memory) (server : Server)
    (fuel : ℕ) (fd : ℤ) (event : EventFd) (n : ℕ) (v : Iovec) (vs : List Iovec) (line : SerialLine)
    (d : Descriptors)
    → find fd d.fake_eventfds ≡ some event
    → (fd ==ℤ pos 0) ≡ false
    → bit_and event.flags efd_semaphore ≡ 0
    → v.iov_len ≢ 0
    → readv k sys_readv server fuel fd
        (some (after_empty n (v ∷ vs)))
        (pos (length (after_empty n (v ∷ vs))))
        line
        d
      ≡ of_counter line (read k fd v.iov_base v.iov_len d)
unfolding readv
readv-read k sys_readv server fuel fd event n v vs line d known other plain asked =
    rw (other, known)
      (ap (of_counter line) (
        readv_counter-skips k fd n (v ∷ vs) 0 d
        ∙ readv_counter-first k fd event v vs d known plain asked))
