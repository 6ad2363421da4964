-- ===== src/Poll/Machine.antt =====
-- The calls on the descriptors of ruby_syscall_poll.c, in any order.
use cruby_on_sel.Prelude.{
  ℕ, ◌+◌, ◌%◌, ◌^◌, arith, ◌==◌, Bool-cases, inl, inr, List, [], ◌∷◌, Option, none, some, ℤ,
}
use cruby_on_sel.Errno.{Result, ok, err}
use cruby_on_sel.Memory.{store}
use cruby_on_sel.Poll.Table.{find}
use cruby_on_sel.Poll.Source.{
  Descriptors, Kernel, EventFd, EpollEvent, ControlOp, eventfd, read, write, close,
}
use cruby_on_sel.Poll.Epoll.{epoll_create1, epoll_ctl}
use cruby_on_sel.Poll.Serial.{Iovec}
use cruby_on_sel.Poll.Readv.{eventfd_read, eventfd_write, after_buffer, readv_counter}
use cruby_on_sel.Poll.Fcntl.{Command, fcntl}
use cruby_on_sel.Poll.Effects.{
  writes_memory, Effects, nothing, one, Effects-append, eventfd-Effects, epoll_create1-Effects,
  read-Effects, write-Effects, close-Effects, epoll_ctl-Effects, fcntl-Effects,
}

pub data Call : Type 0 where
  open_counter : (initval flags : ℕ) → Call
  open_set : (flags : ℕ) → Call
  read_from write_to : ℤ → (buf count : ℕ) → Call
  close_it : ℤ → Call
  control_set : (epfd : ℤ) → ControlOp → (fd : ℤ) → Option EpollEvent → Call
  set_flags : ℤ → Command → (arg : ℕ) → Call
  read_into : ℤ → List Iovec → Call
  read_value : ℤ → (value : ℕ) → Call
  write_value : ℤ → (slot value : ℕ) → Call

-- What `readv` leaves once it has looked for a counter.
abbrev after_readv : Kernel → ℤ → List Iovec → Descriptors → Option EventFd → Descriptors
after_readv k fd iov d none = d
after_readv k fd iov d (some event) = (readv_counter k fd iov 0 d).1

-- What the call leaves of the statics and the memory; the initial value is an `unsigned int`.
unfoldable pub after_call : Kernel → Call → Descriptors → Descriptors
after_call k (open_counter initval flags) d = (eventfd (initval % 2 ^ 32) flags d).1
after_call k (open_set flags) d = (epoll_create1 flags d).1
after_call k (read_from fd buf count) d = (read k fd buf count d).1
after_call k (write_to fd buf count) d = (write k fd buf count d).1
after_call k (close_it fd) d = (close k fd d).1
after_call k (control_set epfd op fd event) d = (epoll_ctl k epfd op fd event d).1
after_call k (set_flags fd cmd arg) d = (fcntl fd cmd arg d).1
after_call k (read_into fd iov) d = after_readv k fd iov d (find fd d.fake_eventfds)
after_call k (read_value fd value) d = (eventfd_read k fd value d).1
after_call k (write_value fd slot value) d = (eventfd_write k fd slot value d).1

unfoldable pub after_calls : Kernel → List Call → Descriptors → Descriptors
after_calls k [] d = d
after_calls k (c ∷ cs) d = after_calls k cs (after_call k c d)

after_buffer-Effects :
    {d : Descriptors} (total len : ℕ) (rest : ℕ → Descriptors → Result ℕ × Descriptors)
    (r : Result ℕ × Descriptors)
    → Effects d r.1
    → ((n : ℕ) (d' : Descriptors) → Effects d' (rest n d').1)
    → Effects d (after_buffer total len rest r).1
after_buffer-Effects total len rest (err e, d') so_far next = so_far
after_buffer-Effects total len rest (ok n, d') so_far next = elim (Bool-cases (n == len)) [
  | inl full ↦ rw full (Effects-append so_far (next (total + n) d'))
  | inr short ↦ rw short so_far
]

readv_counter-Effects :
    (k : Kernel) (fd : ℤ) (vs : List Iovec) (total : ℕ) (d : Descriptors)
    → Effects d (readv_counter k fd vs total d).1
unfolding readv_counter
readv_counter-Effects k fd [] total d = nothing
readv_counter-Effects k fd (v ∷ vs) total d = elim (Bool-cases (v.iov_len == 0)) [
  | inl empty ↦ rw empty (readv_counter-Effects k fd vs total d)
  | inr asked ↦ rw asked (
      after_buffer-Effects total v.iov_len (λ t d'. readv_counter k fd vs t d')
        (read k fd v.iov_base v.iov_len d) (read-Effects k fd v.iov_base v.iov_len d)
        (λ t d'. readv_counter-Effects k fd vs t d'))
]

after_readv-Effects :
    (k : Kernel) (fd : ℤ) (iov : List Iovec) (d : Descriptors) (event : Option EventFd)
    → Effects d (after_readv k fd iov d event)
after_readv-Effects k fd iov d none = nothing
after_readv-Effects k fd iov d (some event) = readv_counter-Effects k fd iov 0 d

eventfd_write-Effects :
    (k : Kernel) (fd : ℤ) (slot value : ℕ) (d : Descriptors)
    → Effects d (eventfd_write k fd slot value d).1
unfolding eventfd_write
eventfd_write-Effects k fd slot value d =
    Effects-append (one (writes_memory (store 8 slot value d.memory)))
      (write-Effects k fd slot 8 (record d { memory = store 8 slot value d.memory }))

-- Every call is a sequence of elementary changes.
pub call-Effects : (k : Kernel) (c : Call) (d : Descriptors) → Effects d (after_call k c d)
unfolding after_call eventfd_read
call-Effects k (open_counter initval flags) d =
    eventfd-Effects (initval % 2 ^ 32) flags d (omega arith)
call-Effects k (open_set flags) d = epoll_create1-Effects flags d
call-Effects k (read_from fd buf count) d = read-Effects k fd buf count d
call-Effects k (write_to fd buf count) d = write-Effects k fd buf count d
call-Effects k (close_it fd) d = close-Effects k fd d
call-Effects k (control_set epfd op fd event) d = epoll_ctl-Effects k epfd op fd event d
call-Effects k (set_flags fd cmd arg) d = fcntl-Effects fd cmd arg d
call-Effects k (read_into fd iov) d = after_readv-Effects k fd iov d (find fd d.fake_eventfds)
call-Effects k (read_value fd value) d = read-Effects k fd value 8 d
call-Effects k (write_value fd slot value) d = eventfd_write-Effects k fd slot value d
