-- ===== src/Poll/Serial.antt =====
-- Standard input in ruby_syscall_poll.c, lines 324 to 420: the ring that SerialServer fills, and the
-- reads that drain it. SerialServer is not part of this repository and runs beside the component: it is
-- a parameter that may act on the ring before each access of the client's. An access is one evaluation
-- of `head != tail`, of which only the server changes `tail` and only the client `head`, one read of a
-- byte, or one step of `head`.
use cruby_on_sel.Prelude.{
  ℕ, zero, suc, ◌+◌, ◌-◌, ◌%◌, Bool, not, ◌==◌, if◌then◌else◌, List, [], ◌∷◌, ◌++◌, Option, none,
  some,
}
use cruby_on_sel.Errno.{efault, Result, ok, err}
use cruby_on_sel.Memory.{Memory, null, poke}

-- sizeof(ring->buf)
abbrev pub ring_size : ℕ
ring_size = 4088

pub record SerialRing : Type 0 where
  pub head : ℕ
  pub tail : ℕ
  pub buf : ℕ → ℕ

-- The ring, the bytes that the server has put in it so far, and the number of its next action. The code
-- sees the ring only.
pub record SerialLine : Type 0 where
  pub ring : SerialRing
  pub typed : List ℕ
  pub time : ℕ

-- The `n`-th action: the bytes that it puts, and the ring after it. It may put none.
abbrev pub Server : Type 0
Server = ℕ → SerialRing → List ℕ × SerialRing

abbrev pub acts : Server → SerialLine → SerialLine
acts server l = record {
  ring = (server l.time l.ring).1;
  typed = l.typed ++ (server l.time l.ring).0;
  time = suc l.time;
}

abbrev pub serial_has_input : SerialRing → Bool
serial_has_input r = not (r.head == r.tail)

abbrev pub step_head : SerialLine → SerialLine
step_head l = record l { ring = record l.ring { head = (l.ring.head + 1) % ring_size } }

unfoldable pub serial_take : Server → SerialLine → ℕ × SerialLine
serial_take server l =
    let read_at = acts server l in
    (read_at.ring.buf read_at.ring.head, step_head (acts server read_at))

-- The `while` of `serial_getchar`, with fuel; `none` when it still waits.
unfoldable pub serial_wait : Server → ℕ → SerialLine → Option SerialLine
serial_wait server zero l = if serial_has_input l.ring then some l else none
serial_wait server (suc fuel) l =
    let rest = serial_wait server fuel (acts server l) in
    if serial_has_input l.ring then some l else rest

abbrev pub got : Server → Option SerialLine → Option (ℕ × SerialLine)
got server none = none
got server (some l) = some (serial_take server l)

unfoldable pub serial_getchar : Server → ℕ → SerialLine → Option (ℕ × SerialLine)
serial_getchar server fuel l = got server (serial_wait server fuel l)

pub record Iovec : Type 0 where
  pub iov_base : ℕ
  pub iov_len : ℕ

-- The line, and the memory that is read into.
pub record Serial : Type 0 where
  pub serial_line : SerialLine
  pub memory : Memory

-- `base[used++] = c`
abbrev pub put_byte : (address : ℕ) → Memory → ℕ × SerialLine → Serial
put_byte address m (c, l) = record { serial_line = l; memory = poke address c m }

-- The `while` of `serial_readv`: the bytes stored, with `room` left in the buffer.
unfoldable pub serial_drain : Server → (room address : ℕ) → Serial → ℕ × Serial
serial_drain server zero address s = (0, s)
serial_drain server (suc room) address s =
    let seen = acts server s.serial_line in
    let rest =
      serial_drain server room (address + 1)
        (put_byte address s.memory (serial_take server seen)) in
    if serial_has_input seen.ring
    then (suc rest.0, rest.1)
    else (0, record s { serial_line = seen })

-- The first buffer that is not empty; `none` when there is none, or an error.
unfoldable pub first_buffer : List Iovec → Result (Option Iovec)
first_buffer [] = ok none
first_buffer (v ∷ vs) =
    if v.iov_len == 0
    then first_buffer vs
    else if v.iov_base == null
    then err efault
    else ok (some v)

abbrev pub read_first :
    Server → (base capacity : ℕ) → Memory → Option (ℕ × SerialLine) → Option (Result ℕ × Serial)
read_first server base capacity m none = none
read_first server base capacity m (some got) =
    let rest = serial_drain server (capacity - 1) (base + 1) (put_byte base m got) in
    some (ok (suc rest.0), rest.1)

abbrev pub readv_buffer : Server → ℕ → Serial → Result (Option Iovec) → Option (Result ℕ × Serial)
readv_buffer server fuel s (err e) = some (err e, s)
readv_buffer server fuel s (ok none) = some (ok 0, s)
readv_buffer server fuel s (ok (some v)) =
    read_first server v.iov_base v.iov_len s.memory (serial_getchar server fuel s.serial_line)

unfoldable pub serial_readv : Server → ℕ → List Iovec → Serial → Option (Result ℕ × Serial)
serial_readv server fuel iov s = readv_buffer server fuel s (first_buffer iov)
