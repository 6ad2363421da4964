-- ===== src/Random/Source.antt =====
-- The functions of ruby_syscall_random.c. `buf` is an address, 0 for NULL.
use cruby_on_sel.Prelude.{
  ℕ, zero, suc, ◌+◌, ◌-◌, ◌*◌, ◌/◌, ◌%◌, ◌^◌, ◌&&◌, not, ◌==◌, ltb, if◌then◌else◌, bit_xor,
}
use cruby_on_sel.Errno.{efault, eio, Result, ok, err}
use cruby_on_sel.Memory.{Memory, null, poke}

-- The memory, and the static `random_state`.
pub record Random : Type 0 where
  pub memory : Memory
  pub random_state : ℕ

abbrev pub seed : ℕ
seed = 0x6a09e667f3bcc909

-- `x << 13`, `x >> 7` and `x << 17` in 64 bits, each xored in.
unfoldable pub shift_left_13 : ℕ → ℕ
shift_left_13 x = bit_xor x (x * 2 ^ 13 % 2 ^ 64)

unfoldable pub shift_right_7 : ℕ → ℕ
shift_right_7 x = bit_xor x (x / 2 ^ 7)

unfoldable pub shift_left_17 : ℕ → ℕ
shift_left_17 x = bit_xor x (x * 2 ^ 17 % 2 ^ 64)

-- The value that `next_random64` stores and returns.
unfoldable pub next_random64 : ℕ → ℕ
unfolding shift_left_13 shift_right_7 shift_left_17
next_random64 s = shift_left_17 (shift_right_7 (shift_left_13 s))

-- `(unsigned char)(value >> (i * 8))`
abbrev pub byte_of : ℕ → ℕ → ℕ
byte_of value i = value / 2 ^ (i * 8) % 256

-- The inner `for`: `rounds` bytes from index `i` on.
unfoldable pub put_bytes : ℕ → ℕ → ℕ → ℕ → Memory → Memory
put_bytes zero i base value m = m
put_bytes (suc rounds) i base value m =
    put_bytes rounds (i + 1) base value (poke (base + i) (byte_of value i) m)

unfoldable pub chunk_of : ℕ → ℕ
chunk_of left = if ltb 8 left then 8 else left

-- The `while`, with fuel; each round writes at least one byte.
unfoldable pub fill : ℕ → ℕ → ℕ → ℕ → Random → Random
fill zero buf buflen offset r = r
fill (suc fuel) buf buflen offset r =
    let rest = fill fuel buf buflen (offset + chunk_of (buflen - offset)) (record {
      memory =
          put_bytes (chunk_of (buflen - offset)) 0 (buf + offset) (next_random64 r.random_state)
            r.memory;
      random_state = next_random64 r.random_state;
    }) in
    if ltb offset buflen then rest else r

unfoldable pub getrandom : ℕ → ℕ → ℕ → Random → Result ℕ × Random
getrandom buf buflen flags r =
    if buf == null && not (buflen == 0)
    then (err efault, r)
    else (ok buflen, fill buflen buf buflen 0 r)

-- `getrandom(...) == buflen ? 0 : -1`
abbrev pub returned_all : ℕ → Result ℕ × Random → Result (Unit {0}) × Random
returned_all buflen (ok n, r) = (if n == buflen then ok tt else err efault, r)
returned_all buflen (err e, r) = (err e, r)

unfoldable pub getentropy : ℕ → ℕ → Random → Result (Unit {0}) × Random
getentropy buf buflen r =
    if ltb 256 buflen then (err eio, r) else returned_all buflen (getrandom buf buflen 0 r)
