-- ===== src/Random/Nonzero.antt =====
-- The xorshift of ruby_syscall_random.c never reaches the state 0, from which it could not leave.
use cruby_on_sel.Prelude.{ℕ, ◌*◌, ◌/◌, ◌%◌, ◌^◌, ◌<◌, ◌≡◌, ◌≢◌, arith}
use cruby_on_sel.Bits.{eq_of_bit_xor-zero, bit_xor-lt}
use cruby_on_sel.Random.Source.{shift_left_13, shift_right_7, shift_left_17, next_random64}

shift_left_13-zero : (x : ℕ) → x < 2 ^ 64 → shift_left_13 x ≡ 0 → x ≡ 0
unfolding shift_left_13
shift_left_13-zero x bound e = omega (arith, eq_of_bit_xor-zero x (x * 2 ^ 13 % 2 ^ 64) e)

shift_right_7-zero : (x : ℕ) → x < 2 ^ 64 → shift_right_7 x ≡ 0 → x ≡ 0
unfolding shift_right_7
shift_right_7-zero x bound e = omega (arith, eq_of_bit_xor-zero x (x / 2 ^ 7) e)

shift_left_17-zero : (x : ℕ) → x < 2 ^ 64 → shift_left_17 x ≡ 0 → x ≡ 0
unfolding shift_left_17
shift_left_17-zero x bound e = omega (arith, eq_of_bit_xor-zero x (x * 2 ^ 17 % 2 ^ 64) e)

-- In `next_random64`, a 64-bit state is followed by a 64-bit state, and one that is not 0 by one
-- that is not 0.
pub next_random64-nonzero :
    (s : ℕ) → s < 2 ^ 64 → s ≢ 0 → (next_random64 s < 2 ^ 64) × (next_random64 s ≢ 0)
unfolding next_random64
next_random64-nonzero s bound nonzero = (
  b3,
  λ e. nonzero (shift_left_13-zero s bound (shift_right_7-zero _ b1 (shift_left_17-zero _ b2 e))),
)
  where
    b1 : shift_left_13 s < 2 ^ 64
    b1 = bit_xor-lt 64 s (s * 2 ^ 13 % 2 ^ 64) bound (omega arith)

    b2 : shift_right_7 (shift_left_13 s) < 2 ^ 64
    b2 = bit_xor-lt 64 (shift_left_13 s) (shift_left_13 s / 2 ^ 7) b1 (omega (arith, b1))

    b3 : shift_left_17 (shift_right_7 (shift_left_13 s)) < 2 ^ 64
    b3 =
        bit_xor-lt 64 (shift_right_7 (shift_left_13 s))
          (shift_right_7 (shift_left_13 s) * 2 ^ 17 % 2 ^ 64) b2 (omega arith)
