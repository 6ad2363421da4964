-- ===== src/Bits/Flags.antt =====
-- Single bits of a word, and the operations of C that test, set and clear them.
use Prim.Native.Nat.{bit_or-bitwise, max}
use cruby_on_sel.Prelude.{
  ℕ, zero, suc, ◌+◌, ◌*◌, ◌/◌, ◌%◌, ◌^◌, ◌<◌, min, bit_and, bit_or, ◌≡◌, ap, ◌∙◌, arith,
}
use cruby_on_sel.Bits.{low_digit, bit_and_digit, bit_and-zero, bit_and-double}
use native.Mathlib.Nat.{pow-succ'}

pub bit_or_digit : (a b : ℕ) → bit_or a b ≡ bit_or (a / 2) (b / 2) * 2 + max (a % 2) (b % 2)
bit_or_digit zero b = simp bit_or-bitwise (omega arith)
bit_or_digit (suc a) b = simp bit_or-bitwise (low_digit (λ b. b) max a b)

-- Bit `k` of a word.
unfoldable pub bit : ℕ → ℕ → ℕ
bit zero x = x % 2
bit (suc k) x = bit k (x / 2)

pub bit-bit_and : (k a b : ℕ) → bit k (bit_and a b) ≡ min (bit k a) (bit k b)
unfolding bit
bit-bit_and zero a b = omega (arith, bit_and_digit a b)
bit-bit_and (suc k) a b =
    let half : bit_and a b / 2 ≡ bit_and (a / 2) (b / 2) = omega (arith, bit_and_digit a b) in
    ap (bit k) half ∙ bit-bit_and k (a / 2) (b / 2)

pub bit-bit_or : (k a b : ℕ) → bit k (bit_or a b) ≡ max (bit k a) (bit k b)
unfolding bit
bit-bit_or zero a b = omega (arith, bit_or_digit a b)
bit-bit_or (suc k) a b =
    let half : bit_or a b / 2 ≡ bit_or (a / 2) (b / 2) = omega (arith, bit_or_digit a b) in
    ap (bit k) half ∙ bit-bit_or k (a / 2) (b / 2)

-- `x & (1 << k)` is not 0 exactly if the bit is set.
pub bit_and-pow : (k x : ℕ) → bit_and x (2 ^ k) ≡ bit k x * 2 ^ k
unfolding bit
bit_and-pow zero x = omega (arith, bit_and_digit x 1, bit_and-zero (x / 2))
bit_and-pow (suc k) x = rw (pow-succ', bit_and-double, bit_and-pow k (x / 2)) (grind arith)

pub bit-lt : (k x : ℕ) → bit k x < 2
unfolding bit
bit-lt zero x = omega arith
bit-lt (suc k) x = bit-lt k (x / 2)
