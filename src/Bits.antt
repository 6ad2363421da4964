-- ===== src/Bits.antt =====
-- The bit operations of C on unsigned words, as arithmetic: masks, powers of two, exclusive or.
pub mod Flags
use Prim.Native.Nat.{digits, bitwise, bit_and-bitwise, bit_xor-bitwise, differ}
use cruby_on_sel.Prelude.{
  ℕ, zero, suc, ◌+◌, ◌-◌, ◌*◌, ◌/◌, ◌%◌, ◌^◌, ◌≤◌, ◌<◌, min, bit_and, bit_xor, ◌≡◌, refl, ap, sym,
  ◌∙◌, arith, mod-mul_split,
}
use native.Mathlib.Nat.{pow-succ', one-le-pow, div-one, mul_assoc, div-div-eq-div-mul}

-- The native operations are recursions on binary digits whose fuel is the first number; more fuel
-- than digits changes nothing.
module _ (rest : ℕ → ℕ) (op : ℕ → ℕ → ℕ) where
  more_digits : (f g a b : ℕ) → a ≤ f → a ≤ g → digits rest op f a b ≡ digits rest op g a b
  more_digits zero zero zero b p q = refl
  more_digits zero zero (suc a) b p q = refl
  more_digits zero (suc g) zero b p q = refl
  more_digits zero (suc g) (suc a) b p q = elim p [ ]
  more_digits (suc f) zero zero b p q = refl
  more_digits (suc f) zero (suc a) b p q = elim q [ ]
  more_digits (suc f) (suc g) zero b p q = refl
  more_digits (suc f) (suc g) (suc a) b p q =
      ap (λ t. t * 2 + op (suc a % 2) (b % 2))
        (more_digits f g (suc a / 2) (b / 2) (omega arith) (omega arith))

  pub low_digit :
      (a b : ℕ)
      → bitwise rest op (suc a) b ≡ bitwise rest op (suc a / 2) (b / 2) * 2 + op (suc a % 2) (b % 2)
  low_digit a b =
      ap (λ t. t * 2 + op (suc a % 2) (b % 2))
        (more_digits a (suc a / 2) (suc a / 2) (b / 2) (omega arith) (omega arith))

pub bit_and_digit : (a b : ℕ) → bit_and a b ≡ bit_and (a / 2) (b / 2) * 2 + min (a % 2) (b % 2)
bit_and_digit zero b = simp bit_and-bitwise (omega arith)
bit_and_digit (suc a) b = simp bit_and-bitwise (low_digit (λ _. 0) min a b)

differ-digits : (x y : ℕ) → x < 2 → y < 2 → differ x y ≡ (x + y) % 2
differ-digits zero y p q = omega arith
differ-digits (suc zero) zero p q = refl
differ-digits (suc zero) (suc zero) p q = refl
differ-digits (suc zero) (suc (suc y)) p q = absurd (omega arith)
differ-digits (suc (suc x)) y p q = absurd (omega arith)

pub bit_xor_digit : (a b : ℕ) → bit_xor a b ≡ bit_xor (a / 2) (b / 2) * 2 + (a % 2 + b % 2) % 2
bit_xor_digit zero b = simp bit_xor-bitwise (omega arith)
bit_xor_digit (suc a) b = simp bit_xor-bitwise (
    low_digit (λ b. b) differ a b
    ∙ ap (λ t. bitwise (λ b. b) differ (suc a / 2) (b / 2) * 2 + t)
        (differ-digits (suc a % 2) (b % 2) (omega arith) (omega arith)))

bit_and_zero_upto : (n a : ℕ) → a ≤ n → bit_and a 0 ≡ 0
bit_and_zero_upto n zero h = refl
bit_and_zero_upto zero (suc a) h = elim h [ ]
bit_and_zero_upto (suc n) (suc a) h =
    omega (arith, bit_and_digit (suc a) 0, bit_and_zero_upto n (suc a / 2) (omega arith))

pub bit_and-zero : (a : ℕ) → bit_and a 0 ≡ 0
bit_and-zero a = bit_and_zero_upto a a (omega arith)

pub bit_and_self : (a : ℕ) → bit_and a a ≡ a
bit_and_self a = upto a a (omega arith)
  where
    upto : (n a : ℕ) → a ≤ n → bit_and a a ≡ a
    upto n zero h = refl
    upto zero (suc a) h = elim h [ ]
    upto (suc n) (suc a) h =
        omega (arith, bit_and_digit (suc a) (suc a), upto n (suc a / 2) (omega arith))

-- A mask of `j` ones keeps the low `j` bits.
pub low_mask : (j x : ℕ) → bit_and x (2 ^ j - 1) ≡ x % 2 ^ j
low_mask zero x = omega (arith, bit_and-zero x)
low_mask (suc j) x = ground (
  arith,
  bit_and_digit x (2 ^ suc j - 1),
  pow-succ' 2 j,
  one-le-pow j 2 (omega arith),
  low_mask j (x / 2),
  mod-mul_split 2 (2 ^ j) x (omega arith) (one-le-pow j 2 (omega arith)),
)

pub bit_and-double : (x m : ℕ) → bit_and x (2 * m) ≡ 2 * bit_and (x / 2) m
bit_and-double x m = ground (arith, bit_and_digit x (2 * m))

-- `j` ones above `k` zeros: the mask that clears the low `k` bits of a word of `k + j` bits.
pub high_mask : (k j x : ℕ) → bit_and x (2 ^ k * (2 ^ j - 1)) ≡ 2 ^ k * (x / 2 ^ k % 2 ^ j)
high_mask zero j x = ground (arith, low_mask j x, div-one x)
high_mask (suc k) j x =
    rw (pow-succ', mul_assoc, bit_and-double, high_mask k j (x / 2), div-div-eq-div-mul)
      (omega arith)

-- Words that differ in no bit are equal.
pub eq_of_bit_xor-zero : (a b : ℕ) → bit_xor a b ≡ 0 → a ≡ b
eq_of_bit_xor-zero a b = upto (a + b) a b (omega arith)
  where
    upto : (n a b : ℕ) → a + b ≤ n → bit_xor a b ≡ 0 → a ≡ b
    upto zero a b h e = omega arith
    upto (suc n) zero b h e = sym (simp bit_xor-bitwise at e)
    upto (suc n) (suc a) b h e =
        let digit = bit_xor_digit (suc a) b in
        omega (arith, upto n (suc a / 2) (b / 2) (omega arith) (omega arith))

pub bit_xor-lt : (k a b : ℕ) → a < 2 ^ k → b < 2 ^ k → bit_xor a b < 2 ^ k
bit_xor-lt zero a b p q = ground (arith, bit_xor-bitwise 0 0)
bit_xor-lt (suc k) a b p q =
    let half = pow-succ' 2 k in
    omega (arith, bit_xor_digit a b, bit_xor-lt k (a / 2) (b / 2) (omega arith) (omega arith))
