-- ===== src/Alloc/Align.antt =====
-- `is_power_of_two` and `align_up` of ruby_alloc.c, lines 69 to 77, as arithmetic.
use cruby_on_sel.Prelude.{
  ℕ, zero, suc, ◌+◌, ◌-◌, ◌*◌, ◌/◌, ◌%◌, ◌^◌, ◌≤◌, ◌<◌, ◌≡◌, ap, sym, ◌∙◌, inl, inr, true, bit_and,
  ◌==◌, arith, Bool-cases, ltb,
}
use native.Mathlib.Nat.{
  pow-succ', one-le-pow, div-add-mod, mod-lt, mod-eq_of_lt, lt_of_mul-lt-mul_left, mul-mod_right,
  pow-le-pow_right,
}
use cruby_on_sel.Bits.{bit_and_digit, bit_and_self, high_mask}
use cruby_on_sel.Alloc.Header.{word, complement, is_power_of_two, align_up}

pub pow_add : (k j : ℕ) → 2 ^ (k + j) ≡ 2 ^ k * 2 ^ j
pow_add zero j = let e : zero + j ≡ j = omega arith in rw e (omega arith)
pow_add (suc k) j =
    let e : suc k + j ≡ suc (k + j) = omega arith in
    rw (e, pow-succ' 2 (k + j), pow-succ' 2 k, pow_add k j) (omega arith)

-- A number that shares no binary digit with its predecessor is a power of two.
power_upto : (n v : ℕ) → v ≤ n → 0 < v → bit_and v (v - 1) ≡ 0 → (k : ℕ) × (v ≡ 2 ^ k)
power_upto zero v h pos e = absurd (omega arith)
power_upto (suc n) v h pos e = elim (Bool-cases (v % 2 == 0)) [
  | inl even ↦
      let half : (v - 1) / 2 ≡ v / 2 - 1 = ground arith in
      let (k, p) =
        power_upto n (v / 2) (ground arith) (ground arith)
          (ground (arith, bit_and_digit v (v - 1))) in
      (suc k, ground (arith, pow-succ' 2 k))
  | inr odd ↦
      let half : (v - 1) / 2 ≡ v / 2 = ground arith in
      (0, ground (arith, bit_and_digit v (v - 1), bit_and_self (v / 2)))
]

exponent-lt : (k : ℕ) → 2 ^ k < 2 ^ 64 → k < 64
exponent-lt k h = elim (Bool-cases (ltb k 64)) [
  | inl lt ↦ ground arith
  | inr ge ↦ absurd (
      le_lt_absurd (2 ^ 64) (2 ^ k)
        (pow-le-pow_right {n = 2} (omega arith) {i = 64} {j = k} (ground arith)) h)
]
  where
    le_lt_absurd : (a b : ℕ) → a ≤ b → b < a → ⊥
    le_lt_absurd a b p q = omega arith

pub is_power_of_two_sound :
    (v : ℕ) → v < 2 ^ 64 → is_power_of_two v ≡ true → (k : ℕ) × (k < 64) × (v ≡ 2 ^ k)
unfolding is_power_of_two
is_power_of_two_sound v small h =
    let below : word (v + (2 ^ 64 - 1)) ≡ v - 1 = ground arith in
    let (k, e) = power_upto v v (omega arith) (ground arith) (ground arith) in
    (k, exponent-lt k (omega arith), e)

-- The least multiple of `2 ^ k` that is not below `v`, where the sum does not wrap.
pub record IsAlignedUp (p v r : ℕ) : Type 0 where
  pub above : v ≤ r
  pub near : r < v + p
  pub aligned : r % p ≡ 0

module _ (p q v : ℕ) (whole : p * q ≡ 2 ^ 64) (pos : 0 < p) (fits : v + p ≤ 2 ^ 64) where
  quotient-lt : (v + p - 1) / p < q
  quotient-lt =
      lt_of_mul-lt-mul_left p
        (omega (arith, whole, div-add-mod (v + p - 1) p, mod-lt (v + p - 1) pos))

  rounded-IsAlignedUp : IsAlignedUp p v (p * ((v + p - 1) / p % q))
  rounded-IsAlignedUp = rw (mod-eq_of_lt quotient-lt) (record {
    above = omega (arith, div-add-mod (v + p - 1) p, mod-lt (v + p - 1) pos);
    near = omega (arith, div-add-mod (v + p - 1) p);
    aligned = mul-mod_right p ((v + p - 1) / p);
  })

-- For an alignment `2 ^ k` below 2^64, and a value whose sum with it does not exceed 2^64, `align_up`
-- gives the least multiple of the alignment that is not below the value.
pub align_up-IsAlignedUp :
    (k v : ℕ) → k < 64 → v + 2 ^ k ≤ 2 ^ 64 → IsAlignedUp (2 ^ k) v (align_up v (2 ^ k))
unfolding align_up
align_up-IsAlignedUp k v hk fits =
    rw (dividend, mask, high_mask k (64 - k) (v + 2 ^ k - 1))
      (rounded-IsAlignedUp (2 ^ k) (2 ^ (64 - k)) v whole pos fits)
  where
    pos : 0 < 2 ^ k
    pos = one-le-pow k 2 (omega arith)

    whole : 2 ^ k * 2 ^ (64 - k) ≡ 2 ^ 64
    whole = sym (pow_add k (64 - k)) ∙ ap (λ n. 2 ^ n) all
      where
        all : k + (64 - k) ≡ 64
        all = omega arith

    dividend : word (v + 2 ^ k + (2 ^ 64 - 1)) ≡ v + 2 ^ k - 1
    dividend = omega (arith, pos)

    mask : complement (word (2 ^ k + (2 ^ 64 - 1))) ≡ 2 ^ k * (2 ^ (64 - k) - 1)
    mask = omega (arith, pos, whole, ap (λ (n : ℕ). 2 ^ k * n) split)
      where
        split : 2 ^ (64 - k) ≡ 2 ^ (64 - k) - 1 + 1
        split = omega (arith, one-le-pow (64 - k) 2 (omega arith))
