-- ===== src/Random/Fill.antt =====
-- What `getrandom` of ruby_syscall_random.c writes.
use cruby_on_sel.Prelude.{
  ℕ, zero, suc, ◌+◌, ◌-◌, ◌*◌, ◌/◌, ◌%◌, ◌^◌, ◌≤◌, ◌<◌, ◌≡◌, ◌≢◌, refl, ◌∙◌, ◌⊎◌, inl, inr, false,
  arith, ◌==◌, ltb, Bool-cases,
}
use native.Mathlib.Nat.{pow-succ'}
use cruby_on_sel.Errno.{ok}
use cruby_on_sel.Memory.{Memory, null, poke, poke-at, poke-outside}
use cruby_on_sel.Random.Source.{
  Random, next_random64, byte_of, put_bytes, chunk_of, fill, getrandom,
}

-- The state after `n` steps.
unfoldable pub nth_state : ℕ → ℕ → ℕ
nth_state zero s = s
nth_state (suc n) s = nth_state n (next_random64 s)

-- Byte `j` of the sequence that follows state `s`: each state gives its eight digits to base 256, the
-- lowest first.
abbrev pub stream : ℕ → ℕ → ℕ
stream s j = nth_state (suc (j / 8)) s / 256 ^ (j % 8) % 256

power_add : (k m : ℕ) → 2 ^ (k + m) ≡ 2 ^ k * 2 ^ m
power_add zero m = let e : 0 + m ≡ m = omega arith in rw e (omega arith)
power_add (suc k) m =
    let e : suc k + m ≡ suc (k + m) = omega arith in
    rw (e, pow-succ' 2 (k + m), power_add k m, pow-succ' 2 k) (grind arith)

power_256 : (j : ℕ) → 2 ^ (j * 8) ≡ 256 ^ j
power_256 zero = refl
power_256 (suc j) =
    let e : suc j * 8 ≡ 8 + j * 8 = omega arith in
    rw (e, power_add 8 (j * 8), power_256 j) (omega (arith, pow-succ' 256 j))

-- The shift by whole bytes finds the digit.
byte_of_digit : (value j : ℕ) → byte_of value j ≡ value / 256 ^ j % 256
byte_of_digit value j = rw (power_256 j) refl

put_bytes-outside :
    (n i base value : ℕ) (m : Memory) (x : ℕ)
    → (x < base + i) ⊎ (base + i + n ≤ x)
    → put_bytes n i base value m x ≡ m x
unfolding put_bytes
put_bytes-outside zero i base value m x out = refl
put_bytes-outside (suc n) i base value m x out =
    put_bytes-outside n (i + 1) base value (poke (base + i) (byte_of value i) m) x (ground arith)
    ∙ poke-outside (base + i) (byte_of value i) m x (ground arith)

put_bytes-inside :
    (n i base value : ℕ) (m : Memory) (j : ℕ)
    → i ≤ j
    → j < i + n
    → put_bytes n i base value m (base + j) ≡ byte_of value j
unfolding put_bytes
put_bytes-inside zero i base value m j lo hi = absurd (omega arith)
put_bytes-inside (suc n) i base value m j lo hi = elim (Bool-cases (i == j)) [
  | inl here ↦
      let e : i ≡ j = ground arith in
      put_bytes-outside n (i + 1) base value (poke (base + i) (byte_of value i) m) (base + j)
        (inl (omega arith))
      ∙ rw e (poke-at (base + j) (byte_of value j) m)
  | inr later ↦
      put_bytes-inside n (i + 1) base value (poke (base + i) (byte_of value i) m) j (ground arith)
        (omega arith)
]

-- The bytes from `offset` to `buflen` continue the stream from `s`; all others stay.
record IsFilled (buf buflen offset : ℕ) (r r' : Random) : Type 0 where
  bytes : (j : ℕ) → offset + j < buflen → r'.memory (buf + offset + j) ≡ stream r.random_state j
  outside : (x : ℕ) → (x < buf + offset) ⊎ (buf + buflen ≤ x) → r'.memory x ≡ r.memory x

chunk_of_bounds :
    (left : ℕ) → 0 < left → (0 < chunk_of left) × (chunk_of left ≤ 8) × (chunk_of left ≤ left)
unfolding chunk_of
chunk_of_bounds left some_left = ground arith

chunk_of_full : (left : ℕ) → chunk_of left < left → chunk_of left ≡ 8
unfolding chunk_of
chunk_of_full left less = ground arith

stream_first : (s j : ℕ) → j < 8 → byte_of (next_random64 s) j ≡ stream s j
unfolding nth_state
stream_first s j lt =
    let q : j / 8 ≡ 0 = omega arith in
    let m : j % 8 ≡ j = omega arith in rw (q, m) (byte_of_digit (next_random64 s) j)

stream_next : (s j : ℕ) → 8 ≤ j → stream (next_random64 s) (j - 8) ≡ stream s j
unfolding nth_state
stream_next s j le =
    let q : j / 8 ≡ suc ((j - 8) / 8) = omega arith in
    let m : j % 8 ≡ (j - 8) % 8 = omega arith in rw (q, m)

module _ (buf buflen offset : ℕ) (r : Random) (more : offset < buflen) where
  abbrev chunk : ℕ
  chunk = chunk_of (buflen - offset)

  -- The state after one round.
  abbrev filled_once : Random
  filled_once = record {
    memory = put_bytes chunk 0 (buf + offset) (next_random64 r.random_state) r.memory;
    random_state = next_random64 r.random_state;
  }

  round-IsFilled :
      (r' : Random)
      → IsFilled buf buflen (offset + chunk) filled_once r'
      → IsFilled buf buflen offset r r'
  round-IsFilled r' rest = record {
    bytes = λ j lt. elim (Bool-cases (ltb j chunk)) [
      | inl now ↦
          rest.outside (buf + offset + j) (inl (ground arith))
          ∙ put_bytes-inside chunk 0 (buf + offset) (next_random64 r.random_state) r.memory j
              (omega arith) (ground arith)
          ∙ stream_first r.random_state j (ground (arith, chunk_of_bounds (buflen - offset)))
      | inr later ↦
          let eight : chunk_of (buflen - offset) ≡ 8 =
            chunk_of_full (buflen - offset) (ground arith) in
          let e : buf + (offset + chunk) + (j - 8) ≡ buf + offset + j = ground (arith, eight) in
          rw e at (rest.bytes (j - 8) (ground (arith, eight)))
          ∙ stream_next r.random_state j (ground (arith, eight))
    ];
    outside = λ x out.
        rest.outside x (ground (arith, out))
        ∙ put_bytes-outside chunk 0 (buf + offset) (next_random64 r.random_state) r.memory x
            (ground (arith, out, chunk_of_bounds (buflen - offset)));
  }

fill-IsFilled :
    (fuel buf buflen offset : ℕ) (r : Random)
    → offset ≤ buflen
    → buflen ≤ offset + fuel
    → IsFilled buf buflen offset r (fill fuel buf buflen offset r)
unfolding fill
fill-IsFilled zero buf buflen offset r le enough = record {
  bytes = λ j lt. absurd (omega arith);
  outside = λ x out. refl;
}
fill-IsFilled (suc fuel) buf buflen offset r le enough = elim (Bool-cases (ltb offset buflen)) [
  | inr stop ↦ rw stop (record { bytes = λ j lt. absurd (ground arith); outside = λ x out. refl })
  | inl more ↦ rw more (
      round-IsFilled buf buflen offset r (ground arith) _ (
        fill-IsFilled fuel buf buflen (offset + chunk_of (buflen - offset)) _
          (ground (arith, chunk_of_bounds (buflen - offset)))
          (ground (arith, chunk_of_bounds (buflen - offset)))))
]

-- `getrandom` with a buffer returns the length that was asked for; byte `j` of the buffer is byte
-- `j` of the stream that follows the state it began with, in which every next state of the generator
-- gives its eight digits to base 256, the lowest first; and no other byte of memory is written.
pub getrandom_lem :
    (buf buflen flags : ℕ) (r : Random)
    → buf ≢ null
    → ((getrandom buf buflen flags r).0 ≡ ok buflen)
      × ((j : ℕ)
          → j < buflen
          → (getrandom buf buflen flags r).1.memory (buf + j) ≡ stream r.random_state j)
      × ((x : ℕ)
          → (x < buf) ⊎ (buf + buflen ≤ x)
          → (getrandom buf buflen flags r).1.memory x ≡ r.memory x)
unfolding getrandom
getrandom_lem buf buflen flags r real =
    let some_buf : (buf == null) ≡ false = ground arith in
    let f = fill-IsFilled buflen buf buflen 0 r (omega arith) (omega arith) in
    let start : buf + 0 ≡ buf = omega arith in
    rw some_buf (
      refl,
      λ j lt. rw start at (f.bytes j (omega arith)),
      λ x out. f.outside x (omega (arith, out)),
    )
