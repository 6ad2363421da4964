-- ===== src/Alloc/Place.antt =====
-- Where `arena_alloc` puts a new block (ruby_alloc.c, lines 143 to 152), without wrap-around.
use cruby_on_sel.Prelude.{
  ℕ, ◌+◌, ◌-◌, ◌*◌, ◌/◌, ◌%◌, ◌^◌, ◌≤◌, ◌<◌, ◌≡◌, ap, ◌∙◌, ◌||◌, ltb, arith, Bool-cases, inl, inr,
}
use native.Mathlib.Nat.{div-add-mod, pow-le-pow_right}
use cruby_on_sel.Alloc.Header.{word, arena_size, header_size, Heap, align_up}
use cruby_on_sel.Alloc.Malloc.{header_addr}
use cruby_on_sel.Alloc.Align.{pow_add, IsAlignedUp, align_up-IsAlignedUp}

-- The linker places the arena on a page, and below the end of the user half of the address space.
pub record IsPlaced (arena : ℕ) : Type 0 where
  pub page : arena % 4096 ≡ 0
  pub positive : 0 < arena
  pub user_half : arena + arena_size ≤ 2 ^ 47

-- A multiple of `2 ^ k` is one of 16, if `2 ^ k` is at least 16.
pub multiple_of_16 : (k r : ℕ) → 4 ≤ k → r % 2 ^ k ≡ 0 → r % 16 ≡ 0
multiple_of_16 k r h e =
    let split : 2 ^ k ≡ 16 * 2 ^ (k - 4) =
      ap (λ (n : ℕ). 2 ^ n) (omega arith) ∙ pow_add 4 (k - 4) in
    let whole : r ≡ 16 * (2 ^ (k - 4) * (r / 2 ^ k)) =
      omega (arith, div-add-mod r (2 ^ k), ap (λ (n : ℕ). n * (r / 2 ^ k)) split) in
    omega arith

pub exponent_of_16 : (k : ℕ) → 16 ≤ 2 ^ k → 4 ≤ k
exponent_of_16 k h = elim (Bool-cases (ltb k 4)) [
  | inr ge ↦ ground arith
  | inl lt ↦
      absurd (omega (arith, pow-le-pow_right {n = 2} (omega arith) {i = k} {j = 3} (ground arith)))
]

-- The header of a block of `size` bytes at alignment `2 ^ k` goes to `a`; the test of `arena_alloc`
-- is whether the block ends beyond the arena.
pub record Spot (size k : ℕ) (h : Heap) (a : ℕ) : Type 0 where
  pub header : header_addr (2 ^ k) h ≡ a
  pub above : h.arena + h.offset ≤ a
  pub near : a < h.arena + h.offset + 2 ^ k
  pub aligned : (a + header_size) % 2 ^ k ≡ 0
  pub aligned_16 : a % 16 ≡ 0
  pub refused :
      (ltb (word (a + header_size + size)) a
        || ltb (word (h.arena + arena_size)) (word (a + header_size + size)))
      ≡ ltb (h.arena + arena_size) (a + header_size + size)

abbrev pub spot : ℕ → Heap → ℕ
spot k h = align_up (h.arena + h.offset + header_size) (2 ^ k) - header_size

pub Spot_lem :
    {h : Heap} (size k : ℕ)
    → IsPlaced h.arena
    → h.offset ≤ arena_size
    → 4 ≤ k
    → k < 64
    → size + header_size < 2 ^ 64
    → Spot size k h (spot k h)
Spot_lem {h} size k placed inside low high small = record {
  header = rw plain (omega (arith, up, power));
  above = omega (arith, up);
  near = omega (arith, up);
  aligned = rw full up.aligned;
  aligned_16 = omega (arith, sixteen, up);
  refused = ground (arith, up, power, placed);
}
  where
    start : ℕ
    start = h.arena + h.offset + header_size

    power : 2 ^ k ≤ 2 ^ 63
    power = pow-le-pow_right {n = 2} (omega arith) {i = k} {j = 63} (omega arith)

    plain : word start ≡ start
    plain = omega arith

    up : IsAlignedUp (2 ^ k) start (align_up start (2 ^ k))
    up = align_up-IsAlignedUp k start high (omega (arith, power))

    full : align_up start (2 ^ k) - header_size + header_size ≡ align_up start (2 ^ k)
    full = omega (arith, up)

    sixteen : align_up start (2 ^ k) % 16 ≡ 0
    sixteen = multiple_of_16 k (align_up start (2 ^ k)) low up.aligned
