-- ===== src/Alloc/Scan.antt =====
-- The walk of `reuse_free_block` over the free list (ruby_alloc.c, lines 94 to 117): it ends, and
-- it unlinks the first block that matches.
use cruby_on_sel.Prelude.{
  ℕ, zero, suc, ◌+◌, ◌≤◌, ◌<◌, ◌≡◌, refl, sym, ◌∙◌, ◌≢◌, ◌⊎◌, inl, inr, true, false, List, [], ◌∷◌,
  arith, ◌==◌, has, remove, Distinct, length, Bool-cases, All, subst, remove_head, remove_tail,
  ne_of_has, ne_of_not-has_cons,
}
use native.Mathlib.Nat.{mod-eq_of_lt}
use cruby_on_sel.Memory.{Memory, null, load-store, load-lt}
use cruby_on_sel.Alloc.Header.{
  Heap, Run, done, header_size, header_payload, next_of, set_next, mark_used, take_block,
  block_matches, reuse_scan,
}
use cruby_on_sel.Alloc.Fields.{
  Apart, Kept, Untouched, Marked, mark_used-Marked, mark_used-outside, set_next-Kept,
  set_next-outside, Untouched-Apart,
}
use cruby_on_sel.Alloc.Invariant.{Chain, Chain-keep}

-- The byte at `x` belongs to the header of no block of the list.
abbrev pub Beyond : ℕ → List ℕ → Type 0
Beyond x xs = All (λ b. (x < b) ⊎ (b + header_size ≤ x)) xs

-- The block at `a` has been taken out of the list `ys` behind `prev`.
pub record Unlinked (blocks : List ℕ) (size prev a : ℕ) (ys : List ℕ) (m m' : Memory) : Type 0 where
  pub mem : has a ys ≡ true
  pub chain : Chain m' (next_of m' prev) (remove a ys)
  pub marked : Marked a size m m'
  pub kept : (b : ℕ) → has b blocks ≡ true → b ≢ a → Kept m m' b
  pub next :
      (b : ℕ) → has b blocks ≡ true → has b ys ≡ false → b ≢ prev → next_of m' b ≡ next_of m b
  pub outside : (x : ℕ) → Beyond x (prev ∷ ys) → m' x ≡ m x

-- How the walk behind `prev` ends.
pub data Scanned (blocks : List ℕ) (size alignment prev : ℕ) (ys : List ℕ) (h : Heap)
    : Run ℕ → Type 0 where
  missed :
      ((b : ℕ) → has b ys ≡ true → block_matches h.memory b size alignment ≡ false)
      → Scanned blocks size alignment prev ys h (done null h)
  found :
      {a : ℕ} {m' : Memory}
      → block_matches h.memory a size alignment ≡ true
      → Unlinked blocks size prev a ys h.memory m'
      → Scanned blocks size alignment prev ys h (done (header_payload a) (record h { memory = m' }))

Kept-trans : {m m' m'' : Memory} {b : ℕ} → Kept m m' b → Kept m' m'' b → Kept m m'' b
Kept-trans p q = record {
  size = q.size ∙ p.size;
  capacity = q.capacity ∙ p.capacity;
  is_free = q.is_free ∙ p.is_free;
  magic = q.magic ∙ p.magic;
}

-- The list behind `prev` without the block at `a`, and then the block marked as used.
abbrev relinked : Heap → ℕ → ℕ → Memory
relinked h prev a = set_next prev (next_of h.memory a) h.memory

abbrev taken : ℕ → Heap → ℕ → ℕ → Memory
taken size h prev a = mark_used a size (relinked h prev a)

take_block-taken :
    (size : ℕ) (h : Heap) (prev a : ℕ)
    → (prev == null) ≡ false
    → take_block size prev a h ≡ record h { memory = taken size h prev a }
unfolding take_block
take_block-taken size h prev a real = rw real

module _ (blocks : List ℕ) (size alignment : ℕ) (h : Heap)
    (sep : (a b : ℕ) → has a blocks ≡ true → has b blocks ≡ true → a ≢ b → Apart a b) where
  module _ (prev a : ℕ) (prev_in : has prev blocks ≡ true) (a_in : has a blocks ≡ true)
      (ne : prev ≢ a) where
    relinked_other :
        (b : ℕ) → has b blocks ≡ true → b ≢ prev → Untouched h.memory (relinked h prev a) b
    relinked_other b b_in d =
        Untouched-Apart h.memory (relinked h prev a) prev b
          (set_next-outside prev h.memory (next_of h.memory a))
          (sep prev b prev_in b_in (λ e. d (sym e)))

    taken_other :
        (b : ℕ)
        → has b blocks ≡ true
        → b ≢ a
        → Untouched (relinked h prev a) (taken size h prev a) b
    taken_other b b_in d =
        Untouched-Apart (relinked h prev a) (taken size h prev a) a b
          (mark_used-outside a (relinked h prev a) size) (sep a b a_in b_in (λ e. d (sym e)))

    prev_next : next_of (taken size h prev a) prev ≡ next_of h.memory a
    prev_next =
        (taken_other prev prev_in ne).next
        ∙ load-store 8 (prev + 16) (next_of h.memory a) h.memory
        ∙ mod-eq_of_lt (load-lt 8 (a + 16) h.memory)

    relinked-Kept : (b : ℕ) → has b blocks ≡ true → Kept h.memory (relinked h prev a) b
    relinked-Kept b b_in = elim (Bool-cases (b == prev)) [
      | inl same ↦
          let e : prev ≡ b = ground arith in
          subst (Kept h.memory (relinked h prev a)) e
            (set_next-Kept prev h.memory (next_of h.memory a))
      | inr other ↦ (relinked_other b b_in (λ e. ground arith)).kept
    ]

    -- Taking the first block behind `prev`.
    Unlinked-first :
        (rest : List ℕ)
        → has prev rest ≡ false
        → has a rest ≡ false
        → ((b : ℕ) → has b rest ≡ true → has b blocks ≡ true)
        → Chain h.memory (next_of h.memory a) rest
        → Unlinked blocks size prev a (a ∷ rest) h.memory (taken size h prev a)
    Unlinked-first rest prev_out a_out sub chain = record {
      mem = ground arith;
      chain =
          rw (remove_head a rest, prev_next)
            (Chain-keep h.memory (taken size h prev a) (next_of h.memory a) rest chain (λ b m.
              (taken_other b (sub b m) (ne_of_has rest m a_out)).next
              ∙ (relinked_other b (sub b m) (ne_of_has rest m prev_out)).next));
      marked = record {
        size_field = marks.size_field;
        capacity = marks.capacity ∙ (relinked-Kept a a_in).capacity;
        is_free = marks.is_free;
        magic = marks.magic ∙ (relinked-Kept a a_in).magic;
      };
      kept = λ b b_in d. Kept-trans (relinked-Kept b b_in) (taken_other b b_in d).kept;
      next = λ b b_in out d.
          (taken_other b b_in (ne_of_not-has_cons rest out)).next ∙ (relinked_other b b_in d).next;
      outside = λ x beyond.
          mark_used-outside a (relinked h prev a) size x beyond.1.0
          ∙ set_next-outside prev h.memory (next_of h.memory a) x beyond.0;
    }
      where
        marks : Marked a size (relinked h prev a) (taken size h prev a)
        marks = mark_used-Marked a (relinked h prev a) size

  -- A block unlinked further down the list.
  Unlinked-later :
      (prev a : ℕ) (rest : List ℕ) {c : ℕ} {m' : Memory}
      → has prev blocks ≡ true
      → prev ≢ a
      → 0 < a
      → next_of h.memory prev ≡ a
      → has prev rest ≡ false
      → has a rest ≡ false
      → Unlinked blocks size a c rest h.memory m'
      → Unlinked blocks size prev c (a ∷ rest) h.memory m'
  Unlinked-later prev a rest {c} {m'} prev_in ne positive link prev_out a_out u = record {
    mem = ground (arith, u.mem);
    chain =
        rw (remove_tail c a rest (ne_of_has rest u.mem a_out))
          (u.next prev prev_in prev_out ne ∙ link, positive, u.chain);
    marked = u.marked;
    kept = u.kept;
    next = λ b b_in out d. u.next b b_in (ground arith) (ne_of_not-has_cons rest out);
    outside = λ x beyond. u.outside x beyond.1;
  }

  Scanned-later :
      (prev a : ℕ) (rest : List ℕ) {r : Run ℕ}
      → has prev blocks ≡ true
      → prev ≢ a
      → 0 < a
      → next_of h.memory prev ≡ a
      → has prev rest ≡ false
      → has a rest ≡ false
      → block_matches h.memory a size alignment ≡ false
      → Scanned blocks size alignment a rest h r
      → Scanned blocks size alignment prev (a ∷ rest) h r
  Scanned-later prev a rest prev_in ne positive link prev_out a_out miss (missed all) =
      missed (λ b m. elim (Bool-cases (b == a)) [
        | inl same ↦ let e : b ≡ a = ground arith in rw e miss
        | inr other ↦ all b (ground arith)
      ])
  Scanned-later prev a rest prev_in ne positive link prev_out a_out miss (found hit u) =
      found hit (Unlinked-later prev a rest prev_in ne positive link prev_out a_out u)

  pub reuse_scan-Scanned :
      (fuel prev current : ℕ) (ys : List ℕ)
      → Chain h.memory current ys
      → length ys < fuel
      → (prev == null) ≡ false
      → has prev blocks ≡ true
      → next_of h.memory prev ≡ current
      → has prev ys ≡ false
      → Distinct ys
      → ((b : ℕ) → has b ys ≡ true → has b blocks ≡ true)
      → Scanned blocks size alignment prev ys h (reuse_scan fuel size alignment prev current h)
  unfolding reuse_scan
  reuse_scan-Scanned zero prev current ys chain enough real prev_in link prev_out d sub =
      absurd (omega arith)
  reuse_scan-Scanned (suc fuel) prev current [] chain enough real prev_in link prev_out d sub =
      rw chain (missed (λ b h. ground arith))
  reuse_scan-Scanned (suc fuel) prev current (a ∷ rest) chain enough real prev_in link prev_out d
        sub =
      rw (chain.0, a_real)
        (elim (Bool-cases (block_matches h.memory a size alignment)) [
          | inl hit ↦
              rw (hit, take_block-taken size h prev a real)
                (found hit
                  (Unlinked-first prev a prev_in a_in ne rest (ground arith) d.0 below chain.2))
          | inr miss ↦ rw miss (
              Scanned-later prev a rest prev_in ne chain.1 (link ∙ chain.0) (ground arith) d.0 miss
                (reuse_scan-Scanned fuel a (next_of h.memory a) rest chain.2 (omega arith) a_real
                  a_in refl d.0 d.1 below))
        ])
    where
      a_real : (a == null) ≡ false
      a_real = ground (arith, chain.1)

      a_in : has a blocks ≡ true
      a_in = sub a (ground arith)

      ne : prev ≢ a
      ne = ne_of_not-has_cons rest prev_out

      below : (b : ℕ) → has b rest ≡ true → has b blocks ≡ true
      below b m = sub b (ground arith)
