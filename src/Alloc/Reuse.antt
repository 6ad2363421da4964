-- ===== src/Alloc/Reuse.antt =====
-- `reuse_free_block` of ruby_alloc.c, lines 94 to 117, from the head of the free list: the block
-- that it hands out was free, and no block with an owner is touched.
use cruby_on_sel.Prelude.{
  ℕ, suc, ◌<◌, ◌≡◌, refl, sym, ◌∙◌, ◌≢◌, inl, inr, true, false, List, [], ◌∷◌, arith, ◌==◌, has,
  remove, Distinct, length, Bool-cases, remove_head, remove_tail, ne_of_has,
}
use cruby_on_sel.Memory.{Memory, null}
use cruby_on_sel.Alloc.Header.{
  Heap, Run, done, header_payload, next_of, mark_used, take_block, block_matches, reuse_scan,
  reuse_free_block,
}
use cruby_on_sel.Alloc.Fields.{
  Apart, Kept, Untouched, Marked, mark_used-Marked, mark_used-outside, Untouched-Apart,
}
use cruby_on_sel.Alloc.Invariant.{Chain, Chain-keep, IsHeap, Apart-of, length-idle}
use cruby_on_sel.Alloc.Scan.{Beyond, Unlinked, Scanned, missed, found, reuse_scan-Scanned}

-- The idle block at `a` has been taken off the free list and marked as used.
pub record Reused (h : Heap) (blocks idle : List ℕ) (size a : ℕ) (h' : Heap) : Type 0 where
  pub mem : has a idle ≡ true
  pub chain : Chain h'.memory h'.free_list (remove a idle)
  pub marked : Marked a size h.memory h'.memory
  pub kept : (b : ℕ) → has b blocks ≡ true → b ≢ a → Kept h.memory h'.memory b
  pub outside : (x : ℕ) → Beyond x idle → h'.memory x ≡ h.memory x
  pub same_arena : h'.arena ≡ h.arena
  pub same_offset : h'.offset ≡ h.offset

pub data Sought (h : Heap) (blocks idle : List ℕ) (size alignment : ℕ) : Run ℕ → Type 0 where
  none_fits :
      ((b : ℕ) → has b idle ≡ true → block_matches h.memory b size alignment ≡ false)
      → Sought h blocks idle size alignment (done null h)
  fits :
      {a : ℕ} {h' : Heap}
      → block_matches h.memory a size alignment ≡ true
      → Reused h blocks idle size a h'
      → Sought h blocks idle size alignment (done (header_payload a) h')

module _ (h : Heap) (blocks : List ℕ) (size alignment : ℕ)
    (sep : (a b : ℕ) → has a blocks ≡ true → has b blocks ≡ true → a ≢ b → Apart a b) where
  Reused-first :
      (a : ℕ) (rest : List ℕ)
      → has a blocks ≡ true
      → has a rest ≡ false
      → ((b : ℕ) → has b rest ≡ true → has b blocks ≡ true)
      → Chain h.memory (next_of h.memory a) rest
      → Reused h blocks (a ∷ rest) size a (take_block size null a h)
  unfolding take_block
  Reused-first a rest a_in a_out sub chain = record {
    mem = ground arith;
    chain = rw (remove_head a rest) (
        Chain-keep h.memory (mark_used a size h.memory) (next_of h.memory a) rest chain
          (λ b m. (other b (sub b m) (ne_of_has rest m a_out)).next));
    marked = mark_used-Marked a h.memory size;
    kept = λ b b_in d. (other b b_in d).kept;
    outside = λ x beyond. mark_used-outside a h.memory size x beyond.0;
    same_arena = refl;
    same_offset = refl;
  }
    where
      other :
          (b : ℕ) → has b blocks ≡ true → b ≢ a → Untouched h.memory (mark_used a size h.memory) b
      other b b_in d =
          Untouched-Apart h.memory (mark_used a size h.memory) a b
            (mark_used-outside a h.memory size) (sep a b a_in b_in (λ e. d (sym e)))

  Reused-later :
      (a c : ℕ) (rest : List ℕ) {m' : Memory}
      → h.free_list ≡ a
      → 0 < a
      → has a blocks ≡ true
      → has a rest ≡ false
      → Unlinked blocks size a c rest h.memory m'
      → Reused h blocks (a ∷ rest) size c (record h { memory = m' })
  Reused-later a c rest head positive a_in a_out u = record {
    mem = ground (arith, u.mem);
    chain = rw (remove_tail c a rest (ne_of_has rest u.mem a_out)) (head, positive, u.chain);
    marked = u.marked;
    kept = u.kept;
    outside = λ x beyond. u.outside x beyond;
    same_arena = refl;
    same_offset = refl;
  }

  Sought-later :
      (a : ℕ) (rest : List ℕ) {r : Run ℕ}
      → h.free_list ≡ a
      → 0 < a
      → has a blocks ≡ true
      → has a rest ≡ false
      → block_matches h.memory a size alignment ≡ false
      → Scanned blocks size alignment a rest h r
      → Sought h blocks (a ∷ rest) size alignment r
  Sought-later a rest head positive a_in a_out miss (missed all) = none_fits (λ b m.
      elim (Bool-cases (b == a)) [
        | inl same ↦ let e : b ≡ a = ground arith in rw e miss
        | inr other ↦ all b (ground arith)
      ])
  Sought-later a rest head positive a_in a_out miss (found {a = c} hit u) =
      fits hit (Reused-later a c rest head positive a_in a_out u)

  scan-Sought :
      (fuel current : ℕ) (idle : List ℕ)
      → h.free_list ≡ current
      → Chain h.memory current idle
      → length idle < suc fuel
      → Distinct idle
      → ((b : ℕ) → has b idle ≡ true → has b blocks ≡ true)
      → Sought h blocks idle size alignment (reuse_scan (suc fuel) size alignment null current h)
  unfolding reuse_scan
  scan-Sought fuel current [] head chain enough d sub = rw chain (none_fits (λ b m. ground arith))
  scan-Sought fuel current (a ∷ rest) head chain enough d sub =
      rw (chain.0, a_real)
        (elim (Bool-cases (block_matches h.memory a size alignment)) [
          | inl hit ↦ rw hit (fits hit (Reused-first a rest a_in d.0 below chain.2))
          | inr miss ↦ rw miss (
              Sought-later a rest (head ∙ chain.0) chain.1 a_in d.0 miss (
                reuse_scan-Scanned blocks size alignment h sep fuel a (next_of h.memory a) rest
                  chain.2 (omega arith) a_real a_in refl d.0 d.1 below))
        ])
    where
      a_real : (a == null) ≡ false
      a_real = ground (arith, chain.1)

      a_in : has a blocks ≡ true
      a_in = sub a (ground arith)

      below : (b : ℕ) → has b rest ≡ true → has b blocks ≡ true
      below b m = sub b (ground arith)

-- In a well-formed heap, the loop of `reuse_free_block` ends within its fuel: it takes a block of the
-- free list that matches, or reports that none matches and leaves the heap unchanged.
pub reuse_free_block-Sought :
    {h : Heap} {blocks idle : List ℕ} (size alignment : ℕ)
    → IsHeap h blocks idle
    → Sought h blocks idle size alignment (reuse_free_block size alignment h)
unfolding reuse_free_block
reuse_free_block-Sought {h} {blocks} {idle} size alignment v =
    scan-Sought h blocks size alignment (Apart-of v) 2097152 h.free_list idle refl v.chain
      (length-idle v) v.distinct v.listed
