-- ===== src/Poll/Lookup.antt =====
-- What a search finds in an array of ruby_syscall_poll.c after an entry was taken, written or given up.
use cruby_on_sel.Prelude.{
  ℕ, suc, ◌+◌, ◌≤◌, ◌<◌, ◌≡◌, ◌≢◌, refl, ap, sym, ◌∙◌, arith, true, false, inl, inr, Bool-cases,
  List, [], ◌∷◌, none, some, length, ℤ, ◌==ℤ◌, ==ℤ_iff, ==ℤ_refl,
}
use cruby_on_sel.Poll.Table.{Slot, answers, find, replace, taken, claim, is_full}

pub ==ℤ_ne : (a b : ℤ) → a ≢ b → (a ==ℤ b) ≡ false
==ℤ_ne a b h = elim (Bool-cases (a ==ℤ b)) [ inl e ↦ absurd (h ((==ℤ_iff a b).0 e)) | inr e ↦ e ]

module _ {ℓ} {A : Type ℓ} where
  pub find-replace_self :
      (fd : ℤ) (a : A) (ss : List (Slot A))
      → find fd ss ≢ none
      → find fd (replace fd (taken fd a) ss) ≡ some a
  unfolding find replace
  find-replace_self fd a [] h = absurd (h refl)
  find-replace_self fd a (s ∷ ss) h = elim (Bool-cases (answers fd s)) [
    | inl e ↦ rw (e, ==ℤ_refl fd) refl
    | inr e ↦ rw (e, e) (find-replace_self fd a ss (λ n. h (rw e n)))
  ]

  pub answers_other :
      (fd fd' : ℤ) (s : Slot A) → fd' ≢ fd → answers fd s ≡ true → answers fd' s ≡ false
  answers_other fd fd' s ne e = elim (Bool-cases (answers fd' s)) [
    | inr e' ↦ e'
    | inl e' ↦
        absurd (ne (sym ((==ℤ_iff s.fd fd').0 (ground arith)) ∙ (==ℤ_iff s.fd fd).0 (ground arith)))
  ]

  -- An entry that is written keeps its number or is given up: other numbers are not affected.
  pub find-replace_other :
      (fd fd' : ℤ) (new : Slot A) (ss : List (Slot A))
      → fd' ≢ fd
      → answers fd' new ≡ false
      → find fd' (replace fd new ss) ≡ find fd' ss
  unfolding find replace
  find-replace_other fd fd' new [] ne apart = refl
  find-replace_other fd fd' new (s ∷ ss) ne apart = elim (Bool-cases (answers fd s)) [
    | inl e ↦ rw (e, apart, answers_other fd fd' s ne e) refl
    | inr e ↦ rw (e, find-replace_other fd fd' new ss ne apart) refl
  ]

  pub length-replace :
      (fd : ℤ) (new : Slot A) (ss : List (Slot A)) → length (replace fd new ss) ≡ length ss
  unfolding replace
  length-replace fd new [] = refl
  length-replace fd new (s ∷ ss) = elim (Bool-cases (answers fd s)) [
    | inl e ↦ rw e refl
    | inr e ↦ rw e (ap suc (length-replace fd new ss))
  ]

  -- What taking an entry leaves: the number is found with its content, other numbers as before.
  pub record IsClaimed (a : A) (ss : List (Slot A)) (n : ℤ) (ss' : List (Slot A)) : Type ℓ where
    pub here : find n ss ≡ none → find n ss' ≡ some a
    pub others : (fd : ℤ) → fd ≢ n → find fd ss' ≡ find fd ss
    pub size : length ss' ≡ length ss

  pub IsClaimed-later :
      (a : A) (s : Slot A) (ss : List (Slot A)) (n : ℤ) (ss' : List (Slot A))
      → IsClaimed a ss n ss'
      → IsClaimed a (s ∷ ss) n (s ∷ ss')
  unfolding find
  IsClaimed-later a s ss n ss' c = record {
    here = λ h. elim (Bool-cases (answers n s)) [
      | inl e ↦ absurd (ground (arith, h, e))
      | inr e ↦ rw e (c.here (rw e at h))
    ];
    others = λ fd ne. rw (c.others fd ne) refl;
    size = ap suc c.size;
  }

  pub IsClaimed-now :
      (a : A) (s : Slot A) (ss : List (Slot A)) (n : ℤ)
      → s.used ≡ false
      → IsClaimed a (s ∷ ss) n (taken n a ∷ ss)
  unfolding find
  IsClaimed-now a s ss n free = record {
    here = λ h. rw (==ℤ_refl n) refl;
    others = λ fd ne. rw (==ℤ_ne n fd (λ e. ne (sym e)), free) refl;
    size = refl;
  }

  -- No entry can be taken when all are in use.
  pub claim-none :
      (number : ℕ → ℤ) (a : A) (i : ℕ) (ss : List (Slot A))
      → is_full ss ≡ true
      → claim number a i ss ≡ none
  unfolding claim is_full
  claim-none number a i [] h = refl
  claim-none number a i (s ∷ ss) h =
      let used : s.used ≡ true = ground arith in
      rw (used, claim-none number a (i + 1) ss (ground arith)) refl

  -- Otherwise one is taken.
  pub claim-some :
      (number : ℕ → ℤ) (a : A) (i : ℕ) (ss : List (Slot A))
      → is_full ss ≡ false
      → (n : ℤ) × (ss' : List (Slot A)) × (claim number a i ss ≡ some (n, ss'))
        × IsClaimed a ss n ss'
        × ((k : ℕ) × (i ≤ k) × (k < i + length ss) × (n ≡ number k))
  unfolding claim is_full
  claim-some number a i [] h = absurd (ground arith)
  claim-some number a i (s ∷ ss) h = elim (Bool-cases s.used) [
    | inr free ↦ (
      number i,
      taken (number i) a ∷ ss,
      rw free refl,
      IsClaimed-now a s ss (number i) free,
      (i, omega arith, omega arith, refl),
    )
    | inl used ↦
        let (n, ss', e, c, (k, lo, hi, q)) = claim-some number a (i + 1) ss (rw used at h) in
        (
          n,
          s ∷ ss',
          simp (used, e),
          IsClaimed-later a s ss n ss' c,
          (k, omega arith, omega arith, q),
        )
  ]
