-- ===== src/Poll/Numbered.antt =====
-- The entries of an array of ruby_syscall_poll.c whose numbers are a base plus their index.
use cruby_on_sel.Prelude.{
  ap, ◌⊎◌, inl, inr, ◌∙◌, ℕ, ◌+◌, ◌≤◌, ◌<◌, ◌≡◌, refl, sym, subst, ◌∙◌, arith, true, false, inl,
  inr, Bool-cases, List, [], ◌∷◌, none, some, length, ℤ, pos, ◌==◌, ==ℤ_iff,
}
use cruby_on_sel.Poll.Table.{Slot, answers, find, replace, taken, claim, is_full, IsNumbered}
use cruby_on_sel.Poll.Lookup.{IsClaimed, IsClaimed-later, IsClaimed-now}

module _ {ℓ} {A : Type ℓ} where
  -- A number below the base is not found.
  pub find_below :
      (base n : ℕ) (ss : List (Slot A)) → IsNumbered base ss → n < base → find (pos n) ss ≡ none
  unfolding find IsNumbered
  find_below base n [] h lt = refl
  find_below base n (s ∷ ss) h lt = elim (Bool-cases s.used) [
    | inr free ↦ rw free (find_below (base + 1) n ss h.1 (omega arith))
    | inl used ↦
        let e : s.fd ≡ pos base = h.0 used in
        let apart : (base == n) ≡ false = ground arith in
        rw (used, e, apart) (find_below (base + 1) n ss h.1 (omega arith))
  ]

  -- Giving up an entry: its number is not found any more.
  pub find-released :
      (base : ℕ) (fd : ℤ) (new : Slot A) (ss : List (Slot A))
      → IsNumbered base ss
      → new.used ≡ false
      → find fd (replace fd new ss) ≡ none
  unfolding find replace IsNumbered
  find-released base fd new [] h free = refl
  find-released base fd new (s ∷ ss) h free = elim (Bool-cases (answers fd s)) [
    | inr e ↦ rw (e, e) (find-released (base + 1) fd new ss h.1 free)
    | inl e ↦
        let here : fd ≡ pos base = sym ((==ℤ_iff s.fd fd).0 (ground arith)) ∙ h.0 (ground arith) in
        rw (e, free)
          (subst (λ x. find x ss ≡ none) (sym here)
            (find_below (base + 1) base ss h.1 (omega arith)))
  ]

  pub IsNumbered-replace :
      (base : ℕ) (fd : ℤ) (new : Slot A) (ss : List (Slot A))
      → IsNumbered base ss
      → (new.used ≡ true → new.fd ≡ fd)
      → IsNumbered base (replace fd new ss)
  unfolding replace IsNumbered
  IsNumbered-replace base fd new [] h keeps = tt
  IsNumbered-replace base fd new (s ∷ ss) h keeps = elim (Bool-cases (answers fd s)) [
    | inr e ↦ rw e (h.0, IsNumbered-replace (base + 1) fd new ss h.1 keeps)
    | inl e ↦
        let here : fd ≡ pos base = sym ((==ℤ_iff s.fd fd).0 (ground arith)) ∙ h.0 (ground arith) in
        rw e (λ u. keeps u ∙ here, h.1)
  ]

  -- Taking an entry under its own number: the number is in range and was free, and the numbers
  -- stay right.
  pub claim-fresh :
      (base : ℕ) (a : A) (i : ℕ) (ss : List (Slot A))
      → IsNumbered (base + i) ss
      → is_full ss ≡ false
      → (k : ℕ) × (ss' : List (Slot A)) × (claim (λ k. pos (base + k)) a i ss
          ≡ some (pos (base + k), ss'))
        × IsClaimed a ss (pos (base + k)) ss'
        × (i ≤ k)
        × (k < i + length ss)
        × (find (pos (base + k)) ss ≡ none)
        × IsNumbered (base + i) ss'
  unfolding claim find is_full IsNumbered
  claim-fresh base a i [] h room = absurd (ground arith)
  claim-fresh base a i (s ∷ ss) h room = elim (Bool-cases s.used) [
    | inr free ↦ (
      i,
      taken (pos (base + i)) a ∷ ss,
      rw free refl,
      IsClaimed-now a s ss (pos (base + i)) free,
      omega arith,
      omega arith,
      rw free (find_below (base + i + 1) (base + i) ss h.1 (omega arith)),
      (λ u. refl, h.1),
    )
    | inl used ↦
        let step : base + i + 1 ≡ base + (i + 1) = omega arith in
        let (k, ss', e, c, lo, hi, new, num) =
          claim-fresh base a (i + 1) ss (rw step at h.1) (rw used at room) in
        let here : s.fd ≡ pos (base + i) = h.0 used in
        let apart : (base + i == base + k) ≡ false = ground arith in
        (
          k,
          s ∷ ss',
          simp (used, e),
          IsClaimed-later a s ss (pos (base + k)) ss' c,
          omega arith,
          omega arith,
          rw (used, here, apart) new,
          (h.0, subst (λ x. IsNumbered x ss') (sym step) num),
        )
  ]

  -- A number that is found is the base plus an index of the array.
  pub find-number :
      (base : ℕ) (fd : ℤ) (ss : List (Slot A))
      → IsNumbered base ss
      → (find fd ss ≡ none) ⊎ ((k : ℕ) × (k < length ss) × (fd ≡ pos (base + k)))
  unfolding find IsNumbered
  find-number base fd [] h = inl refl
  find-number base fd (s ∷ ss) h = elim (Bool-cases (answers fd s)) [
    | inl e ↦
        let here : fd ≡ pos base = sym ((==ℤ_iff s.fd fd).0 (ground arith)) ∙ h.0 (ground arith) in
        inr (0, omega arith, here ∙ ap pos (omega arith))
    | inr e ↦ rw e (elim (find-number (base + 1) fd ss h.1) [
      | inl nothing ↦ inl nothing
      | inr (k, lt, q) ↦ inr (k + 1, omega arith, q ∙ ap pos (omega arith))
    ])
  ]
