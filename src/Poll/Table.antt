-- ===== src/Poll/Table.antt =====
-- The fixed arrays of ruby_syscall_poll.c (event counters, epoll sets, and the watches of one set):
-- entries with `used` and `fd` members, searched from the front.
use cruby_on_sel.Prelude.{
  ℕ, ◌+◌, ◌≡◌, Bool, true, ◌&&◌, if◌then◌else◌, List, [], ◌∷◌, Option, none, some, ℤ, pos, ◌==ℤ◌,
}

pub record Slot {ℓ} (A : Type ℓ) : Type ℓ where
  pub used : Bool
  pub fd : ℤ
  pub content : A

module _ {ℓ} {A : Type ℓ} where
  -- An entry in use, with this number.
  abbrev pub answers : ℤ → Slot A → Bool
  answers fd s = s.used && (s.fd ==ℤ fd)

  -- What the first entry with this number holds.
  unfoldable pub find : ℤ → List (Slot A) → Option A
  find fd [] = none
  find fd (s ∷ ss) = if answers fd s then some s.content else find fd ss

  -- A write through the pointer to the first entry with this number.
  unfoldable pub replace : ℤ → Slot A → List (Slot A) → List (Slot A)
  replace fd new [] = []
  replace fd new (s ∷ ss) = if answers fd s then new ∷ ss else s ∷ replace fd new ss

  abbrev pub taken : (fd : ℤ) → A → Slot A
  taken fd a = record { used = true; fd = fd; content = a }

  -- The array with the first unused entry taken, if there is one; `i` is the index of the front, and
  -- entry `k` gets the number `number k`.
  unfoldable pub claim : (ℕ → ℤ) → A → ℕ → List (Slot A) → Option (ℤ × List (Slot A))
  claim number a i [] = none
  claim number a i (s ∷ ss) =
      if s.used
      then elim (claim number a (i + 1) ss) [ some (fd, ss') ↦ some (fd, s ∷ ss') | none ↦ none ]
      else some (number i, taken (number i) a ∷ ss)

  -- Every entry is in use.
  unfoldable pub is_full : List (Slot A) → Bool
  is_full [] = true
  is_full (s ∷ ss) = s.used && is_full ss

  -- Entry `k` carries the number `base + k` while it is in use.
  unfoldable pub IsNumbered : ℕ → List (Slot A) → Type 0
  IsNumbered base [] = Unit
  IsNumbered base (s ∷ ss) = (s.used ≡ true → s.fd ≡ pos base) × IsNumbered (base + 1) ss
