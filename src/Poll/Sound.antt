-- ===== src/Poll/Sound.antt =====
-- The contents of the tables of ruby_syscall_poll.c: counters of 64 bits, and sets of eight watches
-- that watch no descriptor twice.
use cruby_on_sel.Prelude.{
  ℕ, ◌+◌, ◌^◌, ◌<◌, ◌≡◌, sym, ap, subst, ◌∙◌, arith, Bool-cases, Option-cases, List, [], ◌∷◌, All,
  some, length, ℤ, inl, inr,
}
use mathlib.Core.Option.{some_inj, some-ne-none}
use cruby_on_sel.Poll.Table.{Slot, taken, answers, find, replace, claim}
use cruby_on_sel.Poll.Source.{Descriptors, EventFd, EpollSet, fake_epoll_watch_count, no_watches}
use cruby_on_sel.Poll.Watches.{IsUnique}
use cruby_on_sel.Poll.Effects.{
  closed_counter, closed_set, Effect, writes_memory, opens_counter, puts_counter, drops_counter,
  opens_set, puts_set, drops_set,
}

-- The predicate holds of the content of every entry.
abbrev pub Holds : {A : Type 0} → (A → Type 0) → List (Slot A) → Type 0
Holds {A} P ss = All (λ (s : Slot A). P s.content) ss

module _ {A : Type 0} (P : A → Type 0) where
  pub find-Holds : (fd : ℤ) (a : A) (ss : List (Slot A)) → Holds P ss → find fd ss ≡ some a → P a
  unfolding find
  find-Holds fd a [] h e = absurd (some-ne-none _ (sym e))
  find-Holds fd a (s ∷ ss) h e = elim (Bool-cases (answers fd s)) [
    | inl here ↦ let same : s.content ≡ a = some_inj.0 (rw here at e) in subst P same h.0
    | inr other ↦ find-Holds fd a ss h.1 (rw other at e)
  ]

  replace-Holds :
      (fd : ℤ) (new : Slot A) (ss : List (Slot A))
      → Holds P ss
      → P new.content
      → Holds P (replace fd new ss)
  unfolding replace
  replace-Holds fd new [] h p = tt
  replace-Holds fd new (s ∷ ss) h p = elim (Bool-cases (answers fd s)) [
    | inl here ↦ rw here (p, h.1)
    | inr other ↦ rw other (h.0, replace-Holds fd new ss h.1 p)
  ]

  claim-Holds :
      (number : ℕ → ℤ) (a : A) (i : ℕ) (n : ℤ) (ss slots : List (Slot A))
      → Holds P ss
      → P a
      → claim number a i ss ≡ some (n, slots)
      → Holds P slots
  unfolding claim
  claim-Holds number a i n [] slots h p e = absurd (some-ne-none _ (sym e))
  claim-Holds number a i n (s ∷ ss) slots h p e = elim (Bool-cases s.used) [
    | inr free ↦
        let same : taken (number i) a ∷ ss ≡ slots = ap (λ x. x.1) (some_inj.0 (rw free at e)) in
        subst (Holds P) same (p, h.1)
    | inl used ↦ elim (Option-cases (claim number a (i + 1) ss)) [
      | inl full ↦ absurd (some-ne-none _ (sym (simp (used, full) at e)))
      | inr ((n', slots'), e') ↦
          let same : s ∷ slots' ≡ slots = ap (λ x. x.1) (some_inj.0 (simp (used, e') at e)) in
          subst (Holds P) same (h.0, claim-Holds number a (i + 1) n' ss slots' h.1 p e')
    ]
  ]

abbrev pub IsCounter : EventFd → Type 0
IsCounter event = event.counter < 2 ^ 64

abbrev pub IsWatching : EpollSet → Type 0
IsWatching set = IsUnique set.watches × (length set.watches ≡ fake_epoll_watch_count)

pub record IsSound (d : Descriptors) : Type 0 where
  pub counters : Holds IsCounter d.fake_eventfds
  pub sets : Holds IsWatching d.fake_epolls

pub no_watches-IsWatching :
    (flags : ℕ) → IsWatching (record { set_flags = flags; watches = no_watches })
unfolding IsUnique
no_watches-IsWatching flags = ground (arith, tt)

pub Effect-IsSound : {d d' : Descriptors} → Effect d d' → IsSound d → IsSound d'
Effect-IsSound (writes_memory m) v = record { counters = v.counters; sets = v.sets }
Effect-IsSound (opens_counter event small e) v = record {
  counters = claim-Holds IsCounter _ event 0 _ _ _ v.counters small e;
  sets = v.sets;
}
Effect-IsSound {d} (puts_counter fd event event' found small) v = record {
  counters =
      replace-Holds IsCounter fd (taken fd event') d.fake_eventfds v.counters
        (small (find-Holds IsCounter fd event d.fake_eventfds v.counters found));
  sets = v.sets;
}
Effect-IsSound {d} (drops_counter fd) v = record {
  counters = replace-Holds IsCounter fd closed_counter d.fake_eventfds v.counters (omega arith);
  sets = v.sets;
}
Effect-IsSound (opens_set flags e) v = record {
  counters = v.counters;
  sets = claim-Holds IsWatching _ _ 0 _ _ _ v.sets (no_watches-IsWatching flags) e;
}
Effect-IsSound {d} (puts_set fd set set' found stays) v =
    let old = find-Holds IsWatching fd set d.fake_epolls v.sets found in
    let new = stays old.0 in
    record {
      counters = v.counters;
      sets =
          replace-Holds IsWatching fd (taken fd set') d.fake_epolls v.sets (new.0, new.1 ∙ old.1);
    }
Effect-IsSound {d} (drops_set fd) v = record {
  counters = v.counters;
  sets = replace-Holds IsWatching fd closed_set d.fake_epolls v.sets (no_watches-IsWatching 0);
}
