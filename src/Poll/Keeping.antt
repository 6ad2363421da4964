-- ===== src/Poll/Keeping.antt =====
-- Each elementary change of the tables of ruby_syscall_poll.c keeps them in form.
use cruby_on_sel.Prelude.{
  ℕ, ◌+◌, ◌≡◌, refl, sym, ap, subst, ◌∙◌, arith, true, Bool-cases, List, some, length, ℤ, pos, inl,
  inr,
}
use mathlib.Core.Option.{some_inj, some-ne-none}
use cruby_on_sel.Poll.Table.{Slot, taken, replace, claim, is_full, IsNumbered}
use cruby_on_sel.Poll.Lookup.{length-replace, claim-none}
use cruby_on_sel.Poll.Numbered.{claim-fresh, IsNumbered-replace}
use cruby_on_sel.Poll.Source.{
  Descriptors, EventFd, EpollSet, fake_eventfd_base, fake_epoll_base, no_watches,
}
use cruby_on_sel.Poll.Counters.{IsTable}
use cruby_on_sel.Poll.Effects.{
  closed_counter, closed_set, Effect, writes_memory, opens_counter, puts_counter, drops_counter,
  opens_set, puts_set, drops_set,
}

-- A write to the entry of a counter, or of a set, that keeps its number or gives it up.
with_eventfd :
    (d : Descriptors) (fd : ℤ) (new : Slot EventFd)
    → IsTable d
    → (new.used ≡ true → new.fd ≡ fd)
    → IsTable (record d { fake_eventfds = replace fd new d.fake_eventfds })
with_eventfd d fd new t keeps = record {
  eventfd_numbers =
      IsNumbered-replace fake_eventfd_base fd new d.fake_eventfds t.eventfd_numbers keeps;
  eventfd_count = length-replace fd new d.fake_eventfds ∙ t.eventfd_count;
  epoll_numbers = t.epoll_numbers;
  epoll_count = t.epoll_count;
}

with_epoll :
    (d : Descriptors) (fd : ℤ) (new : Slot EpollSet)
    → IsTable d
    → (new.used ≡ true → new.fd ≡ fd)
    → IsTable (record d { fake_epolls = replace fd new d.fake_epolls })
with_epoll d fd new t keeps = record {
  eventfd_numbers = t.eventfd_numbers;
  eventfd_count = t.eventfd_count;
  epoll_numbers = IsNumbered-replace fake_epoll_base fd new d.fake_epolls t.epoll_numbers keeps;
  epoll_count = length-replace fd new d.fake_epolls ∙ t.epoll_count;
}

module _ {A : Type 0} where
  -- Taking an entry keeps the numbers and the length.
  claim-IsNumbered :
      (base : ℕ) (a : A) (n : ℤ) (ss slots : List (Slot A))
      → IsNumbered base ss
      → claim (λ i. pos (base + i)) a 0 ss ≡ some (n, slots)
      → IsNumbered base slots × (length slots ≡ length ss)
  claim-IsNumbered base a n ss slots numbers e = elim (Bool-cases (is_full ss)) [
    | inl full ↦ absurd (some-ne-none _ (sym e ∙ claim-none (λ i. pos (base + i)) a 0 ss full))
    | inr room ↦
        let same_base : base + 0 ≡ base = omega arith in
        let (k, ss', e', c, lo, hi, new, num) =
          claim-fresh base a 0 ss (rw same_base numbers) room in
        let same : ss' ≡ slots = ap (λ x. x.1) (some_inj.0 (sym e' ∙ e)) in
        (
          subst (IsNumbered base) same (subst (λ b. IsNumbered b ss') same_base num),
          ap length (sym same) ∙ c.size,
        )
  ]

pub Effect-IsTable : {d d' : Descriptors} → Effect d d' → IsTable d → IsTable d'
Effect-IsTable (writes_memory m) t = record {
  eventfd_numbers = t.eventfd_numbers;
  eventfd_count = t.eventfd_count;
  epoll_numbers = t.epoll_numbers;
  epoll_count = t.epoll_count;
}
Effect-IsTable (opens_counter event small e) t =
    let (numbers, size) = claim-IsNumbered fake_eventfd_base event _ _ _ t.eventfd_numbers e in
    record {
      eventfd_numbers = numbers;
      eventfd_count = size ∙ t.eventfd_count;
      epoll_numbers = t.epoll_numbers;
      epoll_count = t.epoll_count;
    }
Effect-IsTable {d} (puts_counter fd event event' found small) t =
    with_eventfd d fd (taken fd event') t (λ u. refl)
Effect-IsTable {d} (drops_counter fd) t =
    with_eventfd d fd closed_counter t (λ u. absurd (ground (arith, u)))
Effect-IsTable (opens_set flags e) t =
    let (numbers, size) =
      claim-IsNumbered fake_epoll_base (record { set_flags = flags; watches = no_watches }) _ _ _
        t.epoll_numbers e in
    record {
      eventfd_numbers = t.eventfd_numbers;
      eventfd_count = t.eventfd_count;
      epoll_numbers = numbers;
      epoll_count = size ∙ t.epoll_count;
    }
Effect-IsTable {d} (puts_set fd set set' found stays) t =
    with_epoll d fd (taken fd set') t (λ u. refl)
Effect-IsTable {d} (drops_set fd) t = with_epoll d fd closed_set t (λ u. absurd (ground (arith, u)))
