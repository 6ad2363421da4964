-- ===== src/Poll/Control.antt =====
-- epoll_ctl of ruby_syscall_poll.c: the array of watches behaves as a finite map from descriptors to
-- events.
use cruby_on_sel.Prelude.{
  ◌≡◌, ◌≢◌, refl, sym, true, false, List, Option, none, some, length, ℤ, Option-cases, inl, inr,
}
use cruby_on_sel.Errno.{eexist, enospc, enoent, ok, err}
use cruby_on_sel.Poll.Table.{Slot, taken, find, is_full}
use cruby_on_sel.Poll.Lookup.{
  ==ℤ_ne, find-replace_self, find-replace_other, length-replace, claim-none,
}
use cruby_on_sel.Poll.Source.{EpollEvent}
use cruby_on_sel.Poll.Epoll.{Outcome, control, add_watch, modify_watch, delete_watch}
use cruby_on_sel.Poll.Source.{add, mod_event, del}
use cruby_on_sel.Poll.Watches.{IsUnique, IsUnique-replace, IsUnique-IsClaimed, find-deleted}

-- The call succeeded and now the map holds `value` at `fd`, and what it held elsewhere.
pub record IsMapped (fd : ℤ) (value : Option EpollEvent) (ws : List (Slot EpollEvent)) (r : Outcome)
    : Type 0 where
  pub returned : r.0 ≡ ok 0
  pub here : find fd r.1 ≡ value
  pub others : (fd' : ℤ) → fd' ≢ fd → find fd' r.1 ≡ find fd' ws
  pub unique : IsUnique r.1
  pub size : length r.1 ≡ length ws

-- In a set that watches no descriptor twice, EPOLL_CTL_ADD adds the event of a descriptor that is
-- not watched while an entry is free; it reports EEXIST for a descriptor that is watched, and
-- ENOSPC when no entry is free, and then changes nothing.
pub control-add :
    (fd : ℤ) (event : EpollEvent) (ws : List (Slot EpollEvent))
    → IsUnique ws
    → (find fd ws ≢ none → control add fd (some event) ws ≡ (err eexist, ws))
      × (find fd ws ≡ none → is_full ws ≡ true → control add fd (some event) ws ≡ (err enospc, ws))
      × (find fd ws ≡ none
          → is_full ws ≡ false
          → IsMapped fd (some event) ws (control add fd (some event) ws))
unfolding control add_watch
control-add fd event ws u = (
  λ watched. elim (Option-cases (find fd ws)) [
    | inl e ↦ absurd (watched e)
    | inr (old, e) ↦ rw e refl
  ],
  λ new full. rw (new, claim-none (λ i. fd) event 0 ws full) refl,
  λ new room.
      let (ws', e, c, u') = IsUnique-IsClaimed fd event 0 ws u new room in
      rw (new, e)
        (record {
          returned = refl;
          here = c.here new;
          others = c.others;
          unique = u';
          size = c.size;
        }),
)

-- In a set that watches no descriptor twice, EPOLL_CTL_MOD replaces the event of a watched
-- descriptor, and EPOLL_CTL_DEL forgets it; both report ENOENT, and change nothing, when the
-- descriptor is not watched.
pub control-change :
    (fd : ℤ) (event : EpollEvent) (given : Option EpollEvent) (ws : List (Slot EpollEvent))
    → IsUnique ws
    → (find fd ws ≢ none
        → IsMapped fd (some event) ws (control mod_event fd (some event) ws)
          × IsMapped fd none ws (control del fd given ws))
      × (find fd ws ≡ none
          → (control mod_event fd (some event) ws ≡ (err enoent, ws))
            × (control del fd given ws ≡ (err enoent, ws)))
unfolding control modify_watch delete_watch
control-change fd event given ws u = (
  λ watched. elim (Option-cases (find fd ws)) [
    | inl e ↦ absurd (watched e)
    | inr (old, e) ↦
        let gone : Slot EpollEvent = record { used = false; fd = fd; content = old } in
        rw e (
          record {
            returned = refl;
            here = find-replace_self fd event ws watched;
            others = λ fd' ne.
                find-replace_other fd fd' (taken fd event) ws ne (==ℤ_ne fd fd' (λ q. ne (sym q)));
            unique = IsUnique-replace fd (taken fd event) ws u refl;
            size = length-replace fd (taken fd event) ws;
          },
          record {
            returned = refl;
            here = find-deleted fd gone ws u refl;
            others = λ fd' ne. find-replace_other fd fd' gone ws ne refl;
            unique = IsUnique-replace fd gone ws u refl;
            size = length-replace fd gone ws;
          },
        )
  ],
  λ new. rw new (refl, refl),
)
