-- ===== src/Poll/FlagLaws.antt =====
-- The flags that fcntl of ruby_syscall_poll.c keeps for a counter.
use cruby_on_sel.Prelude.{
  ℕ, ◌-◌, ◌%◌, ◌^◌, ◌≡◌, ◌≢◌, refl, ap, sym, ◌∙◌, arith, ◌==◌, none, some, ℤ, bit_and, Bool-cases,
  inl, inr,
}
use cruby_on_sel.Errno.{ok}
use cruby_on_sel.Bits.Flags.{bit, bit-bit_and, bit-bit_or, bit_and-pow, bit-lt}
use cruby_on_sel.Poll.Table.{find}
use cruby_on_sel.Poll.Lookup.{==ℤ_ne, find-replace_self, find-replace_other}
use cruby_on_sel.Poll.Source.{Descriptors, EventFd}
use cruby_on_sel.Poll.Fcntl.{
  fd_cloexec, o_cloexec, Command, getfl, setfl, getfd, setfd, flag_command, fcntl,
}

-- The flag O_CLOEXEC is bit 19, FD_CLOEXEC and EFD_SEMAPHORE are bit 0.
cloexec-getfd : (arg flags : ℕ) → (flag_command getfd arg flags).0 ≡ ok (bit 19 flags)
unfolding flag_command
cloexec-getfd arg flags = ground (arith, bit_and-pow 19 flags, bit-lt 19 flags)

-- The bits of the two masks.
mask_bits :
    (bit 19 o_cloexec ≡ 1)
    × (bit 0 o_cloexec ≡ 0)
    × (bit 19 (2 ^ 32 - 1 - o_cloexec) ≡ 0)
    × (bit 0 (2 ^ 32 - 1 - o_cloexec) ≡ 1)
unfolding bit
mask_bits = (refl, refl, refl, refl)

module _ (arg flags : ℕ) where
  setfd_bits :
      (bit 19 (flag_command setfd arg flags).1 ≡ bit 0 arg)
      × (bit 0 (flag_command setfd arg flags).1 ≡ bit 0 flags)
  unfolding flag_command
  setfd_bits = elim (Bool-cases (bit_and arg fd_cloexec == 0)) [
    | inl clear ↦ rw clear (
      ground (arith, bit_and-pow 0 arg, mask_bits, bit-bit_and 19 flags (2 ^ 32 - 1 - o_cloexec)),
      omega (arith, mask_bits, bit-bit_and 0 flags (2 ^ 32 - 1 - o_cloexec), bit-lt 0 flags),
    )
    | inr given ↦ rw given (
      ground (
        arith,
        bit_and-pow 0 arg,
        mask_bits,
        bit-bit_or 19 flags o_cloexec,
        bit-lt 19 flags,
        bit-lt 0 arg,
      ),
      omega (arith, mask_bits, bit-bit_or 0 flags o_cloexec),
    )
  ]

setfl_flags : (arg flags : ℕ) → (flag_command setfl arg flags).1 ≡ arg % 2 ^ 32
unfolding flag_command
setfl_flags arg flags = refl

setfl_lem :
    (arg flags ignored : ℕ)
    → (flag_command getfl ignored (flag_command setfl arg flags).1).0 ≡ ok (arg % 2 ^ 32)
unfolding flag_command
setfl_lem arg flags ignored = refl

-- On an open counter, F_SETFD stores the bit FD_CLOEXEC of its argument, which F_GETFD then returns,
-- and leaves the value of the counter and its mode (bit 0 of the flags) alone; F_SETFL stores the
-- 32 bits of its argument, which F_GETFL then returns, and so replaces the mode too; no other counter
-- changes.
pub fcntl-flags :
    (fd : ℤ) (event : EventFd) (arg ignored : ℕ) (d : Descriptors)
    → find fd d.fake_eventfds ≡ some event
    → ((fcntl fd getfd ignored (fcntl fd setfd arg d).1).0 ≡ ok (bit 0 arg))
      × ((event' : EventFd) × (find fd (fcntl fd setfd arg d).1.fake_eventfds ≡ some event')
          × (event'.counter ≡ event.counter)
          × (bit 0 event'.flags ≡ bit 0 event.flags))
      × ((fcntl fd getfl ignored (fcntl fd setfl arg d).1).0 ≡ ok (arg % 2 ^ 32))
      × (find fd (fcntl fd setfl arg d).1.fake_eventfds
          ≡ some (record event { flags = arg % 2 ^ 32 }))
      × ((cmd : Command) (fd' : ℤ)
          → fd' ≢ fd
          → find fd' (fcntl fd cmd arg d).1.fake_eventfds ≡ find fd' d.fake_eventfds)
unfolding fcntl
fcntl-flags fd event arg ignored d known =
    let there : find fd d.fake_eventfds ≢ none = λ n. absurd (ground (arith, known, n)) in
    let after_setfd =
      find-replace_self fd (record event { flags = (flag_command setfd arg event.flags).1 })
        d.fake_eventfds there in
    let after_setfl =
      find-replace_self fd (record event { flags = (flag_command setfl arg event.flags).1 })
        d.fake_eventfds there in
    rw known (
      rw after_setfd (
          cloexec-getfd ignored (flag_command setfd arg event.flags).1
          ∙ ap ok (setfd_bits arg event.flags).0),
      (
        record event { flags = (flag_command setfd arg event.flags).1 },
        after_setfd,
        refl,
        (setfd_bits arg event.flags).1,
      ),
      rw after_setfl (setfl_lem arg event.flags ignored),
      after_setfl ∙ ap (λ f. some (record event { flags = f })) (setfl_flags arg event.flags),
      λ cmd fd' ne.
          find-replace_other fd fd' _ d.fake_eventfds ne (==ℤ_ne fd fd' (λ e. ne (sym e))),
    )
