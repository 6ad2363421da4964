-- ===== src/Poll/Delivery.antt =====
-- What `serial_readv` of ruby_syscall_poll.c delivers while SerialServer goes on writing.
use cruby_on_sel.Prelude.{
  ℕ, zero, suc, ◌+◌, ◌-◌, ◌≤◌, ◌<◌, ◌≡◌, ◌≢◌, refl, ap, subst, ◌∙◌, arith, true, false, ◌==◌, ◌⊎◌,
  inl, inr, Bool-cases, List, [], ◌∷◌, some,
}
use cruby_on_sel.Errno.{ok}
use cruby_on_sel.Memory.{Memory, null, poke-at, poke-outside}
use cruby_on_sel.Poll.Serial.{
  SerialLine, Server, Serial, Iovec, acts, serial_has_input, serial_take, serial_wait,
  serial_getchar, put_byte, serial_drain, first_buffer, serial_readv,
}
use cruby_on_sel.Poll.Queue.{
  IsRing, queued, queued_empty, IsServer, Passes, Passes-none, Passes-then, acts-Passes,
  serial_take-Passes,
}

-- The `n` bytes of memory from `a`.
unfoldable pub bytes_at : ℕ → ℕ → Memory → List ℕ
bytes_at zero a m = []
bytes_at (suc n) a m = m a ∷ bytes_at n (a + 1) m

-- What a read of `n` bytes into `room` bytes from `a` on delivers. It stops short only where the queue
-- is empty.
pub record IsDelivered (room a : ℕ) (s : Serial) (n : ℕ) (s' : Serial) : Type 0 where
  pub passed : Passes (bytes_at n a s'.memory) s.serial_line s'.serial_line
  pub bound : n ≤ room
  pub end : (n ≡ room) ⊎ (queued s'.serial_line.ring ≡ [])
  pub outside : (x : ℕ) → (x < a) ⊎ (a + room ≤ x) → s'.memory x ≡ s.memory x

-- One byte, then the rest.
IsDelivered-next :
    {room a : ℕ} {s : Serial} {c : ℕ} {m : SerialLine} {n : ℕ} {s' : Serial}
    → Passes (c ∷ []) s.serial_line m
    → IsDelivered room (a + 1) (put_byte a s.memory (c, m)) n s'
    → IsDelivered (suc room) a s (suc n) s'
unfolding bytes_at
IsDelivered-next {room} {a} {s} {c} {m} {n} {s'} p d =
    let first : s'.memory a ≡ c = d.outside a (inl (omega arith)) ∙ poke-at a c s.memory in
    record {
      passed = rw first (Passes-then p d.passed);
      bound = omega (arith, d.bound);
      end = elim d.end [ inl full ↦ inl (ap suc full) | inr drained ↦ inr drained ];
      outside = λ x out.
          d.outside x (omega (arith, out)) ∙ poke-outside a c s.memory x (omega (arith, out));
    }

-- The line after `n` actions of the server.
abbrev pub after_acts : Server → ℕ → SerialLine → SerialLine
after_acts server zero l = l
after_acts server (suc n) l = after_acts server n (acts server l)

module _ (server : Server) (lawful : IsServer server) where
  drain-IsDelivered :
      (room a : ℕ) (s : Serial)
      → IsRing s.serial_line.ring
      → IsDelivered room a s (serial_drain server room a s).0 (serial_drain server room a s).1
  unfolding serial_drain bytes_at
  drain-IsDelivered zero a s h = record {
    passed = Passes-none s.serial_line h;
    bound = omega arith;
    end = inl refl;
    outside = λ x out. refl;
  }
  drain-IsDelivered (suc room) a s h =
      let seen = acts server s.serial_line in
      let p = acts-Passes server lawful s.serial_line h in
      elim (Bool-cases (serial_has_input seen.ring)) [
        | inl e ↦
            let q = Passes-then p (serial_take-Passes server lawful seen p.ring e) in
            rw e (
              IsDelivered-next q (
                drain-IsDelivered room (a + 1) (put_byte a s.memory (serial_take server seen))
                  q.ring))
        | inr e ↦ rw e (record {
          passed = p;
          bound = omega arith;
          end = inr (queued_empty seen.ring p.ring e);
          outside = λ x out. refl;
        })
      ]

  -- The wait ends at the first round that finds input.
  serial_wait-ends :
      (k fuel : ℕ) (l : SerialLine)
      → k ≤ fuel
      → IsRing l.ring
      → serial_has_input (after_acts server k l).ring ≡ true
      → (l' : SerialLine) × (serial_wait server fuel l ≡ some l')
        × Passes [] l l'
        × (serial_has_input l'.ring ≡ true)
  unfolding serial_wait
  serial_wait-ends zero zero l le h e = (l, rw e refl, Passes-none l h, e)
  serial_wait-ends zero (suc fuel) l le h e = (l, rw e refl, Passes-none l h, e)
  serial_wait-ends (suc k) zero l le h e = absurd (omega arith)
  serial_wait-ends (suc k) (suc fuel) l le h e = elim (Bool-cases (serial_has_input l.ring)) [
    | inl now ↦ (l, rw now refl, Passes-none l h, now)
    | inr later ↦
        let p = acts-Passes server lawful l h in
        let (l', w, q, i) = serial_wait-ends k fuel (acts server l) (omega arith) p.ring e in
        (l', rw later w, Passes-then p q, i)
  ]

  -- Let the server put bytes in the ring before each access of the client's, as many as it likes
  -- short of filling the ring, at the tail, while it leaves the head and the waiting bytes alone.
  -- When input is there after at most `k` actions of the server, a read of standard input into a
  -- first buffer that is neither empty nor NULL returns, for any number of rounds from `k` on. It
  -- stores at least one byte and at most the length of that buffer, writes nothing outside it, and
  -- stops short of its length only where the queue is empty. No byte is lost, repeated or moved out
  -- of order: the bytes stored, followed by those left waiting, are those that waited, followed by
  -- those that arrived during the call.
  pub serial_readv-IsDelivered :
      (k fuel : ℕ) (v : Iovec) (vs : List Iovec) (s : Serial)
      → k ≤ fuel
      → IsRing s.serial_line.ring
      → serial_has_input (after_acts server k s.serial_line).ring ≡ true
      → v.iov_len ≢ 0
      → v.iov_base ≢ null
      → (n : ℕ) × (s' : Serial) × (serial_readv server fuel (v ∷ vs) s ≡ some (ok n, s'))
        × (0 < n)
        × IsDelivered v.iov_len v.iov_base s n s'
  unfolding serial_readv first_buffer serial_getchar
  serial_readv-IsDelivered k fuel v vs s le h e some_len real =
      let (l, w, p, i) = serial_wait-ends k fuel s.serial_line le h e in
      let filled : (v.iov_len == 0) ≡ false = ground arith in
      let known : (v.iov_base == null) ≡ false = ground arith in
      let q = Passes-then p (serial_take-Passes server lawful l p.ring i) in
      let first = put_byte v.iov_base s.memory (serial_take server l) in
      let rest = serial_drain server (v.iov_len - 1) (v.iov_base + 1) first in
      let d = drain-IsDelivered (v.iov_len - 1) (v.iov_base + 1) first q.ring in
      let size : suc (v.iov_len - 1) ≡ v.iov_len = omega arith in
      (
        suc rest.0,
        rest.1,
        rw (filled, known, w) refl,
        omega arith,
        subst (λ room. IsDelivered room v.iov_base s (suc rest.0) rest.1) size
            (IsDelivered-next q d),
      )
