-- ===== src/Poll/Queue.antt =====
-- The ring of ruby_syscall_poll.c as a queue of bytes: what SerialServer puts in it, and what a step of
-- the client takes from it.
use cruby_on_sel.Prelude.{
  ℕ, zero, suc, ◌+◌, ◌-◌, ◌%◌, ◌<◌, ◌≡◌, ◌≢◌, refl, sym, ap, ◌∙◌, subst, arith, true, false, List,
  [], ◌∷◌, ◌++◌, length,
}
use mathlib.Core.List.{append_assoc, append-nil}
use cruby_on_sel.Poll.Serial.{
  ring_size, SerialRing, SerialLine, Server, serial_has_input, step_head, acts, serial_take,
}

-- Both indices are in the array.
abbrev pub IsRing : SerialRing → Type 0
IsRing r = (r.head < ring_size) × (r.tail < ring_size)

unfoldable pub bytes_from : ℕ → ℕ → (ℕ → ℕ) → List ℕ
bytes_from zero i buf = []
bytes_from (suc n) i buf = buf i ∷ bytes_from n ((i + 1) % ring_size) buf

abbrev pub waiting : SerialRing → ℕ
waiting r = (r.tail + ring_size - r.head) % ring_size

-- The bytes that wait, the oldest first.
abbrev pub queued : SerialRing → List ℕ
queued r = bytes_from (waiting r) r.head r.buf

-- What one action of the server does: it writes `sent` from the tail on, fewer than would fill the
-- ring, and moves the tail; the head and the bytes that wait stay.
pub record Puts (r : SerialRing) (sent : List ℕ) (r' : SerialRing) : Type 0 where
  pub head : r'.head ≡ r.head
  pub tail : r'.tail ≡ (r.tail + length sent) % ring_size
  pub room : waiting r + length sent < ring_size
  pub kept :
      (i : ℕ) → i < waiting r → r'.buf ((r.head + i) % ring_size) ≡ r.buf ((r.head + i) % ring_size)
  pub placed : bytes_from (length sent) r.tail r'.buf ≡ sent

-- The law of a server.
abbrev pub IsServer : Server → Type 0
IsServer server = (n : ℕ) (r : SerialRing) → IsRing r → Puts r (server n r).0 (server n r).1

bytes_from-add :
    (m k i : ℕ) (buf : ℕ → ℕ)
    → i < ring_size
    → bytes_from (m + k) i buf ≡ bytes_from m i buf ++ bytes_from k ((i + m) % ring_size) buf
unfolding bytes_from
bytes_from-add zero k i buf h =
    let same : (i + 0) % ring_size ≡ i = omega (arith, h) in
    let nothing : 0 + k ≡ k = omega arith in rw (nothing, same) refl
bytes_from-add (suc m) k i buf h =
    let next : ((i + 1) % ring_size + m) % ring_size ≡ (i + suc m) % ring_size = omega arith in
    let rest = bytes_from-add m k ((i + 1) % ring_size) buf (omega arith) in
    let size : suc m + k ≡ suc (m + k) = omega arith in rw (size, rest, next) refl

bytes_from-agree :
    (n i : ℕ) (f g : ℕ → ℕ)
    → i < ring_size
    → ((j : ℕ) → j < n → f ((i + j) % ring_size) ≡ g ((i + j) % ring_size))
    → bytes_from n i f ≡ bytes_from n i g
unfolding bytes_from
bytes_from-agree zero i f g h same = refl
bytes_from-agree (suc n) i f g h same =
    let here : (i + 0) % ring_size ≡ i = omega (arith, h) in
    let first : f i ≡ g i = subst (λ x. f x ≡ g x) here (same 0 (omega arith)) in
    let rest =
      bytes_from-agree n ((i + 1) % ring_size) f g (omega arith)
        (λ j lt. subst (λ x. f x ≡ g x) (omega arith) (same (suc j) (omega arith))) in
    rw (first, rest) refl

-- An action of the server appends to the queue.
Puts-appends :
    {r r' : SerialRing} {sent : List ℕ}
    → IsRing r
    → Puts r sent r'
    → (queued r' ≡ queued r ++ sent) × IsRing r'
Puts-appends {r} {r'} {sent} h p =
    let more : (r'.tail + ring_size - r'.head) % ring_size ≡ waiting r + length sent =
      omega (arith, h, p.head, p.tail, p.room) in
    let end : (r.head + waiting r) % ring_size ≡ r.tail = omega (arith, h) in
    let old : bytes_from (waiting r) r.head r'.buf ≡ queued r =
      bytes_from-agree (waiting r) r.head r'.buf r.buf h.0 p.kept in
    let all = bytes_from-add (waiting r) (length sent) r.head r'.buf h.0 in
    let shape : queued r' ≡ bytes_from (waiting r + length sent) r.head r'.buf =
      rw (more, p.head) refl in
    let last : bytes_from (length sent) ((r.head + waiting r) % ring_size) r'.buf ≡ sent =
      rw end p.placed in
    (shape ∙ all ∙ (rw (old, last) refl), (omega (arith, h, p.head), omega (arith, h, p.tail)))

-- From line `l` to line `l'` the client has taken `read` and the server has put `arrived`; what was
-- read, and then what waits, is what waited before, and then what arrived.
pub record Passes (read : List ℕ) (l l' : SerialLine) : Type 0 where
  pub arrived : List ℕ
  pub history : l'.typed ≡ l.typed ++ arrived
  pub order : read ++ queued l'.ring ≡ queued l.ring ++ arrived
  pub ring : IsRing l'.ring

pub Passes-none : (l : SerialLine) → IsRing l.ring → Passes [] l l
Passes-none l h = record {
  arrived = [];
  history = sym (append-nil l.typed);
  order = sym (append-nil (queued l.ring));
  ring = h;
}

pub Passes-then :
    {xs ys : List ℕ} {l m n : SerialLine} → Passes xs l m → Passes ys m n → Passes (xs ++ ys) l n
Passes-then {xs} {ys} {l} {m} {n} p q = record {
  arrived = p.arrived ++ q.arrived;
  history =
      q.history ∙ ap (λ z. z ++ q.arrived) p.history ∙ append_assoc l.typed p.arrived q.arrived;
  order =
      append_assoc xs ys (queued n.ring)
      ∙ ap (λ z. xs ++ z) q.order
      ∙ sym (append_assoc xs (queued m.ring) q.arrived)
      ∙ ap (λ z. z ++ q.arrived) p.order
      ∙ append_assoc (queued l.ring) p.arrived q.arrived;
  ring = q.ring;
}

pub queued_empty : (r : SerialRing) → IsRing r → serial_has_input r ≡ false → queued r ≡ []
unfolding bytes_from
queued_empty r h e =
    let same : r.head ≡ r.tail = ground arith in
    let none_left : (r.tail + ring_size - r.head) % ring_size ≡ 0 = omega (arith, h) in
    rw none_left refl

-- One step of the head.
pub queued_next :
    (l : SerialLine)
    → IsRing l.ring
    → serial_has_input l.ring ≡ true
    → queued l.ring ≡ l.ring.buf l.ring.head ∷ queued (step_head l).ring
unfolding bytes_from
queued_next l h e =
    let r = l.ring in
    let differ : r.head ≢ r.tail = λ q. ground arith in
    let one : (r.tail + ring_size - r.head) % ring_size
        ≡ suc ((r.tail + ring_size - (r.head + 1) % ring_size) % ring_size) =
      omega (arith, h, differ) in
    rw one refl

step_head-Passes :
    (l : SerialLine)
    → IsRing l.ring
    → serial_has_input l.ring ≡ true
    → Passes (l.ring.buf l.ring.head ∷ []) l (step_head l)
step_head-Passes l h e = record {
  arrived = [];
  history = sym (append-nil l.typed);
  order = sym (queued_next l h e) ∙ sym (append-nil (queued l.ring));
  ring = (omega arith, h.1);
}

module _ (server : Server) (lawful : IsServer server) where
  pub acts-Passes : (l : SerialLine) → IsRing l.ring → Passes [] l (acts server l)
  acts-Passes l h =
      let done = Puts-appends h (lawful l.time l.ring h) in
      record { arrived = (server l.time l.ring).0; history = refl; order = done.0; ring = done.1 }

  -- The server takes no input away.
  acts-has_input :
      (l : SerialLine)
      → IsRing l.ring
      → serial_has_input l.ring ≡ true
      → (serial_has_input (acts server l).ring ≡ true)
        × ((acts server l).ring.buf (acts server l).ring.head ≡ l.ring.buf l.ring.head)
  acts-has_input l h e =
      let r = l.ring in
      let p = lawful l.time r h in
      let r' = (server l.time r).1 in
      let differ : r.head ≢ r.tail = λ q. ground arith in
      let some_wait : 0 < waiting r = omega (arith, h, differ) in
      let apart : r'.head ≢ r'.tail = λ q. omega (arith, h, p.head, p.tail, p.room, some_wait, q) in
      let here : (r.head + 0) % ring_size ≡ r'.head = omega (arith, h, p.head) in
      (ground arith, subst (λ i. r'.buf i ≡ r.buf i) here (p.kept 0 some_wait) ∙ ap r.buf p.head)

  pub serial_take-Passes :
      (l : SerialLine)
      → IsRing l.ring
      → serial_has_input l.ring ≡ true
      → Passes ((serial_take server l).0 ∷ []) l (serial_take server l).1
  unfolding serial_take
  serial_take-Passes l h e =
      let l₁ = acts server l in
      let l₂ = acts server l₁ in
      let p₁ = acts-Passes l h in
      let p₂ = acts-Passes l₁ p₁.ring in
      let e₁ = (acts-has_input l h e).0 in
      let (e₂, same) = acts-has_input l₁ p₁.ring e₁ in
      let step = Passes-then p₁ (Passes-then p₂ (step_head-Passes l₂ p₂.ring e₂)) in
      subst (λ c. Passes (c ∷ []) l (step_head l₂)) same step
