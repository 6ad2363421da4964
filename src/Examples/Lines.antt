-- ===== src/Examples/Lines.antt =====
-- Examples for the serial input.
use cruby_on_sel.Prelude.{
  ℕ, ◌+◌, ◌%◌, ◌<◌, ◌≡◌, ◌≢◌, refl, arith, true, false, [], ◌∷◌, some, ◌==◌, if◌then◌else◌, ltb,
  Bool-cases, inl, inr,
}
use cruby_on_sel.Errno.{ok}
use cruby_on_sel.Poll.Serial.{ring_size, SerialRing, Server, Serial, Iovec, serial_readv}
use cruby_on_sel.Poll.Queue.{waiting, IsServer, bytes_from}
use cruby_on_sel.Poll.Delivery.{IsDelivered, serial_readv-IsDelivered}

-- An empty ring at the end of the array; the server puts one byte in each of its actions.
abbrev quiet : Serial
quiet = record {
  serial_line = record {
    ring = record { head = 4087; tail = 4087; buf = λ i. 0 };
    typed = [];
    time = 0;
  };
  memory = λ x. 0;
}

abbrev with_byte : ℕ → SerialRing → SerialRing
with_byte b r = record r {
  tail = (r.tail + 1) % ring_size;
  buf = λ i. if i == r.tail then b else r.buf i;
}

abbrev pub server : Server
server n r =
    if ltb (waiting r + 1) ring_size
    then ((97 + n % 26) ∷ [], with_byte (97 + n % 26) r)
    else ([], r)

-- Where there is no room the server waits.
pub server-IsServer : IsServer server
unfolding bytes_from
server-IsServer n r h = elim (Bool-cases (ltb (waiting r + 1) ring_size)) [
  | inl fits ↦
      let same : (r.tail == r.tail) ≡ true = ground arith in
      rw fits (record {
        head = refl;
        tail = refl;
        room = ground arith;
        kept = λ i lt.
            let other : ((r.head + i) % ring_size == r.tail) ≡ false =
              (let differ : (r.head + i) % ring_size ≢ r.tail = λ q. omega (arith, h, lt, q) in
                ground arith) in
            rw other refl;
        placed = rw same refl;
      })
  | inr none_fits ↦ rw none_fits (record {
    head = refl;
    tail = omega (arith, h);
    room = omega (arith, h);
    kept = λ i lt. refl;
    placed = refl;
  })
]

abbrev pub line : Iovec
line = record { iov_base = 0x3000; iov_len = 16 }

serial_readv-IsDelivered_example :
    (n : ℕ) × (s' : Serial) × (serial_readv server 1 (line ∷ []) quiet ≡ some (ok n, s'))
    × (0 < n)
    × IsDelivered 16 0x3000 quiet n s'
serial_readv-IsDelivered_example =
    serial_readv-IsDelivered server server-IsServer 1 1 line [] quiet (omega arith)
      (omega arith, omega arith) refl (omega arith) (omega arith)
