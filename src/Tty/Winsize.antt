-- ===== src/Tty/Winsize.antt =====
-- measure_console and TIOCGWINSZ of ruby_syscall_tty.c.
use cruby_on_sel.Prelude.{
  ℕ, zero, suc, ◌%◌, ◌^◌, ◌<◌, ◌≡◌, refl, ap, ◌∙◌, arith, true, false, ◌&&◌, ◌==◌, ltb, not, List,
  [], ◌∷◌, ◌++◌, Option, none, some, has, has-append, length, Bool-cases, inl, inr, ℤ, pos, ◌==ℤ◌,
}
use mathlib.Core.List.{append_assoc}
use cruby_on_sel.Errno.{ok}
use cruby_on_sel.Tty.Report.{escape, bracket, semicolon, capital_r, parse_cursor_report}
use cruby_on_sel.Tty.Parse.{are_digits, decimal, parse_cursor_report_lem}
use cruby_on_sel.Tty.Console.{
  Console, Terminal, is_console, size_of_console, query, restore, reply_size, read_reply, set_size,
  measure_console, measured, ioctl, tiocgwinsz,
}

-- From this state, the terminal gives these bytes one by one, and is then in the last state.
unfoldable pub Sends : {W : Type 0} → Terminal W → List ℕ → W → W → Type 0
Sends t [] w w' = w' ≡ w
Sends {W} t (c ∷ cs) w w' =
    (w₁ : W) × (w₂ : W) × (t.has_input w ≡ (true, w₁))
    × (t.take_byte w₁ ≡ (some c, w₂))
    × Sends t cs w₂ w'

-- All bytes are read up to the first 'R'.
read_reply-Sends :
    {W : Type 0} (t : Terminal W) (cs : List ℕ) (room : ℕ) (w w' : W)
    → Sends t (cs ++ capital_r ∷ []) w w'
    → has capital_r cs ≡ false
    → length cs < room
    → read_reply t room w ≡ (cs ++ capital_r ∷ [], w')
unfolding read_reply Sends
read_reply-Sends t cs zero w w' sends plain fits = absurd (omega arith)
read_reply-Sends t [] (suc room) w w' (w₁, w₂, polled, came, last) plain fits =
    rw (polled, came, last) refl
read_reply-Sends t (c ∷ cs) (suc room) w w' (w₁, w₂, polled, came, later) plain fits =
    let other : (c == capital_r) ≡ false = ground arith in
    rw (polled, came, other, read_reply-Sends t cs room w₂ w' later (ground arith) (omega arith))
      refl

has-digits : (ds : List ℕ) → are_digits ds ≡ true → has capital_r ds ≡ false
unfolding are_digits
has-digits [] h = refl
has-digits (d ∷ ds) h = ground (arith, has-digits ds, h)

-- The answer up to its 'R'.
abbrev body : (junk ds es : List ℕ) → List ℕ
body junk ds es = junk ++ escape ∷ bracket ∷ (ds ++ semicolon ∷ es)

body-has :
    (junk ds es : List ℕ)
    → has capital_r junk ≡ false
    → are_digits ds ≡ true
    → are_digits es ≡ true
    → has capital_r (body junk ds es) ≡ false
body-has junk ds es plain rows cols = ground (
  arith,
  has-append capital_r junk (escape ∷ bracket ∷ (ds ++ semicolon ∷ es)),
  has-append capital_r ds (semicolon ∷ es),
  has-digits ds rows,
  has-digits es cols,
  plain,
)

body-append :
    (junk ds es : List ℕ)
    → body junk ds es ++ capital_r ∷ []
      ≡ junk ++ escape ∷ bracket ∷ (ds ++ semicolon ∷ (es ++ capital_r ∷ []))
body-append junk ds es =
    append_assoc junk (escape ∷ bracket ∷ (ds ++ semicolon ∷ es)) (capital_r ∷ [])
    ∙ ap (λ x. junk ++ escape ∷ bracket ∷ x) (append_assoc ds (semicolon ∷ es) (capital_r ∷ []))

-- A number that is not 0 has a digit.
decimal-nonempty : (ds : List ℕ) → 0 < decimal 0 ds % 2 ^ 32 → 0 < length ds
unfolding decimal
decimal-nonempty [] h = absurd (omega arith)
decimal-nonempty (d ∷ ds) h = omega arith

set_size-positive :
    (r k : ℕ) (c : Console)
    → 0 < r % 2 ^ 32
    → 0 < k % 2 ^ 32
    → set_size (some (r % 2 ^ 32, k % 2 ^ 32)) c ≡ record c { rows = r % 2 ^ 16; cols = k % 2 ^ 16 }
set_size-positive r k c some_rows some_cols =
    let positive : (ltb 0 (r % 2 ^ 32) && ltb 0 (k % 2 ^ 32)) ≡ true = ground arith in
    let row : r % 2 ^ 32 % 2 ^ 16 ≡ r % 2 ^ 16 = omega arith in
    let col : k % 2 ^ 32 % 2 ^ 16 ≡ k % 2 ^ 16 = omega arith in simp (positive, row, col)

measure_console-Sends :
    {W : Type 0} (t : Terminal W) (c : Console) (w w' : W) (junk ds es : List ℕ)
    → Sends t (body junk ds es ++ capital_r ∷ []) (t.put query w) w'
    → has escape junk ≡ false
    → has capital_r junk ≡ false
    → are_digits ds ≡ true
    → are_digits es ≡ true
    → 0 < decimal 0 ds % 2 ^ 32
    → 0 < decimal 0 es % 2 ^ 32
    → length (body junk ds es) < reply_size
    → measure_console t (c, w) ≡ (
      record c { rows = decimal 0 ds % 2 ^ 16; cols = decimal 0 es % 2 ^ 16; size_known = true },
      t.put restore w',
    )
unfolding measure_console
measure_console-Sends t c w w' junk ds es sends quiet plain rows cols some_rows some_cols fits =
    let came =
      read_reply-Sends t (body junk ds es) reply_size (t.put query w) w' sends
        (body-has junk ds es plain rows cols) fits in
    let parsed =
      ap parse_cursor_report (body-append junk ds es)
      ∙ parse_cursor_report_lem junk ds es [] quiet rows cols (decimal-nonempty ds some_rows)
          (decimal-nonempty es some_cols) in
    rw (came, parsed)
      (ap (λ x. (x, t.put restore w'))
        (set_size-positive (decimal 0 ds) (decimal 0 es) (record c { size_known = true }) some_rows
          some_cols))

-- When the window size is asked for on descriptor 0 for the first time, and the terminal answers the
-- query with ESC [ rows ; cols R, in at most 31 bytes, with bytes other than ESC and 'R' before it,
-- and with decimal numbers that are not 0 modulo 2^32, then the two numbers modulo 2^16 are returned
-- and kept, the cursor is put back, and the answer has been read to its end.
pub ioctl-measures :
    {W : Type 0} (t : Terminal W) (c : Console) (w w' : W) (junk ds es : List ℕ)
    → c.size_known ≡ false
    → Sends t (body junk ds es ++ capital_r ∷ []) (t.put query w) w'
    → has escape junk ≡ false
    → has capital_r junk ≡ false
    → are_digits ds ≡ true
    → are_digits es ≡ true
    → 0 < decimal 0 ds % 2 ^ 32
    → 0 < decimal 0 es % 2 ^ 32
    → length (body junk ds es) < reply_size
    → ioctl t (pos 0) tiocgwinsz true (c, w) ≡ (
      ok (
          some (record {
            ws_row = decimal 0 ds % 2 ^ 16;
            ws_col = decimal 0 es % 2 ^ 16;
            ws_xpixel = 0;
            ws_ypixel = 0;
          })),
      (
        record c { rows = decimal 0 ds % 2 ^ 16; cols = decimal 0 es % 2 ^ 16; size_known = true },
        t.put restore w',
      ),
    )
unfolding ioctl is_console measured
ioctl-measures t c w w' junk ds es fresh sends quiet plain rows cols some_rows some_cols fits =
    let size =
      measure_console-Sends t c w w' junk ds es sends quiet plain rows cols some_rows some_cols
        fits in
    simp fresh (ap (λ s. (ok (some (size_of_console s.0)), s)) size)

set_size-known : (size : Option (ℕ × ℕ)) (c : Console) → (set_size size c).size_known ≡ c.size_known
set_size-known none c = refl
set_size-known (some (r, k)) c = elim (Bool-cases (ltb 0 r && ltb 0 k)) [
  | inl positive ↦ rw positive refl
  | inr not_both ↦ rw not_both refl
]

measured-known :
    {W : Type 0} (t : Terminal W) (s : Console × W) → (measured t (pos 0) s).0.size_known ≡ true
unfolding measured measure_console
measured-known t (c, w) = elim (Bool-cases c.size_known) [
  | inl known ↦ simp known
  | inr fresh ↦ simp fresh (
      set_size-known (parse_cursor_report (read_reply t reply_size (t.put query w)).0)
        (record c { size_known = true }))
]

measured-again :
    {W : Type 0} (t : Terminal W) (fd : ℤ) (s : Console × W)
    → s.0.size_known ≡ true
    → measured t fd s ≡ s
unfolding measured
measured-again t fd (c, w) known =
    let no_query : (fd ==ℤ pos 0 && not c.size_known) ≡ false = ground (arith, known) in
    rw no_query refl

-- The terminal is asked at most once, and for descriptor 0 only: after the window size was asked for on
-- descriptor 0, whatever came of it, the next request on descriptor 0, 1 or 2 returns the same size
-- and changes neither the console nor the terminal; and a request on 1 or 2 returns the stored size and
-- changes neither at any time.
pub ioctl-asks_once :
    {W : Type 0} (t : Terminal W) (fd : ℤ) (s : Console × W)
    → is_console fd ≡ true
    → ((fd ==ℤ pos 0) ≡ false → ioctl t fd tiocgwinsz true s ≡ (ok (some (size_of_console s.0)), s))
      × (ioctl t fd tiocgwinsz true (ioctl t (pos 0) tiocgwinsz true s).1
          ≡ ioctl t (pos 0) tiocgwinsz true s)
unfolding ioctl is_console measured
ioctl-asks_once t fd (c, w) console = (
  λ other. rw (console, other) refl,
  rw console (
      ap (λ x. (ok (some (size_of_console x.0)), x))
        (measured-again t fd (measured t (pos 0) (c, w)) (measured-known t (c, w)))),
)
