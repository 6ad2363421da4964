-- ===== src/Tty/Parse.antt =====
-- What parse_cursor_report of ruby_syscall_tty.c makes of a terminal's answer.
use cruby_on_sel.Prelude.{
  ℕ, suc, ◌+◌, ◌-◌, ◌*◌, ◌%◌, ◌^◌, ◌<◌, ◌≡◌, refl, sym, ap, ◌∙◌, arith, Bool, true, false, ◌&&◌,
  ◌==◌, ltb, List, [], ◌∷◌, ◌++◌, some, has, length,
}
use cruby_on_sel.Tty.Report.{
  escape, bracket, semicolon, capital_r, zero_char, after_escape, Report, is_digit, append_digit,
  parse_fields, fields_of, parse_cursor_report,
}

-- All characters are digits.
unfoldable pub are_digits : List ℕ → Bool
are_digits [] = true
are_digits (c ∷ cs) = is_digit c && are_digits cs

-- The number that a list of decimal digits writes, after the digits that `value` stands for.
unfoldable pub decimal : ℕ → List ℕ → ℕ
decimal value [] = value
decimal value (c ∷ cs) = decimal (value * 10 + (c - zero_char)) cs

decimal-mod :
    (value : ℕ) (cs : List ℕ) → decimal (value % 2 ^ 32) cs % 2 ^ 32 ≡ decimal value cs % 2 ^ 32
unfolding decimal
decimal-mod value [] = omega arith
decimal-mod value (c ∷ cs) =
    sym (decimal-mod (value % 2 ^ 32 * 10 + (c - zero_char)) cs)
    ∙ ap (λ x. decimal x cs % 2 ^ 32) (omega arith)
    ∙ decimal-mod (value * 10 + (c - zero_char)) cs

-- Junk without an ESC is skipped.
after_escape-junk :
    (junk cs : List ℕ)
    → has escape junk ≡ false
    → after_escape (junk ++ escape ∷ bracket ∷ cs) ≡ some cs
unfolding after_escape
after_escape-junk [] cs h = refl
after_escape-junk (c ∷ junk) cs h =
    let other : (c == escape) ≡ false = ground arith in
    rw other (after_escape-junk junk cs (ground arith))

abbrev first_field : ℕ → ℕ → Report
first_field r n = record { rows = r; cols = 0; second = false; digits = n }

abbrev second_field : ℕ → ℕ → ℕ → Report
second_field r k n = record { rows = r; cols = k; second = true; digits = n }

parse_rows :
    (ds cs : List ℕ) (r n : ℕ)
    → are_digits ds ≡ true
    → parse_fields (ds ++ cs) (first_field (r % 2 ^ 32) n)
      ≡ parse_fields cs (first_field (decimal r ds % 2 ^ 32) (length ds + n))
unfolding parse_fields are_digits decimal
parse_rows [] cs r n h = ap (λ x. parse_fields cs (first_field (r % 2 ^ 32) x)) (omega arith)
parse_rows (c ∷ ds) cs r n h =
    let digit : is_digit c ≡ true = ground arith in
    let value : append_digit (r % 2 ^ 32) c ≡ (r * 10 + (c - zero_char)) % 2 ^ 32 = omega arith in
    let size : length ds + suc n ≡ suc (length ds) + n = omega arith in
    rw (digit, value)
      (parse_rows ds cs (r * 10 + (c - zero_char)) (suc n) (ground arith) ∙ rw size refl)

parse_cols :
    (es cs : List ℕ) (r k n : ℕ)
    → are_digits es ≡ true
    → parse_fields (es ++ cs) (second_field r (k % 2 ^ 32) n)
      ≡ parse_fields cs (second_field r (decimal k es % 2 ^ 32) (length es + n))
unfolding parse_fields are_digits decimal
parse_cols [] cs r k n h = ap (λ x. parse_fields cs (second_field r (k % 2 ^ 32) x)) (omega arith)
parse_cols (c ∷ es) cs r k n h =
    let digit : is_digit c ≡ true = ground arith in
    let value : append_digit (k % 2 ^ 32) c ≡ (k * 10 + (c - zero_char)) % 2 ^ 32 = omega arith in
    let size : length es + suc n ≡ suc (length es) + n = omega arith in
    rw (digit, value)
      (parse_cols es cs r (k * 10 + (c - zero_char)) (suc n) (ground arith) ∙ rw size refl)

parse_separator :
    (cs : List ℕ) (r n : ℕ)
    → 0 < n
    → parse_fields (semicolon ∷ cs) (first_field r n) ≡ parse_fields cs (second_field r 0 0)
unfolding parse_fields
parse_separator cs r n some_digits = let t : ltb 0 n ≡ true = ground arith in rw t refl

parse_end :
    (cs : List ℕ) (r k n : ℕ)
    → 0 < n
    → parse_fields (capital_r ∷ cs) (second_field r k n) ≡ some (r, k)
unfolding parse_fields
parse_end cs r k n some_digits = let t : ltb 0 n ≡ true = ground arith in rw t refl

-- A terminal's answer ESC [ rows ; cols R, with at least one decimal digit in each number, is parsed
-- to the two numbers modulo 2^32, whatever characters without an ESC come before it and whatever
-- follows it.
pub parse_cursor_report_lem :
    (junk ds es rest : List ℕ)
    → has escape junk ≡ false
    → are_digits ds ≡ true
    → are_digits es ≡ true
    → 0 < length ds
    → 0 < length es
    → parse_cursor_report (junk ++ escape ∷ bracket ∷ (ds ++ semicolon ∷ (es ++ capital_r ∷ rest)))
      ≡ some (decimal 0 ds % 2 ^ 32, decimal 0 es % 2 ^ 32)
unfolding parse_cursor_report
parse_cursor_report_lem junk ds es rest quiet rows cols some_rows some_cols =
    ap fields_of (after_escape-junk junk (ds ++ semicolon ∷ (es ++ capital_r ∷ rest)) quiet)
    ∙ parse_rows ds (semicolon ∷ (es ++ capital_r ∷ rest)) 0 0 rows
    ∙ parse_separator (es ++ capital_r ∷ rest) (decimal 0 ds % 2 ^ 32) (length ds + 0) (omega arith)
    ∙ parse_cols es (capital_r ∷ rest) (decimal 0 ds % 2 ^ 32) 0 0 cols
    ∙ parse_end rest (decimal 0 ds % 2 ^ 32) (decimal 0 es % 2 ^ 32) (length es + 0) (omega arith)
