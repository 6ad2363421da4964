-- ===== src/Tty/Report.antt =====
-- parse_cursor_report of ruby_syscall_tty.c. A buffer is the list of its `len` characters; `unsigned
-- int` has 32 bits.
use cruby_on_sel.Prelude.{
  ℕ, suc, ◌+◌, ◌-◌, ◌*◌, ◌%◌, ◌^◌, Bool, true, false, ◌&&◌, ◌||◌, not, ◌==◌, ltb, leb,
  if◌then◌else◌, List, [], ◌∷◌, Option, none, some,
}

abbrev pub escape : ℕ
escape = 27

abbrev pub bracket : ℕ
bracket = 91

abbrev pub zero_char : ℕ
zero_char = 48

abbrev pub nine_char : ℕ
nine_char = 57

abbrev pub semicolon : ℕ
semicolon = 59

abbrev pub capital_r : ℕ
capital_r = 82

-- The next character is '['.
abbrev pub at_bracket : List ℕ → Bool
at_bracket [] = false
at_bracket (b ∷ cs) = b == bracket

abbrev pub tail_of : List ℕ → List ℕ
tail_of [] = []
tail_of (b ∷ cs) = cs

-- The first loop: what follows the first ESC [, if there is one.
unfoldable pub after_escape : List ℕ → Option (List ℕ)
after_escape [] = none
after_escape (a ∷ cs) =
    let rest = after_escape cs in if a == escape && at_bracket cs then some (tail_of cs) else rest

-- `value[field]`, `field` and `digits`.
pub record Report : Type 0 where
  pub rows : ℕ
  pub cols : ℕ
  pub second : Bool
  pub digits : ℕ

abbrev pub is_digit : ℕ → Bool
is_digit c = leb zero_char c && leb c nine_char

-- `value * 10u + (unsigned int)(c - '0')`
abbrev pub append_digit : ℕ → ℕ → ℕ
append_digit value c = (value * 10 + (c - zero_char)) % 2 ^ 32

abbrev pub take_digit : ℕ → Report → Report
take_digit c p =
    if p.second
    then record p { cols = append_digit p.cols c; digits = suc p.digits }
    else record p { rows = append_digit p.rows c; digits = suc p.digits }

-- A ';' that ends the first number.
abbrev pub is_separator : ℕ → Report → Bool
is_separator c p = c == semicolon && not p.second && ltb 0 p.digits

-- An 'R' that ends the second number.
abbrev pub is_end : ℕ → Report → Bool
is_end c p = c == capital_r && p.second && ltb 0 p.digits

-- The second loop.
unfoldable pub parse_fields : List ℕ → Report → Option (ℕ × ℕ)
parse_fields [] p = none
parse_fields (c ∷ cs) p =
    let rest =
      parse_fields cs
        (if is_digit c then take_digit c p else record p { second = true; digits = 0 }) in
    if is_digit c || is_separator c p
    then rest
    else if is_end c p
    then some (p.rows, p.cols)
    else none

abbrev pub no_report : Report
no_report = record { rows = 0; cols = 0; second = false; digits = 0 }

abbrev pub fields_of : Option (List ℕ) → Option (ℕ × ℕ)
fields_of none = none
fields_of (some cs) = parse_fields cs no_report

-- The rows and columns that are stored, or `none` for -1.
unfoldable pub parse_cursor_report : List ℕ → Option (ℕ × ℕ)
parse_cursor_report buf = fields_of (after_escape buf)
