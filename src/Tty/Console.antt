-- ===== src/Tty/Console.antt =====
-- The console of ruby_syscall_tty.c, without the parser: the stored attributes, the window size, isatty,
-- tcgetattr, tcsetattr and ioctl.
use cruby_on_sel.Prelude.{
  ℕ, zero, suc, ◌%◌, ◌^◌, Bool, true, false, ◌&&◌, ◌||◌, not, ◌==◌, ltb, if◌then◌else◌, List, [],
  ◌∷◌, Option, none, some, ℤ, pos, ◌==ℤ◌,
}
use cruby_on_sel.Errno.{efault, enotty, Result, ok, err}
use cruby_on_sel.Tty.Report.{capital_r, parse_cursor_report}

-- `struct termios`; `c_cc` holds the control characters by their index.
pub record Termios : Type 0 where
  pub c_iflag : ℕ
  pub c_oflag : ℕ
  pub c_cflag : ℕ
  pub c_lflag : ℕ
  pub c_line : ℕ
  pub c_cc : ℕ → ℕ
  pub c_ispeed : ℕ
  pub c_ospeed : ℕ

-- The static variables of the file.
pub record Console : Type 0 where
  pub termios : Termios
  pub termios_ready : Bool
  pub rows : ℕ
  pub cols : ℕ
  pub size_known : Bool

abbrev pub console_rows : ℕ
console_rows = 24

abbrev pub console_cols : ℕ
console_cols = 80

-- The size before the terminal was asked.
abbrev pub first_size : Console → Console
first_size c = record c { rows = console_rows; cols = console_cols; size_known = false }

-- Descriptors 0, 1 and 2.
unfoldable pub is_console : ℤ → Bool
is_console fd = fd ==ℤ pos 0 || fd ==ℤ pos 1 || fd ==ℤ pos 2

-- ICRNL; OPOST | ONLCR; CS8 | CREAD; ISIG | ICANON | ECHO; and 1 at VMIN (6), 0 elsewhere.
abbrev pub cooked : Termios
cooked = record {
  c_iflag = 0x100;
  c_oflag = 0x5;
  c_cflag = 0xb0;
  c_lflag = 0xb;
  c_line = 0;
  c_cc = λ i. if i == 6 then 1 else 0;
  c_ispeed = 0;
  c_ospeed = 0;
}

unfoldable pub console_termios_init : Console → Console
console_termios_init c =
    if c.termios_ready then c else record c { termios = cooked; termios_ready = true }

-- Whether 1 is returned; an error here returns 0.
unfoldable pub isatty : ℤ → Result ℕ
isatty fd = if is_console fd then ok 1 else err enotty

-- What is copied to `*t`; `has_buffer` is `t != NULL`.
unfoldable pub tcgetattr : ℤ → (has_buffer : Bool) → Console → Result Termios × Console
tcgetattr fd has_buffer c =
    if not (is_console fd)
    then (err enotty, c)
    else if has_buffer
    then (ok (console_termios_init c).termios, console_termios_init c)
    else (err efault, c)

abbrev pub set_termios : Option Termios → Console → Result ℕ × Console
set_termios none c = (err efault, c)
set_termios (some t) c = (ok 0, record (console_termios_init c) { termios = t })

-- The last argument is `*t`, `none` for NULL.
unfoldable pub tcsetattr :
    ℤ → (optional_actions : ℤ) → Option Termios → Console → Result ℕ × Console
tcsetattr fd optional_actions t c = if not (is_console fd) then (err enotty, c) else set_termios t c

-- What measure_console calls: `write` to descriptor 1, whether `poll` finds input within 200 ms, and the
-- byte that `read` gives on descriptor 0, `none` if it gives none.
pub record Terminal (W : Type 0) : Type 0 where
  pub put : List ℕ → W → W
  pub has_input : W → Bool × W
  pub take_byte : W → Option ℕ × W

-- ESC [ s   ESC [ 9 9 9 ; 9 9 9 H   ESC [ 6 n
abbrev pub query : List ℕ
query = 27 ∷ 91 ∷ 115 ∷ 27 ∷ 91 ∷ 57 ∷ 57 ∷ 57 ∷ 59 ∷ 57 ∷ 57 ∷ 57 ∷ 72 ∷ 27 ∷ 91 ∷ 54 ∷ 110 ∷ []

-- ESC [ u
abbrev pub restore : List ℕ
restore = 27 ∷ 91 ∷ 117 ∷ []

-- `sizeof(buf) - 1`
abbrev pub reply_size : ℕ
reply_size = 31

-- The byte that came, with what the later rounds of the loop add; an 'R' is the last.
abbrev pub add_byte {ℓ} : {W : Type ℓ} → Option ℕ × W → List ℕ × W → List ℕ × W
add_byte (none, w) rest = ([], w)
add_byte (some c, w) rest = if c == capital_r then (c ∷ [], w) else (c ∷ rest.0, rest.1)

-- The loop, with the room that is left in the buffer.
unfoldable pub read_reply : {W : Type 0} → Terminal W → (room : ℕ) → W → List ℕ × W
read_reply t zero w = ([], w)
read_reply t (suc room) w =
    let polled = t.has_input w in
    let byte = t.take_byte polled.1 in
    let rest = read_reply t room byte.1 in if polled.0 then add_byte byte rest else ([], polled.1)

-- `(unsigned short)rows` and `(unsigned short)cols`, if both numbers are positive.
abbrev pub set_size : Option (ℕ × ℕ) → Console → Console
set_size none c = c
set_size (some (rows, cols)) c =
    if ltb 0 rows && ltb 0 cols then record c { rows = rows % 2 ^ 16; cols = cols % 2 ^ 16 } else c

unfoldable pub measure_console : {W : Type 0} → Terminal W → Console × W → Console × W
measure_console t (c, w) =
    let reply = read_reply t reply_size (t.put query w) in
    (set_size (parse_cursor_report reply.0) (record c { size_known = true }), t.put restore reply.1)

pub data Request : Type 0 where
  tiocgwinsz tiocswinsz other : Request

-- The members of `struct winsize`.
pub record WinSize : Type 0 where
  pub ws_row : ℕ
  pub ws_col : ℕ
  pub ws_xpixel : ℕ
  pub ws_ypixel : ℕ

abbrev pub size_of_console : Console → WinSize
size_of_console c = record { ws_row = c.rows; ws_col = c.cols; ws_xpixel = 0; ws_ypixel = 0 }

-- A terminal is asked once, and for descriptor 0 only.
unfoldable pub measured : {W : Type 0} → Terminal W → ℤ → Console × W → Console × W
measured t fd (c, w) = if fd ==ℤ pos 0 && not c.size_known then measure_console t (c, w) else (c, w)

-- What is stored at `arg`, `none` if nothing is; `has_arg` is `arg != NULL`.
abbrev pub answer_request :
    {W : Type 0}
    → Terminal W
    → ℤ
    → Request
    → (has_arg : Bool) → Console × W
    → Result (Option WinSize) × (Console × W)
answer_request t fd tiocgwinsz false s = (err efault, s)
answer_request t fd tiocgwinsz true s =
    (ok (some (size_of_console (measured t fd s).0)), measured t fd s)
answer_request t fd tiocswinsz has_arg s = (ok none, s)
answer_request t fd other has_arg s = (err enotty, s)

unfoldable pub ioctl :
    {W : Type 0}
    → Terminal W
    → ℤ
    → Request
    → (has_arg : Bool) → Console × W
    → Result (Option WinSize) × (Console × W)
ioctl t fd request has_arg s =
    if is_console fd then answer_request t fd request has_arg s else (err enotty, s)
