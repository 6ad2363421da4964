-- ===== src/Script/Source.antt =====
-- read_script and run of ruby.c. What they print is left out. The files are those of ruby_syscall_fs.c,
-- the memory is that of ruby_alloc.c.
use cruby_on_sel.Prelude.{
  ℕ, zero, suc, ◌+◌, ◌-◌, ◌^◌, ◌==◌, leb, ltb, if◌then◌else◌, true, [], ◌∷◌, Option, none, some,
  pos,
}
use cruby_on_sel.Errno.{Result, ok, err}
use cruby_on_sel.Memory.{poke}
use cruby_on_sel.Alloc.Header.{Run, done, hang, word}
use cruby_on_sel.Alloc.Malloc.{malloc, free}
use cruby_on_sel.Fs.Source.{FileName, Archive, Stat}
use cruby_on_sel.Fs.Open.{FdOps, Files, Opening, o_rdonly, open_file, fstat}

-- The handlers of libsel4muslcsys behind `read` and `close` on a descriptor of its own.
pub record Io (T : Type 0) : Type 0 where
  pub sys_read : (fd buf count : ℕ) → Files T → Result ℕ × Files T
  pub sys_close : (fd : ℕ) → Files T → Files T

-- The script, `none` for NULL, and the state after the call; `none` if it does not return.
abbrev pub Loading : Type 0 → Type 0
Loading T = Option (Option ℕ × Files T)

abbrev pub count_of : Result ℕ → ℕ
count_of (ok n) = n
count_of (err e) = 0

module _ {T : Type 0} (ops : FdOps T) (io : Io T) where
  -- What follows `read` in a round of the loop; `rest` are the rounds after it.
  abbrev pub after_read : (used : ℕ) → Result ℕ × Files T → Loading T → Loading T
  after_read used (err e, s) rest = some (none, s)
  after_read used (ok n, s) rest = if n == 0 then some (some used, s) else rest

  -- The loop, with fuel: the bytes used at its end, or `none` if a read failed.
  unfoldable pub fill_buffer : (fd buffer buffer_size : ℕ) → (fuel used : ℕ) → Files T → Loading T
  fill_buffer fd buffer buffer_size zero used s = none
  fill_buffer fd buffer buffer_size (suc fuel) used s =
      let r = io.sys_read fd (buffer + used) (buffer_size - used - 1) s in
      let rest = fill_buffer fd buffer buffer_size fuel (used + count_of r.0) r.1 in
      if ltb (used + 1) buffer_size then after_read used r rest else some (some used, s)

  -- After the loop: the descriptor is closed, and the buffer is freed, or ended by a NUL.
  abbrev pub ended : (fd buffer : ℕ) → Loading T → Loading T
  ended fd buffer none = none
  ended fd buffer (some (none, s)) =
      let closed = io.sys_close fd s in
      some (none, record { table = closed.table; heap = free buffer closed.heap })
  ended fd buffer (some (some used, s)) =
      let closed = io.sys_close fd s in
      let terminated = poke (buffer + used) 0 (closed.heap).memory in
      some (
        some buffer,
        record { table = closed.table; heap = record (closed.heap) { memory = terminated } },
      )

  -- At what `malloc` returned.
  abbrev pub with_buffer : (fd buffer_size fuel : ℕ) → T → Run (Result ℕ) → Loading T
  with_buffer fd buffer_size fuel t hang = none
  with_buffer fd buffer_size fuel t (done (err e) h) =
      some (none, io.sys_close fd (record { table = t; heap = h }))
  with_buffer fd buffer_size fuel t (done (ok buffer) h) =
      ended fd buffer (fill_buffer fd buffer buffer_size fuel 0 (record { table = t; heap = h }))

  -- At what `fstat` returned; sizes from 2^63 on are negative.
  abbrev pub with_stat : (fd fuel : ℕ) → Files T → Result Stat → Loading T
  with_stat fd fuel s (err e) = some (none, io.sys_close fd s)
  with_stat fd fuel s (ok st) =
      if leb (2 ^ 63) st.st_size
      then some (none, io.sys_close fd s)
      else with_buffer fd (word (st.st_size + 1)) fuel s.table
          (malloc (word (st.st_size + 1)) s.heap)

  -- At what `open` returned.
  abbrev pub with_script : (fuel : ℕ) → Opening T → Loading T
  with_script fuel none = none
  with_script fuel (some (err e, s)) = some (none, s)
  with_script fuel (some (ok fd, s)) = with_stat fd fuel s (fstat (ops.view s.table) (pos fd) true)

  unfoldable pub read_script : Archive → (path : FileName) → (fuel : ℕ) → Files T → Loading T
  read_script a path fuel s = with_script fuel (open_file ops a (some path) o_rdonly s)

-- The interpreter: all that `run` does before the script is read; `rb_eval_string_protect` on a script,
-- with the `state` it stores; `rb_p` of the error; `ruby_finalize`.
pub record Interpreter (T : Type 0) : Type 0 where
  pub initialize : Files T → Files T
  pub eval : (script : ℕ) → Files T → ℕ × Files T
  pub report : Files T → Files T
  pub finalize : Files T → Files T

-- "/shell.rb"
abbrev pub shell_path : FileName
shell_path = 47 ∷ 115 ∷ 104 ∷ 101 ∷ 108 ∷ 108 ∷ 46 ∷ 114 ∷ 98 ∷ []

module _ {T : Type 0} (ruby : Interpreter T) where
  abbrev pub after_eval : (script : ℕ) → ℕ × Files T → Files T
  after_eval script (state, s) =
      let freed : Files T = record { table = s.table; heap = free script s.heap } in
      if state == 0 then freed else ruby.report freed

  -- At what read_script returned.
  abbrev pub with_loaded : Loading T → Option (Files T)
  with_loaded none = none
  with_loaded (some (none, s)) = some (ruby.finalize s)
  with_loaded (some (some script, s)) =
      some (ruby.finalize (after_eval script (ruby.eval script s)))

  -- The state when `run` returns 0; `none` if it does not return.
  unfoldable pub run : FdOps T → Io T → Archive → (fuel : ℕ) → Files T → Option (Files T)
  run ops io a fuel s = with_loaded (read_script ops io a shell_path fuel (ruby.initialize s))
