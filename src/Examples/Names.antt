-- ===== src/Examples/Names.antt =====
-- Examples for paths, terminal answers, random bytes, the clock.
use cruby_on_sel.Prelude.{
  ℕ, ◌+◌, ◌%◌, ◌^◌, ◌≤◌, ◌<◌, ◌≡◌, ◌≢◌, refl, arith, true, [], ◌∷◌, ◌++◌, ◌⊎◌, Option, some, none,
  ◌&&◌, ◌==◌, if◌then◌else◌,
}
use cruby_on_sel.Errno.{Result, ok, err, enoent}
use cruby_on_sel.Fs.Source.{
  FileName, Archive, normalize_path, fill_regular, fill_directory, stat, skip_slashes, skip_dots,
}
use cruby_on_sel.Fs.Files.{HasEntries, IsDirectory, stat_lem}
use cruby_on_sel.Tty.Report.{escape, bracket, semicolon, capital_r, parse_cursor_report}
use cruby_on_sel.Tty.Parse.{are_digits, decimal, parse_cursor_report_lem}
use cruby_on_sel.Random.Source.{Random, seed, next_random64, getrandom}
use cruby_on_sel.Random.Fill.{stream, getrandom_lem}
use cruby_on_sel.Random.Nonzero.{next_random64-nonzero}
use cruby_on_sel.Clock.Source.{Clock, TimeSpec, step_ns, ns_per_s, clock_gettime}
use cruby_on_sel.Clock.Readings.{clock_gettime_advances, after_calls, nanoseconds, timeofday}

-- The only file is "a/b", of 600 bytes.
abbrev size_in_archive : FileName → Option ℕ
size_in_archive (a ∷ b ∷ c ∷ []) = if a == 97 && b == 47 && c == 98 then some 600 else none
size_in_archive _ = none

abbrev archive : Archive
archive = record {
  get_file = size_in_archive;
  start_of = λ name. 0x4000;
  get_entry = λ i. if i == 0 then some (97 ∷ 47 ∷ 98 ∷ []) else none;
}

archive-HasEntries : HasEntries archive 1
archive-HasEntries = record { entries = λ i lt e. ground arith; stops = refl }

-- "/a"
slash_a : normalize_path (some (47 ∷ 97 ∷ [])) ≡ some (97 ∷ [])
unfolding normalize_path skip_slashes skip_dots
slash_a = refl

stat_lem_example :
    ((size : ℕ)
      → archive.get_file (97 ∷ []) ≡ some size
      → stat archive 1 (some (47 ∷ 97 ∷ [])) true ≡ ok (fill_regular size))
    × (archive.get_file (97 ∷ []) ≡ none
        → IsDirectory archive 1 (97 ∷ [])
        → stat archive 1 (some (47 ∷ 97 ∷ [])) true ≡ ok fill_directory)
    × (archive.get_file (97 ∷ []) ≡ none
        → ¬ IsDirectory archive 1 (97 ∷ [])
        → stat archive 1 (some (47 ∷ 97 ∷ [])) true ≡ err enoent)
stat_lem_example =
    stat_lem archive 1 1 (some (47 ∷ 97 ∷ [])) 97 [] archive-HasEntries (omega arith) slash_a

-- "x", then ESC [ 2 4 ; 8 0 R
parse_cursor_report_lem_example :
    parse_cursor_report (
      (120 ∷ [])
      ++ escape ∷ bracket ∷ ((50 ∷ 52 ∷ []) ++ semicolon ∷ ((56 ∷ 48 ∷ []) ++ capital_r ∷ [])))
    ≡ some (decimal 0 (50 ∷ 52 ∷ []) % 2 ^ 32, decimal 0 (56 ∷ 48 ∷ []) % 2 ^ 32)
unfolding are_digits
parse_cursor_report_lem_example =
    parse_cursor_report_lem (120 ∷ []) (50 ∷ 52 ∷ []) (56 ∷ 48 ∷ []) [] refl refl refl (omega arith)
      (omega arith)

abbrev source : Random
source = record { memory = λ x. 0; random_state = seed }

abbrev drawn : Result ℕ × Random
drawn = getrandom 0x3000 20 0 source

getrandom_lem_example :
    (drawn.0 ≡ ok 20)
    × ((j : ℕ) → j < 20 → drawn.1.memory (0x3000 + j) ≡ stream seed j)
    × ((x : ℕ) → (x < 0x3000) ⊎ (0x3000 + 20 ≤ x) → drawn.1.memory x ≡ source.memory x)
getrandom_lem_example = getrandom_lem 0x3000 20 0 source (omega arith)

next_random64-nonzero_example : (next_random64 seed < 2 ^ 64) × (next_random64 seed ≢ 0)
next_random64-nonzero_example = next_random64-nonzero seed (omega arith) (omega arith)

abbrev at_boot : Clock
at_boot = record { fake_clock_ns = 0 }

clock_gettime_advances_example :
    (t : TimeSpec) × (t' : TimeSpec) × ((clock_gettime 0 0x3000 at_boot).0 ≡ ok t)
    × ((clock_gettime 1 0x3000
          (after_calls (timeofday 0x3100 ∷ []) (clock_gettime 0 0x3000 at_boot).1)).0
        ≡ ok t')
    × (t.tv_nsec < ns_per_s)
    × (t'.tv_nsec < ns_per_s)
    × (nanoseconds t + step_ns ≤ nanoseconds t')
clock_gettime_advances_example =
    clock_gettime_advances 0 1 0x3000 0x3000 (timeofday 0x3100 ∷ []) at_boot (omega arith)
      (omega arith) (omega arith)
