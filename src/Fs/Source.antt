-- ===== src/Fs/Source.antt =====
-- Paths and stat in ruby_syscall_fs.c, lines 58 to 143 and 257 to 276. A C string is the list of its
-- characters before the NUL. The archive reader (libcpio) is not part of this repository: the record
-- `Archive`.
use cruby_on_sel.Prelude.{
  ◌%◌, ◌^◌, ℕ, zero, suc, ◌+◌, ◌/◌, Bool, true, false, ◌&&◌, ◌||◌, ◌==◌, if◌then◌else◌, List, [],
  ◌∷◌, Option, none, some,
}
use cruby_on_sel.Errno.{efault, enoent, Result, ok, err}

abbrev pub FileName : Type 0
FileName = List ℕ

-- '/' and '.'
abbrev pub slash : ℕ
slash = 47

abbrev pub dot : ℕ
dot = 46

-- `cpio_get_file`: the size of the file, and where its contents start; `cpio_get_entry`: the name of an
-- entry, `none` past the end.
pub record Archive : Type 0 where
  pub get_file : FileName → Option ℕ
  pub start_of : FileName → ℕ
  pub get_entry : ℕ → Option FileName

-- The first loop of `normalize_path`.
unfoldable pub skip_slashes : FileName → FileName
skip_slashes [] = []
skip_slashes (c ∷ p) = let rest = skip_slashes p in if c == slash then rest else c ∷ p

-- The second loop.
unfoldable pub skip_dots : FileName → FileName
skip_dots [] = []
skip_dots (c ∷ []) = c ∷ []
skip_dots (c ∷ d ∷ p) = let rest = skip_dots p in if c == dot && d == slash then rest else c ∷ d ∷ p

-- A path is `none` for NULL.
unfoldable pub normalize_path : Option FileName → Option FileName
normalize_path none = none
normalize_path (some p) = some (skip_dots (skip_slashes p))

abbrev pub lookup : Archive → Option FileName → Option ℕ
lookup a none = none
lookup a (some name) = a.get_file name

unfoldable pub find_file : Archive → Option FileName → Option ℕ
find_file a path = lookup a (normalize_path path)

-- `strncmp(entry, name, len) == 0 && entry[len] == '/'`
unfoldable pub is_below : (name entry : FileName) → Bool
is_below [] [] = false
is_below [] (c ∷ entry) = c == slash
is_below (n ∷ name) [] = false
is_below (n ∷ name) (c ∷ entry) = c == n && is_below name entry

-- One round of the loop, with what the rounds after it return.
abbrev pub scan_entry : FileName → Option FileName → Bool → Bool
scan_entry name none later = false
scan_entry name (some entry) later = is_below name entry || later

-- The loop from an index on, with fuel.
unfoldable pub scan_entries : Archive → FileName → (fuel index : ℕ) → Bool
scan_entries a name zero index = false
scan_entries a name (suc fuel) index =
    let later = scan_entries a name fuel (index + 1) in scan_entry name (a.get_entry index) later

unfoldable pub is_archive_directory : Archive → (fuel : ℕ) → Option FileName → Bool
is_archive_directory a fuel none = false
is_archive_directory a fuel (some []) = true
is_archive_directory a fuel (some (c ∷ name)) = scan_entries a (c ∷ name) fuel 0

-- The members of `struct stat` that `fill_regular` and `fill_directory` set; all others are zero.
pub record Stat : Type 0 where
  pub st_mode : ℕ
  pub st_nlink : ℕ
  pub st_size : ℕ
  pub st_blksize : ℕ
  pub st_blocks : ℕ

-- S_IFREG | S_IRUSR | S_IRGRP | S_IROTH
abbrev pub regular_mode : ℕ
regular_mode = 0x8124

-- S_IFDIR with the permissions to read and to search for all
abbrev pub directory_mode : ℕ
directory_mode = 0x416d

abbrev pub fill_regular : ℕ → Stat
fill_regular size = record {
  st_mode = regular_mode;
  st_nlink = 1;
  st_size = size;
  st_blksize = 4096;
  st_blocks = (size + 511) % 2 ^ 64 / 512;
}

abbrev pub fill_directory : Stat
fill_directory = record {
  st_mode = directory_mode;
  st_nlink = 2;
  st_size = 0;
  st_blksize = 4096;
  st_blocks = 0;
}

abbrev pub stat_found : Option ℕ → Bool → Result Stat
stat_found (some size) directory = ok (fill_regular size)
stat_found none true = ok fill_directory
stat_found none false = err enoent

-- `has_buffer` is `st != NULL`.
unfoldable pub stat : Archive → (fuel : ℕ) → Option FileName → (has_buffer : Bool) → Result Stat
stat a fuel path has_buffer =
    if has_buffer
    then stat_found (find_file a path) (is_archive_directory a fuel (normalize_path path))
    else err efault
