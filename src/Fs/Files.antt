-- ===== src/Fs/Files.antt =====
-- is_archive_directory and stat of ruby_syscall_fs.c against the names in the archive.
use cruby_on_sel.Prelude.{
  ℕ, zero, suc, ◌+◌, ◌≤◌, ◌<◌, ◌≡◌, ◌≢◌, refl, ap, ◌∙◌, arith, true, [], ◌∷◌, ◌++◌, Option, none,
  some, Bool-cases, Option-cases, sym, ◌==◌, inl, inr,
}
use mathlib.Core.Option.{some_inj, some-ne-none}
use cruby_on_sel.Errno.{enoent, ok, err}
use cruby_on_sel.Fs.Source.{
  FileName, slash, Archive, is_below, scan_entries, is_archive_directory, normalize_path, find_file,
  fill_regular, fill_directory, stat,
}

-- The archive has `count` entries.
pub record HasEntries (a : Archive) (count : ℕ) : Type 0 where
  pub entries : (i : ℕ) → i < count → a.get_entry i ≢ none
  pub stops : a.get_entry count ≡ none

-- The name of one of the first `count` entries is the directory's name, a slash, and a rest.
abbrev pub IsDirectory : Archive → ℕ → FileName → Type 0
IsDirectory a count name =
    (i : ℕ) × (rest : FileName) × (i < count) × (a.get_entry i ≡ some (name ++ slash ∷ rest))

is_below_iff_from :
    (name entry : FileName)
    → is_below name entry ≡ true
    → (rest : FileName) × (entry ≡ name ++ slash ∷ rest)
unfolding is_below
is_below_iff_from [] [] h = absurd (ground arith)
is_below_iff_from [] (c ∷ entry) h =
    let e : c ≡ slash = ground arith in (entry, ap (λ x. x ∷ entry) e)
is_below_iff_from (n ∷ name) [] h = absurd (ground arith)
is_below_iff_from (n ∷ name) (c ∷ entry) h =
    let e : c ≡ n = ground arith in
    let (rest, q) = is_below_iff_from name entry (ground arith) in (rest, rw (e, q) refl)

is_below_of : (name rest : FileName) → is_below name (name ++ slash ∷ rest) ≡ true
unfolding is_below
is_below_of [] rest = refl
is_below_of (n ∷ name) rest = ground (arith, is_below_of name rest)

scan-finds :
    (a : Archive) (count : ℕ) (name : FileName) (fuel index : ℕ)
    → HasEntries a count
    → (i : ℕ) (rest : FileName) → index ≤ i
    → i < count
    → i < index + fuel
    → a.get_entry i ≡ some (name ++ slash ∷ rest)
    → scan_entries a name fuel index ≡ true
unfolding scan_entries
scan-finds a count name zero index h i rest lo hi enough e = absurd (omega arith)
scan-finds a count name (suc fuel) index h i rest lo hi enough e =
    elim (Option-cases (a.get_entry index)) [
      | inl stop ↦ absurd (h.entries index (omega arith) stop)
      | inr (entry, here) ↦ rw here (elim (Bool-cases (index == i)) [
        | inr other ↦ ground (
          arith,
          scan-finds a count name fuel (index + 1) h i rest (ground arith) hi (omega arith) e,
        )
        | inl same ↦
            let at_i : index ≡ i = ground arith in
            let q : entry ≡ name ++ slash ∷ rest =
              some_inj.0 (sym here ∙ ap a.get_entry at_i ∙ e) in
            rw (q, is_below_of name rest) refl
      ])
    ]

scan-found :
    (a : Archive) (count : ℕ) (name : FileName) (fuel index : ℕ)
    → HasEntries a count
    → index ≤ count
    → scan_entries a name fuel index ≡ true
    → IsDirectory a count name
unfolding scan_entries
scan-found a count name zero index h le e = absurd (ground arith)
scan-found a count name (suc fuel) index h le e = elim (Option-cases (a.get_entry index)) [
  | inl stop ↦ absurd (ground (arith, rw stop at e))
  | inr (entry, here) ↦
      let differ : index ≢ count =
        λ q. absurd (some-ne-none entry (sym here ∙ ap a.get_entry q ∙ h.stops)) in
      elim (Bool-cases (is_below name entry)) [
        | inl below ↦
            let (rest, q) = is_below_iff_from name entry below in
            (index, rest, omega arith, here ∙ ap some q)
        | inr other ↦
            scan-found a count name fuel (index + 1) h (omega arith) (rw (here, other) at e)
      ]
]

-- For an archive of `count` entries and at least `count` rounds, and a path that normalises to a name
-- that is not empty: the file of that name is reported with its size; failing that, a directory,
-- exactly when some entry's name is the name, "/" and a rest; and ENOENT otherwise.
pub stat_lem :
    (a : Archive) (count fuel : ℕ) (path : Option FileName) (c : ℕ) (name : FileName)
    → HasEntries a count
    → count ≤ fuel
    → normalize_path path ≡ some (c ∷ name)
    → ((size : ℕ)
        → a.get_file (c ∷ name) ≡ some size
        → stat a fuel path true ≡ ok (fill_regular size))
      × (a.get_file (c ∷ name) ≡ none
          → IsDirectory a count (c ∷ name)
          → stat a fuel path true ≡ ok fill_directory)
      × (a.get_file (c ∷ name) ≡ none
          → (¬ IsDirectory a count (c ∷ name))
          → stat a fuel path true ≡ err enoent)
unfolding stat find_file is_archive_directory
stat_lem a count fuel path c name h enough n = (
  λ size file. rw (n, file) refl,
  λ no_file (i, rest, lt, e).
      rw
        (n, no_file, scan-finds a count (c ∷ name) fuel 0 h i rest (omega arith) lt (omega arith) e)
        refl,
  λ no_file no_dir. elim (Bool-cases (scan_entries a (c ∷ name) fuel 0)) [
    | inl found ↦ absurd (no_dir (scan-found a count (c ∷ name) fuel 0 h (omega arith) found))
    | inr nothing ↦ rw (n, no_file, nothing) refl
  ],
)
