-- ===== src/Fs/Paths.antt =====
-- normalize_path of ruby_syscall_fs.c.
use cruby_on_sel.Prelude.{ℕ, zero, suc, ◌≡◌, refl, ap, ◌∙◌, Bool, false, ◌&&◌, ◌==◌, [], ◌∷◌, some}
use cruby_on_sel.Fs.Source.{
  FileName, slash, dot, skip_slashes, skip_dots, normalize_path, Archive, find_file,
}

abbrev pub starts_with : ℕ → FileName → Bool
starts_with c [] = false
starts_with c (d ∷ p) = d == c

-- The name starts with "./".
abbrev pub starts_with_dot : FileName → Bool
starts_with_dot [] = false
starts_with_dot (c ∷ p) = c == dot && starts_with slash p

-- `n` slashes before the name, and `n` times "./" before it.
unfoldable pub after_slashes : ℕ → FileName → FileName
after_slashes zero p = p
after_slashes (suc n) p = slash ∷ after_slashes n p

unfoldable pub after_dots : ℕ → FileName → FileName
after_dots zero p = p
after_dots (suc n) p = dot ∷ slash ∷ after_dots n p

skip_slashes_plain : (p : FileName) → starts_with slash p ≡ false → skip_slashes p ≡ p
unfolding skip_slashes
skip_slashes_plain [] h = refl
skip_slashes_plain (c ∷ p) h = rw h refl

skip_dots_plain : (p : FileName) → starts_with_dot p ≡ false → skip_dots p ≡ p
unfolding skip_dots
skip_dots_plain [] h = refl
skip_dots_plain (c ∷ []) h = refl
skip_dots_plain (c ∷ d ∷ p) h = rw h refl

skip_slashes_all :
    (n : ℕ) (p : FileName) → starts_with slash p ≡ false → skip_slashes (after_slashes n p) ≡ p
unfolding skip_slashes after_slashes
skip_slashes_all zero p h = skip_slashes_plain p h
skip_slashes_all (suc n) p h = skip_slashes_all n p h

skip_dots_all : (n : ℕ) (p : FileName) → starts_with_dot p ≡ false → skip_dots (after_dots n p) ≡ p
unfolding skip_dots after_dots
skip_dots_all zero p h = skip_dots_plain p h
skip_dots_all (suc n) p h = skip_dots_all n p h

starts_after_dots :
    (n : ℕ) (p : FileName)
    → starts_with slash p ≡ false
    → starts_with slash (after_dots n p) ≡ false
unfolding after_dots
starts_after_dots zero p h = h
starts_after_dots (suc n) p h = refl

-- In `normalize_path`, any number of slashes and then any number of "./" before a name that starts
-- with neither are removed, and nothing else: every such spelling of a path finds the file of the
-- name itself.
pub find_file-normalizes :
    (a : Archive) (slashes dots : ℕ) (name : FileName)
    → starts_with slash name ≡ false
    → starts_with_dot name ≡ false
    → (normalize_path (some (after_slashes slashes (after_dots dots name))) ≡ some name)
      × (find_file a (some (after_slashes slashes (after_dots dots name))) ≡ a.get_file name)
unfolding normalize_path find_file
find_file-normalizes a slashes dots name plain no_dot =
    let first =
      skip_slashes_all slashes (after_dots dots name) (starts_after_dots dots name plain) in
    let second = skip_dots_all dots name no_dot in
    (
      ap (λ p. some (skip_dots p)) first ∙ ap some second,
      ap (λ p. a.get_file (skip_dots p)) first ∙ ap a.get_file second,
    )
