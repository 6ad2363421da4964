-- ===== src/Prelude/Members.antt =====
-- Lists of numbers as finite sets: membership as a Boolean, lists without repetition, removal.
use Prim.Native.Nat.{ℕ, suc, ◌≤◌}
use mathlib.Core.Path.{◌≡◌, refl}
use mathlib.Core.Logic.{◌≢◌}
use mathlib.Core.Bool.{Bool, true, false, ◌||◌}
use mathlib.Core.List.{List, [], ◌∷◌, ◌++◌}
use native.Mathlib.Omega.{arith}
use cruby_on_sel.Prelude.Tests.{◌==◌, if◌then◌else◌}
use cruby_on_sel.Prelude.Lists.{length, All}

abbrev pub has : ℕ → List ℕ → Bool
has a [] = false
has a (x ∷ xs) = a == x || has a xs

abbrev pub Distinct : List ℕ → Type 0
Distinct [] = Unit
Distinct (x ∷ xs) = (has x xs ≡ false) × Distinct xs

-- The list less the first occurrence of the number.
abbrev pub remove : ℕ → List ℕ → List ℕ
remove a [] = []
remove a (x ∷ xs) = if a == x then xs else x ∷ remove a xs

pub has-remove_ne : (b a : ℕ) (xs : List ℕ) → b ≢ a → has b (remove a xs) ≡ has b xs
has-remove_ne b a [] h = refl
has-remove_ne b a (x ∷ xs) h = ground (arith, has-remove_ne b a xs h)

pub has_of-remove : (b a : ℕ) (xs : List ℕ) → has b (remove a xs) ≡ true → has b xs ≡ true
has_of-remove b a [] h = h
has_of-remove b a (x ∷ xs) h = ground (arith, has_of-remove b a xs)

pub not-has-remove : (a : ℕ) (xs : List ℕ) → Distinct xs → has a (remove a xs) ≡ false
not-has-remove a [] d = refl
not-has-remove a (x ∷ xs) d = ground (arith, not-has-remove a xs d.1)

pub Distinct-remove : (a : ℕ) (xs : List ℕ) → Distinct xs → Distinct (remove a xs)
Distinct-remove a [] d = d
Distinct-remove a (x ∷ xs) d = ground (arith, Distinct-remove a xs d.1, has_of-remove x a xs)

pub length-remove : (a : ℕ) (xs : List ℕ) → has a xs ≡ true → suc (length (remove a xs)) ≡ length xs
length-remove a [] h = ground arith
length-remove a (x ∷ xs) h = ground (arith, length-remove a xs)

pub has-append : (a : ℕ) (xs ys : List ℕ) → has a (xs ++ ys) ≡ (has a xs || has a ys)
has-append a [] ys = refl
has-append a (x ∷ xs) ys = ground (arith, has-append a xs ys)

-- Distinct numbers of a list are no more than its length.
pub length-le_of-Distinct :
    (xs ys : List ℕ)
    → Distinct xs
    → ((a : ℕ) → has a xs ≡ true → has a ys ≡ true)
    → length xs ≤ length ys
length-le_of-Distinct [] ys d sub = omega arith
length-le_of-Distinct (x ∷ xs) ys d sub =
    let here : has x ys ≡ true = sub x (ground arith) in
    let rest =
      length-le_of-Distinct xs (remove x ys) d.1 (λ a h. other a h (sub a (ground arith))) in
    omega (arith, length-remove x ys here)
  where
    other : (a : ℕ) → has a xs ≡ true → has a ys ≡ true → has a (remove x ys) ≡ true
    other a h e = let ne : a ≢ x = λ p. ground arith in ground (arith, has-remove_ne a x ys ne)

pub remove_head : (a : ℕ) (xs : List ℕ) → remove a (a ∷ xs) ≡ xs
remove_head a xs = ground arith

pub remove_tail : (a x : ℕ) (xs : List ℕ) → a ≢ x → remove a (x ∷ xs) ≡ x ∷ remove a xs
remove_tail a x xs h = ground arith

-- A member differs from whatever is no member.
pub ne_of_has : (xs : List ℕ) {a b : ℕ} → has b xs ≡ true → has a xs ≡ false → b ≢ a
ne_of_has xs {a} {b} h k e = ground arith

pub ne_of_not-has_cons : (xs : List ℕ) {a b : ℕ} → has b (a ∷ xs) ≡ false → b ≢ a
ne_of_not-has_cons xs h e = ground arith

pub All-of_has {ℓ} : {P : ℕ → Type ℓ} (xs : List ℕ) → ((a : ℕ) → has a xs ≡ true → P a) → All P xs
All-of_has [] f = tt
All-of_has (x ∷ xs) f = (f x (ground arith), All-of_has xs (λ a h. f a (ground arith)))
