-- ===== src/Common/Sets.antt =====
-- Vectors and sets of identifiers, as the standard containers offer them: `contains` is the
-- membership test, `erase_first` is `find` with `erase`, and `insert` keeps a set free of duplicates.
use Prim.Native.Nat.{ℕ, ◌+◌, ◌≤◌}
use mathlib.Core.Path.{◌≡◌, refl}
use mathlib.Core.Bool.{Bool, false, ◌&&◌, ◌||◌}
use mathlib.Core.List.{List, [], ◌∷◌, ◌++◌}
use native.Mathlib.Omega.{arith}
use wirekrak.Common.Tests.{◌==◌, ltb, if◌then◌else◌, bit}
use wirekrak.Common.Lists.{length}

unfoldable pub contains : ℕ → List ℕ → Bool
contains a [] = false
contains a (x ∷ xs) = x == a || contains a xs

unfoldable pub erase_first : ℕ → List ℕ → List ℕ
erase_first a [] = []
erase_first a (x ∷ xs) = if x == a then xs else x ∷ erase_first a xs

unfoldable pub insert : ℕ → List ℕ → List ℕ
insert a xs = if contains a xs then xs else a ∷ xs

unfoldable pub count : ℕ → List ℕ → ℕ
count a [] = 0
count a (x ∷ xs) = bit (x == a) + count a xs

pub contains-count : (a : ℕ) (xs : List ℕ) → contains a xs ≡ ltb 0 (count a xs)
unfolding contains count
contains-count a [] = refl
contains-count a (x ∷ xs) = ground (arith, contains-count a xs)

pub count-append : (a : ℕ) (xs ys : List ℕ) → count a (xs ++ ys) ≡ count a xs + count a ys
unfolding count
count-append a [] ys = omega arith
count-append a (x ∷ xs) ys = omega (arith, count-append a xs ys)

pub count-insert :
    (j a : ℕ) (xs : List ℕ)
    → count j (insert a xs) ≡ (if contains a xs then count j xs else bit (a == j) + count j xs)
unfolding count insert
count-insert j a xs = ground arith

pub count-erase_first :
    (j a : ℕ) (xs : List ℕ)
    → count j (erase_first a xs) + bit (a == j && contains a xs) ≡ count j xs
unfolding count erase_first contains
count-erase_first j a [] = ground arith
count-erase_first j a (x ∷ xs) = ground (arith, count-erase_first j a xs, contains-count a xs)

pub length-insert :
    (a : ℕ) (xs : List ℕ)
    → length (insert a xs) ≡ (if contains a xs then length xs else length xs + 1)
unfolding insert
length-insert a xs = ground arith

pub length-erase_first :
    (a : ℕ) (xs : List ℕ) → length (erase_first a xs) + bit (contains a xs) ≡ length xs
unfolding erase_first contains
length-erase_first a [] = refl
length-erase_first a (x ∷ xs) = ground (arith, length-erase_first a xs)

pub contains-insert : (j a : ℕ) (xs : List ℕ) → contains j (insert a xs) ≡ (a == j || contains j xs)
unfolding insert contains
contains-insert j a xs = ground (arith, contains-count a xs, contains-count j xs)

pub contains-erase_first :
    (j a : ℕ) (xs : List ℕ)
    → count a xs ≤ 1
    → contains j (erase_first a xs) ≡ (if a == j then false else contains j xs)
contains-erase_first j a xs o =
    rw (contains-count j (erase_first a xs), contains-count j xs)
      (ground (arith, count-erase_first j a xs, contains-count a xs))

pub contains-append :
    (j : ℕ) (xs ys : List ℕ) → contains j (xs ++ ys) ≡ (contains j xs || contains j ys)
unfolding contains
contains-append j [] ys = refl
contains-append j (x ∷ xs) ys = ground (arith, contains-append j xs ys)
