-- ===== src/Common/Maps.antt =====
-- Maps from numbers, as association lists: `lookup` is `find`, `remove` erases an entry, and
-- `replace` writes through a reference to an entry.
use Prim.Native.Nat.{ℕ, ◌+◌}
use mathlib.Core.Path.{◌≡◌, refl}
use mathlib.Core.Bool.{Bool}
use mathlib.Core.List.{List, [], ◌∷◌}
use mathlib.Core.Option.{Option, none, some}
use native.Mathlib.Omega.{arith}
use wirekrak.Common.Tests.{◌==◌, if◌then◌else◌, bit, is_some}
use wirekrak.Common.Lists.{length}

module _ {ℓ} {V : Type ℓ} where
  unfoldable pub lookup : ℕ → List (ℕ × V) → Option V
  lookup k [] = none
  lookup k ((j, v) ∷ m) = if j == k then some v else lookup k m

  unfoldable pub remove : ℕ → List (ℕ × V) → List (ℕ × V)
  remove k [] = []
  remove k ((j, v) ∷ m) = if j == k then m else (j, v) ∷ remove k m

  unfoldable pub replace : ℕ → V → List (ℕ × V) → List (ℕ × V)
  replace k w [] = []
  replace k w ((j, v) ∷ m) = if j == k then (j, w) ∷ m else (j, v) ∷ replace k w m

  -- `emplace`, which keeps an entry that is there.
  unfoldable pub emplace : ℕ → V → List (ℕ × V) → List (ℕ × V)
  emplace k v m = if is_some (lookup k m) then m else (k, v) ∷ m

  -- No key has two entries.
  abbrev pub UniqueKeys : List (ℕ × V) → Type 0
  UniqueKeys [] = Unit
  UniqueKeys ((k, v) ∷ m) = (is_some (lookup k m) ≡ Bool.false) × UniqueKeys m

module _ {ℓ} {V : Type ℓ} where
  pub is_some-lookup-remove :
      (j k : ℕ) (m : List (ℕ × V))
      → UniqueKeys m
      → is_some (lookup j (remove k m)) ≡ (if k == j then Bool.false else is_some (lookup j m))
  unfolding lookup remove
  is_some-lookup-remove j k [] u = ground arith
  is_some-lookup-remove j k ((i, v) ∷ m) u = ground (arith, is_some-lookup-remove j k m u.1)

  pub lookup-remove :
      (j k : ℕ) (m : List (ℕ × V))
      → UniqueKeys m
      → lookup j (remove k m) ≡ (if k == j then none else lookup j m)
  unfolding lookup remove
  lookup-remove j k [] u = ground arith
  lookup-remove j k ((i, v) ∷ m) u = ground (arith, lookup-remove j k m u.1)

  pub is_some-lookup-replace :
      (j k : ℕ) (w : V) (m : List (ℕ × V))
      → is_some (lookup j (replace k w m)) ≡ is_some (lookup j m)
  unfolding lookup replace
  is_some-lookup-replace j k w [] = refl
  is_some-lookup-replace j k w ((i, v) ∷ m) = ground (arith, is_some-lookup-replace j k w m)

  pub remove-UniqueKeys : (k : ℕ) (m : List (ℕ × V)) → UniqueKeys m → UniqueKeys (remove k m)
  unfolding remove
  remove-UniqueKeys k [] u = u
  remove-UniqueKeys k ((i, v) ∷ m) u =
      ground (arith, remove-UniqueKeys k m u.1, is_some-lookup-remove i k m u.1)

  pub replace-UniqueKeys :
      (k : ℕ) (w : V) (m : List (ℕ × V)) → UniqueKeys m → UniqueKeys (replace k w m)
  unfolding replace
  replace-UniqueKeys k w [] u = u
  replace-UniqueKeys k w ((i, v) ∷ m) u =
      ground (arith, replace-UniqueKeys k w m u.1, is_some-lookup-replace i k w m)

  pub length-remove :
      (k : ℕ) (m : List (ℕ × V)) → length (remove k m) + bit (is_some (lookup k m)) ≡ length m
  unfolding remove lookup
  length-remove k [] = refl
  length-remove k ((i, v) ∷ m) = ground (arith, length-remove k m)

  pub lookup-emplace :
      (j k : ℕ) (w : V) (m : List (ℕ × V))
      → lookup j (emplace k w m)
        ≡ (if is_some (lookup j m) then lookup j m else if k == j then some w else none)
  unfolding lookup emplace
  lookup-emplace j k w m = ground arith

  pub emplace-UniqueKeys :
      (k : ℕ) (w : V) (m : List (ℕ × V)) → UniqueKeys m → UniqueKeys (emplace k w m)
  unfolding emplace
  emplace-UniqueKeys k w m u = ground arith
