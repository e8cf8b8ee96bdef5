-- ===== src/Session/Batching.antt =====
-- The batches of a request.
use wirekrak.Common.{
  ℕ, zero, suc, ◌≤◌, ◌<◌, ◌≡◌, refl, ap, ◌∙◌, List, [], ◌∷◌, ◌++◌, All, length, arith,
}
use wirekrak.Session.Requests.{take, drop, batches}

module _ {A : Type 0} where
  unfoldable pub concat : List (List A) → List A
  concat [] = []
  concat (xs ∷ xss) = xs ++ concat xss

  append-take-drop : (n : ℕ) (xs : List A) → take n xs ++ drop n xs ≡ xs
  unfolding take drop
  append-take-drop zero xs = refl
  append-take-drop (suc n) [] = refl
  append-take-drop (suc n) (x ∷ xs) = ap (λ ys. x ∷ ys) (append-take-drop n xs)

  length-drop : (n : ℕ) (xs : List A) → 0 < n → 0 < length xs → length (drop n xs) < length xs
  unfolding drop
  length-drop zero xs p q = absurd (omega arith)
  length-drop (suc n) [] p q = absurd (omega arith)
  length-drop (suc zero) (x ∷ xs) p q = omega arith
  length-drop (suc (suc n)) (x ∷ []) p q = omega arith
  length-drop (suc (suc n)) (x ∷ y ∷ xs) p q =
      omega (arith, length-drop (suc n) (y ∷ xs) (omega arith) (omega arith))

  length-take : (n : ℕ) (xs : List A) → length (take n xs) ≤ n
  unfolding take
  length-take zero xs = omega arith
  length-take (suc n) [] = omega arith
  length-take (suc n) (x ∷ xs) = omega (arith, length-take n xs)

  take-nonempty : (n : ℕ) (x : A) (xs : List A) → 0 < n → 0 < length (take n (x ∷ xs))
  unfolding take
  take-nonempty zero x xs p = absurd (omega arith)
  take-nonempty (suc n) x xs p = omega arith

  -- No batch is larger than the size, be that zero.
  pub batches-short :
      (fuel size : ℕ) (xs : List A) → All (λ b. length b ≤ size) (batches fuel size xs)
  unfolding batches
  batches-short zero size xs = tt
  batches-short (suc fuel) size [] = tt
  batches-short (suc fuel) size (x ∷ xs) =
      (length-take size (x ∷ xs), batches-short fuel size (drop size (x ∷ xs)))

  -- The batches of a list, of a size that is not zero, are its elements in order, once each, and
  -- no batch is empty or larger than the size.
  pub batches-concat :
      (fuel size : ℕ) (xs : List A)
      → 0 < size
      → length xs ≤ fuel
      → (concat (batches fuel size xs) ≡ xs)
        × All (λ b. (0 < length b) × (length b ≤ size)) (batches fuel size xs)
  unfolding batches concat
  batches-concat zero size [] p l = (refl, tt)
  batches-concat zero size (x ∷ xs) p l = absurd (omega arith)
  batches-concat (suc fuel) size [] p l = (refl, tt)
  batches-concat (suc fuel) size (x ∷ xs) p l =
      let (e, bounds) =
        batches-concat fuel size (drop size (x ∷ xs)) p
          (omega (arith, length-drop size (x ∷ xs) p (omega arith))) in
      (
        ap (λ ys. take size (x ∷ xs) ++ ys) e ∙ append-take-drop size (x ∷ xs),
        ((take-nonempty size x xs p, length-take size (x ∷ xs)), bounds),
      )
