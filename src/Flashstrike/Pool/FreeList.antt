-- ===== src/Flashstrike/Pool/FreeList.antt =====
-- The list of the free orders of a pool.
use wirekrak.Common.{
  ℕ, zero, suc, ◌+◌, ◌≤◌, ◌<◌, ◌≡◌, false, List, [], ◌∷◌, Option, none, some, ◌==◌, length, get_or,
  set, get_or-set_ne, arith, ==_iff, contains, All, Bool-cases, inl, inr, erase_first,
  contains-count, count-erase_first, length-erase_first,
}
use wirekrak.Flashstrike.Pool.{Order, no_order}

-- The orders reached from `head` are those of the list.
unfoldable pub IsChain : List Order → Option ℕ → List ℕ → Type 0
IsChain orders head [] = head ≡ none
IsChain orders head (i ∷ frees) =
    (head ≡ some i) × IsChain orders (get_or orders i no_order).next_free frees

-- A write to an order that is not free leaves the list as it is.
pub set-IsChain :
    (orders : List Order) (head : Option ℕ) (frees : List ℕ) (j : ℕ) (o : Order)
    → contains j frees ≡ false
    → IsChain orders head frees
    → IsChain (set orders j o) head frees
unfolding IsChain contains
set-IsChain orders head [] j o a c = c
set-IsChain orders head (i ∷ frees) j o a (e, c) =
    let kept = set-IsChain orders _ frees j o (ground arith) c in
    let same : get_or (set orders j o) i no_order ≡ get_or orders i no_order =
      get_or-set_ne orders o no_order (λ f. ground (arith, a, f, (==_iff i j).1)) in
    (e, rw same kept)

-- The indices from `i` on, `n` and one more.
unfoldable pub upward : ℕ → ℕ → List ℕ
upward zero i = i ∷ []
upward (suc n) i = i ∷ upward n (i + 1)

-- No index stands twice in the list.
abbrev pub IsDistinct : List ℕ → Type 0
IsDistinct [] = Unit
IsDistinct (i ∷ frees) = (contains i frees ≡ false) × IsDistinct frees

module _ (n : ℕ) where
  erase_first-IsDistinct : (xs : List ℕ) → IsDistinct xs → IsDistinct (erase_first n xs)
  unfolding erase_first contains
  erase_first-IsDistinct [] d = d
  erase_first-IsDistinct (x ∷ xs) (a, d) = elim (Bool-cases (x == n)) [
    | inl e ↦ rw (erase_first, e) d
    | inr e ↦
        rw (erase_first, e)
          (
            ground (
              arith,
              a,
              contains-count x xs,
              contains-count x (erase_first n xs),
              count-erase_first x n xs,
            ),
            erase_first-IsDistinct xs d,
          )
  ]

  below : (xs : List ℕ) → contains n xs ≡ false → All (λ i. i < suc n) xs → All (λ i. i < n) xs
  unfolding contains
  below [] a l = tt
  below (x ∷ xs) a (l, ls) = (ground (arith, a, l, (==_iff x n).1), below xs (ground (arith, a)) ls)

  erase_first-below :
      (xs : List ℕ) → IsDistinct xs → All (λ i. i < suc n) xs → All (λ i. i < n) (erase_first n xs)
  unfolding erase_first
  erase_first-below [] d l = tt
  erase_first-below (x ∷ xs) (a, d) (l, ls) = elim (Bool-cases (x == n)) [
    | inl e ↦ rw (erase_first, e) (below xs (rw (← (==_iff x n).0 e) a) ls)
    | inr e ↦ rw (erase_first, e) (ground (arith, e), erase_first-below xs d ls)
  ]

-- Distinct numbers below `n` are at most `n`.
pub pigeonhole : (n : ℕ) (xs : List ℕ) → IsDistinct xs → All (λ i. i < n) xs → length xs ≤ n
pigeonhole zero [] d l = omega arith
pigeonhole zero (x ∷ xs) d (l, ls) = absurd (omega (arith, l))
pigeonhole (suc n) xs d l =
    let shorter =
      pigeonhole n (erase_first n xs) (erase_first-IsDistinct n xs d)
        (erase_first-below n xs d l) in
    ground (arith, shorter, length-erase_first n xs)
