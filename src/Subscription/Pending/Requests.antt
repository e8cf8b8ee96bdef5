-- ===== src/Subscription/Pending/Requests.antt =====
-- Lemmas on the map from request identifiers to their symbols.
use wirekrak.Common.{
  ℕ, ◌+◌, ◌≡◌, refl, Bool, true, false, List, [], ◌∷◌, ◌++◌, Option, none, some, ◌==◌, ◌||◌,
  is_some, ltb, if◌then◌else◌, length, contains, count, bit, arith, count-append, contains-count,
  length-append,
}
use wirekrak.Subscription.Pending.{find_request, ensure_request, push_symbol, drop_if_empty}

-- How often a symbol stands in the requests.
unfoldable pub occurrences : ℕ → List (ℕ × List ℕ) → ℕ
occurrences sid [] = 0
occurrences sid ((k, v) ∷ m) = count sid v + occurrences sid m

-- How many symbols stand in the requests.
unfoldable pub stored : List (ℕ × List ℕ) → ℕ
stored [] = 0
stored ((k, v) ∷ m) = length v + stored m

-- The request that a symbol waits for.
unfoldable pub owner : ℕ → List (ℕ × List ℕ) → Option ℕ
owner sid [] = none
owner sid ((k, v) ∷ m) = if contains sid v then some k else owner sid m

unfoldable pub has_request : ℕ → List (ℕ × List ℕ) → Bool
has_request k [] = false
has_request k ((j, v) ∷ m) = j == k || has_request k m

-- Each request has one entry.
abbrev pub UniqueRequests : List (ℕ × List ℕ) → Type 0
UniqueRequests [] = Unit
UniqueRequests ((k, v) ∷ m) = (has_request k m ≡ false) × UniqueRequests m

-- No request is without symbols.
abbrev pub Filled : List (ℕ × List ℕ) → Type 0
Filled [] = Unit
Filled ((k, []) ∷ m) = ⊥
Filled ((k, s ∷ v) ∷ m) = Filled m

-- No request but perhaps `i` is without symbols.
abbrev pub FilledBut : ℕ → List (ℕ × List ℕ) → Type 0
FilledBut i [] = Unit
FilledBut i ((k, []) ∷ m) = (k ≡ i) × FilledBut i m
FilledBut i ((k, s ∷ v) ∷ m) = FilledBut i m

module _ (k : ℕ) where
  pub ensure-lem :
      (j i : ℕ) (m : List (ℕ × List ℕ))
      → (occurrences j (ensure_request k m) ≡ occurrences j m)
        × (stored (ensure_request k m) ≡ stored m)
        × (owner j (ensure_request k m) ≡ owner j m)
        × (has_request i (ensure_request k m) ≡ (k == i || has_request i m))
  unfolding ensure_request occurrences stored owner has_request contains count
  ensure-lem j i [] = ground arith
  ensure-lem j i ((h, v) ∷ m) = ground (arith, ensure-lem j i m)

  pub push-lem :
      (sid j i : ℕ) (m : List (ℕ × List ℕ))
      → has_request k m ≡ true
      → (occurrences j (push_symbol k sid m) ≡ occurrences j m + bit (sid == j))
        × (stored (push_symbol k sid m) ≡ stored m + 1)
        × (has_request i (push_symbol k sid m) ≡ has_request i m)
  unfolding push_symbol occurrences stored has_request count
  push-lem sid j i [] h = ground arith
  push-lem sid j i ((l, v) ∷ m) h =
      ground (arith, push-lem sid j i m, count-append j v (sid ∷ []), length-append v (sid ∷ []))

  pub drop-lem :
      (j i : ℕ) (m : List (ℕ × List ℕ))
      → (occurrences j (drop_if_empty k m) ≡ occurrences j m)
        × (stored (drop_if_empty k m) ≡ stored m)
        × (owner j (drop_if_empty k m) ≡ owner j m)
        × (has_request i m ≡ false → has_request i (drop_if_empty k m) ≡ false)
  unfolding drop_if_empty occurrences stored owner has_request contains count
  drop-lem j i [] = ground arith
  drop-lem j i ((h, []) ∷ m) = ground (arith, drop-lem j i m)
  drop-lem j i ((h, s ∷ v) ∷ m) = ground (arith, drop-lem j i m)

  pub push-owner :
      (sid j : ℕ) (m : List (ℕ × List ℕ))
      → has_request k m ≡ true
      → occurrences sid m ≡ 0
      → owner j (push_symbol k sid m) ≡ (if sid == j then some k else owner j m)
  unfolding push_symbol occurrences owner has_request count
  push-owner sid j [] h e = ground arith
  push-owner sid j ((l, v) ∷ m) h e = ground (
    arith,
    push-owner sid j m,
    contains-count j (v ++ sid ∷ []),
    contains-count j v,
    contains-count sid v,
    count-append j v (sid ∷ []),
  )

  pub ensure-Unique :
      (m : List (ℕ × List ℕ)) → UniqueRequests m → UniqueRequests (ensure_request k m)
  unfolding ensure_request has_request
  ensure-Unique [] u = ground arith
  ensure-Unique ((h, v) ∷ m) u = ground (arith, ensure-Unique m, ensure-lem 0 h m)

  pub push-Unique :
      (sid : ℕ) (m : List (ℕ × List ℕ))
      → has_request k m ≡ true
      → UniqueRequests m
      → UniqueRequests (push_symbol k sid m)
  unfolding push_symbol has_request
  push-Unique sid [] h u = ground arith
  push-Unique sid ((l, v) ∷ m) h u = ground (arith, push-Unique sid m, push-lem sid 0 l m)

  pub drop-Unique : (m : List (ℕ × List ℕ)) → UniqueRequests m → UniqueRequests (drop_if_empty k m)
  unfolding drop_if_empty has_request
  drop-Unique [] u = ground arith
  drop-Unique ((h, []) ∷ m) u = ground (arith, drop-Unique m, drop-lem 0 h m)
  drop-Unique ((h, s ∷ v) ∷ m) u = ground (arith, drop-Unique m, drop-lem 0 h m)

  pub ensure-FilledBut : (m : List (ℕ × List ℕ)) → Filled m → FilledBut k (ensure_request k m)
  unfolding ensure_request
  ensure-FilledBut [] f = ground arith
  ensure-FilledBut ((h, s ∷ v) ∷ m) f = ground (arith, ensure-FilledBut m, weaken m)
    where
      weaken : (n : List (ℕ × List ℕ)) → Filled n → FilledBut k n
      weaken [] f = tt
      weaken ((h, []) ∷ n) f = absurd f
      weaken ((h, s ∷ v) ∷ n) f = weaken n f
  ensure-FilledBut ((h, []) ∷ m) f = absurd f

  pub push-FilledBut :
      (sid : ℕ) (m : List (ℕ × List ℕ)) → FilledBut k m → FilledBut k (push_symbol k sid m)
  unfolding push_symbol
  push-FilledBut sid [] f = tt
  push-FilledBut sid ((l, []) ∷ m) f = ground (arith, push-FilledBut sid m)
  push-FilledBut sid ((l, s ∷ v) ∷ m) f = ground (arith, push-FilledBut sid m)

  Filled-of_no_request :
      (m : List (ℕ × List ℕ)) → has_request k m ≡ false → FilledBut k m → Filled m
  unfolding has_request
  Filled-of_no_request [] h f = tt
  Filled-of_no_request ((l, []) ∷ m) h f = ground arith
  Filled-of_no_request ((l, s ∷ v) ∷ m) h f = ground (arith, Filled-of_no_request m)

  pub drop-Filled :
      (m : List (ℕ × List ℕ)) → UniqueRequests m → FilledBut k m → Filled (drop_if_empty k m)
  unfolding drop_if_empty
  drop-Filled [] u f = tt
  drop-Filled ((l, []) ∷ m) u f = ground (arith, Filled-of_no_request m, drop-Filled m)
  drop-Filled ((l, s ∷ v) ∷ m) u f = ground (arith, Filled-of_no_request m, drop-Filled m)

-- Whether a request waits for the symbol.
unfoldable pub holds : ℕ → ℕ → List (ℕ × List ℕ) → Bool
holds k sid m = elim (find_request k m) [ none ↦ false | some vec ↦ contains sid vec ]

pub is_some-owner :
    (sid : ℕ) (m : List (ℕ × List ℕ)) → is_some (owner sid m) ≡ ltb 0 (occurrences sid m)
unfolding owner occurrences
is_some-owner sid [] = refl
is_some-owner sid ((k, v) ∷ m) = ground (arith, is_some-owner sid m, contains-count sid v)
