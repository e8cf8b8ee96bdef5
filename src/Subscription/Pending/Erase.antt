-- ===== src/Subscription/Pending/Erase.antt =====
-- What the removal of a symbol does to the requests.
use wirekrak.Common.{
  is_owner, ℕ, ◌+◌, ◌≤◌, ◌<◌, ◌≡◌, refl, true, false, List, [], ◌∷◌, none, some, ◌==◌,
  if◌then◌else◌, Bool-cases, inl, inr, length, contains, erase_first, count, bit, arith,
  count-erase_first, contains-count, contains-erase_first, length-erase_first,
}
use wirekrak.Subscription.Pending.{find_request, keep_entry, erase_symbol, remove_from}
use wirekrak.Subscription.Pending.Requests.{
  occurrences, stored, owner, has_request, UniqueRequests, Filled, holds,
}

owner_absent : (sid : ℕ) (m : List (ℕ × List ℕ)) → occurrences sid m ≡ 0 → owner sid m ≡ none
unfolding owner occurrences
owner_absent sid [] e = refl
owner_absent sid ((l, v) ∷ m) e = ground (arith, owner_absent sid m, contains-count sid v)

keep_entry-lem :
    (j i k : ℕ) (v : List ℕ) (m : List (ℕ × List ℕ))
    → (occurrences j (keep_entry k v m) ≡ count j v + occurrences j m)
      × (stored (keep_entry k v m) ≡ length v + stored m)
      × (owner j (keep_entry k v m) ≡ (if contains j v then some k else owner j m))
      × (has_request k m ≡ false → UniqueRequests m → UniqueRequests (keep_entry k v m))
      × (has_request i ((k, v) ∷ m) ≡ false → has_request i (keep_entry k v m) ≡ false)
      × (Filled m → Filled (keep_entry k v m))
unfolding keep_entry occurrences stored owner contains count has_request
keep_entry-lem j i k [] m = ground arith
keep_entry-lem j i k (s ∷ v) m = ground arith

pub holds-occurrences :
    (k sid : ℕ) (m : List (ℕ × List ℕ)) → holds k sid m ≡ true → 0 < occurrences sid m
unfolding holds find_request occurrences
holds-occurrences k sid [] h = ground arith
holds-occurrences k sid ((l, v) ∷ m) h =
    ground (arith, holds-occurrences k sid m, contains-count sid v)

module _ (k sid : ℕ) where
  pub erase-lem :
      (j i : ℕ) (m : List (ℕ × List ℕ))
      → holds k sid m ≡ true
      → (occurrences j (erase_symbol k sid m) + bit (sid == j) ≡ occurrences j m)
        × (stored (erase_symbol k sid m) + 1 ≡ stored m)
        × (has_request i m ≡ false → has_request i (erase_symbol k sid m) ≡ false)
  unfolding erase_symbol occurrences stored has_request holds find_request count
  erase-lem j i [] h = ground arith
  erase-lem j i ((l, v) ∷ m) h = ground (
    arith,
    erase-lem j i m,
    keep_entry-lem j i l (erase_first sid v) m,
    count-erase_first j sid v,
    length-erase_first sid v,
    contains-count sid v,
  )

  pub erase-owner :
      (j : ℕ) (m : List (ℕ × List ℕ))
      → holds k sid m ≡ true
      → occurrences sid m ≤ 1
      → owner j (erase_symbol k sid m) ≡ (if sid == j then none else owner j m)
  unfolding erase_symbol occurrences owner holds find_request
  erase-owner j [] h o = ground arith
  erase-owner j ((l, v) ∷ m) h o = elim (Bool-cases (l == k)) [
    | inl e ↦
        let kept = keep_entry-lem j 0 l (erase_first sid v) m in
        rw (e, kept.2)
          (ground (arith, owner_absent sid m, contains-erase_first j sid v, contains-count sid v))
    | inr e ↦
        rw e (ground (arith, erase-owner j m, holds-occurrences k sid m, contains-count sid v))
  ]

  pub erase-Unique :
      (m : List (ℕ × List ℕ))
      → holds k sid m ≡ true
      → UniqueRequests m
      → UniqueRequests (erase_symbol k sid m)
  unfolding erase_symbol has_request holds find_request
  erase-Unique [] h u = ground arith
  erase-Unique ((l, v) ∷ m) h u =
      ground (arith, erase-Unique m, erase-lem 0 l m, keep_entry-lem 0 0 l (erase_first sid v) m)

  pub erase-Filled : (m : List (ℕ × List ℕ)) → Filled m → Filled (erase_symbol k sid m)
  unfolding erase_symbol
  erase-Filled [] f = tt
  erase-Filled ((l, []) ∷ m) f = absurd f
  erase-Filled ((l, s ∷ v) ∷ m) f =
      ground (arith, erase-Filled m, keep_entry-lem 0 0 l (erase_first sid (s ∷ v)) m)

  holds_absent : (m : List (ℕ × List ℕ)) → has_request k m ≡ false → holds k sid m ≡ false
  unfolding has_request holds find_request
  holds_absent [] e = refl
  holds_absent ((l, v) ∷ m) e = ground (arith, holds_absent m)

  -- With one entry for a request and one request for a symbol, the entry of the request has the
  -- symbol exactly when the request is the one that the symbol waits for.
  pub holds-owner :
      (m : List (ℕ × List ℕ))
      → UniqueRequests m
      → occurrences sid m ≤ 1
      → holds k sid m ≡ is_owner k (owner sid m)
  unfolding occurrences owner holds find_request is_owner has_request
  holds-owner [] u o = refl
  holds-owner ((l, v) ∷ m) u o =
      ground (arith, holds-owner m, holds_absent m, owner_absent sid m, contains-count sid v)

-- The search of `remove(sid)` through all requests ends at the symbol's own.
pub remove_from-owner :
    (sid k : ℕ) (m : List (ℕ × List ℕ))
    → UniqueRequests m
    → owner sid m ≡ some k
    → (remove_from sid m ≡ some (erase_symbol k sid m)) × (holds k sid m ≡ true)
unfolding remove_from owner erase_symbol holds find_request has_request
remove_from-owner sid k [] u e = ground arith
remove_from-owner sid k ((l, v) ∷ m) u e =
    ground (arith, remove_from-owner sid k m, holds_absent k sid m)
