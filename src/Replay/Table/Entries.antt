-- ===== src/Replay/Table/Entries.antt =====
-- Lemmas on the requests of a table: which request has a symbol.
use wirekrak.Common.{
  is_owner, ap, ◌∙◌, ℕ, ◌+◌, ◌≤◌, ◌≡◌, refl, Bool, true, false, not, ◌&&◌, List, [], ◌∷◌, map,
  Option, none, some, ◌==◌, if◌then◌else◌, is_some, ltb, bit, length, contains, lookup, remove,
  replace, UniqueKeys, arith, Bool-cases, inl, inr,
}
use wirekrak.Replay.Table.{Symbols, Request, remove_if, erase_from}

module _ (s : Symbols) where
  open s use {Symbol, equal, intern, equal-intern}

  pub contains-remove_if :
      (j : ℕ) (symbol : Symbol) (symbols : List Symbol)
      → contains j (map intern (remove_if (λ sym. equal sym symbol) symbols))
        ≡ (if intern symbol == j then false else contains j (map intern symbols))
  unfolding contains remove_if
  contains-remove_if j symbol [] = ground arith
  contains-remove_if j symbol (x ∷ symbols) = elim (Bool-cases (equal x symbol)) [
    | inl e ↦ rw e (ground (arith, e, equal-intern x symbol, contains-remove_if j symbol symbols))
    | inr e ↦ rw e (ground (arith, e, equal-intern x symbol, contains-remove_if j symbol symbols))
  ]

  pub length-remove_if-le :
      (p : Symbol → Bool) (symbols : List Symbol) → length (remove_if p symbols) ≤ length symbols
  unfolding remove_if
  length-remove_if-le p [] = omega arith
  length-remove_if-le p (x ∷ symbols) = ground (arith, length-remove_if-le p symbols)

  -- Something is removed exactly when the request has the symbol.
  pub length-remove_if :
      (symbol : Symbol) (symbols : List Symbol)
      → (length (remove_if (λ sym. equal sym symbol) symbols) == length symbols)
        ≡ not (contains (intern symbol) (map intern symbols))
  unfolding contains remove_if
  length-remove_if symbol [] = refl
  length-remove_if symbol (x ∷ symbols) = ground (
    arith,
    equal-intern x symbol,
    length-remove_if symbol symbols,
    length-remove_if-le (λ sym. equal sym symbol) symbols,
  )

module _ (s : Symbols) {Body : Type 0} where
  open s use {Symbol, equal, intern}

  -- Whether a request has the symbol with an identifier.
  unfoldable pub has : ℕ → Request Symbol Body → Bool
  has sid r = contains sid (map intern r.symbols)

  -- The number of requests that have the symbol.
  unfoldable pub holders : ℕ → List (ℕ × Request Symbol Body) → ℕ
  unfolding has
  holders sid [] = 0
  holders sid ((k, r) ∷ m) = bit (has sid r) + holders sid m

  -- The request that has the symbol.
  unfoldable pub owner_in : ℕ → List (ℕ × Request Symbol Body) → Option ℕ
  unfolding has
  owner_in sid [] = none
  owner_in sid ((k, r) ∷ m) = if has sid r then some k else owner_in sid m

  -- `erase_symbol` of a request succeeds exactly when it has the symbol, and takes out that symbol.
  pub erase_from-has :
      (symbol : Symbol) (r : Request Symbol Body) (j : ℕ)
      → let (r', erased) = erase_from s symbol r in
        (erased ≡ has (intern symbol) r)
        × (has j r' ≡ (has j r && not (intern symbol == j)))
        × (r'.req_id ≡ r.req_id)
  unfolding erase_from has
  erase_from-has symbol r j =
      ground (arith, length-remove_if s symbol r.symbols, contains-remove_if s j symbol r.symbols)

  owner_in_absent :
      (j : ℕ) (m : List (ℕ × Request Symbol Body)) → holders j m ≡ 0 → owner_in j m ≡ none
  unfolding holders owner_in
  owner_in_absent j [] e = refl
  owner_in_absent j ((k, r) ∷ m) e = ground (arith, owner_in_absent j m)

  pub is_some-owner_in :
      (j : ℕ) (m : List (ℕ × Request Symbol Body)) → is_some (owner_in j m) ≡ ltb 0 (holders j m)
  unfolding holders owner_in
  is_some-owner_in j [] = refl
  is_some-owner_in j ((k, r) ∷ m) = ground (arith, is_some-owner_in j m)

  module _ (k : ℕ) (r : Request Symbol Body) where
    holders_of_lookup :
        (j : ℕ) (m : List (ℕ × Request Symbol Body))
        → lookup k m ≡ some r
        → bit (has j r) ≤ holders j m
    unfolding holders lookup
    holders_of_lookup j [] e = cc
    holders_of_lookup j ((i, q) ∷ m) e = ground (arith, holders_of_lookup j m)

    pub remove-owner_in :
        (j : ℕ) (m : List (ℕ × Request Symbol Body))
        → lookup k m ≡ some r
        → holders j m ≤ 1
        → (holders j (remove k m) + bit (has j r) ≡ holders j m)
          × (owner_in j (remove k m) ≡ (if has j r then none else owner_in j m))
    unfolding holders owner_in lookup remove
    remove-owner_in j [] e h = cc
    remove-owner_in j ((i, q) ∷ m) e h = elim (Bool-cases (i == k)) [
      | inl same ↦ rw same (ground (arith, same, owner_in_absent j m))
      | inr other ↦ rw other (ground (arith, other, remove-owner_in j m, holders_of_lookup j m))
    ]

    pub replace-owner_in :
        (r' : Request Symbol Body) (j : ℕ) (m : List (ℕ × Request Symbol Body))
        → lookup k m ≡ some r
        → holders j m ≤ 1
        → (has j r' ≡ true → has j r ≡ true)
        → (holders j (replace k r' m) + bit (has j r) ≡ holders j m + bit (has j r'))
          × (owner_in j (replace k r' m)
              ≡ (if has j r && not (has j r') then none else owner_in j m))
    unfolding holders owner_in lookup replace
    replace-owner_in r' j [] e h le = cc
    replace-owner_in r' j ((i, q) ∷ m) e h le = elim (Bool-cases (i == k)) [
      | inl same ↦ rw same (ground (arith, same, owner_in_absent j m))
      | inr other ↦ rw other (ground (arith, other, replace-owner_in r' j m, holders_of_lookup j m))
    ]

  -- The request that has a symbol is found under the identifier that `owner_in` gives.
  pub owner_in-lookup :
      (j k : ℕ) (m : List (ℕ × Request Symbol Body))
      → UniqueKeys m
      → owner_in j m ≡ some k
      → (r : Request Symbol Body) × (lookup k m ≡ some r) × (has j r ≡ true)
  unfolding owner_in lookup
  owner_in-lookup j k [] u e = absurd (ground arith)
  owner_in-lookup j k ((i, q) ∷ m) u e = elim (Bool-cases (has j q)) [
    | inl held ↦ (q, ground (arith, held), held)
    | inr free ↦
        let (r, found, held) = owner_in-lookup j k m u.1 (ground (arith, free)) in
        (r, ground (arith, found), held)
  ]

  entry_has : ℕ → Option (Request Symbol Body) → Bool
  entry_has sid none = false
  entry_has sid (some r) = has sid r

  not_owner :
      (j k : ℕ) (m : List (ℕ × Request Symbol Body))
      → is_some (lookup k m) ≡ false
      → is_owner k (owner_in j m) ≡ false
  unfolding owner_in lookup is_owner
  not_owner j k [] e = refl
  not_owner j k ((i, q) ∷ m) e = ground (arith, not_owner j k m)

  -- The request found under an identifier has a symbol exactly when it owns it.
  owner_in-entry :
      (j k : ℕ) (m : List (ℕ × Request Symbol Body))
      → UniqueKeys m
      → holders j m ≤ 1
      → is_owner k (owner_in j m) ≡ entry_has j (lookup k m)
  unfolding owner_in holders lookup is_owner entry_has
  owner_in-entry j k [] u h = refl
  owner_in-entry j k ((i, q) ∷ m) u h = elim (Bool-cases (i == k)) [
    | inl same ↦
        rw same (ground (arith, same, not_owner j i m, not_owner j k m, owner_in_absent j m))
    | inr other ↦ rw other (ground (arith, other, owner_in-entry j k m u.1, owner_in_absent j m))
  ]

  pub owner_in-found :
      (j k : ℕ) (r : Request Symbol Body) (m : List (ℕ × Request Symbol Body))
      → UniqueKeys m
      → holders j m ≤ 1
      → lookup k m ≡ some r
      → is_owner k (owner_in j m) ≡ has j r
  unfolding entry_has
  owner_in-found j k r m u h e = owner_in-entry j k m u h ∙ ap (entry_has j) e

  pub owner_in-missing :
      (j k : ℕ) (m : List (ℕ × Request Symbol Body))
      → lookup k m ≡ none
      → is_owner k (owner_in j m) ≡ false
  owner_in-missing j k m e = not_owner j k m (rw e)
