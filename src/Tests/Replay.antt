-- ===== src/Tests/Replay.antt =====
-- The replay table at concrete inputs. Symbols are their own identifiers.
use wirekrak.Common.{
  ℕ, ◌≡◌, refl, Bool, true, false, not, ◌&&◌, List, [], ◌∷◌, map, Option, none, some, ◌==◌,
  if◌then◌else◌, is_some, is_owner, bit, contains, lookup, All, arith,
}
use wirekrak.Replay.Table.{
  Symbols, Request, Table, empty_table, is_nil, add, remove_if, own_symbols, take_subscriptions,
}
use wirekrak.Replay.Table.Entries.{has, holders, owner_in}
use wirekrak.Replay.Table.Invariant.{owner_of, IsValid}
use wirekrak.Replay.Table.Sizes.{is_repeating, symbol_count, is_consistent, add-is_consistent}
use wirekrak.Replay.Table.Adding.{unowned, accepts, senders, add-owner_of, take_subscriptions-owner}

abbrev numbers : Symbols
numbers = record { Symbol = ℕ; equal = ◌==◌; intern = λ n. n; equal-intern = λ a b. refl }

abbrev first : Request ℕ ℕ
first = record { req_id = some 10; symbols = 1 ∷ 2 ∷ []; body = 25 }

-- Request 10 owns symbols 1 and 2.
abbrev one_request : Table ℕ ℕ
one_request = record { subscriptions = (10, first) ∷ []; symbol_owner = (1, 10) ∷ (2, 10) ∷ [] }

one_request-IsValid : IsValid numbers one_request
unfolding lookup holders owner_in has contains
one_request-IsValid = record {
  keys = (refl, tt);
  owners = (refl, (refl, tt));
  labelled = (refl, refl, tt);
  single = λ sid. ground arith;
  tracked = λ sid. ground arith;
}

abbrev second : Request ℕ ℕ
second = record { req_id = some 11; symbols = 2 ∷ 3 ∷ []; body = 10 }

add-second : (add numbers second one_request).0.symbol_owner ≡ (3, 11) ∷ (1, 10) ∷ (2, 10) ∷ []
unfolding add remove_if lookup own_symbols wirekrak.Common.emplace
add-second = refl

add-owner_of_example :
    let (t', added) = add numbers second one_request in
    IsValid numbers t'
    × (added ≡ accepts numbers second one_request)
    × ((j : ℕ)
        → owner_of numbers j t' ≡ (
            if added
              && not (is_some (owner_of numbers j one_request))
              && contains j (map (λ n. n) (2 ∷ 3 ∷ []))
            then some 11
            else owner_of numbers j one_request))
add-owner_of_example = add-owner_of numbers second one_request one_request-IsValid

-- A request that repeats a symbol that is not owned.
abbrev repeated : Request ℕ ℕ
repeated = record { req_id = some 12; symbols = 2 ∷ 3 ∷ 3 ∷ []; body = 10 }

one_request-is_consistent : is_consistent numbers one_request ≡ true
unfolding is_consistent symbol_count
one_request-is_consistent = refl

add-is_consistent_example :
    let (t', added) = add numbers repeated one_request in
    is_consistent numbers t'
    ≡ not (added && is_repeating numbers (unowned numbers repeated one_request))
add-is_consistent_example = add-is_consistent numbers repeated one_request one_request-is_consistent

add-repeated : is_consistent numbers (add numbers repeated one_request).0 ≡ false
unfolding is_consistent symbol_count add remove_if lookup own_symbols wirekrak.Common.emplace
add-repeated = refl

take_subscriptions-owner_example :
    let (out, t') = take_subscriptions numbers one_request in
    ((j : ℕ) → senders numbers j out ≡ bit (is_some (owner_of numbers j one_request)))
    × All (λ r. (is_some r.req_id ≡ true) × (is_nil r.symbols ≡ false)) out
    × (t' ≡ empty_table)
    × IsValid numbers t'
take_subscriptions-owner_example = take_subscriptions-owner numbers one_request one_request-IsValid
