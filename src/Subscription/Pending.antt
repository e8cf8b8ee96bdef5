-- ===== src/Subscription/Pending.antt =====
-- include/wirekrak/core/protocol/subscription/pending_requests.hpp, `PendingRequests`. Request and
-- symbol identifiers are numbers; `requests_` is an association list in the order of its entries,
-- and `pending_symbols_` a list without duplicates.
pub mod Requests
pub mod Erase
pub mod Invariant
pub mod Removal
use wirekrak.Common.{
  ℕ, ◌+◌, Bool, true, false, List, [], ◌∷◌, ◌++◌, Option, none, some, ◌==◌, if◌then◌else◌, ite,
  length, contains, erase_first, insert,
}

pub record PendingRequests : Type 0 where
  pub requests : List (ℕ × List ℕ)
  pub pending_symbols : List ℕ

unfoldable pub empty_requests : PendingRequests
empty_requests = record { requests = []; pending_symbols = [] }

-- `requests_.find(req_id)`.
unfoldable pub find_request : ℕ → List (ℕ × List ℕ) → Option (List ℕ)
find_request k [] = none
find_request k ((j, v) ∷ m) = if j == k then some v else find_request k m

-- The entry that `requests_[req_id]` creates where there is none.
unfoldable pub ensure_request : ℕ → List (ℕ × List ℕ) → List (ℕ × List ℕ)
ensure_request k [] = (k, []) ∷ []
ensure_request k ((j, v) ∷ m) = if j == k then (j, v) ∷ m else (j, v) ∷ ensure_request k m

-- `vec.push_back(sid)`, through the reference `vec` into the entry.
unfoldable pub push_symbol : ℕ → ℕ → List (ℕ × List ℕ) → List (ℕ × List ℕ)
push_symbol k sid [] = []
push_symbol k sid ((j, v) ∷ m) =
    if j == k then (j, v ++ sid ∷ []) ∷ m else (j, v) ∷ push_symbol k sid m

-- `if (vec.empty()) requests_.erase(req_id)`.
unfoldable pub drop_if_empty : ℕ → List (ℕ × List ℕ) → List (ℕ × List ℕ)
drop_if_empty k [] = []
drop_if_empty k ((j, []) ∷ m) = if j == k then m else (j, []) ∷ drop_if_empty k m
drop_if_empty k ((j, s ∷ v) ∷ m) = if j == k then (j, s ∷ v) ∷ m else (j, s ∷ v) ∷ drop_if_empty k m

-- One round of the loop in `add`.
unfoldable pub add_symbol : ℕ → PendingRequests → ℕ → PendingRequests
add_symbol req_id p sid = if contains sid p.pending_symbols then p else record {
  requests = push_symbol req_id sid p.requests;
  pending_symbols = insert sid p.pending_symbols;
}

unfoldable pub add_symbols : ℕ → PendingRequests → List ℕ → PendingRequests
add_symbols req_id p [] = p
add_symbols req_id p (sid ∷ sids) = add_symbols req_id (add_symbol req_id p sid) sids

unfoldable pub add : ℕ → List ℕ → PendingRequests → PendingRequests
add req_id sids p =
    let q = add_symbols req_id (record p { requests = ensure_request req_id p.requests }) sids in
    record q { requests = drop_if_empty req_id q.requests }

-- `if (vec.empty()) requests_.erase(it)` at the entry of a request.
unfoldable pub keep_entry : ℕ → List ℕ → List (ℕ × List ℕ) → List (ℕ × List ℕ)
keep_entry k [] m = m
keep_entry k (s ∷ v) m = (k, s ∷ v) ∷ m

-- `vec.erase(pos)` for the symbol found in the entry of the request, and the erasure of the entry
-- when that was its last symbol.
unfoldable pub erase_symbol : ℕ → ℕ → List (ℕ × List ℕ) → List (ℕ × List ℕ)
erase_symbol k sid [] = []
erase_symbol k sid ((j, v) ∷ m) =
    if j == k then keep_entry j (erase_first sid v) m else (j, v) ∷ erase_symbol k sid m

-- `remove(req_id, sid)`.
unfoldable pub remove : ℕ → ℕ → PendingRequests → PendingRequests × Bool
remove req_id sid p = elim (find_request req_id p.requests) [
  | none ↦ (p, false)
  | some vec ↦
      if contains sid vec
      then (
        record {
          requests = erase_symbol req_id sid p.requests;
          pending_symbols = erase_first sid p.pending_symbols;
        },
        true,
      )
      else (p, false)
]

-- The loop of `remove(sid)`: the requests without the symbol, or none where no request has it.
unfoldable pub remove_from : ℕ → List (ℕ × List ℕ) → Option (List (ℕ × List ℕ))
remove_from sid [] = none
remove_from sid ((k, v) ∷ m) =
    let rest = remove_from sid m in
    if contains sid v
    then some (keep_entry k (erase_first sid v) m)
    else elim rest [ none ↦ none | some m' ↦ some ((k, v) ∷ m') ]

-- `remove(sid)`; none stands for `LCR_UNREACHABLE()`.
unfoldable pub remove_any : ℕ → PendingRequests → Option (PendingRequests × Bool)
remove_any sid p =
    if contains sid p.pending_symbols
    then elim (remove_from sid p.requests) [
      | none ↦ none
      | some requests ↦ some (
        record { requests = requests; pending_symbols = erase_first sid p.pending_symbols },
        true,
      )
    ]
    else some (p, false)

unfoldable pub contains_symbol : ℕ → PendingRequests → Bool
contains_symbol sid p = contains sid p.pending_symbols

unfoldable pub is_empty : PendingRequests → Bool
is_empty p = elim p.requests [ [] ↦ true | e ∷ m ↦ false ]

unfoldable pub request_count : PendingRequests → ℕ
request_count p = length p.requests

unfoldable pub symbol_count : PendingRequests → ℕ
symbol_count p = length p.pending_symbols

unfoldable pub clear : PendingRequests → PendingRequests
clear p = record { requests = []; pending_symbols = [] }
