-- ===== src/Subscription/Manager.antt =====
-- include/wirekrak/core/protocol/subscription/manager.hpp, `Manager`. `intern` gives the identifier
-- that the intern table holds for a symbol: a total function, since the symbols of a program are taken
-- to fit into the table of 4096, beyond which `intern_symbol` traps. An operation that may reach the unreachable line of
-- `PendingRequests::remove(sid)` returns none when it does.
pub mod Status
pub mod Register
pub mod Cancel
pub mod Acks
pub mod Answers
pub mod Quiet
pub mod History
use wirekrak.Common.{
  ℕ, ◌+◌, Bool, true, false, not, ◌||◌, List, [], ◌∷◌, Option, none, some, if◌then◌else◌, contains,
  insert, erase_first, length,
}
use wirekrak.Subscription.Pending.{
  PendingRequests, empty_requests, add, remove, remove_any, contains_symbol, is_empty,
  request_count, symbol_count, clear,
}

pub record Manager : Type 0 where
  pub pending_subscriptions : PendingRequests
  pub pending_unsubscriptions : PendingRequests
  pub active_symbols : List ℕ

unfoldable pub initial : Manager
initial = record {
  pending_subscriptions = empty_requests;
  pending_unsubscriptions = empty_requests;
  active_symbols = [];
}

-- One symbol of a subscription request, by the state that it is in: the new state, and whether
-- the symbol is kept.
unfoldable pub filter_symbol : ℕ → Manager → Option (Manager × Bool)
filter_symbol sid m =
    if contains sid m.active_symbols
    then some (m, false)
    else if contains_symbol sid m.pending_subscriptions
    then some (m, false)
    else if contains_symbol sid m.pending_unsubscriptions
    then elim (remove_any sid m.pending_unsubscriptions) [
      | none ↦ none
      | some (unsubscriptions, removed) ↦ some (
        record m {
          pending_unsubscriptions = unsubscriptions;
          active_symbols = if removed then insert sid m.active_symbols else m.active_symbols;
        },
        false,
      )
    ]
    else some (m, true)

-- One symbol of an unsubscription request: the new state, whether a pending subscription was
-- cancelled, and whether the symbol has to be unsubscribed.
unfoldable pub cancel_symbol : ℕ → Manager → Option (Manager × Bool × Bool)
cancel_symbol sid m =
    if contains_symbol sid m.pending_subscriptions
    then elim (remove_any sid m.pending_subscriptions) [
      | none ↦ none
      | some (subscriptions, removed) ↦
          some (record m { pending_subscriptions = subscriptions }, removed, false)
    ]
    else if not (contains sid m.active_symbols)
    then some (m, false, false)
    else if contains_symbol sid m.pending_unsubscriptions
    then some (m, false, false)
    else some (m, false, true)

-- `confirm_subscription_` and `reject_subscription_`.
unfoldable pub confirm_subscription : ℕ → ℕ → Manager → Manager
confirm_subscription req_id sid m =
    let (subscriptions, removed) = remove req_id sid m.pending_subscriptions in
    record m {
      pending_subscriptions = subscriptions;
      active_symbols = if removed then insert sid m.active_symbols else m.active_symbols;
    }

unfoldable pub reject_subscription : ℕ → ℕ → Manager → Manager
reject_subscription req_id sid m = record m {
  pending_subscriptions = (remove req_id sid m.pending_subscriptions).0;
}

-- `confirm_unsubscription_` and `reject_unsubscription_`.
unfoldable pub confirm_unsubscription : ℕ → ℕ → Manager → Manager
confirm_unsubscription req_id sid m =
    let (unsubscriptions, removed) = remove req_id sid m.pending_unsubscriptions in
    record m {
      pending_unsubscriptions = unsubscriptions;
      active_symbols = if removed then erase_first sid m.active_symbols else m.active_symbols;
    }

unfoldable pub reject_unsubscription : ℕ → ℕ → Manager → Manager
reject_unsubscription req_id sid m = record m {
  pending_unsubscriptions = (remove req_id sid m.pending_unsubscriptions).0;
}

-- `if (!symbols.empty()) pending_subscriptions_.add(req_id, accepted)`.
unfoldable pub file_subscription : {Symbol : Type 0} → ℕ → Manager → List Symbol → List ℕ → Manager
file_subscription req_id m [] accepted = m
file_subscription req_id m (symbol ∷ kept) accepted = record m {
  pending_subscriptions = add req_id accepted m.pending_subscriptions;
}

-- `if (!filtered.empty()) pending_unsubscriptions_.add(req_id, filtered)`.
unfoldable pub file_unsubscription : ℕ → Manager → List ℕ → Manager
file_unsubscription req_id m [] = m
file_unsubscription req_id m (sid ∷ filtered) = record m {
  pending_unsubscriptions = add req_id (sid ∷ filtered) m.pending_unsubscriptions;
}

module _ {Symbol : Type 0} (intern : Symbol → ℕ) where
  -- The filtering loop of `register_subscription`: the symbols kept, in order, and their
  -- identifiers `accepted`. `intern_symbol` may trap on a new symbol when the table is full.
  unfoldable pub filter_symbols : List Symbol → Manager → Option (Manager × List Symbol × List ℕ)
  filter_symbols [] m = some (m, [], [])
  filter_symbols (symbol ∷ symbols) m = elim (filter_symbol (intern symbol) m) [
    | none ↦ none
    | some (m', keep) ↦ elim (filter_symbols symbols m') [
      | none ↦ none
      | some (m'', kept, accepted) ↦ some (
        m'',
        (if keep then symbol ∷ kept else kept),
        if keep then intern symbol ∷ accepted else accepted,
      )
    ]
  ]

  unfoldable pub register_subscription : List Symbol → ℕ → Manager → Option (Manager × List Symbol)
  unfolding file_subscription
  register_subscription symbols req_id m = elim (filter_symbols symbols m) [
    | none ↦ none
    | some (m', kept, accepted) ↦ some (file_subscription req_id m' kept accepted, kept)
  ]

  -- The loop of `register_unsubscription`: the symbols `cancelled` and the identifiers `filtered`.
  unfoldable pub cancel_symbols : List Symbol → Manager → Option (Manager × List Symbol × List ℕ)
  cancel_symbols [] m = some (m, [], [])
  cancel_symbols (symbol ∷ symbols) m = elim (cancel_symbol (intern symbol) m) [
    | none ↦ none
    | some (m', cancel, keep) ↦ elim (cancel_symbols symbols m') [
      | none ↦ none
      | some (m'', cancelled, filtered) ↦ some (
        m'',
        (if cancel then symbol ∷ cancelled else cancelled),
        if keep then intern symbol ∷ filtered else filtered,
      )
    ]
  ]

  unfoldable pub register_unsubscription :
      List Symbol → ℕ → Manager → Option (Manager × List Symbol)
  unfolding file_unsubscription
  register_unsubscription symbols req_id m = elim (cancel_symbols symbols m) [
    | none ↦ none
    | some (m', cancelled, filtered) ↦ some (file_unsubscription req_id m' filtered, cancelled)
  ]

  unfoldable pub process_subscribe_ack : ℕ → Symbol → Bool → Manager → Manager × Bool
  unfolding confirm_subscription reject_subscription
  process_subscribe_ack req_id symbol success m =
      let sid = intern symbol in
      if not (contains_symbol sid m.pending_subscriptions)
      then (m, false)
      else if success
      then (confirm_subscription req_id sid m, true)
      else (reject_subscription req_id sid m, true)

  unfoldable pub process_unsubscribe_ack : ℕ → Symbol → Bool → Manager → Manager × Bool
  unfolding confirm_unsubscription reject_unsubscription
  process_unsubscribe_ack req_id symbol success m =
      let sid = intern symbol in
      if not (contains_symbol sid m.pending_unsubscriptions)
      then (m, false)
      else if success
      then (confirm_unsubscription req_id sid m, true)
      else (reject_unsubscription req_id sid m, true)

  unfoldable pub try_process_rejection : ℕ → Symbol → Manager → Manager × Bool
  try_process_rejection req_id symbol m =
      let sid = intern symbol in
      let (subscriptions, removed) = remove req_id sid m.pending_subscriptions in
      let (unsubscriptions, removed') = remove req_id sid m.pending_unsubscriptions in
      if removed then (record m { pending_subscriptions = subscriptions }, true) else (
        record m {
          pending_subscriptions = subscriptions;
          pending_unsubscriptions = unsubscriptions;
        },
        removed',
      )

unfoldable pub has_pending_requests : Manager → Bool
has_pending_requests m =
    not (is_empty m.pending_subscriptions) || not (is_empty m.pending_unsubscriptions)

unfoldable pub pending_requests : Manager → ℕ
pending_requests m = request_count m.pending_subscriptions + request_count m.pending_unsubscriptions

unfoldable pub total_symbols : Manager → ℕ
total_symbols m = length m.active_symbols + symbol_count m.pending_subscriptions

unfoldable pub pending_symbols : Manager → ℕ
pending_symbols m = symbol_count m.pending_subscriptions + symbol_count m.pending_unsubscriptions

unfoldable pub clear_all : Manager → Manager
clear_all m = record {
  pending_subscriptions = clear m.pending_subscriptions;
  pending_unsubscriptions = clear m.pending_unsubscriptions;
  active_symbols = [];
}
