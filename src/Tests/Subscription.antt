-- ===== src/Tests/Subscription.antt =====
-- The subscription state machine at concrete inputs. Symbols are their own identifiers.
use wirekrak.Common.{
  is_owner, ℕ, ◌≡◌, refl, Bool, true, false, ◌&&◌, ◌⊎◌, List, [], ◌∷◌, map, Option, none, some, All,
  contains, count, arith, ◌==◌, if◌then◌else◌, is_some,
}
use wirekrak.Subscription.Pending.{
  PendingRequests, add, remove, remove_any, is_empty, symbol_count, request_count,
}
use wirekrak.Subscription.Pending.Requests.{owner, occurrences, stored, has_request}
use wirekrak.Subscription.Pending.Invariant.{waits_for, IsConsistent}
use wirekrak.Subscription.Manager.{
  Manager, initial, register_subscription, register_unsubscription, process_subscribe_ack,
  try_process_rejection, has_pending_requests, filter_symbols, filter_symbol,
}
use wirekrak.Subscription.Manager.Status.{
  idle, active, subscribing, unsubscribing, subscribed, rejected, subscribe, unsubscribe, next,
  status, IsValid, is_subscribing, is_unsubscribing, awaits,
}
use wirekrak.Subscription.Manager.Register.{idle_symbols, register_subscription-status}
use wirekrak.Subscription.Manager.Cancel.{register_unsubscription-status}
use wirekrak.Subscription.Manager.Answers.{
  Moves, process_subscribe_ack-status, try_process_rejection-status,
}
use wirekrak.Subscription.Manager.Quiet.{is_waiting, assert_consistency, assert_consistency-false}
use wirekrak.Subscription.Manager.History.{
  Call, register, unregister, subscribe_ack, rejection, run, trace, run-trace, initial-IsValid,
}
use wirekrak.Subscription.Controller.{Controller, is_quiescent, try_process_rejection_for}
use wirekrak.Subscription.Controller.Laws.{IsWellFormed, is_quiescent-true}

-- Request 10 waits for symbols 1 and 2.
abbrev two_pending : PendingRequests
two_pending = record { requests = (10, 1 ∷ 2 ∷ []) ∷ []; pending_symbols = 2 ∷ 1 ∷ [] }

-- Request 11 waits for symbol 3.
abbrev one_pending : PendingRequests
one_pending = record { requests = (11, 3 ∷ []) ∷ []; pending_symbols = 3 ∷ [] }

-- Symbols 1 and 2 are to be subscribed, 3 is to be unsubscribed, and 4 is active.
abbrev busy : Manager
busy = record {
  pending_subscriptions = two_pending;
  pending_unsubscriptions = one_pending;
  active_symbols = 3 ∷ 4 ∷ [];
}

abbrev same : ℕ → ℕ
same s = s

two_pending-IsConsistent : IsConsistent two_pending
unfolding occurrences stored count has_request
two_pending-IsConsistent = record {
  unique = ground arith;
  filled = tt;
  tracked = λ sid. ground arith;
  once = λ sid. ground arith;
  sized = refl;
}

one_pending-IsConsistent : IsConsistent one_pending
unfolding occurrences stored count has_request
one_pending-IsConsistent = record {
  unique = ground arith;
  filled = tt;
  tracked = λ sid. ground arith;
  once = λ sid. ground arith;
  sized = refl;
}

busy-IsValid : IsValid busy
unfolding count contains waits_for owner
busy-IsValid = record {
  subscriptions = two_pending-IsConsistent;
  unsubscriptions = one_pending-IsConsistent;
  once = λ sid. ground arith;
  disjoint = λ sid. ground arith;
  covered = λ sid. ground arith;
}

statuses :
    (status 1 busy ≡ subscribing 10)
    × (status 3 busy ≡ unsubscribing 11)
    × (status 4 busy ≡ active)
    × (status 5 busy ≡ idle)
unfolding status waits_for owner contains
statuses = (refl, refl, refl, refl)

-- Symbol 3 waits to be unsubscribed, and a new subscription of it is dropped.
register_subscription-busy :
    register_subscription same (3 ∷ 5 ∷ 1 ∷ 5 ∷ []) 12 busy
    ≡ some (
      record busy {
        pending_subscriptions = record {
          requests = (10, 1 ∷ 2 ∷ []) ∷ (12, 5 ∷ []) ∷ [];
          pending_symbols = 5 ∷ 2 ∷ 1 ∷ [];
        };
      },
      5 ∷ 5 ∷ [],
    )
unfolding register_subscription filter_symbols filter_symbol contains
    wirekrak.Subscription.Pending.contains_symbol add wirekrak.Subscription.Pending.add_symbols
    wirekrak.Subscription.Pending.add_symbol wirekrak.Subscription.Pending.ensure_request
    wirekrak.Subscription.Pending.push_symbol wirekrak.Subscription.Pending.drop_if_empty
    wirekrak.Common.insert
register_subscription-busy = refl

register_subscription-status_example :
    (m' : Manager) × (register_subscription same (3 ∷ 5 ∷ 1 ∷ []) 12 busy
      ≡ some (m', idle_symbols same busy (3 ∷ 5 ∷ 1 ∷ [])))
    × IsValid m'
    × ((j : ℕ)
        → status j m' ≡ (
            if contains j (map same (3 ∷ 5 ∷ 1 ∷ []))
            then next (subscribe 12) (status j busy)
            else status j busy))
register_subscription-status_example =
    register_subscription-status same (3 ∷ 5 ∷ 1 ∷ []) 12 busy busy-IsValid

register_unsubscription-status_example :
    (m' : Manager) × (cancelled : List ℕ) × (register_unsubscription same (1 ∷ 4 ∷ 6 ∷ []) 13 busy
      ≡ some (m', cancelled))
    × IsValid m'
    × ((j : ℕ)
        → (status j m' ≡ (
            if contains j (map same (1 ∷ 4 ∷ 6 ∷ []))
            then next (unsubscribe 13) (status j busy)
            else status j busy))
          × (contains j (map same cancelled)
              ≡ (contains j (map same (1 ∷ 4 ∷ 6 ∷ [])) && is_subscribing (status j busy))))
register_unsubscription-status_example =
    register_unsubscription-status same (1 ∷ 4 ∷ 6 ∷ []) 13 busy busy-IsValid

process_subscribe_ack-status_example :
    Moves
      (subscribed 10 true)
      2
      busy
      (process_subscribe_ack same 10 2 true busy)
      (is_subscribing (status 2 busy))
process_subscribe_ack-status_example = process_subscribe_ack-status same 10 2 busy busy-IsValid true

try_process_rejection-status_example :
    Moves (rejected 11) 3 busy (try_process_rejection same 11 3 busy) (awaits 11 (status 3 busy))
try_process_rejection-status_example = try_process_rejection-status same 11 3 busy busy-IsValid

assert_consistency-false_example : assert_consistency busy ≡ false
unfolding status waits_for owner is_unsubscribing contains
assert_consistency-false_example = assert_consistency-false busy busy-IsValid 3 refl

abbrev calls : List (Call ℕ)
calls =
    register (6 ∷ 7 ∷ []) 20
    ∷ subscribe_ack 20 6 true
    ∷ unregister (6 ∷ []) 21
    ∷ rejection 20 7
    ∷ []

run-trace_example :
    (m' : Manager) × (run same calls busy ≡ some m')
    × IsValid m'
    × ((j : ℕ) → status j m' ≡ trace same calls j (status j busy))
run-trace_example = run-trace same calls busy busy-IsValid

abbrev two_types : Controller
two_types = record { managers = initial ∷ busy ∷ []; last_progress_ns = 5 }

two_types-IsWellFormed : IsWellFormed two_types
two_types-IsWellFormed = (initial-IsValid, (busy-IsValid, tt))

abbrev resting : Controller
resting = record { managers = initial ∷ initial ∷ []; last_progress_ns = 5 }

is_quiescent-true_example :
    All (λ m. (sid : ℕ) → is_waiting (status sid m) ≡ false) (initial ∷ initial ∷ [])
unfolding is_quiescent wirekrak.Subscription.Controller.none_pending has_pending_requests is_empty
    initial wirekrak.Subscription.Pending.empty_requests
is_quiescent-true_example = is_quiescent-true resting (initial-IsValid, (initial-IsValid, tt)) refl
