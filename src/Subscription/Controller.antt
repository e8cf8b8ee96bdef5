-- ===== src/Subscription/Controller.antt =====
-- include/wirekrak/core/protocol/subscription/controller.hpp, `Controller`. The tuple of managers is
-- a list, and a subscription type is its position there; none also stands for a type that the
-- controller does not manage, which the class refuses to compile. The monotonic clock's reading is
-- the argument `now` of each operation that reads it, a `uint64_t`.
pub mod Laws
pub mod Total
pub mod Waiting
use wirekrak.Common.{
  ℕ, zero, suc, ◌+◌, ◌-◌, ◌%◌, ◌^◌, Bool, true, false, not, ◌&&◌, List, [], ◌∷◌, Option, none, some,
  ltb, if◌then◌else◌,
}
use wirekrak.Subscription.Manager.{
  Manager, register_subscription, register_unsubscription, process_subscribe_ack,
  process_unsubscribe_ack, try_process_rejection, clear_all, has_pending_requests, pending_requests,
  pending_symbols, total_symbols,
}

pub record Controller : Type 0 where
  pub managers : List Manager
  pub last_progress_ns : ℕ

-- The manager of a subscription type, changed by an operation that also returns a result.
unfoldable pub at_manager {ℓ} :
    {R : Type ℓ} → ℕ → (Manager → Option (Manager × R)) → List Manager → Option (List Manager × R)
at_manager i f [] = none
at_manager zero f (m ∷ ms) = elim (f m) [ none ↦ none | some (m', r) ↦ some (m' ∷ ms, r) ]
at_manager (suc i) f (m ∷ ms) = elim (at_manager i f ms) [
  | none ↦ none
  | some (ms', r) ↦ some (m ∷ ms', r)
]

unfoldable pub mark_progress : ℕ → Controller → Controller
mark_progress now c = record c { last_progress_ns = now }

module _ {Symbol : Type 0} (intern : Symbol → ℕ) where
  unfoldable pub register_subscription_for :
      ℕ → ℕ → List Symbol → ℕ → Controller → Option (Controller × List Symbol)
  unfolding mark_progress at_manager
  register_subscription_for now type symbols req_id c =
      let c' = mark_progress now c in
      elim (at_manager type (register_subscription intern symbols req_id) c'.managers) [
        | none ↦ none
        | some (ms, kept) ↦ some (record c' { managers = ms }, kept)
      ]

  unfoldable pub register_unsubscription_for :
      ℕ → ℕ → List Symbol → ℕ → Controller → Option (Controller × List Symbol)
  unfolding mark_progress at_manager
  register_unsubscription_for now type symbols req_id c =
      let c' = mark_progress now c in
      elim (at_manager type (register_unsubscription intern symbols req_id) c'.managers) [
        | none ↦ none
        | some (ms, cancelled) ↦ some (record c' { managers = ms }, cancelled)
      ]

  -- Progress is marked only when the manager takes the acknowledgement.
  unfoldable pub process_subscribe_ack_for :
      ℕ → ℕ → ℕ → Symbol → Bool → Controller → Option Controller
  unfolding mark_progress at_manager
  process_subscribe_ack_for now type req_id symbol success c =
      elim (at_manager type (λ m. some (process_subscribe_ack intern req_id symbol success m))
        c.managers) [
          | none ↦ none
          | some (ms, taken) ↦
              let c' = record c { managers = ms } in
              some (if taken then mark_progress now c' else c')
        ]

  unfoldable pub process_unsubscribe_ack_for :
      ℕ → ℕ → ℕ → Symbol → Bool → Controller → Option Controller
  unfolding mark_progress at_manager
  process_unsubscribe_ack_for now type req_id symbol success c =
      elim (at_manager type (λ m. some (process_unsubscribe_ack intern req_id symbol success m))
        c.managers) [
          | none ↦ none
          | some (ms, taken) ↦
              let c' = record c { managers = ms } in
              some (if taken then mark_progress now c' else c')
        ]

  -- `!done && (done = mgr.try_process_rejection(req_id, symbol))` for each manager in order.
  unfoldable pub reject_in : ℕ → Symbol → List Manager → List Manager × Bool
  reject_in req_id symbol [] = ([], false)
  reject_in req_id symbol (m ∷ ms) =
      let rest = reject_in req_id symbol ms in
      let (m', done) = try_process_rejection intern req_id symbol m in
      if done then (m' ∷ ms, true) else (m' ∷ rest.0, rest.1)

  unfoldable pub try_process_rejection_for : ℕ → ℕ → Symbol → Controller → Controller × Bool
  unfolding mark_progress reject_in
  try_process_rejection_for now req_id symbol c =
      let (ms, done) = reject_in req_id symbol c.managers in
      let c' = record c { managers = ms } in (if done then mark_progress now c' else c', done)

unfoldable pub clear_managers : List Manager → List Manager
clear_managers [] = []
clear_managers (m ∷ ms) = clear_all m ∷ clear_managers ms

unfoldable pub clear_all_for : ℕ → Controller → Controller
unfolding mark_progress clear_managers
clear_all_for now c = mark_progress now (record c { managers = clear_managers c.managers })

unfoldable pub none_pending : List Manager → Bool
none_pending [] = true
none_pending (m ∷ ms) = not (has_pending_requests m) && none_pending ms

unfoldable pub is_quiescent : Controller → Bool
unfolding none_pending
is_quiescent c = none_pending c.managers

-- The progress policy's `enabled` and `timeout_ns` are the first two arguments.
unfoldable pub is_idle : Bool → ℕ → ℕ → Controller → Bool
is_idle enabled timeout_ns now c =
    if is_quiescent c
    then true
    else if not enabled
    then false
    else ltb timeout_ns ((now + 2 ^ 64 - c.last_progress_ns) % 2 ^ 64)

unfoldable pub sum_over : (Manager → ℕ) → List Manager → ℕ
sum_over f [] = 0
sum_over f (m ∷ ms) = f m + sum_over f ms

unfoldable pub total_pending_requests : Controller → ℕ
unfolding sum_over
total_pending_requests c = sum_over pending_requests c.managers

unfoldable pub total_pending_symbols : Controller → ℕ
unfolding sum_over
total_pending_symbols c = sum_over pending_symbols c.managers

unfoldable pub total_owned_symbols : Controller → ℕ
unfolding sum_over
total_owned_symbols c = sum_over total_symbols c.managers
