-- ===== src/Subscription/Manager/History.antt =====
-- Whole histories of a `Manager`: the state machine of the symbols is what a caller can observe.
use mathlib.Core.Option
use wirekrak.Common.{
  ℕ, ◌≡◌, refl, ap, ◌∙◌, Bool, List, [], ◌∷◌, map, Option, none, some, if◌then◌else◌, contains,
  count, arith,
}
use wirekrak.Subscription.Pending.{clear, empty_requests}
use wirekrak.Subscription.Pending.Requests.{owner}
use wirekrak.Subscription.Pending.Invariant.{waits_for, empty-IsConsistent}
use wirekrak.Subscription.Manager.{
  Manager, initial, register_subscription, register_unsubscription, process_subscribe_ack,
  process_unsubscribe_ack, try_process_rejection, clear_all,
}
use wirekrak.Subscription.Manager.Status.{
  Status, idle, subscribe, unsubscribe, subscribed, unsubscribed, rejected, next, status_of, status,
  IsValid,
}
use wirekrak.Subscription.Manager.Register.{register_subscription-status}
use wirekrak.Subscription.Manager.Cancel.{register_unsubscription-status}
use wirekrak.Subscription.Manager.Answers.{
  moved, process_subscribe_ack-status, process_unsubscribe_ack-status, try_process_rejection-status,
}

-- A call of a public operation that changes the state.
pub data Call (Symbol : Type 0) : Type 0 where
  register unregister : List Symbol → ℕ → Call Symbol
  subscribe_ack unsubscribe_ack : ℕ → Symbol → Bool → Call Symbol
  rejection : ℕ → Symbol → Call Symbol
  reset : Call Symbol

pub initial-IsValid : IsValid initial
unfolding initial waits_for empty_requests owner contains count
initial-IsValid = record {
  subscriptions = empty-IsConsistent;
  unsubscriptions = empty-IsConsistent;
  once = λ j. ground arith;
  disjoint = λ j e. refl;
  covered = λ j e. cc;
}

cleared : (m : Manager) → clear_all m ≡ initial
unfolding clear_all clear initial empty_requests
cleared m = refl

module _ {Symbol : Type 0} (intern : Symbol → ℕ) where
  -- The state after a call; none where the call reaches an unreachable line.
  pub perform : Call Symbol → Manager → Option Manager
  perform (register symbols r) m = Option.map (λ o. o.0) (register_subscription intern symbols r m)
  perform (unregister symbols r) m =
      Option.map (λ o. o.0) (register_unsubscription intern symbols r m)
  perform (subscribe_ack r symbol b) m = some (process_subscribe_ack intern r symbol b m).0
  perform (unsubscribe_ack r symbol b) m = some (process_unsubscribe_ack intern r symbol b m).0
  perform (rejection r symbol) m = some (try_process_rejection intern r symbol m).0
  perform reset m = some (clear_all m)

  pub run : List (Call Symbol) → Manager → Option Manager
  run [] m = some m
  run (call ∷ calls) m = elim (perform call m) [ none ↦ none | some m' ↦ run calls m' ]

  -- What a call does to the symbol with identifier `j`, by the specification.
  pub react : Call Symbol → ℕ → Status → Status
  react (register symbols r) j s =
      if contains j (map intern symbols) then next (subscribe r) s else s
  react (unregister symbols r) j s =
      if contains j (map intern symbols) then next (unsubscribe r) s else s
  react (subscribe_ack r symbol b) j s = moved (subscribed r b) (intern symbol) j s
  react (unsubscribe_ack r symbol b) j s = moved (unsubscribed r b) (intern symbol) j s
  react (rejection r symbol) j s = moved (rejected r) (intern symbol) j s
  react reset j s = idle

  pub trace : List (Call Symbol) → ℕ → Status → Status
  trace [] j s = s
  trace (call ∷ calls) j s = trace calls j (react call j s)

  perform-lem :
      (call : Call Symbol) (m : Manager)
      → IsValid m
      → (m' : Manager) × (perform call m ≡ some m')
        × IsValid m'
        × ((j : ℕ) → status j m' ≡ react call j (status j m))
  unfolding perform react
  perform-lem (register symbols r) m v =
      let (m', e, v', s) = register_subscription-status intern symbols r m v in (m', rw e, v', s)
  perform-lem (unregister symbols r) m v =
      let (m', cancelled, e, v', s) = register_unsubscription-status intern symbols r m v in
      (m', rw e, v', λ j. (s j).0)
  perform-lem (subscribe_ack r symbol b) m v =
      let (v', taken, s) = process_subscribe_ack-status intern r symbol m v b in
      ((process_subscribe_ack intern r symbol b m).0, refl, v', s)
  perform-lem (unsubscribe_ack r symbol b) m v =
      let (v', taken, s) = process_unsubscribe_ack-status intern r symbol m v b in
      ((process_unsubscribe_ack intern r symbol b m).0, refl, v', s)
  perform-lem (rejection r symbol) m v =
      let (v', taken, s) = try_process_rejection-status intern r symbol m v in
      ((try_process_rejection intern r symbol m).0, refl, v', s)
  perform-lem reset m v = (
    initial,
    rw (cleared m),
    initial-IsValid,
    λ j. unfold status status_of initial waits_for empty_requests owner contains in refl,
  )

  -- The manager refines the specification: from a valid state, such as the initial one, every
  -- history of calls runs to its end without reaching an unreachable line, keeps the invariant,
  -- and leaves each symbol with the status to which the specification takes it alone.
  pub run-trace :
      (calls : List (Call Symbol)) (m : Manager)
      → IsValid m
      → (m' : Manager) × (run calls m ≡ some m')
        × IsValid m'
        × ((j : ℕ) → status j m' ≡ trace calls j (status j m))
  unfolding run trace
  run-trace [] m v = (m, refl, v, λ j. refl)
  run-trace (call ∷ calls) m v =
      let (m1, e1, v1, s1) = perform-lem call m v in
      let (m2, e2, v2, s2) = run-trace calls m1 v1 in
      (m2, rw (e1, run, e2), v2, λ j. s2 j ∙ ap (trace calls j) (s1 j))
