-- ===== src/Subscription/Manager/Answers.antt =====
-- The answers of the exchange move one symbol as the specification says.
use wirekrak.Common.{
  is_owner, ℕ, ◌≡◌, sym, ◌∙◌, Bool, true, false, ◌||◌, ◌==◌, if◌then◌else◌, Bool-cases, inl, inr,
  arith,
}
use wirekrak.Subscription.Pending.{remove, contains_symbol}
use wirekrak.Subscription.Pending.Removal.{contains_symbol-owner, remove-owner}
use wirekrak.Subscription.Manager.{
  Manager, reject_subscription, reject_unsubscription, process_subscribe_ack,
  process_unsubscribe_ack, try_process_rejection,
}
use wirekrak.Subscription.Manager.Status.{
  Status, Event, subscribed, unsubscribed, rejected, next, status_of, status, IsValid,
  is_subscribing, is_unsubscribing, awaits,
}
use wirekrak.Subscription.Manager.Acks.{
  confirm_subscription-IsValid, confirm_subscription-status, reject_subscription-IsValid,
  reject_subscription-status, confirm_unsubscription-IsValid, confirm_unsubscription-status,
  reject_unsubscription-IsValid, reject_unsubscription-status,
}

-- The status of symbol `j` once the event has happened to `sid`.
abbrev pub moved : Event → ℕ → ℕ → Status → Status
moved e sid j s = if sid == j then next e s else s

-- The operation keeps the invariant, reports `taken`, and makes the event happen to the symbol and
-- nothing to any other.
abbrev pub Moves : Event → ℕ → Manager → Manager × Bool → Bool → Type 0
Moves e sid m out taken =
    IsValid out.0 × (out.1 ≡ taken) × ((j : ℕ) → status j out.0 ≡ moved e sid j (status j m))

module _ {Symbol : Type 0} (intern : Symbol → ℕ) (req_id : ℕ) (symbol : Symbol) (m : Manager)
    (v : IsValid m) where
  pending_subscription :
      contains_symbol (intern symbol) m.pending_subscriptions
      ≡ is_subscribing (status (intern symbol) m)
  unfolding status status_of is_subscribing
  pending_subscription =
      ground (arith, contains_symbol-owner (intern symbol) m.pending_subscriptions v.subscriptions)

  pending_unsubscription :
      contains_symbol (intern symbol) m.pending_unsubscriptions
      ≡ is_unsubscribing (status (intern symbol) m)
  unfolding status status_of is_unsubscribing
  pending_unsubscription = ground (
    arith,
    contains_symbol-owner (intern symbol) m.pending_unsubscriptions v.unsubscriptions,
    v.covered (intern symbol),
    v.disjoint (intern symbol),
  )

  -- An answer that is not taken leaves the state as it is.
  not_subscribing :
      (j : ℕ) (success : Bool)
      → contains_symbol (intern symbol) m.pending_subscriptions ≡ false
      → status j m ≡ moved (subscribed req_id success) (intern symbol) j (status j m)
  unfolding next is_subscribing
  not_subscribing j success e = ground (arith, pending_subscription)

  not_unsubscribing :
      (j : ℕ) (success : Bool)
      → contains_symbol (intern symbol) m.pending_unsubscriptions ≡ false
      → status j m ≡ moved (unsubscribed req_id success) (intern symbol) j (status j m)
  unfolding next is_unsubscribing
  not_unsubscribing j success e = ground (arith, pending_unsubscription)

  subscribe_acked :
      (success : Bool)
      → contains_symbol (intern symbol) m.pending_subscriptions ≡ true
      → Moves
          (subscribed req_id success)
          (intern symbol)
          m
          (process_subscribe_ack intern req_id symbol success m)
          (is_subscribing (status (intern symbol) m))
  unfolding process_subscribe_ack
  subscribe_acked true e = rw e (
    confirm_subscription-IsValid req_id (intern symbol) m v,
    sym e ∙ pending_subscription,
    confirm_subscription-status req_id (intern symbol) m v,
  )
  subscribe_acked false e = rw e (
    reject_subscription-IsValid req_id (intern symbol) m v,
    sym e ∙ pending_subscription,
    reject_subscription-status req_id (intern symbol) m v,
  )

  unsubscribe_acked :
      (success : Bool)
      → contains_symbol (intern symbol) m.pending_unsubscriptions ≡ true
      → Moves
          (unsubscribed req_id success)
          (intern symbol)
          m
          (process_unsubscribe_ack intern req_id symbol success m)
          (is_unsubscribing (status (intern symbol) m))
  unfolding process_unsubscribe_ack
  unsubscribe_acked true e = rw e (
    confirm_unsubscription-IsValid req_id (intern symbol) m v,
    sym e ∙ pending_unsubscription,
    confirm_unsubscription-status req_id (intern symbol) m v,
  )
  unsubscribe_acked false e = rw e (
    reject_unsubscription-IsValid req_id (intern symbol) m v,
    sym e ∙ pending_unsubscription,
    reject_unsubscription-status req_id (intern symbol) m v,
  )

  -- A subscription's acknowledgement keeps the invariant, is taken exactly for a symbol that waits
  -- to be subscribed, and moves that symbol, if it waits for this request, to active on success
  -- and to idle on failure; every other symbol keeps its status.
  pub process_subscribe_ack-status :
      (success : Bool)
      → Moves
          (subscribed req_id success)
          (intern symbol)
          m
          (process_subscribe_ack intern req_id symbol success m)
          (is_subscribing (status (intern symbol) m))
  unfolding process_subscribe_ack
  process_subscribe_ack-status success =
      elim (Bool-cases (contains_symbol (intern symbol) m.pending_subscriptions)) [
        | inl e ↦ subscribe_acked success e
        | inr e ↦
            rw (process_subscribe_ack, e)
              (v, sym e ∙ pending_subscription, λ j. not_subscribing j success e)
      ]

  -- An unsubscription's acknowledgement keeps the invariant, is taken exactly for a symbol that
  -- waits to be unsubscribed, and moves that symbol, if it waits for this request, to idle on
  -- success and back to active on failure; every other symbol keeps its status.
  pub process_unsubscribe_ack-status :
      (success : Bool)
      → Moves
          (unsubscribed req_id success)
          (intern symbol)
          m
          (process_unsubscribe_ack intern req_id symbol success m)
          (is_unsubscribing (status (intern symbol) m))
  unfolding process_unsubscribe_ack
  process_unsubscribe_ack-status success =
      elim (Bool-cases (contains_symbol (intern symbol) m.pending_unsubscriptions)) [
        | inl e ↦ unsubscribe_acked success e
        | inr e ↦
            rw (process_unsubscribe_ack, e)
              (v, sym e ∙ pending_unsubscription, λ j. not_unsubscribing j success e)
      ]

  rejected_cases :
      (j : ℕ)
      → let b = (remove req_id (intern symbol) m.pending_subscriptions).1 in
        let m' = reject_subscription req_id (intern symbol) m in
        let m'' = reject_unsubscription req_id (intern symbol) m' in
        ((b || (remove req_id (intern symbol) m.pending_unsubscriptions).1)
          ≡ awaits req_id (status (intern symbol) m))
        × (moved (rejected req_id) (intern symbol) j (status j m)
            ≡ (if b then status j m' else status j m''))
  unfolding next awaits status status_of is_owner reject_subscription reject_unsubscription
  rejected_cases j = ground (
    arith,
    v.disjoint j,
    v.covered j,
    v.disjoint (intern symbol),
    v.covered (intern symbol),
    remove-owner req_id (intern symbol) m.pending_subscriptions v.subscriptions j,
    remove-owner req_id (intern symbol) m.pending_unsubscriptions v.unsubscriptions j,
  )

  -- A rejection keeps the invariant, is taken exactly when the symbol waits for this request, and
  -- then gives up the request: a symbol to be subscribed becomes idle, one to be unsubscribed stays
  -- active; every other symbol keeps its status.
  pub try_process_rejection-status :
      Moves
        (rejected req_id)
        (intern symbol)
        m
        (try_process_rejection intern req_id symbol m)
        (awaits req_id (status (intern symbol) m))
  unfolding try_process_rejection reject_subscription reject_unsubscription
  try_process_rejection-status =
      let sid = intern symbol in
      let w = reject_subscription-IsValid req_id sid m v in
      elim (Bool-cases (remove req_id sid m.pending_subscriptions).1) [
        | inl e ↦
            rw (try_process_rejection, e)
              (
                w,
                ground (arith, e, (rejected_cases 0).0),
                λ j. ground (arith, e, (rejected_cases j).1),
              )
        | inr e ↦
            rw (try_process_rejection, e)
              (
                reject_unsubscription-IsValid req_id sid (reject_subscription req_id sid m) w,
                ground (arith, e, (rejected_cases 0).0),
                λ j. ground (arith, e, (rejected_cases j).1),
              )
      ]
