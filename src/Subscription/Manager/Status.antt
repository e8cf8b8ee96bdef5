-- ===== src/Subscription/Manager/Status.antt =====
-- The specification of `Manager`: each symbol has one status, which events move by `next`.
use wirekrak.Common.{
  ℕ, ◌≤◌, ◌≡◌, Bool, true, false, Option, none, some, ◌==◌, if◌then◌else◌, is_some, contains, count,
}
use wirekrak.Subscription.Pending.Invariant.{waits_for, IsConsistent}
use wirekrak.Subscription.Manager.{Manager}

pub data Status : Type 0 where
  idle active : Status
  subscribing unsubscribing : ℕ → Status

-- What happens to a symbol, with the request that it happens for.
pub data Event : Type 0 where
  subscribe unsubscribe : ℕ → Event
  subscribed unsubscribed : ℕ → Bool → Event
  rejected : ℕ → Event

-- An acknowledgement or a rejection moves a symbol only if it waits for that request.
unfoldable pub next : Event → Status → Status
next (subscribe r) idle = subscribing r
next (unsubscribe r) active = unsubscribing r
next (unsubscribe r) (subscribing q) = idle
next (subscribed r success) (subscribing q) =
    if q == r then (if success then active else idle) else subscribing q
next (unsubscribed r success) (unsubscribing q) =
    if q == r then (if success then idle else active) else unsubscribing q
next (rejected r) (subscribing q) = if q == r then idle else subscribing q
next (rejected r) (unsubscribing q) = if q == r then active else unsubscribing q
next _ s = s

-- The status by the request that the symbol waits for in each index, and by its activity.
unfoldable pub status_of : Option ℕ → Option ℕ → Bool → Status
status_of (some r) u a = subscribing r
status_of none (some r) a = unsubscribing r
status_of none none true = active
status_of none none false = idle

unfoldable pub status : ℕ → Manager → Status
unfolding status_of
status sid m =
    status_of (waits_for sid m.pending_subscriptions) (waits_for sid m.pending_unsubscriptions)
      (contains sid m.active_symbols)

unfoldable pub is_idle : Status → Bool
is_idle idle = true
is_idle _ = false

unfoldable pub is_active : Status → Bool
is_active active = true
is_active _ = false

unfoldable pub is_subscribing : Status → Bool
is_subscribing (subscribing r) = true
is_subscribing _ = false

unfoldable pub is_unsubscribing : Status → Bool
is_unsubscribing (unsubscribing r) = true
is_unsubscribing _ = false

-- Whether the symbol waits for this request.
unfoldable pub awaits : ℕ → Status → Bool
awaits r (subscribing q) = q == r
awaits r (unsubscribing q) = q == r
awaits r _ = false

-- A symbol that waits to be subscribed is not active, and one that waits to be unsubscribed still
-- is.
pub record IsValid (m : Manager) : Type 0 where
  pub subscriptions : IsConsistent m.pending_subscriptions
  pub unsubscriptions : IsConsistent m.pending_unsubscriptions
  pub once : (sid : ℕ) → count sid m.active_symbols ≤ 1
  pub disjoint :
      (sid : ℕ)
      → is_some (waits_for sid m.pending_subscriptions) ≡ true
      → contains sid m.active_symbols ≡ false
  pub covered :
      (sid : ℕ)
      → is_some (waits_for sid m.pending_unsubscriptions) ≡ true
      → contains sid m.active_symbols ≡ true
