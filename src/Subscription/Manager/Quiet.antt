-- ===== src/Subscription/Manager/Quiet.antt =====
-- Quiescence and the debug check of `Manager`, in terms of the symbols' statuses.
use wirekrak.Common.{
  ℕ, ◌≡◌, refl, Bool, true, false, not, ◌&&◌, ◌||◌, List, [], ◌∷◌, none, ◌==◌, is_some, contains,
  length, arith, Bool-cases, inl, inr,
}
use wirekrak.Subscription.Pending.{PendingRequests, is_empty, contains_symbol}
use wirekrak.Subscription.Pending.Requests.{owner, Filled, stored}
use wirekrak.Subscription.Pending.Invariant.{waits_for, IsConsistent}
use wirekrak.Subscription.Pending.Removal.{contains_symbol-owner}
use wirekrak.Subscription.Manager.{Manager, has_pending_requests}
use wirekrak.Subscription.Manager.Status.{
  Status, status_of, status, IsValid, is_unsubscribing, is_subscribing,
}

-- A request that is pending has a symbol that waits for it.
waiting_symbol :
    (p : PendingRequests)
    → IsConsistent p
    → is_empty p ≡ false
    → (sid : ℕ) × (is_some (waits_for sid p) ≡ true)
unfolding waits_for is_empty
waiting_symbol p v e = head p.requests v.filled e
  where
    head :
        (m : List (ℕ × List ℕ))
        → Filled m
        → (elim m [ [] ↦ true | x ∷ r ↦ false ]) ≡ false
        → (sid : ℕ) × (is_some (owner sid m) ≡ true)
    head [] f e = cc
    head ((k, []) ∷ m) f e = absurd f
    head ((k, s ∷ r) ∷ m) f e = (s, unfold owner contains in ground arith)

none_waiting : (sid : ℕ) (p : PendingRequests) → is_empty p ≡ true → waits_for sid p ≡ none
unfolding waits_for is_empty owner
none_waiting sid p e = ground arith

-- A symbol that waits for an answer of the exchange.
unfoldable pub is_waiting : Status → Bool
unfolding is_subscribing is_unsubscribing
is_waiting s = is_subscribing s || is_unsubscribing s

module _ (m : Manager) (v : IsValid m) where
  -- With no pending request no symbol waits for an answer.
  pub has_pending_requests-false :
      has_pending_requests m ≡ false → (sid : ℕ) → is_waiting (status sid m) ≡ false
  unfolding has_pending_requests is_waiting status status_of
  has_pending_requests-false e sid =
      ground (
        arith,
        none_waiting sid m.pending_subscriptions,
        none_waiting sid m.pending_unsubscriptions,
      )

  -- A pending request has a symbol that waits for an answer.
  pub has_pending_requests-true :
      has_pending_requests m ≡ true → (sid : ℕ) × (is_waiting (status sid m) ≡ true)
  unfolding has_pending_requests is_waiting status status_of
  has_pending_requests-true e = elim (Bool-cases (is_empty m.pending_subscriptions)) [
    | inr some_left ↦
        let (sid, w) = waiting_symbol m.pending_subscriptions v.subscriptions some_left in
        (sid, ground (arith, w))
    | inl none_left ↦
        let (sid, w) = waiting_symbol m.pending_unsubscriptions v.unsubscriptions (ground arith) in
        (sid, ground (arith, w))
  ]

-- `PendingRequests::assert_consistency`: false where the assertion fails.
unfoldable pub sizes_match : PendingRequests → Bool
sizes_match p = stored p.requests == length p.pending_symbols

-- The loop of `Manager::assert_consistency` over the active symbols.
unfoldable pub active_apart : List ℕ → Manager → Bool
active_apart [] m = true
active_apart (sid ∷ sids) m =
    not (contains_symbol sid m.pending_subscriptions)
    && not (contains_symbol sid m.pending_unsubscriptions)
    && active_apart sids m

-- `Manager::assert_consistency`.
unfoldable pub assert_consistency : Manager → Bool
unfolding sizes_match active_apart
assert_consistency m =
    active_apart m.active_symbols m
    && sizes_match m.pending_subscriptions
    && sizes_match m.pending_unsubscriptions

active_apart_sound :
    (sids : List ℕ) (m : Manager) (sid : ℕ)
    → contains sid sids ≡ true
    → active_apart sids m ≡ true
    → contains_symbol sid m.pending_unsubscriptions ≡ false
unfolding active_apart contains
active_apart_sound [] m sid c a = cc
active_apart_sound (x ∷ sids) m sid c a = ground (arith, active_apart_sound sids m sid)

active_apart_complete :
    (sids : List ℕ) (m : Manager)
    → IsValid m
    → is_empty m.pending_unsubscriptions ≡ true
    → ((sid : ℕ) → contains sid sids ≡ true → contains sid m.active_symbols ≡ true)
    → active_apart sids m ≡ true
unfolding active_apart contains
active_apart_complete [] m v e h = refl
active_apart_complete (x ∷ sids) m v e h = ground (
  arith,
  h x,
  v.disjoint x,
  none_waiting x m.pending_unsubscriptions,
  contains_symbol-owner x m.pending_subscriptions v.subscriptions,
  contains_symbol-owner x m.pending_unsubscriptions v.unsubscriptions,
  active_apart_complete sids m v e (λ sid c. h sid (ground arith)),
)

module _ (m : Manager) (v : IsValid m) where
  -- The debug check fails on every valid state in which a symbol waits to be unsubscribed, since
  -- such a symbol is still active.
  pub assert_consistency-false :
      (sid : ℕ) → is_unsubscribing (status sid m) ≡ true → assert_consistency m ≡ false
  unfolding assert_consistency status status_of is_unsubscribing
  assert_consistency-false sid e = ground (
    arith,
    v.covered sid,
    active_apart_sound m.active_symbols m sid,
    contains_symbol-owner sid m.pending_unsubscriptions v.unsubscriptions,
  )

  -- With no pending unsubscription the debug check passes.
  pub assert_consistency-true :
      is_empty m.pending_unsubscriptions ≡ true → assert_consistency m ≡ true
  unfolding assert_consistency sizes_match
  assert_consistency-true e = ground (
    arith,
    v.subscriptions.sized,
    v.unsubscriptions.sized,
    active_apart_complete m.active_symbols m v e (λ sid c. c),
  )
