-- ===== src/Subscription/Manager/Register.antt =====
-- `register_subscription` starts the subscription of the idle symbols of a request.
use wirekrak.Common.{
  ℕ, ◌≡◌, refl, ◌&&◌, List, [], ◌∷◌, map, none, some, if◌then◌else◌, is_some, contains, arith,
  Bool-cases, inl, inr,
}
use wirekrak.Subscription.Pending.Invariant.{waits_for, IsConsistent, add-IsConsistent, add-owner}
use wirekrak.Subscription.Pending.Removal.{contains_symbol-owner}
use wirekrak.Subscription.Manager.{
  Manager, filter_symbol, filter_symbols, file_subscription, register_subscription,
}
use wirekrak.Subscription.Manager.Status.{subscribe, next, status_of, status, IsValid, is_idle}

-- Each symbol is kept exactly when it is idle, and the state does not change on the way: a symbol
-- that waits to be unsubscribed is still active, so its unsubscription is not cancelled.
filter_symbol-lem :
    (sid : ℕ) (m : Manager) → IsValid m → filter_symbol sid m ≡ some (m, is_idle (status sid m))
unfolding filter_symbol status status_of is_idle
filter_symbol-lem sid m v = ground (
  arith,
  v.covered sid,
  v.disjoint sid,
  contains_symbol-owner sid m.pending_subscriptions v.subscriptions,
  contains_symbol-owner sid m.pending_unsubscriptions v.unsubscriptions,
)

module _ {Symbol : Type 0} (intern : Symbol → ℕ) where
  -- The symbols of a request that are idle, in order.
  pub idle_symbols : Manager → List Symbol → List Symbol
  idle_symbols m [] = []
  idle_symbols m (symbol ∷ symbols) =
      let rest = idle_symbols m symbols in
      if is_idle (status (intern symbol) m) then symbol ∷ rest else rest

  contains-idle_symbols :
      (j : ℕ) (m : Manager) (symbols : List Symbol)
      → contains j (map intern (idle_symbols m symbols))
        ≡ (contains j (map intern symbols) && is_idle (status j m))
  unfolding contains idle_symbols
  contains-idle_symbols j m [] = refl
  contains-idle_symbols j m (symbol ∷ symbols) =
      elim (Bool-cases (is_idle (status (intern symbol) m))) [
        | inl e ↦ rw e (ground (arith, contains-idle_symbols j m symbols))
        | inr e ↦ rw e (ground (arith, contains-idle_symbols j m symbols))
      ]

  filter_symbols-lem :
      (symbols : List Symbol) (m : Manager)
      → IsValid m
      → filter_symbols intern symbols m
        ≡ some (m, idle_symbols m symbols, map intern (idle_symbols m symbols))
  unfolding filter_symbols idle_symbols
  filter_symbols-lem [] m v = refl
  filter_symbols-lem (symbol ∷ symbols) m v =
      rw (filter_symbol-lem (intern symbol) m v, filter_symbols, filter_symbols-lem symbols m v)
        (elim (Bool-cases (is_idle (status (intern symbol) m))) [ inl e ↦ rw e | inr e ↦ rw e ])

  file_subscription-lem :
      (req_id : ℕ) (m : Manager) (kept : List Symbol)
      → IsValid m
      → let m' = file_subscription req_id m kept (map intern kept) in
        IsConsistent m'.pending_subscriptions
        × (m'.pending_unsubscriptions ≡ m.pending_unsubscriptions)
        × (m'.active_symbols ≡ m.active_symbols)
        × ((j : ℕ)
            → waits_for j m'.pending_subscriptions ≡ (
                if is_some (waits_for j m.pending_subscriptions)
                then waits_for j m.pending_subscriptions
                else if contains j (map intern kept)
                then some req_id
                else none))
  unfolding file_subscription contains
  file_subscription-lem req_id m [] v = (v.subscriptions, refl, refl, λ j. ground arith)
  file_subscription-lem req_id m (symbol ∷ kept) v =
      let sids = map intern (symbol ∷ kept) in
      (
        add-IsConsistent req_id sids m.pending_subscriptions v.subscriptions,
        refl,
        refl,
        λ j. add-owner req_id sids m.pending_subscriptions j v.subscriptions,
      )

  module _ (symbols : List Symbol) (req_id : ℕ) (m : Manager) (v : IsValid m) where
    kept : List Symbol
    kept = idle_symbols m symbols

    subscribed_to : Manager
    subscribed_to = file_subscription req_id m kept (map intern kept)

    register_subscription-lem :
        register_subscription intern symbols req_id m ≡ some (subscribed_to, kept)
    unfolding register_subscription subscribed_to kept
    register_subscription-lem = rw (filter_symbols-lem symbols m v, register_subscription)

    subscribed_to-status :
        (j : ℕ)
        → status j subscribed_to ≡ (
            if contains j (map intern symbols)
            then next (subscribe req_id) (status j m)
            else status j m)
    unfolding subscribed_to kept status status_of next is_idle
    subscribed_to-status j =
        let filed = file_subscription-lem req_id m kept v in
        ground (
          arith,
          v.disjoint j,
          v.covered j,
          filed.1,
          filed.2,
          filed.3 j,
          contains-idle_symbols j m symbols,
        )

    subscribed_to-IsValid : IsValid subscribed_to
    unfolding subscribed_to kept is_idle status status_of
    subscribed_to-IsValid =
        let filed = file_subscription-lem req_id m kept v in
        record {
          subscriptions = filed.0;
          unsubscriptions = rw filed.1 v.unsubscriptions;
          once = λ j. rw filed.2 (v.once j);
          disjoint = λ j. ground (
            arith,
            v.disjoint j,
            v.covered j,
            filed.2,
            filed.3 j,
            contains-idle_symbols j m symbols,
          );
          covered = λ j. rw (filed.1, filed.2) (v.covered j);
        }

    -- On a valid state `register_subscription` reaches no unreachable line, keeps the invariant,
    -- and returns exactly the idle symbols of the request, in order (an idle symbol that the
    -- request repeats is returned as often). Those wait for this request from then on, and every
    -- other symbol keeps its status: one that waits to be unsubscribed goes on to wait.
    pub register_subscription-status :
        (m' : Manager) × (register_subscription intern symbols req_id m
          ≡ some (m', idle_symbols m symbols))
        × IsValid m'
        × ((j : ℕ)
            → status j m' ≡ (
                if contains j (map intern symbols)
                then next (subscribe req_id) (status j m)
                else status j m))
    unfolding kept
    register_subscription-status =
        (subscribed_to, register_subscription-lem, subscribed_to-IsValid, subscribed_to-status)
