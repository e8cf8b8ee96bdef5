-- ===== src/Subscription/Manager/Cancel.antt =====
-- `register_unsubscription` cancels pending subscriptions and starts unsubscriptions.
use wirekrak.Common.{
  ℕ, ◌≡◌, refl, ◌∙◌, Bool, true, false, ◌&&◌, ◌||◌, List, [], ◌∷◌, map, none, some, ◌==◌,
  if◌then◌else◌, is_some, contains, arith, Option-cases, inl, inr,
}
use wirekrak.Subscription.Pending.{PendingRequests}
use wirekrak.Subscription.Pending.Invariant.{waits_for, IsConsistent, add-IsConsistent, add-owner}
use wirekrak.Subscription.Pending.Removal.{contains_symbol-owner, remove_any-owner}
use wirekrak.Subscription.Manager.{
  Manager, cancel_symbol, cancel_symbols, file_unsubscription, register_unsubscription,
}
use wirekrak.Subscription.Manager.Status.{
  Status, idle, subscribing, unsubscribing, unsubscribe, next, status_of, status, IsValid,
  is_active, is_subscribing,
}

-- A pending subscription is given up.
abbrev given_up : Status → Status
given_up (subscribing r) = idle
given_up s = s

-- What one symbol does to the state.
abbrev Cancels : ℕ → Manager → Manager → Type 0
Cancels sid m m' =
    IsValid m' × ((j : ℕ) → status j m' ≡ (if sid == j then given_up (status j m) else status j m))

module _ (sid : ℕ) (m : Manager) (v : IsValid m) where
  without_subscription :
      (q : PendingRequests)
      → IsConsistent q
      → ((j : ℕ) → waits_for j q ≡ (if sid == j then none else waits_for j m.pending_subscriptions))
      → Cancels sid m (record m { pending_subscriptions = q })
  unfolding status status_of
  without_subscription q c w = (
    record {
      subscriptions = c;
      unsubscriptions = v.unsubscriptions;
      once = v.once;
      disjoint = λ j. ground (arith, v.disjoint j, w j);
      covered = v.covered;
    },
    λ j. ground (arith, w j, v.disjoint j, v.covered j),
  )

  cancel_symbol-lem :
      (m' : Manager) × (cancel_symbol sid m
        ≡ some (m', is_subscribing (status sid m), is_active (status sid m)))
      × Cancels sid m m'
  unfolding cancel_symbol status status_of is_subscribing is_active
  cancel_symbol-lem =
      let pending = contains_symbol-owner sid m.pending_subscriptions v.subscriptions in
      let leaving = contains_symbol-owner sid m.pending_unsubscriptions v.unsubscriptions in
      elim (Option-cases (waits_for sid m.pending_subscriptions)) [
        | inl e ↦
            (m, ground (arith, e, pending, leaving, v.covered sid), (v, λ j. ground (arith, e)))
        | inr (k, e) ↦
            let (q, removed, c, w) = remove_any-owner sid m.pending_subscriptions v.subscriptions in
            (
              record m { pending_subscriptions = q },
              ground (arith, e, pending, removed),
              without_subscription q c w,
            )
      ]

contains_cond :
    (b : Bool) (j sid : ℕ) (sids : List ℕ)
    → contains j (if b then sid ∷ sids else sids) ≡ (b && sid == j || contains j sids)
unfolding contains
contains_cond true j sid sids = refl
contains_cond false j sid sids = refl

module _ {Symbol : Type 0} (intern : Symbol → ℕ) where
  -- What the loop does: a symbol of the request is cancelled if it waits to be subscribed, and
  -- filtered if it is active.
  Loops : List Symbol → Manager → Manager → List Symbol → List ℕ → Type 0
  Loops symbols m m' cancelled filtered =
      IsValid m'
      × ((j : ℕ)
          → (status j m'
              ≡ (if contains j (map intern symbols) then given_up (status j m) else status j m))
            × (contains j (map intern cancelled)
                ≡ (contains j (map intern symbols) && is_subscribing (status j m)))
            × (contains j filtered ≡ (contains j (map intern symbols) && is_active (status j m))))

  contains-cond :
      (b : Bool) (j : ℕ) (symbol : Symbol) (symbols : List Symbol)
      → contains j (map intern (if b then symbol ∷ symbols else symbols))
        ≡ (b && intern symbol == j || contains j (map intern symbols))
  unfolding contains
  contains-cond true j symbol symbols = refl
  contains-cond false j symbol symbols = refl

  Loops-cons :
      (symbol : Symbol) (symbols cancelled : List Symbol) (filtered : List ℕ) (m m1 m2 : Manager)
      → ((j : ℕ) → status j m1 ≡ (if intern symbol == j then given_up (status j m) else status j m))
      → Loops symbols m1 m2 cancelled filtered
      → Loops
          (symbol ∷ symbols)
          m
          m2
          (if is_subscribing (status (intern symbol) m) then symbol ∷ cancelled else cancelled)
          (if is_active (status (intern symbol) m) then intern symbol ∷ filtered else filtered)
  unfolding Loops contains is_subscribing is_active
  Loops-cons symbol symbols cancelled filtered m m1 m2 step loops = (
    loops.0,
    λ j. ground (
      arith,
      step j,
      step (intern symbol),
      loops.1 j,
      contains-cond (is_subscribing (status (intern symbol) m)) j symbol cancelled,
      contains_cond (is_active (status (intern symbol) m)) j (intern symbol) filtered,
    ),
  )

  cancel_symbols-lem :
      (symbols : List Symbol) (m : Manager)
      → IsValid m
      → (m' : Manager) × (cancelled : List Symbol) × (filtered : List ℕ) × (cancel_symbols intern
            symbols m
          ≡ some (m', cancelled, filtered))
        × Loops symbols m m' cancelled filtered
  unfolding cancel_symbols Loops contains
  cancel_symbols-lem [] m v = (m, [], [], refl, (v, λ j. (refl, refl, refl)))
  cancel_symbols-lem (symbol ∷ symbols) m v =
      let (m1, step, (v1, s1)) = cancel_symbol-lem (intern symbol) m v in
      let (m2, cancelled, filtered, loop, loops) = cancel_symbols-lem symbols m1 v1 in
      let s = status (intern symbol) m in
      (
        m2,
        (if is_subscribing s then symbol ∷ cancelled else cancelled),
        (if is_active s then intern symbol ∷ filtered else filtered),
        rw (step, cancel_symbols, loop),
        Loops-cons symbol symbols cancelled filtered m m1 m2 s1 loops,
      )

  file_unsubscription-lem :
      (req_id : ℕ) (m : Manager) (filtered : List ℕ)
      → IsValid m
      → let m' = file_unsubscription req_id m filtered in
        IsConsistent m'.pending_unsubscriptions
        × (m'.pending_subscriptions ≡ m.pending_subscriptions)
        × (m'.active_symbols ≡ m.active_symbols)
        × ((j : ℕ)
            → waits_for j m'.pending_unsubscriptions ≡ (
                if is_some (waits_for j m.pending_unsubscriptions)
                then waits_for j m.pending_unsubscriptions
                else if contains j filtered
                then some req_id
                else none))
  unfolding file_unsubscription contains
  file_unsubscription-lem req_id m [] v = (v.unsubscriptions, refl, refl, λ j. ground arith)
  file_unsubscription-lem req_id m (sid ∷ filtered) v = (
    add-IsConsistent req_id (sid ∷ filtered) m.pending_unsubscriptions v.unsubscriptions,
    refl,
    refl,
    λ j. add-owner req_id (sid ∷ filtered) m.pending_unsubscriptions j v.unsubscriptions,
  )

  -- Filing active symbols under a request makes them wait for it.
  filed-status :
      (req_id : ℕ) (m : Manager) (filtered : List ℕ)
      → IsValid m
      → ((j : ℕ) → contains j filtered ≡ true → is_active (status j m) ≡ true)
      → let m' = file_unsubscription req_id m filtered in
        IsValid m'
        × ((j : ℕ)
            → status j m' ≡ (if contains j filtered then unsubscribing req_id else status j m))
  unfolding status status_of is_active
  filed-status req_id m filtered v active_only =
      let (c, same, same', filed) = file_unsubscription-lem req_id m filtered v in
      (
        record {
          subscriptions = rw same v.subscriptions;
          unsubscriptions = c;
          once = λ j. rw same' (v.once j);
          disjoint = λ j. rw (same, same') (v.disjoint j);
          covered = λ j. ground (arith, v.covered j, v.disjoint j, same', filed j, active_only j);
        },
        λ j. ground (arith, v.covered j, v.disjoint j, same, same', filed j, active_only j),
      )

  -- The filtered symbols are active after the loop, and loop and filing together make the event
  -- happen.
  combined :
      (symbols : List Symbol) (req_id j : ℕ) (m m1 : Manager) (cancelled : List Symbol)
      (filtered : List ℕ)
      → Loops symbols m m1 cancelled filtered
      → (contains j filtered ≡ true → is_active (status j m1) ≡ true)
        × ((if contains j filtered then unsubscribing req_id else status j m1) ≡ (
            if contains j (map intern symbols)
            then next (unsubscribe req_id) (status j m)
            else status j m))
  unfolding Loops is_active next
  combined symbols req_id j m m1 cancelled filtered loops = ground (arith, loops.1 j)

  -- On a valid state `register_unsubscription` reaches no unreachable line and keeps the
  -- invariant. Each symbol of the request that waits to be subscribed becomes idle, each active
  -- one waits for this request from then on, and every other symbol keeps its status. The symbols
  -- returned are those of the request that waited to be subscribed.
  pub register_unsubscription-status :
      (symbols : List Symbol) (req_id : ℕ) (m : Manager)
      → IsValid m
      → (m' : Manager) × (cancelled : List Symbol) × (register_unsubscription intern symbols req_id
            m
          ≡ some (m', cancelled))
        × IsValid m'
        × ((j : ℕ)
            → (status j m' ≡ (
                if contains j (map intern symbols)
                then next (unsubscribe req_id) (status j m)
                else status j m))
              × (contains j (map intern cancelled)
                  ≡ (contains j (map intern symbols) && is_subscribing (status j m))))
  unfolding register_unsubscription Loops
  register_unsubscription-status symbols req_id m v =
      let (m1, cancelled, filtered, loop, loops) = cancel_symbols-lem symbols m v in
      let (v2, filed) =
        filed-status req_id m1 filtered loops.0
          (λ j. (combined symbols req_id j m m1 cancelled filtered loops).0) in
      (
        file_unsubscription req_id m1 filtered,
        cancelled,
        rw (loop, register_unsubscription),
        v2,
        λ j. (filed j ∙ (combined symbols req_id j m m1 cancelled filtered loops).1, (loops.1 j).1),
      )
