-- ===== src/Session/Subscribing.antt =====
-- Subscribing and unsubscribing return, and keep the session valid.
use wirekrak.Common.{
  ℕ, ◌<◌, ◌≡◌, ap, true, not, ◌&&◌, List, [], ◌∷◌, Option, none, some, arith, is_some, Returns,
  Returns-bind, if◌then◌else◌, Bool-cases, inl, inr, Option-cases,
}
use wirekrak.Replay.Database.Total.{remove_symbol-AllStored}
use wirekrak.Request.Scheduler.{Text}
use wirekrak.Subscription.Controller.{register_subscription_for, register_unsubscription_for}
use wirekrak.Subscription.Controller.Total.{
  AllValid, register_subscription_for-Returns, register_unsubscription_for-Returns,
}
use wirekrak.Transport.Policy.{RetryPolicy, LivenessPolicy}
use wirekrak.Transport.State.{WebSocket}
use wirekrak.Control.Sequence.{invalid_req_id}
use wirekrak.Session.{Protocol, Policies, IsSized}
use wirekrak.Session.Requests.{
  Sess, Req, identify, emit_request, emit_accepted, subscribe_identified, subscribe, forget,
  unsubscribe, re_subscribe, within_limits,
}
use wirekrak.Session.Invariant.{
  IsValid, identify-IsValid, recontrol, restore, chosen, emit_request-IsValid,
  emit_accepted-IsValid,
}

module _ (m : Protocol) {Endpoint : Type 0} (w : WebSocket Endpoint Text) (p : RetryPolicy)
    (live : LivenessPolicy) (policies : Policies) (n now : ℕ) where
  -- The invariant, and the lemmas on it, of these parameters.
  abbrev Valid : Sess m w p live policies → Type 0
  Valid s = IsValid m w p live policies n s

  -- The operation returns, and what it returns is valid.
  abbrev pub Keeps : {A : Type 0} → Option (Sess m w p live policies × A) → Type 0
  Keeps o = Returns (λ r. Valid r.0) o

  module _ (sized : IsSized m policies) (type : ℕ) (l : type < n) where
    accepted-Keeps :
        (req : Req m w p live policies) (req_id : ℕ) (accepted : List m.symbols.Symbol)
        (s : Sess m w p live policies)
        → Valid s
        → Keeps (elim accepted as (λ _. Option (Sess m w p live policies × ℕ)) [
          | [] ↦ some (s, invalid_req_id)
          | symbol ∷ symbols ↦
              elim (emit_accepted m w p live policies now type
                (record req { symbols = symbol ∷ symbols })
                s) [
                  | none ↦ none
                  | some (s'', sent) ↦ some (s'', if sent then req_id else invalid_req_id)
                ]
        ])
    accepted-Keeps req req_id [] s v = v
    accepted-Keeps req req_id (symbol ∷ symbols) s v =
        Returns-bind (λ r. Valid r.0) (λ r. Valid r.0)
          (emit_accepted m w p live policies now type (record req { symbols = symbol ∷ symbols }) s)
          _
          (emit_accepted-IsValid m w p live policies n now sized type
            (record req { symbols = symbol ∷ symbols }) s v)
          (λ r h. h)

    subscribe_identified-Keeps :
        (req : Req m w p live policies) (req_id : ℕ) (s : Sess m w p live policies)
        → Valid s
        → Keeps (subscribe_identified m w p live policies now type req req_id s)
    unfolding subscribe_identified
    subscribe_identified-Keeps req req_id s v =
        Returns-bind (λ r. AllValid n r.0.managers) (λ r. Valid r.0)
          (register_subscription_for m.symbols.intern now type req.symbols req_id s.controller) _
          (register_subscription_for-Returns m.symbols.intern now type n l s.controller v.managers
            req.symbols req_id)
          (λ r h.
            accepted-Keeps req req_id r.1 (record s { controller = r.0 })
              (recontrol m w p live policies n now r.0 s v h))

    -- Where the writers keep the sizes that they state, subscribing to a type that a valid session
    -- has returns, and leaves the session valid.
    pub subscribe-Keeps :
        (req : Req m w p live policies) (s : Sess m w p live policies)
        → Valid s
        → Keeps (subscribe m w p live policies now type req s)
    unfolding subscribe
    subscribe-Keeps req s v =
        elim (Bool-cases
          (policies.hard && not (within_limits m w p live policies now type req s))) [
            | inl e ↦ rw (subscribe, e) v
            | inr e ↦
                rw (subscribe, e)
                  (let (req', req_id, s') = identify m w p live policies req s in
                    subscribe_identified-Keeps req' req_id s'
                      (identify-IsValid m w p live policies n now req s v))
          ]

    forget-IsValid :
        (symbols : List m.symbols.Symbol) (s : Sess m w p live policies)
        → Valid s
        → Valid (forget m w p live policies now type symbols s)
    unfolding forget
    forget-IsValid [] s v = v
    forget-IsValid (symbol ∷ symbols) s v = forget-IsValid symbols _ (
        restore m w p live policies n now _ s v
          (remove_symbol-AllStored m.symbols type n symbol s.replay_db v.tables))

    cancelled-Keeps :
        (symbols : List m.symbols.Symbol) (req_id : ℕ) (s : Sess m w p live policies)
        → Valid s
        → Keeps
            (elim (register_unsubscription_for m.symbols.intern now type symbols req_id
                s.controller)
              as (λ _. Option (Sess m w p live policies × ℕ)) [
                | none ↦ none
                | some (controller, cancelled) ↦
                    let t = record s { controller = controller } in
                    some (
                      if policies.replay
                          then forget m w p live policies now type cancelled t
                          else t,
                      req_id,
                    )
              ])
    cancelled-Keeps symbols req_id s v =
        Returns-bind (λ r. AllValid n r.0.managers) (λ r. Valid r.0)
          (register_unsubscription_for m.symbols.intern now type symbols req_id s.controller) _
          (register_unsubscription_for-Returns m.symbols.intern now type n l s.controller v.managers
            symbols req_id)
          (λ r h.
            let t = record s { controller = r.0 } in
            let u = recontrol m w p live policies n now r.0 s v h in
            chosen m w p live policies n now policies.replay _ t (forget-IsValid r.1 t u) u)

    -- Where the writers keep the sizes that they state, unsubscribing from a type that a valid session
    -- has returns, and leaves the session valid.
    pub unsubscribe-Keeps :
        (req : Req m w p live policies) (s : Sess m w p live policies)
        → Valid s
        → Keeps (unsubscribe m w p live policies now type req s)
    unfolding unsubscribe
    unsubscribe-Keeps req s v =
        let (req', req_id, s') = identify m w p live policies req s in
        Returns-bind (λ r. Valid r.0) (λ r. Valid r.0)
          (emit_request m w p live policies now req' s') _
          (emit_request-IsValid m w p live policies n now sized req' s'
            (identify-IsValid m w p live policies n now req s v))
          (λ r v'. elim (Bool-cases r.1) [
            | inl e ↦ rw e (cancelled-Keeps req'.symbols req_id r.0 v')
            | inr e ↦ rw e v'
          ])

    resubscribed-Returns :
        (req : Req m w p live policies) (accepted : List m.symbols.Symbol)
        (s : Sess m w p live policies)
        → Valid s
        → Returns Valid (elim accepted as (λ _. Option (Sess m w p live policies)) [
          | [] ↦ some s
          | symbol ∷ symbols ↦
              elim (emit_accepted m w p live policies now type
                (record req { symbols = symbol ∷ symbols })
                s) [ none ↦ none | some (s'', _) ↦ some s'' ]
        ])
    resubscribed-Returns req [] s v = v
    resubscribed-Returns req (symbol ∷ symbols) s v =
        Returns-bind (λ r. Valid r.0) Valid
          (emit_accepted m w p live policies now type (record req { symbols = symbol ∷ symbols }) s)
          _
          (emit_accepted-IsValid m w p live policies n now sized type
            (record req { symbols = symbol ∷ symbols }) s v)
          (λ r h. h)

    pub re_subscribe-Returns :
        (req : Req m w p live policies) (s : Sess m w p live policies)
        → is_some req.req_id ≡ true
        → Valid s
        → Returns Valid (re_subscribe m w p live policies now type req s)
    unfolding re_subscribe
    re_subscribe-Returns req s i v = elim (Option-cases req.req_id) [
      | inl e ↦ absurd (ground (arith, ap is_some e))
      | inr (req_id, e) ↦
          rw (re_subscribe, e)
            (Returns-bind (λ r. AllValid n r.0.managers) Valid
              (register_subscription_for m.symbols.intern now type req.symbols req_id s.controller)
              _
              (register_subscription_for-Returns m.symbols.intern now type n l s.controller
                v.managers req.symbols req_id)
              (λ r h.
                resubscribed-Returns req r.1 (record s { controller = r.0 })
                  (recontrol m w p live policies n now r.0 s v h)))
    ]
