-- ===== src/Session/Offline.antt =====
-- Subscribing while the connection is down, and what the replay makes of it.
use wirekrak.Common.{
  ℕ, ◌<◌, ◌≡◌, refl, ap, ◌∙◌, sym, Bool, true, false, ltb, List, [], ◌∷◌, map, contains, length,
  Option, none, some, arith, Returns, if◌then◌else◌, Bool-cases, inl, inr, Option-cases,
}
use wirekrak.Request.Scheduler.{immediate, Text}
use wirekrak.Subscription.Controller.{Controller, register_subscription_for}
use wirekrak.Subscription.Controller.Total.{register_subscription_for-Returns}
use wirekrak.Transport.Policy.{RetryPolicy, LivenessPolicy}
use wirekrak.Transport.State.{WebSocket}
use wirekrak.Transport.Connection.Operations.{send}
use wirekrak.Control.Sequence.{invalid_req_id}
use wirekrak.Session.{Protocol, Policies, IsSized, tx_capacity}
use wirekrak.Session.Requests.{
  Sess, Req, identify, send_text, send_request, emit_request, remember, emit_accepted,
  subscribe_identified, subscribe,
}
use wirekrak.Session.Invariant.{IsValid}
use mathlib.Core.Path.{ap₂}
use wirekrak.Subscription.Manager.Status.{next}
use wirekrak.Subscription.Manager.Status
use wirekrak.Subscription.Controller.Waiting.{status_in, register_subscription_for-status_in}
use wirekrak.Transport.Connection.{Conn}
use wirekrak.Transport.Connection.Observers.{is_connected}

module _ (m : Protocol) {Endpoint : Type 0} (w : WebSocket Endpoint Text) (p : RetryPolicy)
    (live : LivenessPolicy) (policies : Policies) (now : ℕ) where
  send-is_connected :
      (text : Text) (c : Conn w) → is_connected w c ≡ false → send w p live now text c ≡ (c, false)
  unfolding send is_connected
  send-is_connected text c e = ground arith

  send_text-offline :
      (text : Text) (s : Sess m w p live policies)
      → is_connected w s.connection ≡ false
      → send_text m w p live policies now text s ≡ (s, false)
  unfolding send_text
  send_text-offline text s e =
      ap (λ r. (record s { connection = r.0 }, r.1)) (send-is_connected text s.connection e)

  identify-known :
      (req : Req m w p live policies) (k : ℕ) (s : Sess m w p live policies)
      → req.req_id ≡ some k
      → identify m w p live policies req s ≡ (req, k, s)
  unfolding identify
  identify-known req k s c = simp (identify, c)

  identify-facts :
      (req : Req m w p live policies) (s : Sess m w p live policies)
      → let (req', k, s') = identify m w p live policies req s in
        (req'.req_id ≡ some k)
        × (req'.symbols ≡ req.symbols)
        × (s'.controller ≡ s.controller)
        × (s'.connection ≡ s.connection)
  unfolding identify
  identify-facts req s = elim (Option-cases req.req_id) [
    | inl e ↦ rw (identify, e) (refl, refl, refl, refl)
    | inr (k, e) ↦ rw (identify, e) (e, refl, refl, refl)
  ]

  same : {A : Type 0} (b : Bool) (x y : A) → y ≡ x → (if b then x else y) ≡ x
  same true x y e = refl
  same false x y e = e

  other : {A : Type 0} (b : Bool) (x y : A) → b ≡ false → (if b then x else y) ≡ y
  other true x y e = absurd (ground (arith, e))
  other false x y e = refl

  -- Without a connection a request with an identifier that is sent at once is not sent, and leaves
  -- the session as it is.
  send_request-offline :
      (req : Req m w p live policies) (k : ℕ) (s : Sess m w p live policies)
      → req.req_id ≡ some k
      → IsSized m policies
      → is_connected w s.connection ≡ false
      → send_request m w p live policies now req s ≡ some (s, false)
  unfolding send_request
  send_request-offline req k s c sized e =
      ap
        (λ r.
          if ltb tx_capacity (m.max_json_size r.0)
          then some (r.2, false)
          else if ltb (m.max_json_size r.0) (length (m.write_json r.0))
          then none
          else some (send_text m w p live policies now (m.write_json r.0) r.2))
        (identify-known req k s c)
      ∙ same (ltb tx_capacity (m.max_json_size req)) (some (s, false)) _ (
          other (ltb (m.max_json_size req) (length (m.write_json req))) none _
            (ground (arith, sized.requests req))
          ∙ ap some (send_text-offline (m.write_json req) s e))

  module _ (sized : IsSized m policies) (immediately : policies.batching.mode ≡ immediate) where
    emit_request-offline :
        (req : Req m w p live policies) (k : ℕ) (s : Sess m w p live policies)
        → req.req_id ≡ some k
        → is_connected w s.connection ≡ false
        → emit_request m w p live policies now req s ≡ some (s, false)
    unfolding emit_request
    emit_request-offline req k s c e =
        rw (emit_request, immediately) (send_request-offline req k s c sized e)

    -- The replay database may take the request; connection and controller stay as they are.
    Untouched : Sess m w p live policies → Sess m w p live policies → Type 0
    Untouched s t = (t.connection ≡ s.connection) × (t.controller ≡ s.controller)

    remember-Untouched :
        (type : ℕ) (req : Req m w p live policies) (s : Sess m w p live policies)
        → Untouched s (remember m w p live policies now type req s)
    unfolding remember Untouched
    remember-Untouched type req s = elim (Bool-cases policies.replay) [
      | inl e ↦ rw (remember, e) (refl, refl)
      | inr e ↦ rw (remember, e) (refl, refl)
    ]

    emit_accepted-offline :
        (type : ℕ) (req : Req m w p live policies) (k : ℕ) (s : Sess m w p live policies)
        → req.req_id ≡ some k
        → is_connected w s.connection ≡ false
        → (s' : Sess m w p live policies) × (emit_accepted m w p live policies now type req s
            ≡ some (s', false))
          × Untouched s s'
    unfolding emit_accepted Untouched
    emit_accepted-offline type req k s c e =
        let t = remember m w p live policies now type req s in
        let kept = remember-Untouched type req s in
        (t, emit_request-offline req k t c (ap (is_connected w) kept.0 ∙ e), kept)

    module _ (type : ℕ) (req : Req m w p live policies) (s : Sess m w p live policies) where
      -- The caller is told that there is no request; the connection is as it was, and yet the idle
      -- symbols of the request wait for it in the manager of the type, while every other symbol
      -- keeps its status.
      abbrev pub Waiting : Controller → Type 0
      Waiting c =
          (sid : ℕ)
          → status_in type sid c.managers ≡ (
              if contains sid (map m.symbols.intern req.symbols)
              then next (Status.subscribe (identify m w p live policies req s).1)
                  (status_in type sid s.controller.managers)
              else status_in type sid s.controller.managers)

      unfoldable pub Registered : Sess m w p live policies × ℕ → Type 0
      Registered r =
          (r.1 ≡ invalid_req_id) × (r.0.connection ≡ s.connection) × Waiting r.0.controller

      accepted-Registered :
          (req' : Req m w p live policies) (k : ℕ) (s' : Sess m w p live policies) (c : Controller)
          (accepted : List m.symbols.Symbol)
          → req'.req_id ≡ some k
          → Waiting c
          → s'.connection ≡ s.connection
          → s'.controller ≡ c
          → is_connected w s.connection ≡ false
          → Returns Registered (elim accepted as (λ _. Option (Sess m w p live policies × ℕ)) [
            | [] ↦ some (s', invalid_req_id)
            | symbol ∷ symbols ↦
                elim (emit_accepted m w p live policies now type
                  (record req' { symbols = symbol ∷ symbols })
                  s') [
                    | none ↦ none
                    | some (s'', sent) ↦ some (s'', if sent then k else invalid_req_id)
                  ]
          ])
      unfolding Registered Untouched
      accepted-Registered req' k s' c [] i e g h d = (refl, g, rw h e)
      accepted-Registered req' k s' c (symbol ∷ symbols) i e g h d =
          let (s'', unsent, (same_connection, same_controller)) =
            emit_accepted-offline type (record req' { symbols = symbol ∷ symbols }) k s' i
              (ap (is_connected w) g ∙ d) in
          rw unsent (refl, same_connection ∙ g, rw (same_controller, h) e)

      -- A subscription while the connection of a valid session is down, where requests are sent at
      -- once, no limit is hard and the writers keep the sizes that they state: the call returns the
      -- invalid identifier and leaves the connection as it is, but each symbol of the request that
      -- was idle waits for its answer, and every other symbol of the type keeps its status.
      pub subscribe-is_connected :
          (n : ℕ)
          → type < n
          → IsValid m w p live policies n s
          → policies.hard ≡ false
          → is_connected w s.connection ≡ false
          → Returns Registered (subscribe m w p live policies now type req s)
      unfolding subscribe subscribe_identified Registered
      subscribe-is_connected n l v h d =
          let (req', k, s') = identify m w p live policies req s in
          let (i, xs, c, g) = identify-facts req s in
          let answer =
            register_subscription_for m.symbols.intern now type req'.symbols k s'.controller in
          let returns =
            register_subscription_for-Returns m.symbols.intern now type n l s'.controller
              (rw c v.managers) req'.symbols k in
          let moved =
            register_subscription_for-status_in m.symbols.intern now type n s.controller l
              v.managers req.symbols k in
          rw (subscribe, h)
            (elim (Option-cases answer) [
              | inl e ↦ absurd (rw e at returns)
              | inr (r, e) ↦
                  let answered : register_subscription_for m.symbols.intern now type req.symbols k
                        s.controller
                      ≡ some r =
                    ap₂ (λ ys b. register_subscription_for m.symbols.intern now type ys k b)
                      (sym xs) (sym c)
                    ∙ e in
                  rw (subscribe_identified, e)
                    (accepted-Registered req' k (record s' { controller = r.0 }) r.0 r.1 i
                      (rw answered at moved) g refl d)
            ])
