-- ===== src/Session/Draining/Emitting.antt =====
-- Sending requests takes no signal of the connection.
use wirekrak.Common.{
  ℕ, ◌≡◌, ◌∙◌, Bool, true, false, ltb, length, Option, none, some, Allows, Allows-bind, List, [],
  ◌∷◌, arith, Bool-cases, inl, inr, Option-cases,
}
use wirekrak.Request.Scheduler.{BatchingMode, immediate, batch, paced, Text, enqueue}
use wirekrak.Transport.Policy.{RetryPolicy, LivenessPolicy}
use wirekrak.Transport.State.{WebSocket, Signal}
use wirekrak.Transport.Connection.{Conn}
use wirekrak.Transport.Connection.Operations.{send}
use wirekrak.Session.{Protocol, Policies, tx_capacity}
use wirekrak.Session.Requests.{
  Sess, Req, identify, send_text, send_request, send_batches, enqueue_batches, emit_request,
  remember, emit_accepted,
}

module _ (m : Protocol) {Endpoint : Type 0} (w : WebSocket Endpoint Text) (p : RetryPolicy)
    (live : LivenessPolicy) (policies : Policies) (now : ℕ) where
  abbrev S : Type 0
  S = Sess m w p live policies

  send-signals : (text : Text) (c : Conn w) → (send w p live now text c).0.signals ≡ c.signals
  unfolding send
  send-signals text c = ground arith

  module _ (signals : List Signal) where
    -- The session has these signals left.
    abbrev pub Left : S → Type 0
    Left s = s.connection.signals ≡ signals

    pub send_text-Left :
        (text : Text) (s : S) → Left s → Left (send_text m w p live policies now text s).0
    unfolding send_text
    send_text-Left text s e = send-signals text s.connection ∙ e

    identify-Left :
        (req : Req m w p live policies) (s : S)
        → Left s
        → Left (identify m w p live policies req s).2
    unfolding identify
    identify-Left req s v = elim (Option-cases req.req_id) [
      | inl e ↦ rw (identify, e) v
      | inr (k, e) ↦ rw (identify, e) v
    ]

    -- Where the operation returns, the signals are left.
    abbrev pub Emits : Option (S × Bool) → Type 0
    Emits o = Allows (λ r. Left r.0) o

    continued :
        (onward : Bool) (o : Option (S × Bool)) (t : S)
        → Emits o
        → Left t
        → Emits (elim onward as (λ _. Option (S × Bool)) [ true ↦ o | false ↦ some (t, false) ])
    continued true o t h v = h
    continued false o t h v = v

    send_request-Left :
        (req : Req m w p live policies) (s : S)
        → Left s
        → Emits (send_request m w p live policies now req s)
    unfolding send_request
    send_request-Left req s v =
        let (req', _, s') = identify m w p live policies req s in
        let v' = identify-Left req s v in
        elim (Bool-cases (ltb tx_capacity (m.max_json_size req'))) [
          | inl e ↦ rw (send_request, e) v'
          | inr e ↦ elim (Bool-cases (ltb (m.max_json_size req') (length (m.write_json req')))) [
            | inl f ↦ rw (send_request, e, f) tt
            | inr f ↦ rw (send_request, e, f) (send_text-Left (m.write_json req') s' v')
          ]
        ]

    send_batches-Left :
        (req : Req m w p live policies) (split : List (List m.symbols.Symbol)) (s : S)
        → Left s
        → Emits (send_batches m w p live policies now req split s)
    unfolding send_batches
    send_batches-Left req [] s v = v
    send_batches-Left req (symbols ∷ rest) s v =
        let part = record req { symbols = symbols } in
        Allows-bind (λ r. Left r.0) (λ r. Left r.0) (send_request m w p live policies now part s) _
          (send_request-Left part s v)
          (λ r h. continued r.1 _ r.0 (send_batches-Left req rest r.0 h) h)

    anything : {A : Type 0} (o : Option A) → Allows (λ _. Unit) o
    anything none = tt
    anything (some a) = tt

    enqueue_batches-Left :
        (req : Req m w p live policies) (split : List (List m.symbols.Symbol)) (s : S)
        → Left s
        → Emits (enqueue_batches m w p live policies now req split s)
    unfolding enqueue_batches
    enqueue_batches-Left req [] s v = v
    enqueue_batches-Left req (symbols ∷ rest) s v =
        let part = record req { symbols = symbols } in
        Allows-bind (λ r. Unit) (λ r. Left r.0) (enqueue (m.write_json part) s.request_scheduler) _
          (anything (enqueue (m.write_json part) s.request_scheduler))
          (λ r _.
            continued r.1 _ _
              (enqueue_batches-Left req rest (record s { request_scheduler = r.0 }) v) v)

    emit_in :
        (mode : BatchingMode) (req : Req m w p live policies) (split : List (List m.symbols.Symbol))
        (s : S)
        → Left s
        → Emits (elim mode as (λ _. Option (S × Bool)) [
          | immediate ↦ send_request m w p live policies now req s
          | batch ↦ send_batches m w p live policies now req split s
          | paced ↦ enqueue_batches m w p live policies now req split s
        ])
    emit_in immediate req split s v = send_request-Left req s v
    emit_in batch req split s v = send_batches-Left req split s v
    emit_in paced req split s v = enqueue_batches-Left req split s v

    remember-Left :
        (type : ℕ) (req : Req m w p live policies) (s : S)
        → Left s
        → Left (remember m w p live policies now type req s)
    unfolding remember
    remember-Left type req s v = elim (Bool-cases policies.replay) [
      | inl e ↦ rw (remember, e) v
      | inr e ↦ rw (remember, e) v
    ]

    pub emit_accepted-Left :
        (type : ℕ) (req : Req m w p live policies) (s : S)
        → Left s
        → Emits (emit_accepted m w p live policies now type req s)
    unfolding emit_accepted emit_request
    emit_accepted-Left type req s v =
        emit_in policies.batching.mode req _ (remember m w p live policies now type req s)
          (remember-Left type req s v)
