-- ===== src/Session/Invariant.antt =====
-- The invariant of a session between its operations, and that its requests keep it.
use wirekrak.Common.{
  ℕ, ◌≤◌, ◌≡◌, refl, Bool, true, false, ltb, List, [], ◌∷◌, Option, some, All, length, Returns,
  Returns-bind, arith, if◌then◌else◌, Bool-cases, inl, inr, Option-cases,
}
use wirekrak.Replay.Table.{Table}
use wirekrak.Replay.Database.Total.{AllStored, add_to-AllStored}
use wirekrak.Request.Scheduler.{
  BatchingMode, immediate, batch, paced, Text, Scheduler, enqueue, max_payload, queue_capacity,
}
use wirekrak.Local.Ring.{acquire_producer_slot}
use wirekrak.Session.Batching.{batches-short}
use wirekrak.Subscription.Controller.{Controller}
use wirekrak.Subscription.Controller.Total.{AllValid}
use wirekrak.Transport.Policy.{RetryPolicy, LivenessPolicy}
use wirekrak.Transport.State.{WebSocket}
use wirekrak.Transport.Connection.Invariant.{is_settled}
use wirekrak.Transport.Connection.Polling.{send-settled}
use wirekrak.Control.Sequence.{Sequence, next}
use wirekrak.Session.{Protocol, Policies, IsSized, tx_capacity}
use wirekrak.Session.Requests.{
  Sess, Req, identify, send_text, send_request, send_batches, enqueue_batches, emit_request,
  remember, emit_accepted,
}

-- `n` is the number of subscription types.
module _ (m : Protocol) {Endpoint : Type 0} (w : WebSocket Endpoint Text) (p : RetryPolicy)
    (live : LivenessPolicy) (policies : Policies) (n : ℕ) where
  pub record IsValid (s : Sess m w p live policies) : Type 0 where
    pub managers : AllValid n s.controller.managers
    pub tables : AllStored m.symbols n s.replay_db
    pub connection : is_settled w p live s.connection ≡ true

  module _ (now : ℕ) where
    pub send_text-IsValid :
        (text : Text) (s : Sess m w p live policies)
        → IsValid s
        → IsValid (send_text m w p live policies now text s).0
    unfolding send_text
    send_text-IsValid text s v = record {
      managers = v.managers;
      tables = v.tables;
      connection = send-settled w p live now text s.connection v.connection;
    }

    reseq :
        (seq : Sequence) (s : Sess m w p live policies)
        → IsValid s
        → IsValid (record s { req_id_seq = seq })
    reseq seq s v = record { managers = v.managers; tables = v.tables; connection = v.connection }

    pub reschedule :
        (scheduler : Scheduler) (s : Sess m w p live policies)
        → IsValid s
        → IsValid (record s { request_scheduler = scheduler })
    reschedule scheduler s v = record {
      managers = v.managers;
      tables = v.tables;
      connection = v.connection;
    }

    pub recontrol :
        (c : Controller) (s : Sess m w p live policies)
        → IsValid s
        → AllValid n c.managers
        → IsValid (record s { controller = c })
    recontrol c s v h = record { managers = h; tables = v.tables; connection = v.connection }

    pub restore :
        (ts : List (Table m.symbols.Symbol m.Body)) (s : Sess m w p live policies)
        → IsValid s
        → AllStored m.symbols n ts
        → IsValid (record s { replay_db = ts })
    restore ts s v h = record { managers = v.managers; tables = h; connection = v.connection }

    pub identify-IsValid :
        (req : Req m w p live policies) (s : Sess m w p live policies)
        → IsValid s
        → IsValid (identify m w p live policies req s).2
    unfolding identify
    identify-IsValid req s v = elim (Option-cases req.req_id) [
      | inl e ↦ rw (identify, e) (reseq (next s.req_id_seq).0 s v)
      | inr (k, e) ↦ rw (identify, e) v
    ]

    pub chosen :
        (b : Bool) (s t : Sess m w p live policies)
        → IsValid s
        → IsValid t
        → IsValid (if b then s else t)
    chosen true s t v u = v
    chosen false s t v u = u

    -- The operation returns, and what it returns is valid.
    abbrev Emits : Option (Sess m w p live policies × Bool) → Type 0
    Emits o = Returns (λ r. IsValid r.0) o

    enqueue-Returns :
        (text : Text) (s : Scheduler)
        → length text ≤ max_payload
        → Returns (λ r. Unit) (enqueue text s)
    unfolding enqueue
    enqueue-Returns text s l =
        let full : ltb max_payload (length text) ≡ false = ground arith in
        elim (Option-cases (acquire_producer_slot queue_capacity s.queue)) [
          | inl e ↦ rw (enqueue, e) tt
          | inr (slot, e) ↦ rw (enqueue, e, full) tt
        ]

    continued :
        (onward : Bool) (o : Option (Sess m w p live policies × Bool))
        (t : Sess m w p live policies)
        → Emits o
        → IsValid t
        → Emits (elim onward as (λ _. Option (Sess m w p live policies × Bool)) [
          | true ↦ o
          | false ↦ some (t, false)
        ])
    continued true o t h v = h
    continued false o t h v = v

    module _ (sized : IsSized m policies) where
      send_request-IsValid :
          (req : Req m w p live policies) (s : Sess m w p live policies)
          → IsValid s
          → Emits (send_request m w p live policies now req s)
      unfolding send_request
      send_request-IsValid req s v =
          let (req', _, s') = identify m w p live policies req s in
          let v' = identify-IsValid req s v in
          let fits : ltb (m.max_json_size req') (length (m.write_json req')) ≡ false =
            ground (arith, sized.requests req') in
          elim (Bool-cases (ltb tx_capacity (m.max_json_size req'))) [
            | inl e ↦ rw (send_request, e) v'
            | inr e ↦ rw (send_request, e, fits) (send_text-IsValid (m.write_json req') s' v')
          ]

      send_batches-IsValid :
          (req : Req m w p live policies) (split : List (List m.symbols.Symbol))
          (s : Sess m w p live policies)
          → IsValid s
          → Emits (send_batches m w p live policies now req split s)
      unfolding send_batches
      send_batches-IsValid req [] s v = v
      send_batches-IsValid req (symbols ∷ rest) s v =
          let part = record req { symbols = symbols } in
          Returns-bind (λ r. IsValid r.0) (λ r. IsValid r.0)
            (send_request m w p live policies now part s) _ (send_request-IsValid part s v)
            (λ r h. continued r.1 _ r.0 (send_batches-IsValid req rest r.0 h) h)

      enqueue_batches-IsValid :
          (req : Req m w p live policies) (split : List (List m.symbols.Symbol))
          (s : Sess m w p live policies)
          → ((part : Req m w p live policies)
              → length part.symbols ≤ policies.batching.batch_size
              → length (m.write_json part) ≤ max_payload)
          → All (λ b. length b ≤ policies.batching.batch_size) split
          → IsValid s
          → Emits (enqueue_batches m w p live policies now req split s)
      unfolding enqueue_batches
      enqueue_batches-IsValid req [] s fits short v = v
      enqueue_batches-IsValid req (symbols ∷ rest) s fits short v =
          let part = record req { symbols = symbols } in
          Returns-bind (λ r. Unit) (λ r. IsValid r.0)
            (enqueue (m.write_json part) s.request_scheduler) _
            (enqueue-Returns (m.write_json part) s.request_scheduler (fits part short.0))
            (λ r _.
              let u = reschedule r.0 s v in
              continued r.1 _ _ (enqueue_batches-IsValid req rest _ fits short.1 u) u)

      emit_in :
          (mode : BatchingMode) (req : Req m w p live policies)
          (split : List (List m.symbols.Symbol)) (s : Sess m w p live policies)
          → (mode ≡ paced
              → (part : Req m w p live policies)
              → length part.symbols ≤ policies.batching.batch_size
              → length (m.write_json part) ≤ max_payload)
          → All (λ b. length b ≤ policies.batching.batch_size) split
          → IsValid s
          → Emits (elim mode as (λ _. Option (Sess m w p live policies × Bool)) [
            | immediate ↦ send_request m w p live policies now req s
            | batch ↦ send_batches m w p live policies now req split s
            | paced ↦ enqueue_batches m w p live policies now req split s
          ])
      emit_in immediate req split s fits short v = send_request-IsValid req s v
      emit_in batch req split s fits short v = send_batches-IsValid req split s v
      emit_in paced req split s fits short v =
          enqueue_batches-IsValid req split s (fits refl) short v

      pub emit_request-IsValid :
          (req : Req m w p live policies) (s : Sess m w p live policies)
          → IsValid s
          → Emits (emit_request m w p live policies now req s)
      unfolding emit_request
      emit_request-IsValid req s v =
          emit_in policies.batching.mode req _ s sized.batches
            (batches-short (length req.symbols) policies.batching.batch_size req.symbols) v

      pub emit_accepted-IsValid :
          (type : ℕ) (req : Req m w p live policies) (s : Sess m w p live policies)
          → IsValid s
          → Emits (emit_accepted m w p live policies now type req s)
      unfolding emit_accepted remember
      emit_accepted-IsValid type req s v = emit_request-IsValid req _ (
          chosen policies.replay _ s
            (restore _ s v (add_to-AllStored m.symbols type n req s.replay_db v.tables)) v)
