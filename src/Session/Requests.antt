-- ===== src/Session/Requests.antt =====
-- include/wirekrak/core/protocol/session.hpp: `send_request_`, `emit_request_`, `subscribe`,
-- `unsubscribe`, `send` and `re_subscribe_`. A request without an identifier gets the next one. An
-- operation is none where the controller reaches its unreachable line or has no such type, where the
-- assertion on the size of a text fails, and where a text overruns a slot of the scheduler.
use wirekrak.Common.{
  ℕ, zero, suc, ◌+◌, Bool, true, false, not, ◌&&◌, List, [], ◌∷◌, Option, none, some, ltb,
  if◌then◌else◌, length,
}
use wirekrak.Control.Sequence
use wirekrak.Control.Sequence.{Sequence, invalid_req_id}
use wirekrak.Replay.Table.{Request}
use wirekrak.Replay.Database.{add_to, remove_symbol}
use wirekrak.Request.Scheduler.{immediate, batch, paced, Text, enqueue}
use wirekrak.Subscription.Controller.{
  register_subscription_for, register_unsubscription_for, total_owned_symbols,
}
use wirekrak.Subscription.Manager.{Manager, total_symbols}
use wirekrak.Transport.Policy.{RetryPolicy, LivenessPolicy}
use wirekrak.Transport.State.{WebSocket}
use wirekrak.Transport.Connection.Operations.{send}
use wirekrak.Session.{Protocol, Policies, Session, tx_capacity}

-- The first `n` elements of a list, and the rest.
unfoldable pub take {ℓ} : {A : Type ℓ} → ℕ → List A → List A
take zero xs = []
take (suc n) [] = []
take (suc n) (x ∷ xs) = x ∷ take n xs

unfoldable pub drop {ℓ} : {A : Type ℓ} → ℕ → List A → List A
drop zero xs = xs
drop (suc n) [] = []
drop (suc n) (x ∷ xs) = drop n xs

-- The batches of the loop in `emit_request_`, in at most `fuel` rounds.
unfoldable pub batches {ℓ} : {A : Type ℓ} → ℕ → ℕ → List A → List (List A)
unfolding take drop
batches zero size xs = []
batches (suc fuel) size [] = []
batches (suc fuel) size (x ∷ xs) = take size (x ∷ xs) ∷ batches fuel size (drop size (x ∷ xs))

-- `manager_for<Domain>().total_symbols()`.
unfoldable pub symbols_at : ℕ → List Manager → ℕ
symbols_at type [] = 0
symbols_at zero (m ∷ ms) = total_symbols m
symbols_at (suc type) (m ∷ ms) = symbols_at type ms

module _ (m : Protocol) {Endpoint : Type 0} (w : WebSocket Endpoint Text) (p : RetryPolicy)
    (live : LivenessPolicy) (policies : Policies) where
  abbrev pub Sess : Type 0
  Sess = Session m w

  abbrev pub Req : Type 0
  Req = Request m.symbols.Symbol m.Body

  -- `if (!req.req_id.has()) req.req_id = req_id_seq_.next()`, with the identifier.
  unfoldable pub identify : Req → Sess → Req × ℕ × Sess
  identify req s = elim req.req_id [
    | some req_id ↦ (req, req_id, s)
    | none ↦
        let (seq, req_id) = Sequence.next s.req_id_seq in
        (record req { req_id = some req_id }, req_id, record s { req_id_seq = seq })
  ]

  module _ (now : ℕ) where
    -- `connection_.send`.
    unfoldable pub send_text : Text → Sess → Sess × Bool
    send_text text s =
        let (connection, sent) = send w p live now text s.connection in
        (record s { connection = connection }, sent)

    -- `send_request_`, through `send_dynamic_request_` with its assertion.
    unfoldable pub send_request : Req → Sess → Option (Sess × Bool)
    unfolding identify send_text
    send_request req s =
        let (req', _, s') = identify req s in
        if ltb tx_capacity (m.max_json_size req')
        then some (s', false)
        else if ltb (m.max_json_size req') (length (m.write_json req'))
        then none
        else some (send_text (m.write_json req') s')

    -- The loop of `emit_request_` that sends, and the one that enqueues.
    unfoldable pub send_batches : Req → List (List m.symbols.Symbol) → Sess → Option (Sess × Bool)
    unfolding send_request
    send_batches req [] s = some (s, true)
    send_batches req (symbols ∷ rest) s = elim (send_request (record req { symbols = symbols }) s) [
      | none ↦ none
      | some (s', sent) ↦ elim sent [ true ↦ send_batches req rest s' | false ↦ some (s', false) ]
    ]

    unfoldable pub enqueue_batches :
        Req → List (List m.symbols.Symbol) → Sess → Option (Sess × Bool)
    enqueue_batches req [] s = some (s, true)
    enqueue_batches req (symbols ∷ rest) s =
        elim (enqueue (m.write_json (record req { symbols = symbols })) s.request_scheduler) [
          | none ↦ none
          | some (scheduler, queued) ↦ elim queued [
            | true ↦ enqueue_batches req rest (record s { request_scheduler = scheduler })
            | false ↦ some (record s { request_scheduler = scheduler }, false)
          ]
        ]

    unfoldable pub emit_request : Req → Sess → Option (Sess × Bool)
    unfolding send_request batches send_batches enqueue_batches
    emit_request req s =
        let split = batches (length req.symbols) policies.batching.batch_size req.symbols in
        elim policies.batching.mode [
          | immediate ↦ send_request req s
          | batch ↦ send_batches req split s
          | paced ↦ enqueue_batches req split s
        ]

    -- `hard_symbol_limit_enforcement_`.
    unfoldable pub within_limits : ℕ → Req → Sess → Bool
    unfolding symbols_at
    within_limits type req s =
        let requested = length req.symbols in
        if ltb 0 policies.max_per_channel
          && ltb policies.max_per_channel (symbols_at type s.controller.managers + requested)
        then false
        else not (
            ltb 0 policies.max_global
            && ltb policies.max_global (total_owned_symbols s.controller + requested))

    -- `if constexpr (ReplayPolicy::enabled) replay_db_.add(req)`.
    unfoldable pub remember : ℕ → Req → Sess → Sess
    remember type req s =
        if policies.replay
        then record s { replay_db = add_to m.symbols type req s.replay_db }
        else s

    -- `subscribe` and `re_subscribe_` once the manager has accepted some symbols.
    unfoldable pub emit_accepted : ℕ → Req → Sess → Option (Sess × Bool)
    unfolding remember emit_request
    emit_accepted type req s = emit_request req (remember type req s)

    -- `subscribe` past its symbol limit.
    unfoldable pub subscribe_identified : ℕ → Req → ℕ → Sess → Option (Sess × ℕ)
    unfolding emit_accepted
    subscribe_identified type req req_id s =
        elim (register_subscription_for m.symbols.intern now type req.symbols req_id s.controller) [
          | none ↦ none
          | some (controller, accepted) ↦
              let s' = record s { controller = controller } in
              elim accepted [
                | [] ↦ some (s', invalid_req_id)
                | symbol ∷ symbols ↦
                    elim (emit_accepted type (record req { symbols = symbol ∷ symbols }) s') [
                      | none ↦ none
                      | some (s'', sent) ↦ some (s'', if sent then req_id else invalid_req_id)
                    ]
              ]
        ]

    unfoldable pub subscribe : ℕ → Req → Sess → Option (Sess × ℕ)
    unfolding identify within_limits subscribe_identified
    subscribe type req s =
        if policies.hard && not (within_limits type req s)
        then some (s, invalid_req_id)
        else let (req', req_id, s') = identify req s in subscribe_identified type req' req_id s'

    -- The loop of `unsubscribe` over the cancelled symbols.
    unfoldable pub forget : ℕ → List m.symbols.Symbol → Sess → Sess
    forget type [] s = s
    forget type (symbol ∷ symbols) s =
        forget type symbols
          (record s { replay_db = remove_symbol m.symbols type symbol s.replay_db })

    unfoldable pub unsubscribe : ℕ → Req → Sess → Option (Sess × ℕ)
    unfolding identify emit_request forget
    unsubscribe type req s =
        let (req', req_id, s') = identify req s in
        elim (emit_request req' s') [
          | none ↦ none
          | some (s'', sent) ↦
              if not sent
              then some (s'', invalid_req_id)
              else elim (register_unsubscription_for m.symbols.intern now type req'.symbols req_id
                  s''.controller) [
                    | none ↦ none
                    | some (controller, cancelled) ↦
                        let t = record s'' { controller = controller } in
                        some (if policies.replay then forget type cancelled t else t, req_id)
                  ]
        ]

    -- `re_subscribe_`; a stored request has an identifier.
    unfoldable pub re_subscribe : ℕ → Req → Sess → Option Sess
    unfolding emit_accepted
    re_subscribe type req s = elim req.req_id [
      | none ↦ none
      | some req_id ↦
          elim (register_subscription_for m.symbols.intern now type req.symbols req_id
            s.controller) [
              | none ↦ none
              | some (controller, accepted) ↦
                  let s' = record s { controller = controller } in
                  elim accepted [
                    | [] ↦ some s'
                    | symbol ∷ symbols ↦
                        elim (emit_accepted type (record req { symbols = symbol ∷ symbols }) s') [
                          | none ↦ none
                          | some (s'', _) ↦ some s''
                        ]
                  ]
            ]
    ]
