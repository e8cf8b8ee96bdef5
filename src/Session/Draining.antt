-- ===== src/Session/Draining.antt =====
-- The loop of a session's poll over the signals of its connection takes them all.
mod Emitting
use wirekrak.Common.{
  ℕ, zero, suc, ◌≡◌, refl, ◌∙◌, Bool, true, false, ltb, List, [], ◌∷◌, Option, none, some, length,
  if◌then◌else◌, arith, not, Returns, Allows, Allows-bind, Bool-cases, inl, inr, Option-cases,
}
use wirekrak.Request.Scheduler.{BatchingMode, immediate, batch, paced, Text, enqueue}
use wirekrak.Subscription.Controller.{register_subscription_for}
use wirekrak.Transport.Policy.{RetryPolicy, LivenessPolicy}
use wirekrak.Transport.State.{
  WebSocket, Signal, signal_connected, signal_disconnected, liveness_threatened,
  signal_backpressure_detected, signal_backpressure_cleared, retry_immediate, retry_scheduled,
  no_signal,
}
use wirekrak.Transport.Connection.{Conn}
use wirekrak.Transport.Connection.Operations.{send, poll_signal}
use wirekrak.Session.{Protocol, Policies, IsSized, tx_capacity}
use wirekrak.Session.Requests.{
  Sess, Req, identify, send_text, send_request, send_batches, enqueue_batches, emit_request,
  remember, emit_accepted, re_subscribe,
}
use wirekrak.Replay.Database.{take_from}
use wirekrak.Session.Signals.{
  re_subscribe_all, replay_types, do_replay, handle_connect, handle_disconnect, send_ping,
  handle_signal,
}
use wirekrak.Session.Polling.{drain_signals}
use wirekrak.Session.Invariant.{IsValid}
use wirekrak.Session.Total.{drain_signals-Returns}

module _ (m : Protocol) {Endpoint : Type 0} (w : WebSocket Endpoint Text) (p : RetryPolicy)
    (live : LivenessPolicy) (policies : Policies) (now : ℕ) where
  abbrev S : Type 0
  S = Sess m w p live policies

  module _ (signals : List Signal) where
    -- The session has these signals left, and keeps them when it sends.
    abbrev Left : S → Type 0
    Left s = Emitting.Left m w p live policies now signals s

    -- Where a session is returned, it has these signals left.
    abbrev Leaves : Option S → Type 0
    Leaves o = Allows Left o

    anything : {A : Type 0} (o : Option A) → Allows (λ _. Unit) o
    anything none = tt
    anything (some a) = tt

    accepted-Leaves :
        (type : ℕ) (req : Req m w p live policies) (accepted : List m.symbols.Symbol) (s : S)
        → Left s
        → Leaves (elim accepted as (λ _. Option S) [
          | [] ↦ some s
          | symbol ∷ symbols ↦
              elim (emit_accepted m w p live policies now type
                (record req { symbols = symbol ∷ symbols })
                s) [ none ↦ none | some (s'', _) ↦ some s'' ]
        ])
    accepted-Leaves type req [] s v = v
    accepted-Leaves type req (symbol ∷ symbols) s v =
        Allows-bind (λ r. Left r.0) Left
          (emit_accepted m w p live policies now type (record req { symbols = symbol ∷ symbols }) s)
          _
          (Emitting.emit_accepted-Left m w p live policies now signals type
            (record req { symbols = symbol ∷ symbols }) s v)
          (λ r h. h)

    re_subscribe-Leaves :
        (type : ℕ) (req : Req m w p live policies) (s : S)
        → Left s
        → Leaves (re_subscribe m w p live policies now type req s)
    unfolding re_subscribe
    re_subscribe-Leaves type req s v = elim (Option-cases req.req_id) [
      | inl e ↦ rw (re_subscribe, e) tt
      | inr (req_id, e) ↦
          rw (re_subscribe, e)
            (Allows-bind (λ _. Unit) Left
              (register_subscription_for m.symbols.intern now type req.symbols req_id s.controller)
              _ (anything _)
              (λ r _. accepted-Leaves type req r.1 (record s { controller = r.0 }) v))
    ]

    re_subscribe_all-Leaves :
        (type : ℕ) (reqs : List (Req m w p live policies)) (s : S)
        → Left s
        → Leaves (re_subscribe_all m w p live policies now type reqs s)
    unfolding re_subscribe_all
    re_subscribe_all-Leaves type [] s v = v
    re_subscribe_all-Leaves type (req ∷ reqs) s v =
        Allows-bind Left Left (re_subscribe m w p live policies now type req s) _
          (re_subscribe-Leaves type req s v) (λ t u. re_subscribe_all-Leaves type reqs t u)

    replay_types-Leaves :
        (count type : ℕ) (s : S)
        → Left s
        → Leaves (replay_types m w p live policies now count type s)
    unfolding replay_types
    replay_types-Leaves zero type s v = v
    replay_types-Leaves (suc count) type s v =
        let (subs, tables) = take_from m.symbols type s.replay_db in
        let t = record s { replay_db = tables } in
        Allows-bind Left Left (re_subscribe_all m w p live policies now type subs t) _
          (re_subscribe_all-Leaves type subs t v) (λ t u. replay_types-Leaves count (suc type) t u)

    either-Leaves : (b : Bool) (x y : Option S) → Leaves x → Leaves y → Leaves (if b then x else y)
    either-Leaves true x y u v = u
    either-Leaves false x y u v = v

    handle_connect-Leaves : (s : S) → Left s → Leaves (handle_connect m w p live policies now s)
    unfolding handle_connect do_replay
    handle_connect-Leaves s v =
        either-Leaves policies.replay _ (some s)
          (either-Leaves (ltb 1 s.connection.epoch) _ (some s)
            (replay_types-Leaves (length s.replay_db) 0 s v) v)
          v

    send_ping-Leaves : (s : S) → Left s → Leaves (send_ping m w p live policies now s)
    unfolding send_ping
    send_ping-Leaves s v = elim (Option-cases m.ping) [
      | inl e ↦ rw e v
      | inr (text, e) ↦ rw e (
          either-Leaves (not policies.proactive) (some s) _ v (
            either-Leaves (ltb m.max_ping_size (length text)) none _ tt
              (Emitting.send_text-Left m w p live policies now signals text s v)))
    ]

    handle_signal-Leaves :
        (sig : Signal) (s : S) → Left s → Leaves (handle_signal m w p live policies now sig s)
    unfolding handle_signal handle_disconnect
    handle_signal-Leaves no_signal s v = v
    handle_signal-Leaves signal_connected s v = handle_connect-Leaves s v
    handle_signal-Leaves signal_disconnected s v = v
    handle_signal-Leaves liveness_threatened s v = send_ping-Leaves s v
    handle_signal-Leaves signal_backpressure_detected s v = v
    handle_signal-Leaves signal_backpressure_cleared s v = v
    handle_signal-Leaves retry_immediate s v = v
    handle_signal-Leaves retry_scheduled s v = v

  popped :
      (sig : Signal) (signals : List Signal) (c : Conn w)
      → c.signals ≡ sig ∷ signals
      → (poll_signal w p live c).0.signals ≡ signals
  unfolding poll_signal
  popped sig signals c v = rw (poll_signal, v) refl

  -- The loop, in as many rounds as there are signals, leaves none.
  drained :
      (signals : List Signal) (s : S)
      → s.connection.signals ≡ signals
      → Leaves [] (drain_signals m w p live policies now (length signals) s)
  unfolding drain_signals poll_signal
  drained [] s v = v
  drained (sig ∷ signals) s v =
      let t = record s { connection = (poll_signal w p live s.connection).0 } in
      rw (drain_signals, v)
        (Allows-bind (Left signals) (Left []) (handle_signal m w p live policies now sig t) _
          (handle_signal-Leaves signals sig t (popped sig signals s.connection v))
          (drained signals))

  both :
      (n : ℕ) (o : Option S)
      → Returns (IsValid m w p live policies n) o
      → Leaves [] o
      → Returns (λ t. IsValid m w p live policies n t × (t.connection.signals ≡ [])) o
  both n none r l = r
  both n (some t) r l = (r, l)

  -- The loop of a session's poll over its signals, from a valid session, where the writers keep the
  -- sizes that they state: in as many rounds as there are signals, it returns a valid session
  -- without any.
  pub drain_signals-signals :
      (sized : IsSized m policies) (n : ℕ) (s : S)
      → IsValid m w p live policies n s
      → Returns
          (λ t. IsValid m w p live policies n t × (t.connection.signals ≡ []))
          (drain_signals m w p live policies now (length s.connection.signals) s)
  drain_signals-signals sized n s v =
      both n (drain_signals m w p live policies now (length s.connection.signals) s)
        (drain_signals-Returns m w p live policies n now sized (length s.connection.signals) s v)
        (drained s.connection.signals s refl)
