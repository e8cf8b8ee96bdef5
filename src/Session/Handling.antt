-- ===== src/Session/Handling.antt =====
-- What a session does on signals and reports returns, and keeps it valid.
use wirekrak.Common.{
  ◌+◌, ◌≤◌, ℕ, zero, suc, ◌<◌, ◌≡◌, Bool, true, false, ◌&&◌, ltb, List, [], ◌∷◌, Option, some,
  length, All, arith, Returns, Returns-bind, if◌then◌else◌, not, Bool-cases, Option-cases, inl, inr,
}
use wirekrak.Replay.Database.{remove_symbol}
use wirekrak.Replay.Database.Total.{AllIdentified, remove_symbol-AllStored}
use wirekrak.Request.Scheduler.{Text}
use wirekrak.Subscription.Controller.Total.{AllValid}
use wirekrak.Transport.Policy.{RetryPolicy, LivenessPolicy}
use wirekrak.Transport.State.{WebSocket}
use wirekrak.Transport.Connection.{Conn}
use wirekrak.Transport.Connection.Invariant.{is_settled}
use wirekrak.Session.{Protocol, Policies, IsSized}
use wirekrak.Session.Requests.{Sess, Req, re_subscribe}
use wirekrak.Session.Invariant.{IsValid, recontrol, restore, chosen}
use wirekrak.Control.Consecutive
use wirekrak.Transport.State.{
  Signal, signal_connected, signal_disconnected, liveness_threatened, signal_backpressure_detected,
  signal_backpressure_cleared, retry_immediate, retry_scheduled, no_signal,
}
use wirekrak.Replay.Database.{take_from}
use wirekrak.Replay.Database.Total.{take_from-AllStored, reject_in-AllStored}
use wirekrak.Subscription.Controller.{
  process_subscribe_ack_for, process_unsubscribe_ack_for, try_process_rejection_for,
}
use wirekrak.Subscription.Controller.Total.{
  process_subscribe_ack_for-Returns, process_unsubscribe_ack_for-Returns,
  try_process_rejection_for-AllValid, clear_all_for-AllValid,
}
use wirekrak.Session.{Report, subscribe_ack, unsubscribe_ack, rejection}
use wirekrak.Session.Invariant.{send_text-IsValid}
use wirekrak.Session.Subscribing.{re_subscribe-Returns}
use wirekrak.Session.Signals.{
  re_subscribe_all, replay_types, do_replay, handle_connect, handle_disconnect, send_ping,
  handle_signal, on_subscribe_ack, on_unsubscribe_ack, handle_rejection, on_report, on_reports,
}

module _ (m : Protocol) {Endpoint : Type 0} (w : WebSocket Endpoint Text) (p : RetryPolicy)
    (live : LivenessPolicy) (policies : Policies) (n now : ℕ) where
  -- A session of these parameters, and the invariant on it.
  abbrev pub S : Type 0
  S = Sess m w p live policies

  abbrev pub Valid : S → Type 0
  Valid s = IsValid m w p live policies n s

  pub replane : (plane : m.Plane) (s : S) → Valid s → Valid (record s { plane = plane })
  replane plane s v = record { managers = v.managers; tables = v.tables; connection = v.connection }

  pub reload : (o : Consecutive.StateCounter) (s : S) → Valid s → Valid (record s { overload = o })
  reload o s v = record { managers = v.managers; tables = v.tables; connection = v.connection }

  pub reconnect :
      (c : Conn w) (s : S)
      → Valid s
      → is_settled w p live c ≡ true
      → Valid (record s { connection = c })
  reconnect c s v e = record { managers = v.managers; tables = v.tables; connection = e }

  module _ (sized : IsSized m policies) where
    re_subscribe_all-Returns :
        (type : ℕ) (reqs : List (Req m w p live policies)) (s : S)
        → type < n
        → AllIdentified m.symbols reqs
        → Valid s
        → Returns Valid (re_subscribe_all m w p live policies now type reqs s)
    unfolding re_subscribe_all
    re_subscribe_all-Returns type [] s l i v = v
    re_subscribe_all-Returns type (req ∷ reqs) s l i v =
        Returns-bind Valid Valid (re_subscribe m w p live policies now type req s) _
          (re_subscribe-Returns m w p live policies n now sized type l req s i.0.0 v)
          (λ s' v'. re_subscribe_all-Returns type reqs s' l i.1 v')

    replay_types-Returns :
        (count type : ℕ) (s : S)
        → type + count ≤ n
        → Valid s
        → Returns Valid (replay_types m w p live policies now count type s)
    unfolding replay_types
    replay_types-Returns zero type s l v = v
    replay_types-Returns (suc count) type s l v =
        let (subs, tables) = take_from m.symbols type s.replay_db in
        let (identified, stored) = take_from-AllStored m.symbols type n s.replay_db v.tables in
        Returns-bind Valid Valid
          (re_subscribe_all m w p live policies now type subs (record s { replay_db = tables })) _
          (re_subscribe_all-Returns type subs (record s { replay_db = tables }) (omega arith)
            identified (restore m w p live policies n now tables s v stored))
          (λ s' v'. replay_types-Returns count (suc type) s' (omega arith) v')

    either :
        (b : Bool) (o : Option S) (s : S)
        → Returns Valid o
        → Valid s
        → Returns Valid (if b then o else some s)
    either true o s h v = h
    either false o s h v = v

    handle_connect-Returns :
        (s : S) → Valid s → Returns Valid (handle_connect m w p live policies now s)
    unfolding handle_connect do_replay
    handle_connect-Returns s v =
        either policies.replay _ s
          (either (ltb 1 s.connection.epoch) _ s
            (replay_types-Returns (length s.replay_db) 0 s (omega (arith, v.tables.1)) v) v)
          v

    handle_disconnect-IsValid :
        (s : S) → Valid s → Valid (handle_disconnect m w p live policies now s)
    unfolding handle_disconnect
    handle_disconnect-IsValid s v = reload _ _ (
        recontrol m w p live policies n now _ s v
          (clear_all_for-AllValid now n s.controller v.managers))

    send_ping-Returns : (s : S) → Valid s → Returns Valid (send_ping m w p live policies now s)
    unfolding send_ping
    send_ping-Returns s v = elim (Option-cases m.ping) [
      | inl e ↦ rw e v
      | inr (text, e) ↦
          let fits : ltb m.max_ping_size (length text) ≡ false =
            ground (arith, sized.ping text e) in
          elim (Bool-cases (not policies.proactive)) [
            | inl f ↦ rw (e, f) v
            | inr f ↦ rw (e, f, fits) (send_text-IsValid m w p live policies n now text s v)
          ]
    ]

    pub handle_signal-Returns :
        (sig : Signal) (s : S)
        → Valid s
        → Returns Valid (handle_signal m w p live policies now sig s)
    unfolding handle_signal
    handle_signal-Returns signal_connected s v = handle_connect-Returns s v
    handle_signal-Returns signal_disconnected s v = handle_disconnect-IsValid s v
    handle_signal-Returns liveness_threatened s v = send_ping-Returns s v
    handle_signal-Returns signal_backpressure_detected s v = reload _ s v
    handle_signal-Returns signal_backpressure_cleared s v = reload _ s v
    handle_signal-Returns retry_immediate s v = v
    handle_signal-Returns retry_scheduled s v = v
    handle_signal-Returns no_signal s v = v

  -- The type of a report is one that the session has.
  abbrev pub IsTyped : Report m.symbols.Symbol → Type 0
  IsTyped (subscribe_ack type req_id symbol success) = type < n
  IsTyped (unsubscribe_ack type req_id symbol success) = type < n
  IsTyped (rejection req_id symbol) = Unit

  unsubscribed :
      (type : ℕ) (symbol : m.symbols.Symbol) (success : Bool) (s : S)
      → Valid s
      → Valid (
          if policies.replay && success
          then record s { replay_db = remove_symbol m.symbols type symbol s.replay_db }
          else s)
  unsubscribed type symbol success s v =
      chosen m w p live policies n now (policies.replay && success) _ s
        (restore m w p live policies n now _ s v
          (remove_symbol-AllStored m.symbols type n symbol s.replay_db v.tables))
        v

  handle_rejection-IsValid :
      (req_id : ℕ) (symbol : m.symbols.Symbol) (s : S)
      → Valid s
      → Valid (handle_rejection m w p live policies now req_id symbol s)
  unfolding handle_rejection
  handle_rejection-IsValid req_id symbol s v =
      let c = (try_process_rejection_for m.symbols.intern now req_id symbol s.controller).0 in
      let v' = recontrol m w p live policies n now c s v (
        try_process_rejection_for-AllValid m.symbols.intern now req_id n symbol s.controller
          v.managers) in
      chosen m w p live policies n now policies.replay _ (record s { controller = c })
        (restore m w p live policies n now _ (record s { controller = c }) v'
          (reject_in-AllStored m.symbols n req_id symbol s.replay_db v.tables))
        v'

  on_report-Returns :
      (report : Report m.symbols.Symbol) (s : S)
      → IsTyped report
      → Valid s
      → Returns Valid (on_report m w p live policies now report s)
  unfolding on_report on_subscribe_ack on_unsubscribe_ack
  on_report-Returns (subscribe_ack type req_id symbol success) s l v =
      Returns-bind (λ c. AllValid n c.managers) Valid
        (process_subscribe_ack_for m.symbols.intern now type req_id symbol success s.controller) _
        (process_subscribe_ack_for-Returns m.symbols.intern now type n l s.controller v.managers
          req_id symbol success)
        (λ c h. recontrol m w p live policies n now c s v h)
  on_report-Returns (unsubscribe_ack type req_id symbol success) s l v =
      Returns-bind (λ c. AllValid n c.managers) Valid
        (process_unsubscribe_ack_for m.symbols.intern now type req_id symbol success s.controller) _
        (process_unsubscribe_ack_for-Returns m.symbols.intern now type n l s.controller v.managers
          req_id symbol success)
        (λ c h.
          unsubscribed type symbol success (record s { controller = c })
            (recontrol m w p live policies n now c s v h))
  on_report-Returns (rejection req_id symbol) s l v = handle_rejection-IsValid req_id symbol s v

  pub on_reports-Returns :
      (reports : List (Report m.symbols.Symbol)) (s : S)
      → All IsTyped reports
      → Valid s
      → Returns Valid (on_reports m w p live policies now reports s)
  unfolding on_reports
  on_reports-Returns [] s l v = v
  on_reports-Returns (report ∷ reports) s l v =
      Returns-bind Valid Valid (on_report m w p live policies now report s) _
        (on_report-Returns report s l.0 v) (λ s' v'. on_reports-Returns reports s' l.1 v')
