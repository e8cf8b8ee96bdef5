-- ===== src/Session/Signals.antt =====
-- include/wirekrak/core/protocol/session.hpp: what a session does on the signals of its connection,
-- and on what the message handler reports.
use wirekrak.Common.{
  ℕ, zero, suc, Bool, true, false, not, ◌&&◌, List, [], ◌∷◌, Option, none, some, if◌then◌else◌, ltb,
  length,
}
use wirekrak.Control.Consecutive
use wirekrak.Replay.Database.{remove_symbol, reject_in, take_from}
use wirekrak.Request.Scheduler.{Text}
use wirekrak.Subscription.Controller.{
  process_subscribe_ack_for, process_unsubscribe_ack_for, try_process_rejection_for, clear_all_for,
}
use wirekrak.Transport.Policy.{RetryPolicy, LivenessPolicy}
use wirekrak.Transport.State.{
  Signal, signal_connected, signal_disconnected, liveness_threatened, signal_backpressure_detected,
  signal_backpressure_cleared, WebSocket,
}
use wirekrak.Session.{Protocol, Policies, Report, subscribe_ack, unsubscribe_ack, rejection}
use wirekrak.Session.Requests.{Sess, Req, send_text, re_subscribe}

module _ (m : Protocol) {Endpoint : Type 0} (w : WebSocket Endpoint Text) (p : RetryPolicy)
    (live : LivenessPolicy) (policies : Policies) (now : ℕ) where
  -- The loop of `do_replay_` over the requests taken from a table.
  unfoldable pub re_subscribe_all :
      ℕ
      → List (Req m w p live policies)
      → Sess m w p live policies
      → Option (Sess m w p live policies)
  re_subscribe_all type [] s = some s
  re_subscribe_all type (req ∷ reqs) s = elim (re_subscribe m w p live policies now type req s) [
    | none ↦ none
    | some s' ↦ re_subscribe_all type reqs s'
  ]

  -- `replay_db_.for_each`, over `count` types from `type` on.
  unfoldable pub replay_types : ℕ → ℕ → Sess m w p live policies → Option (Sess m w p live policies)
  unfolding re_subscribe_all
  replay_types zero type s = some s
  replay_types (suc count) type s =
      let (subs, tables) = take_from m.symbols type s.replay_db in
      elim (re_subscribe_all type subs (record s { replay_db = tables })) [
        | none ↦ none
        | some s' ↦ replay_types count (suc type) s'
      ]

  unfoldable pub do_replay : Sess m w p live policies → Option (Sess m w p live policies)
  unfolding replay_types
  do_replay s = if ltb 1 s.connection.epoch then replay_types (length s.replay_db) 0 s else some s

  unfoldable pub handle_connect : Sess m w p live policies → Option (Sess m w p live policies)
  unfolding do_replay
  handle_connect s = if policies.replay then do_replay s else some s

  unfoldable pub handle_disconnect : Sess m w p live policies → Sess m w p live policies
  handle_disconnect s = record s {
    controller = clear_all_for now s.controller;
    overload = Consecutive.reset s.overload;
  }

  -- `send_request_(ProtocolModel::ping(...))`, through `send_static_request_` with its assertion,
  -- where the policy is proactive and there is a ping.
  unfoldable pub send_ping : Sess m w p live policies → Option (Sess m w p live policies)
  send_ping s = elim m.ping [
    | none ↦ some s
    | some text ↦
        if not policies.proactive
        then some s
        else if ltb m.max_ping_size (length text)
        then none
        else some (send_text m w p live policies now text s).0
  ]

  unfoldable pub handle_signal :
      Signal → Sess m w p live policies → Option (Sess m w p live policies)
  unfolding handle_connect handle_disconnect send_ping
  handle_signal signal s = elim signal [
    | signal_connected ↦ handle_connect s
    | signal_disconnected ↦ some (handle_disconnect s)
    | liveness_threatened ↦ send_ping s
    | signal_backpressure_detected ↦
        some (record s { overload = Consecutive.set_active true s.overload })
    | signal_backpressure_cleared ↦
        some (record s { overload = Consecutive.set_active false s.overload })
    | _ ↦ some s
  ]

  -- `Context::on_subscribe_ack`, `Context::on_unsubscribe_ack` and `handle_rejection_`.
  unfoldable pub on_subscribe_ack :
      ℕ → ℕ → m.symbols.Symbol → Bool → Sess m w p live policies → Option (Sess m w p live policies)
  on_subscribe_ack type req_id symbol success s =
      elim (process_subscribe_ack_for m.symbols.intern now type req_id symbol success
        s.controller) [
          | none ↦ none
          | some controller ↦ some (record s { controller = controller })
        ]

  unfoldable pub on_unsubscribe_ack :
      ℕ → ℕ → m.symbols.Symbol → Bool → Sess m w p live policies → Option (Sess m w p live policies)
  on_unsubscribe_ack type req_id symbol success s =
      elim (process_unsubscribe_ack_for m.symbols.intern now type req_id symbol success
        s.controller) [
          | none ↦ none
          | some controller ↦
              let s' = record s { controller = controller } in
              some (
                if policies.replay && success
                then record s' { replay_db = remove_symbol m.symbols type symbol s'.replay_db }
                else s')
        ]

  unfoldable pub handle_rejection :
      ℕ → m.symbols.Symbol → Sess m w p live policies → Sess m w p live policies
  handle_rejection req_id symbol s =
      let s' = record s {
        controller = (try_process_rejection_for m.symbols.intern now req_id symbol s.controller).0;
      } in
      if policies.replay
      then record s' { replay_db = (reject_in m.symbols req_id symbol s'.replay_db).0 }
      else s'

  unfoldable pub on_report :
      Report m.symbols.Symbol → Sess m w p live policies → Option (Sess m w p live policies)
  unfolding on_subscribe_ack on_unsubscribe_ack handle_rejection
  on_report (subscribe_ack type req_id symbol success) s =
      on_subscribe_ack type req_id symbol success s
  on_report (unsubscribe_ack type req_id symbol success) s =
      on_unsubscribe_ack type req_id symbol success s
  on_report (rejection req_id symbol) s = some (handle_rejection req_id symbol s)

  unfoldable pub on_reports :
      List (Report m.symbols.Symbol) → Sess m w p live policies → Option (Sess m w p live policies)
  unfolding on_report
  on_reports [] s = some s
  on_reports (report ∷ reports) s = elim (on_report report s) [
    | none ↦ none
    | some s' ↦ on_reports reports s'
  ]
