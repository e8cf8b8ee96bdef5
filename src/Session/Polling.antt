-- ===== src/Session/Polling.antt =====
-- include/wirekrak/core/protocol/session.hpp: `poll` with its loops over the signals and the
-- messages, the paced requests, the backpressure policy, and what a session lets its owner observe.
use wirekrak.Common.{
  ℕ, zero, suc, Bool, true, false, not, ◌&&◌, Option, none, some, if◌then◌else◌, leb, length, ◌⊎◌,
}
use wirekrak.Control.Consecutive
use wirekrak.Request.Scheduler
use wirekrak.Request.Scheduler.{Text, paced}
use wirekrak.Subscription.Controller
use wirekrak.Transport.Policy.{Error, RetryPolicy, LivenessPolicy}
use wirekrak.Transport.State.{WebSocket}
use wirekrak.Transport.Connection.{close}
use wirekrak.Transport.Connection.Operations
use wirekrak.Transport.Connection.Operations.{
  open_connection, is_no_error, poll_signal, peek_message, release_message,
}
use wirekrak.Transport.Connection.Observers
use wirekrak.Session.{Protocol, Policies, MessageResult, backpressure, max_messages_per_poll}
use wirekrak.Session.Requests.{Sess, send_text}
use wirekrak.Session.Signals.{handle_signal, on_reports}

module _ (m : Protocol) {Endpoint : Type 0} (w : WebSocket Endpoint Text) (p : RetryPolicy)
    (live : LivenessPolicy) (policies : Policies) where
  unfoldable pub close_session : Sess m w p live policies → Sess m w p live policies
  close_session s = record s { connection = close w s.connection }

  module _ (now : ℕ) where
    unfoldable pub connect :
        w.Socket → Error ⊎ Endpoint → Sess m w p live policies → Sess m w p live policies × Bool
    connect fresh url s =
        let (connection, error) = open_connection w p live now fresh url s.connection in
        (record s { connection = connection }, is_no_error error)

    -- The loop of `poll` over the signals, in at most `fuel` rounds.
    unfoldable pub drain_signals : ℕ → Sess m w p live policies → Option (Sess m w p live policies)
    drain_signals zero s = some s
    drain_signals (suc fuel) s =
        let (connection, signal) = poll_signal w p live s.connection in
        elim signal [
          | none ↦ some s
          | some sig ↦
              elim (handle_signal m w p live policies now sig
                (record s { connection = connection })) [
                  | none ↦ none
                  | some s' ↦ drain_signals fuel s'
                ]
        ]

    unfoldable pub is_backpressure : MessageResult → Bool
    is_backpressure result = elim result [ backpressure ↦ true | _ ↦ false ]

    -- What `poll` does with a message: whether it has to stop is the second result.
    unfoldable pub handle_message :
        Text → Sess m w p live policies → Option (Sess m w p live policies × Bool)
    unfolding is_backpressure
    handle_message text s =
        let (plane, reports, result) = m.on_message text s.plane in
        elim (on_reports m w p live policies now reports (record s { plane = plane })) [
          | none ↦ none
          | some s' ↦ some (
            record s' { connection = release_message w p live s'.connection },
            is_backpressure result,
          )
        ]

    -- The loop of `poll` over the messages, at most `count` of them.
    unfoldable pub process_messages :
        ℕ → Sess m w p live policies → Option (Sess m w p live policies)
    unfolding handle_message
    process_messages zero s = some s
    process_messages (suc count) s =
        let (connection, message) = peek_message w p live now s.connection in
        elim message [
          | none ↦ some s
          | some text ↦ elim (handle_message text (record s { connection = connection })) [
            | none ↦ none
            | some (s', stop) ↦ elim stop [ true ↦ some s' | false ↦ process_messages count s' ]
          ]
        ]

    -- The paced requests of `poll`: the request at the front is sent and released.
    unfoldable pub send_next :
        Scheduler.Scheduler → Sess m w p live policies → Sess m w p live policies
    send_next scheduler s = elim (Scheduler.peek scheduler) [
      | none ↦ record s { request_scheduler = scheduler }
      | some text ↦ record (send_text m w p live policies now text s).0 {
        request_scheduler = Scheduler.release scheduler;
      }
    ]

    unfoldable pub send_due : Sess m w p live policies → Sess m w p live policies
    unfolding send_next
    send_due s =
        let polled = Scheduler.poll s.request_scheduler in
        let (scheduler, due) = Scheduler.should_send policies.batching polled in
        if Scheduler.idle polled
        then record s { request_scheduler = polled }
        else if not due
        then record s { request_scheduler = scheduler }
        else send_next scheduler s

    unfoldable pub send_paced : Sess m w p live policies → Sess m w p live policies
    unfolding send_due
    send_paced s = elim policies.batching.mode [ paced ↦ send_due s | _ ↦ s ]

    -- `enforce_backpressure_policy_`, with `enforce_transport_backpressure_policy_`.
    unfoldable pub enforce_backpressure_policy : Sess m w p live policies → Sess m w p live policies
    enforce_backpressure_policy s =
        let overload = Consecutive.next_frame s.overload in
        if overload.active
          && not policies.zero_tolerance
          && leb policies.escalation_threshold overload.consecutive
        then record s { connection = close w s.connection; overload = Consecutive.reset overload }
        else record s { overload = overload }

    -- `fuel` bounds the loop of the connection's poll, and `fresh` is the transport that it would
    -- create.
    unfoldable pub poll :
        ℕ → w.Socket → Sess m w p live policies → Option (Sess m w p live policies)
    unfolding drain_signals process_messages send_paced enforce_backpressure_policy
    poll fuel fresh s = elim (Operations.poll w p live now fuel fresh s.connection) [
      | none ↦ none
      | some connection ↦
          elim (drain_signals (length connection.signals) (record s { connection = connection })) [
            | none ↦ none
            | some s' ↦ elim (process_messages max_messages_per_poll s') [
              | none ↦ none
              | some s'' ↦ some (enforce_backpressure_policy (send_paced s''))
            ]
          ]
    ]

    unfoldable pub is_quiescent : Sess m w p live policies → Bool
    is_quiescent s =
        Observers.is_idle w now s.connection
        && Controller.is_quiescent s.controller
        && m.is_plane_empty s.plane

    unfoldable pub is_idle : Sess m w p live policies → Bool
    unfolding is_quiescent
    is_idle s =
        if is_quiescent s
        then true
        else if not policies.progress
        then false
        else Controller.is_idle policies.progress policies.progress_timeout now s.controller

    unfoldable pub is_stalled : Sess m w p live policies → Bool
    unfolding is_quiescent is_idle
    is_stalled s = not (is_quiescent s) && is_idle s
