-- ===== src/Transport/Connection/Operations.antt =====
-- include/wirekrak/core/transport/connection.hpp, the operations of `Connection` on its state
-- machine: `open`, `send`, `poll` with the handlers of the control events, the liveness policy and
-- `reconnect_`, and the message and signal queues.
use wirekrak.Common.{
  ℕ, zero, suc, ◌+◌, ◌*◌, ◌-◌, ◌/◌, Bool, true, false, not, ◌&&◌, [], ◌∷◌, Option, none, some, ◌⊎◌,
  inl, inr, ltb, leb, if◌then◌else◌,
}
use wirekrak.Transport.Policy.{
  Error, no_error, invalid_state, timed_out, RetryPolicy, LivenessPolicy,
}
use wirekrak.Transport.State.{
  connecting, connected, waiting_reconnect, disconnected, open_requested, transport_connected,
  transport_connect_failed, transport_reconnect_failed, transport_closed, liveness_outdated,
  liveness_expired, retry_timer_expired, liveness_timeout, local_close, transport_error, Signal,
  signal_disconnected, signal_backpressure_detected, signal_backpressure_cleared, ControlEvent,
  ws_close, ws_error, backpressure_detected, backpressure_cleared, WebSocket,
}
use wirekrak.Transport.Connection.{Conn, increment, emit, create_transport, transition}

unfoldable pub is_no_error : Error → Bool
is_no_error error = elim error [ no_error ↦ true | _ ↦ false ]

module _ {Endpoint Message : Type 0} (w : WebSocket Endpoint Message) (p : RetryPolicy)
    (live : LivenessPolicy) where
  -- The clock's reading.
  module _ (now : ℕ) where
    -- `ws_->connect(...)`, whose result is kept in `last_error_`.
    unfoldable pub connect_transport : Endpoint → Conn w → Conn w × Error
    connect_transport endpoint s = elim s.ws [
      | none ↦ (s, s.last_error)
      | some socket ↦
          let (socket', events, error) = w.connect endpoint socket s.control_ring in
          (record s { ws = some socket'; control_ring = events; last_error = error }, error)
    ]

    -- Steps 2 to 5 of `open`, with the parsed URL.
    unfoldable pub open_endpoint : w.Socket → Endpoint → Conn w → Conn w × Error
    unfolding connect_transport create_transport
    open_endpoint fresh endpoint s =
        let s' =
          transition w p live now open_requested no_error
            (record s { last_error = no_error; parsed_url = some endpoint }) in
        let (s'', error) = connect_transport endpoint (create_transport w fresh s') in
        if is_no_error error
        then (transition w p live now transport_connected no_error s'', no_error)
        else (transition w p live now transport_connect_failed error s'', error)

    -- Steps 1 to 5 of `open`, given what `parse_url` makes of its argument.
    unfoldable pub open_url : w.Socket → Error ⊎ Endpoint → Conn w → Conn w × Error
    unfolding open_endpoint
    open_url fresh (inl error) s = (record s { last_error = error }, error)
    open_url fresh (inr endpoint) s = open_endpoint fresh endpoint s

    -- `open`.
    unfoldable pub open_connection : w.Socket → Error ⊎ Endpoint → Conn w → Conn w × Error
    unfolding open_url
    open_connection fresh url s = elim s.state [
      | disconnected ↦ open_url fresh url s
      | waiting_reconnect ↦ open_url fresh url s
      | _ ↦ (s, invalid_state)
    ]

    unfoldable pub send : Message → Conn w → Conn w × Bool
    send message s = elim s.state [
      | connected ↦ elim s.ws [
        | none ↦ (s, false)
        | some socket ↦
            let (socket', events, sent) = w.send message socket s.control_ring in
            let s' = record s { ws = some socket'; control_ring = events } in
            if sent
            then (record s' { tx_messages = increment s'.tx_messages; last_message_ts = now }, true)
            else (s', false)
      ]
      | _ ↦ (s, false)
    ]

    unfoldable pub on_transport_error : Error → Conn w → Conn w
    on_transport_error error s = elim s.disconnect_reason [
      | liveness_timeout ↦ s
      | local_close ↦ s
      | _ ↦ record s { last_error = error; disconnect_reason = transport_error }
    ]

    unfoldable pub on_transport_closed : Conn w → Conn w
    on_transport_closed s = elim s.state [
      | disconnected ↦ s
      | connecting ↦ s
      | _ ↦ transition w p live now transport_closed s.last_error (emit w signal_disconnected s)
    ]

    -- The switch of `poll` on a control event.
    unfoldable pub handle : ControlEvent → Conn w → Conn w
    unfolding on_transport_error on_transport_closed
    handle ws_close s = on_transport_closed s
    handle (ws_error error) s = on_transport_error error s
    handle backpressure_detected s = emit w signal_backpressure_detected s
    handle backpressure_cleared s = emit w signal_backpressure_cleared s

    -- The loop of `poll` that drains the control ring, in at most `fuel` rounds.
    unfoldable pub drain : ℕ → Conn w → Conn w
    drain zero s = s
    drain (suc fuel) s = elim s.control_ring [
      | [] ↦ s
      | event ∷ events ↦ drain fuel (handle event (record s { control_ring = events }))
    ]

    -- Steps 1 to 4 of `reconnect_`, with the URL that is kept.
    unfoldable pub reconnect_to : w.Socket → Endpoint → Conn w → Conn w
    unfolding connect_transport create_transport
    reconnect_to fresh endpoint s =
        let s' = transition w p live now retry_timer_expired no_error s in
        let (s'', error) = connect_transport endpoint (create_transport w fresh s') in
        if is_no_error error
        then transition w p live now transport_connected no_error s''
        else transition w p live now transport_reconnect_failed error s''

    -- `reconnect_` from WaitingReconnect; none where its assertion on the URL fails.
    unfoldable pub reconnect : w.Socket → Conn w → Option (Conn w)
    reconnect fresh s = elim s.parsed_url [
      | none ↦ none
      | some endpoint ↦ some (reconnect_to fresh endpoint s)
    ]

    unfoldable pub reconnect_if_due : w.Socket → Conn w → Option (Conn w)
    unfolding reconnect
    reconnect_if_due fresh s = elim s.state [
      | waiting_reconnect ↦ if leb s.next_retry now then reconnect fresh s else some s
      | _ ↦ some s
    ]

    -- Whether `liveness_remaining_() <= warning_remaining_threshold`, in milliseconds.
    unfoldable pub is_threatened : Conn w → Bool
    is_threatened s = leb live.message_timeout (
        live.message_timeout * (100 - live.warning_percent) / 100
        + (now - s.last_message_ts) / 1000000)

    unfoldable pub is_liveness_stale : Conn w → Bool
    is_liveness_stale s = ltb (live.message_timeout * 1000000) (now - s.last_message_ts)

    -- The warning check of `enforce_liveness_policy_`, and its timeout check.
    unfoldable pub check_warning : Conn w → Conn w
    unfolding is_threatened
    check_warning s =
        if s.liveness_warning_emitted
        then record s { liveness_warning_emitted = is_threatened s }
        else if is_threatened s
        then transition w p live now liveness_outdated no_error
            (record s { liveness_warning_emitted = true })
        else s

    unfoldable pub check_timeout : Conn w → Conn w
    unfolding is_liveness_stale
    check_timeout s =
        if not s.liveness_timeout_emitted && is_liveness_stale s
        then transition w p live now liveness_expired timed_out
            (record s { liveness_timeout_emitted = true })
        else s

    unfoldable pub enforce_liveness_policy : Conn w → Conn w
    enforce_liveness_policy s = elim s.state [ connected ↦ check_timeout (check_warning s) | _ ↦ s ]

    unfoldable pub poll : ℕ → w.Socket → Conn w → Option (Conn w)
    poll fuel fresh s = elim s.state [
      | disconnected ↦ some s
      | _ ↦ elim (reconnect_if_due fresh (drain fuel s)) [
        | none ↦ none
        | some s' ↦ some (if live.enabled then enforce_liveness_policy s' else s')
      ]
    ]

    -- `peek_message`.
    unfoldable pub peek_message : Conn w → Conn w × Option Message
    peek_message s = elim s.message_ring [
      | [] ↦ (s, none)
      | message ∷ messages ↦
          (record s { rx_messages = increment s.rx_messages; last_message_ts = now }, some message)
    ]

  -- `release_message`.
  unfoldable pub release_message : Conn w → Conn w
  release_message s = elim s.message_ring [
    | [] ↦ s
    | message ∷ messages ↦ record s { message_ring = messages }
  ]

  unfoldable pub poll_signal : Conn w → Conn w × Option Signal
  poll_signal s = elim s.signals [
    | [] ↦ (s, none)
    | sig ∷ signals ↦ (record s { signals = signals }, some sig)
  ]
