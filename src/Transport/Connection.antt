-- ===== src/Transport/Connection.antt =====
-- include/wirekrak/core/transport/connection.hpp, the state machine of `Connection`: its fields,
-- `emit_`, `close`, `transition_` and the steps these take. The WebSocket transport is the
-- parameter `w`; the rings are lists, oldest element first; `now` is the reading of the steady
-- clock in nanoseconds.
pub mod Operations
pub mod Invariant
pub mod Attempts
pub mod Polling
pub mod Closing
pub mod Liveness
pub mod Draining
pub mod Epochs
pub mod Observers
use wirekrak.Common.{
  ℕ, ◌+◌, ◌*◌, ◌%◌, ◌^◌, Bool, true, false, not, ◌&&◌, List, [], ◌∷◌, ◌++◌, Option, none, some, ltb,
  leb, if◌then◌else◌, length,
}
use wirekrak.Transport.Policy.{
  Error, no_error, never, RetryPolicy, LivenessPolicy, backoff, should_retry,
}
use wirekrak.Transport.State.{
  State, connecting, connected, disconnecting, waiting_reconnect, disconnected, unknown, Event,
  open_requested, close_requested, transport_connected, transport_connect_failed,
  transport_reconnect_failed, transport_closed, liveness_outdated, liveness_expired,
  retry_timer_expired, DisconnectReason, no_reason, local_close, transport_error, liveness_timeout,
  Signal, signal_connected, retry_immediate, retry_scheduled, liveness_threatened, ControlEvent,
  WebSocket,
}

pub record Connection (Endpoint Message Socket : Type 0) : Type 0 where
  pub parsed_url : Option Endpoint
  pub control_ring : List ControlEvent
  pub message_ring : List Message
  pub ws : Option Socket
  pub epoch : ℕ
  pub rx_messages : ℕ
  pub tx_messages : ℕ
  pub last_message_ts : ℕ
  pub liveness_warning_emitted : Bool
  pub liveness_timeout_emitted : Bool
  pub last_error : Error
  pub retry_root_error : Error
  pub disconnect_reason : DisconnectReason
  pub state : State
  pub next_retry : ℕ
  pub retry_attempts : ℕ
  pub signals : List Signal

-- A new connection, made at the time `now`.
unfoldable pub new_connection :
    {Endpoint Message Socket : Type 0} → ℕ → Connection Endpoint Message Socket
new_connection now = record {
  parsed_url = none;
  control_ring = [];
  message_ring = [];
  ws = none;
  epoch = 0;
  rx_messages = 0;
  tx_messages = 0;
  last_message_ts = now;
  liveness_warning_emitted = false;
  liveness_timeout_emitted = false;
  last_error = no_error;
  retry_root_error = no_error;
  disconnect_reason = no_reason;
  state = disconnected;
  next_retry = 0;
  retry_attempts = 0;
  signals = [];
}

-- `SIGNAL_RING_CAPACITY - 1`, the number of signals that the ring holds.
abbrev pub signal_capacity : ℕ
signal_capacity = 63

-- `++` on a `std::uint64_t`.
abbrev pub increment : ℕ → ℕ
increment n = (n + 1) % 2 ^ 64

module _ {Endpoint Message : Type 0} (w : WebSocket Endpoint Message) where
  open w use {Socket}

  abbrev pub Conn : Type 0
  Conn = Connection Endpoint Message Socket

  -- `ws_->close()`.
  unfoldable pub close_transport : Conn → Conn
  close_transport s = elim s.ws [
    | none ↦ s
    | some socket ↦
        let (closed, events) = w.close socket s.control_ring in
        record s { ws = some closed; control_ring = events }
  ]

  unfoldable pub destroy_transport_if_needed : Conn → Conn
  destroy_transport_if_needed s = elim s.ws [
    | none ↦ s
    | some socket ↦ record s { ws = none; control_ring = (w.close socket s.control_ring).1 }
  ]

  -- The rings are cleared for the transport `fresh` that the epoch starts with.
  unfoldable pub create_transport : Socket → Conn → Conn
  create_transport fresh s = record s { control_ring = []; message_ring = []; ws = some fresh }

  -- The rows of `transition_` for the event CloseRequested.
  unfoldable pub request_close : Conn → Conn
  unfolding destroy_transport_if_needed close_transport
  request_close s = elim s.state [
    | connecting ↦ destroy_transport_if_needed (record s { state = disconnected })
    | connected ↦
        close_transport (record s { disconnect_reason = local_close; state = disconnecting })
    | waiting_reconnect ↦ destroy_transport_if_needed (record s { state = disconnected })
    | disconnecting ↦ s
    | disconnected ↦ s
    | unknown ↦ s
  ]

  unfoldable pub close : Conn → Conn
  unfolding request_close
  close s = elim s.state [ disconnected ↦ s | disconnecting ↦ s | _ ↦ request_close s ]

  unfoldable pub emit : Signal → Conn → Conn
  unfolding close
  emit sig s =
      if ltb (length s.signals) signal_capacity
      then record s { signals = s.signals ++ sig ∷ [] }
      else close s

  module _ (p : RetryPolicy) (live : LivenessPolicy) where
    unfoldable pub arm_immediate_reconnect : Error → Conn → Conn
    unfolding emit
    arm_immediate_reconnect error s = record (emit retry_immediate s) {
      retry_root_error = error;
      retry_attempts = 1;
      next_retry = 0;
    }

    -- `schedule_next_retry_` past its limit on the attempts.
    unfoldable pub delay_next_retry : ℕ → Conn → Conn
    unfolding emit
    delay_next_retry now s =
        let s' = emit retry_scheduled s in
        record s' {
          retry_attempts = s'.retry_attempts + 1;
          next_retry = now + backoff p s'.retry_root_error s'.retry_attempts * 1000000;
        }

    unfoldable pub schedule_next_retry : ℕ → Conn → Conn
    unfolding delay_next_retry
    schedule_next_retry now s = elim p.mode [
      | never ↦ record s { state = disconnected }
      | _ ↦
          if ltb 0 p.max_attempts && leb p.max_attempts s.retry_attempts
          then record s { state = disconnected }
          else delay_next_retry now s
    ]

    -- The row of `transition_` for TransportConnected while Connecting.
    unfoldable pub enter_connected : ℕ → Conn → Conn
    unfolding emit
    enter_connected now s =
        let s' = emit signal_connected (record s { state = connected }) in
        record s' {
          retry_attempts = 0;
          retry_root_error = no_error;
          last_message_ts = now;
          liveness_warning_emitted = not live.enabled && s'.liveness_warning_emitted;
          liveness_timeout_emitted = not live.enabled && s'.liveness_timeout_emitted;
          disconnect_reason = no_reason;
          epoch = increment s'.epoch;
        }

    -- The rows for a failed first attempt and for a failed attempt to reconnect.
    unfoldable pub fail_connect : Error → Conn → Conn
    unfolding arm_immediate_reconnect destroy_transport_if_needed
    fail_connect error s =
        if should_retry p error
        then arm_immediate_reconnect error
            (destroy_transport_if_needed (record s { state = waiting_reconnect }))
        else record (destroy_transport_if_needed (record s { state = disconnected })) {
          disconnect_reason = transport_error;
        }

    unfoldable pub fail_reconnect : ℕ → Error → Conn → Conn
    unfolding schedule_next_retry destroy_transport_if_needed
    fail_reconnect now error s =
        let s' = record s { disconnect_reason = transport_error } in
        if should_retry p error
        then schedule_next_retry now
            (destroy_transport_if_needed (record s' { state = waiting_reconnect }))
        else destroy_transport_if_needed (record s' { state = disconnected })

    unfoldable pub is_local_close : DisconnectReason → Bool
    is_local_close reason = elim reason [ local_close ↦ true | _ ↦ false ]

    -- The rows for TransportClosed while Connected or Disconnecting.
    unfoldable pub resolve_closed : Conn → Conn
    unfolding arm_immediate_reconnect destroy_transport_if_needed is_local_close
    resolve_closed s =
        if not (is_local_close s.disconnect_reason) && should_retry p s.last_error
        then arm_immediate_reconnect s.last_error
            (destroy_transport_if_needed (record s { state = waiting_reconnect }))
        else destroy_transport_if_needed (record s { state = disconnected })

    -- The row for LivenessExpired while Connected.
    unfoldable pub expire_liveness : Error → Conn → Conn
    unfolding close_transport
    expire_liveness error s = close_transport (record s {
      last_error = error;
      disconnect_reason = liveness_timeout;
      state = disconnecting;
    })

    unfoldable pub transition : ℕ → Event → Error → Conn → Conn
    transition now event error s = elim s.state [
      | disconnected ↦ elim event [ open_requested ↦ record s { state = connecting } | _ ↦ s ]
      | connecting ↦ elim event [
        | transport_connected ↦ enter_connected now s
        | transport_connect_failed ↦ fail_connect error s
        | transport_reconnect_failed ↦ fail_reconnect now error s
        | transport_closed ↦ destroy_transport_if_needed (record s { state = disconnected })
        | close_requested ↦ request_close s
        | _ ↦ s
      ]
      | connected ↦ elim event [
        | liveness_outdated ↦ emit liveness_threatened s
        | liveness_expired ↦ expire_liveness error s
        | close_requested ↦ request_close s
        | transport_closed ↦ resolve_closed s
        | _ ↦ s
      ]
      | disconnecting ↦ elim event [ transport_closed ↦ resolve_closed s | _ ↦ s ]
      | waiting_reconnect ↦ elim event [
        | retry_timer_expired ↦ record s { state = connecting }
        | open_requested ↦ record s { state = connecting }
        | close_requested ↦ request_close s
        | _ ↦ s
      ]
      | unknown ↦ s
    ]
