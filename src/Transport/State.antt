-- ===== src/Transport/State.antt =====
-- include/wirekrak/core/transport/state.hpp, connection/signal.hpp and websocket/events.hpp: the
-- enumerations of the connection's state machine.
use wirekrak.Common.{Bool, List}
use wirekrak.Transport.Policy.{Error}

pub data State : Type 0 where
  connecting connected disconnecting waiting_reconnect disconnected unknown : State

pub data Event : Type 0 where
  open_requested close_requested : Event
  transport_connected transport_connect_failed transport_reconnect_failed transport_closed : Event
  liveness_outdated liveness_expired : Event
  retry_timer_expired : Event

pub data DisconnectReason : Type 0 where
  no_reason local_close transport_error liveness_timeout : DisconnectReason

pub data Signal : Type 0 where
  no_signal signal_connected signal_disconnected : Signal
  retry_immediate retry_scheduled : Signal
  liveness_threatened : Signal
  signal_backpressure_detected signal_backpressure_cleared : Signal

-- The control events that a WebSocket transport hands to its connection.
pub data ControlEvent : Type 0 where
  ws_close : ControlEvent
  ws_error : Error → ControlEvent
  backpressure_detected : ControlEvent
  backpressure_cleared : ControlEvent

-- What a connection uses of its WebSocket transport. `connect`, `send` and `close` may put events
-- on the control ring.
pub record WebSocket (Endpoint Message : Type 0) : Type 1 where
  pub Socket : Type 0
  pub connect : Endpoint → Socket → List ControlEvent → Socket × List ControlEvent × Error
  pub send : Message → Socket → List ControlEvent → Socket × List ControlEvent × Bool
  pub close : Socket → List ControlEvent → Socket × List ControlEvent
