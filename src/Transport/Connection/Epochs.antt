-- ===== src/Transport/Connection/Epochs.antt =====
-- The epoch counts the connections made.
use wirekrak.Common.{ℕ, zero, suc, ◌≡◌, refl, inl, inr, if◌then◌else◌, arith, ap, ◌∙◌, List-cases}
use wirekrak.Transport.Policy.{RetryPolicy, LivenessPolicy}
use wirekrak.Transport.State.{
  WebSocket, ControlEvent, ws_close, ws_error, backpressure_detected, backpressure_cleared,
}
use wirekrak.Transport.Connection.{
  increment, Conn, close_transport, destroy_transport_if_needed, create_transport, request_close,
  close, emit, arm_immediate_reconnect, enter_connected, fail_connect, resolve_closed, transition,
}
use wirekrak.Transport.Connection.Operations.{
  is_no_error, connect_transport, open_endpoint, open_url, open_connection, on_transport_error,
  on_transport_closed, handle, drain,
}
use wirekrak.Transport.Connection.Invariant.{drain-nil, drain-cons}

module _ {Endpoint Message : Type 0} (w : WebSocket Endpoint Message) (p : RetryPolicy)
    (live : LivenessPolicy) where
  -- Draining the control ring, sending and closing leave the epoch as it is.
  handle-epoch :
      (now : ℕ) (event : ControlEvent) (s : Conn w) → (handle w p live now event s).epoch ≡ s.epoch
  unfolding handle on_transport_closed on_transport_error transition resolve_closed
      arm_immediate_reconnect emit close request_close close_transport destroy_transport_if_needed
  handle-epoch now ws_close s = ground arith
  handle-epoch now (ws_error error) s = ground arith
  handle-epoch now backpressure_detected s = ground arith
  handle-epoch now backpressure_cleared s = ground arith

  drain-epoch : (now fuel : ℕ) (s : Conn w) → (drain w p live now fuel s).epoch ≡ s.epoch
  unfolding drain
  drain-epoch now zero s = refl
  drain-epoch now (suc fuel) s = elim (List-cases s.control_ring) [
    | inl c ↦ ap (λ t. t.epoch) (drain-nil w p live now fuel s c)
    | inr (event, events, c) ↦
        let taken = record s { control_ring = events } in
        ap (λ t. t.epoch) (drain-cons w p live now fuel event events s c)
        ∙ drain-epoch now fuel (handle w p live now event taken)
        ∙ handle-epoch now event taken
  ]

  -- Opening a parsed URL advances the epoch exactly when the call reports no error.
  pub open_connection-epoch :
      (now : ℕ) (fresh : w.Socket) (endpoint : Endpoint) (s : Conn w)
      → let (s', error) = open_connection w p live now fresh (inr endpoint) s in
        s'.epoch ≡ (if is_no_error error then increment s.epoch else s.epoch)
  unfolding open_connection open_url open_endpoint connect_transport create_transport transition
      enter_connected fail_connect arm_immediate_reconnect emit close request_close close_transport
      destroy_transport_if_needed is_no_error
  open_connection-epoch now fresh endpoint s = ground arith
