-- ===== src/Transport/Connection/Invariant.antt =====
-- The invariant of the connection between two of its operations: the attempt to connect is over,
-- the socket is there exactly when the state needs it, a retry has a URL and a retryable cause, and
-- the signals fit into their ring.
use wirekrak.Common.{
  ℕ, zero, suc, ◌≡◌, refl, ◌≤◌, Bool, true, false, not, ◌&&◌, List, [], ◌∷◌, inl, inr, leb, is_some,
  length, length-append, arith, List-cases,
}
use wirekrak.Transport.Policy.{RetryPolicy, LivenessPolicy, should_retry}
use wirekrak.Transport.State.{
  Signal, WebSocket, ControlEvent, connecting, connected, disconnecting, waiting_reconnect,
  disconnected, unknown, retry_immediate, signal_backpressure_detected, signal_backpressure_cleared,
  signal_disconnected, ws_close, ws_error, backpressure_detected, backpressure_cleared,
}
use wirekrak.Transport.Connection.{
  signal_capacity, Conn, close_transport, destroy_transport_if_needed, request_close, close, emit,
  arm_immediate_reconnect, is_local_close, resolve_closed, transition,
}
use wirekrak.Transport.Connection.Operations.{
  on_transport_error, on_transport_closed, handle, drain,
}

module _ {Endpoint Message : Type 0} (w : WebSocket Endpoint Message) (p : RetryPolicy)
    (live : LivenessPolicy) where
  unfoldable pub is_settled : Conn w → Bool
  is_settled s = leb (length s.signals) signal_capacity && elim s.state [
    | connecting ↦ false
    | connected ↦ is_some s.ws && is_some s.parsed_url
    | disconnecting ↦ is_some s.ws && is_some s.parsed_url
    | waiting_reconnect ↦
        not (is_some s.ws) && is_some s.parsed_url && should_retry p s.retry_root_error
    | disconnected ↦ not (is_some s.ws)
    | unknown ↦ false
  ]

  pub close-settled : (s : Conn w) → is_settled s ≡ true → is_settled (close w s) ≡ true
  unfolding is_settled close request_close close_transport destroy_transport_if_needed
  close-settled s e = ground arith

  pub emit-settled :
      (sig : Signal) (s : Conn w) → is_settled s ≡ true → is_settled (emit w sig s) ≡ true
  unfolding is_settled emit close request_close close_transport destroy_transport_if_needed
  emit-settled sig s e = ground (arith, length-append s.signals (sig ∷ []))

  pub resolve_closed-settled :
      (s : Conn w)
      → is_some s.parsed_url ≡ true
      → (length s.signals ≤ signal_capacity)
      → is_settled (resolve_closed w p live s) ≡ true
  unfolding is_settled resolve_closed is_local_close arm_immediate_reconnect emit close
      request_close close_transport destroy_transport_if_needed
  resolve_closed-settled s e l = ground (arith, length-append s.signals (retry_immediate ∷ []))

  pub handle-settled :
      (now : ℕ) (event : ControlEvent) (s : Conn w)
      → is_settled s ≡ true
      → is_settled (handle w p live now event s) ≡ true
  unfolding is_settled handle on_transport_closed on_transport_error transition
  handle-settled now ws_close s e = ground (
    arith,
    emit-settled signal_disconnected s e,
    resolve_closed-settled (emit w signal_disconnected s),
  )
  handle-settled now (ws_error error) s e = ground arith
  handle-settled now backpressure_detected s e = emit-settled signal_backpressure_detected s e
  handle-settled now backpressure_cleared s e = emit-settled signal_backpressure_cleared s e

  pub drain-nil :
      (now fuel : ℕ) (s : Conn w) → s.control_ring ≡ [] → drain w p live now (suc fuel) s ≡ s
  unfolding drain
  drain-nil now fuel s c = simp (drain, c)

  pub drain-cons :
      (now fuel : ℕ) (event : ControlEvent) (events : List ControlEvent) (s : Conn w)
      → s.control_ring ≡ event ∷ events
      → drain w p live now (suc fuel) s
        ≡ drain w p live now fuel (handle w p live now event (record s { control_ring = events }))
  unfolding drain
  drain-cons now fuel event events s c = rw (drain, c) refl

  pub taken-settled :
      (events : List ControlEvent) (s : Conn w)
      → is_settled s ≡ true
      → is_settled (record s { control_ring = events }) ≡ true
  unfolding is_settled
  taken-settled events s e = e

  pub drain-settled :
      (now fuel : ℕ) (s : Conn w)
      → is_settled s ≡ true
      → is_settled (drain w p live now fuel s) ≡ true
  unfolding drain
  drain-settled now zero s e = e
  drain-settled now (suc fuel) s e = elim (List-cases s.control_ring) [
    | inl c ↦ rw (drain-nil now fuel s c) e
    | inr (event, events, c) ↦ rw (drain-cons now fuel event events s c) (
        let taken = record s { control_ring = events } in
        drain-settled now fuel (handle w p live now event taken)
          (handle-settled now event taken (taken-settled events s e)))
  ]
