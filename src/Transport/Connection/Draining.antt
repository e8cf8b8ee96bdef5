-- ===== src/Transport/Connection/Draining.antt =====
-- Draining the control ring ends, and the epoch counts the connections made.
use wirekrak.Common.{
  ◌+◌, ℕ, zero, suc, ◌≡◌, ◌≤◌, List, [], ◌∷◌, none, some, inl, inr, length, arith, ap, ◌∙◌,
  Option-cases, List-cases,
}
use wirekrak.Transport.Policy.{Error, RetryPolicy, LivenessPolicy}
use wirekrak.Transport.State.{
  Signal, WebSocket, ControlEvent, connected, disconnected, signal_backpressure_detected,
  signal_backpressure_cleared, transport_closed, signal_disconnected, ws_close, ws_error,
  backpressure_detected, backpressure_cleared,
}
use wirekrak.Transport.Connection.{
  Conn, close_transport, destroy_transport_if_needed, request_close, close, emit,
  arm_immediate_reconnect, resolve_closed, transition,
}
use wirekrak.Transport.Connection.Operations.{
  on_transport_error, on_transport_closed, handle, drain,
}
use wirekrak.Transport.Connection.Invariant.{drain-nil, drain-cons}

module _ {Endpoint Message : Type 0} (w : WebSocket Endpoint Message) (p : RetryPolicy)
    (live : LivenessPolicy) where
  module _ (k : ℕ) where
    -- How many events the closes still to come may put on the ring, `k` for each.
    unfoldable pub budget : Conn w → ℕ
    budget s = elim s.ws [ none ↦ 0 | some socket ↦ elim s.state [ connected ↦ k + k | _ ↦ k ] ]

    unfoldable pub events_left : Conn w → ℕ
    events_left s = length s.control_ring + budget s

  module _ (k : ℕ)
      (closes : (socket : w.Socket) (ring : List ControlEvent)
        → length (w.close socket ring).1 ≤ length ring + k) where
    emit-events_left : (sig : Signal) (s : Conn w) → events_left k (emit w sig s) ≤ events_left k s
    unfolding events_left budget emit close request_close close_transport
        destroy_transport_if_needed
    emit-events_left sig s = elim (Option-cases s.ws) [
      | inl c ↦ ground arith
      | inr (socket, c) ↦ ground (arith, closes socket s.control_ring)
    ]

    resolve_closed-events_left :
        (s : Conn w) → events_left k (resolve_closed w p live s) ≤ events_left k s
    unfolding events_left budget resolve_closed arm_immediate_reconnect emit close request_close
        destroy_transport_if_needed
    resolve_closed-events_left s = elim (Option-cases s.ws) [
      | inl c ↦ ground arith
      | inr (socket, c) ↦ ground (arith, closes socket s.control_ring)
    ]

    on_transport_error-events_left :
        (now : ℕ) (error : Error) (s : Conn w)
        → events_left k (on_transport_error w p live now error s) ≤ events_left k s
    unfolding events_left budget on_transport_error
    on_transport_error-events_left now error s = ground arith

    destroyed-events_left :
        (s : Conn w)
        → events_left k (destroy_transport_if_needed w (record s { state = disconnected }))
          ≤ events_left k s
    unfolding events_left budget destroy_transport_if_needed
    destroyed-events_left s = elim (Option-cases s.ws) [
      | inl c ↦ ground arith
      | inr (socket, c) ↦ ground (arith, closes socket s.control_ring)
    ]

    transport_closed-events_left :
        (now : ℕ) (error : Error) (s : Conn w)
        → events_left k (transition w p live now transport_closed error s) ≤ events_left k s
    unfolding transition
    transport_closed-events_left now error s =
        ground (arith, destroyed-events_left s, resolve_closed-events_left s)

    on_transport_closed-events_left :
        (now : ℕ) (s : Conn w)
        → events_left k (on_transport_closed w p live now s) ≤ events_left k s
    unfolding on_transport_closed
    on_transport_closed-events_left now s = ground (
      arith,
      emit-events_left signal_disconnected s,
      transport_closed-events_left now s.last_error (emit w signal_disconnected s),
    )

    handle-events_left :
        (now : ℕ) (event : ControlEvent) (s : Conn w)
        → events_left k (handle w p live now event s) ≤ events_left k s
    unfolding handle
    handle-events_left now ws_close s = on_transport_closed-events_left now s
    handle-events_left now (ws_error error) s = on_transport_error-events_left now error s
    handle-events_left now backpressure_detected s = emit-events_left signal_backpressure_detected s
    handle-events_left now backpressure_cleared s = emit-events_left signal_backpressure_cleared s

    taken-events_left :
        (event : ControlEvent) (events : List ControlEvent) (s : Conn w)
        → s.control_ring ≡ event ∷ events
        → suc (events_left k (record s { control_ring = events })) ≡ events_left k s
    unfolding events_left budget
    taken-events_left event events s c = ground (arith, ap length c)

    -- Draining with as much fuel as there are events on the ring, and `k` more for each close that
    -- can still happen, empties the ring, where a close puts at most `k` events on it.
    pub drain-events_left :
        (now fuel : ℕ) (s : Conn w)
        → events_left k s ≤ fuel
        → (drain w p live now fuel s).control_ring ≡ []
    unfolding drain
    drain-events_left now zero s l = elim (List-cases s.control_ring) [
      | inl c ↦ c
      | inr (event, events, c) ↦ absurd (ground (arith, taken-events_left event events s c))
    ]
    drain-events_left now (suc fuel) s l = elim (List-cases s.control_ring) [
      | inl c ↦ ap (λ t. t.control_ring) (drain-nil w p live now fuel s c) ∙ c
      | inr (event, events, c) ↦
          let taken = record s { control_ring = events } in
          ap (λ t. t.control_ring) (drain-cons w p live now fuel event events s c)
          ∙ drain-events_left now fuel (handle w p live now event taken) (
              ground
                (arith, handle-events_left now event taken, taken-events_left event events s c))
    ]
