-- ===== src/Transport/Connection/Closing.antt =====
-- What closing a connection means for the polls that follow, and what a full signal ring does.
use wirekrak.Common.{
  ℕ, zero, suc, ◌≡◌, Bool, true, false, ◌&&◌, List, [], ◌∷◌, ◌++◌, Option, none, some, inl, inr,
  ltb, if◌then◌else◌, length, length-append, arith, List-cases,
}
use wirekrak.Transport.Policy.{RetryPolicy, LivenessPolicy, should_retry}
use wirekrak.Transport.State.{
  connecting, Signal, WebSocket, ControlEvent, connected, disconnecting, waiting_reconnect,
  disconnected, signal_disconnected, ws_close, ws_error, backpressure_detected,
  backpressure_cleared, liveness_timeout,
}
use wirekrak.Transport.Connection.{
  signal_capacity, Conn, close_transport, destroy_transport_if_needed, request_close, close, emit,
  arm_immediate_reconnect, is_local_close, resolve_closed, transition,
}
use wirekrak.Transport.Connection.Operations.{
  on_transport_error, on_transport_closed, handle, drain, reconnect_if_due, enforce_liveness_policy,
  poll,
}
use wirekrak.Transport.Connection.Invariant.{drain-nil, drain-cons}

module _ {Endpoint Message : Type 0} (w : WebSocket Endpoint Message) (p : RetryPolicy)
    (live : LivenessPolicy) where
  -- The connection is down, or on its way there by the caller's wish.
  unfoldable pub is_over : Conn w → Bool
  is_over s = elim s.state [
    | disconnected ↦ true
    | disconnecting ↦ is_local_close w p live s.disconnect_reason
    | _ ↦ false
  ]

  -- `close` does what it says: the connection is not disconnecting already.
  unfoldable pub can_close : Conn w → Bool
  can_close s = elim s.state [
    | connected ↦ true
    | waiting_reconnect ↦ true
    | disconnected ↦ true
    | _ ↦ false
  ]

  -- The polls of a list, each with its clock, its fuel and the transport it would create.
  unfoldable pub polls : List (ℕ × ℕ × w.Socket) → Conn w → Option (Conn w)
  polls [] s = some s
  polls ((now, fuel, fresh) ∷ calls) s = elim (poll w p live now fuel fresh s) [
    | none ↦ none
    | some s' ↦ polls calls s'
  ]

  unfoldable pub stays_over : Option (Conn w) → Bool
  stays_over none = false
  stays_over (some s) = is_over s

  close-over : (s : Conn w) → can_close s ≡ true → is_over (close w s) ≡ true
  unfolding is_over can_close close request_close close_transport destroy_transport_if_needed
      is_local_close
  close-over s e = ground arith

  handle-over :
      (now : ℕ) (event : ControlEvent) (s : Conn w)
      → is_over s ≡ true
      → is_over (handle w p live now event s) ≡ true
  unfolding is_over handle on_transport_closed on_transport_error transition resolve_closed emit
      close request_close destroy_transport_if_needed is_local_close
  handle-over now ws_close s e = ground arith
  handle-over now (ws_error error) s e = ground arith
  handle-over now backpressure_detected s e = ground arith
  handle-over now backpressure_cleared s e = ground arith

  taken-over :
      (events : List ControlEvent) (s : Conn w)
      → is_over s ≡ true
      → is_over (record s { control_ring = events }) ≡ true
  unfolding is_over
  taken-over events s e = e

  drain-over :
      (now fuel : ℕ) (s : Conn w) → is_over s ≡ true → is_over (drain w p live now fuel s) ≡ true
  unfolding drain
  drain-over now zero s e = e
  drain-over now (suc fuel) s e = elim (List-cases s.control_ring) [
    | inl c ↦ rw (drain-nil w p live now fuel s c) e
    | inr (event, events, c) ↦ rw (drain-cons w p live now fuel event events s c) (
        let taken = record s { control_ring = events } in
        drain-over now fuel (handle w p live now event taken)
          (handle-over now event taken (taken-over events s e)))
  ]

  quiet-over :
      (now : ℕ) (fresh : w.Socket) (enabled : Bool) (s : Conn w)
      → is_over s ≡ true
      → stays_over (elim (reconnect_if_due w p live now fresh s) [
        | none ↦ none
        | some s' ↦ some (if enabled then enforce_liveness_policy w p live now s' else s')
      ])
        ≡ true
  unfolding is_over reconnect_if_due enforce_liveness_policy stays_over
  quiet-over now fresh enabled s e = ground arith

  poll-over :
      (now fuel : ℕ) (fresh : w.Socket) (s : Conn w)
      → is_over s ≡ true
      → stays_over (poll w p live now fuel fresh s) ≡ true
  unfolding poll stays_over
  poll-over now fuel fresh s e =
      ground (arith, quiet-over now fresh live.enabled _ (drain-over now fuel s e))

  next-over :
      (calls : List (ℕ × ℕ × w.Socket)) (o : Option (Conn w))
      → ((s : Conn w) → is_over s ≡ true → stays_over (polls calls s) ≡ true)
      → stays_over o ≡ true
      → stays_over (elim o [ none ↦ none | some s' ↦ polls calls s' ]) ≡ true
  unfolding stays_over
  next-over calls none f e = e
  next-over calls (some s) f e = f s e

  polls-over :
      (calls : List (ℕ × ℕ × w.Socket)) (s : Conn w)
      → is_over s ≡ true
      → stays_over (polls calls s) ≡ true
  unfolding polls stays_over
  polls-over [] s e = e
  polls-over ((now, fuel, fresh) ∷ calls) s e =
      next-over calls (poll w p live now fuel fresh s) (λ t f. polls-over calls t f)
        (poll-over now fuel fresh s e)

  -- After `close` on a connection that is not already disconnecting, no number of polls brings it
  -- back: they all return, and the connection is down or on its way there by the caller's wish.
  pub polls-close :
      (calls : List (ℕ × ℕ × w.Socket)) (s : Conn w)
      → can_close s ≡ true
      → stays_over (polls calls (close w s)) ≡ true
  polls-close calls s e = polls-over calls (close w s) (close-over s e)

  -- A connection that a liveness timeout is taking down ignores `close`, and goes to wait for its
  -- reconnection when the transport is closed, if the policy retries the error and two signals fit
  -- into the ring.
  pub close-liveness_timeout :
      (now : ℕ) (s : Conn w)
      → s.state ≡ disconnecting
      → s.disconnect_reason ≡ liveness_timeout
      → should_retry p s.last_error ≡ true
      → ltb (suc (length s.signals)) signal_capacity ≡ true
      → (handle w p live now ws_close (close w s)).state ≡ waiting_reconnect
  unfolding handle on_transport_closed transition resolve_closed arm_immediate_reconnect emit close
      request_close destroy_transport_if_needed is_local_close
  close-liveness_timeout now s e f g h =
      ground (arith, length-append s.signals (signal_disconnected ∷ []))

  -- The connection is up, coming up or waiting to retry.
  unfoldable pub is_up : Conn w → Bool
  is_up s = elim s.state [
    | connecting ↦ true
    | connected ↦ true
    | waiting_reconnect ↦ true
    | _ ↦ false
  ]

  -- A signal that finds room is appended and leaves the connection as up as it was; one that finds
  -- the ring full is lost, the signals already there stay, and the connection is no longer up.
  pub emit-signals :
      (sig : Signal) (s : Conn w)
      → let has_room = ltb (length s.signals) signal_capacity in
        ((emit w sig s).signals ≡ (if has_room then s.signals ++ sig ∷ [] else s.signals))
        × (is_up (emit w sig s) ≡ (has_room && is_up s))
  unfolding emit close request_close close_transport destroy_transport_if_needed is_up
  emit-signals sig s = ground arith
