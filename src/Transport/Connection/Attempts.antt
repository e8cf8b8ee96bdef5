-- ===== src/Transport/Connection/Attempts.antt =====
-- Opening and reopening a connection keep it settled.
use wirekrak.Common.{
  ℕ, ◌≡◌, Bool, true, false, ◌&&◌, [], ◌∷◌, Option, none, some, ◌⊎◌, inl, inr, leb, if◌then◌else◌,
  is_some, length, length-append, arith, ap, ◌∙◌, Option-cases,
}
use wirekrak.Transport.Policy.{Error, no_error, RetryPolicy, LivenessPolicy, should_retry}
use wirekrak.Transport.State.{
  WebSocket, connecting, waiting_reconnect, disconnected, retry_immediate, retry_scheduled,
  signal_connected, transport_connected, transport_connect_failed, transport_reconnect_failed,
  retry_timer_expired, open_requested,
}
use wirekrak.Transport.Connection.{
  signal_capacity, Conn, close_transport, destroy_transport_if_needed, create_transport,
  request_close, close, emit, arm_immediate_reconnect, delay_next_retry, schedule_next_retry,
  enter_connected, fail_connect, fail_reconnect, transition,
}
use wirekrak.Transport.Connection.Operations.{
  connect_transport, reconnect_to, open_endpoint, open_url, open_connection, reconnect,
  reconnect_if_due,
}
use wirekrak.Transport.Connection.Invariant.{is_settled}

module _ {Endpoint Message : Type 0} (w : WebSocket Endpoint Message) (p : RetryPolicy)
    (live : LivenessPolicy) where
  -- The attempt to connect is under way.
  unfoldable pub is_attempting : Conn w → Bool
  is_attempting s =
      leb (length s.signals) signal_capacity
      && is_some s.ws
      && is_some s.parsed_url
      && elim s.state [ connecting ↦ true | _ ↦ false ]

  connect_transport-attempting :
      (now : ℕ) (endpoint : Endpoint) (s : Conn w)
      → is_attempting s ≡ true
      → is_attempting (connect_transport w p live now endpoint s).0 ≡ true
  unfolding is_attempting connect_transport
  connect_transport-attempting now endpoint s e = ground arith

  enter_connected-settled :
      (now : ℕ) (s : Conn w)
      → is_attempting s ≡ true
      → is_settled w p live (transition w p live now transport_connected no_error s) ≡ true
  unfolding is_settled is_attempting transition enter_connected emit close request_close
      close_transport destroy_transport_if_needed
  enter_connected-settled now s e = ground (arith, length-append s.signals (signal_connected ∷ []))

  fail_connect-settled :
      (now : ℕ) (error : Error) (s : Conn w)
      → is_attempting s ≡ true
      → is_settled w p live (transition w p live now transport_connect_failed error s) ≡ true
  unfolding is_settled is_attempting transition fail_connect arm_immediate_reconnect emit close
      request_close close_transport destroy_transport_if_needed
  fail_connect-settled now error s e =
      ground (arith, length-append s.signals (retry_immediate ∷ []))

  fail_reconnect-settled :
      (now : ℕ) (error : Error) (s : Conn w)
      → is_attempting s ≡ true
      → should_retry p s.retry_root_error ≡ true
      → is_settled w p live (transition w p live now transport_reconnect_failed error s) ≡ true
  unfolding is_settled is_attempting transition fail_reconnect schedule_next_retry delay_next_retry
      emit close request_close close_transport destroy_transport_if_needed
  fail_reconnect-settled now error s e f =
      ground (arith, length-append s.signals (retry_scheduled ∷ []))

  unfoldable can_open : Conn w → Bool
  can_open s = elim s.state [ disconnected ↦ true | waiting_reconnect ↦ true | _ ↦ false ]

  started-attempting :
      (now : ℕ) (fresh : w.Socket) (endpoint : Endpoint) (s : Conn w)
      → is_settled w p live s ≡ true
      → can_open s ≡ true
      → is_attempting (
          create_transport w fresh (
            transition w p live now open_requested no_error
              (record s { last_error = no_error; parsed_url = some endpoint })))
        ≡ true
  unfolding is_attempting create_transport transition is_settled can_open
  started-attempting now fresh endpoint s e f = ground arith

  attempt-settled :
      (now : ℕ) (endpoint : Endpoint) (s : Conn w)
      → is_attempting s ≡ true
      → (b : Bool)
      → let (s', error) = connect_transport w p live now endpoint s in
        is_settled w p live (
          (if◌then◌else◌ {A = Conn w × Error} b
            (transition w p live now transport_connected no_error s', no_error)
            (transition w p live now transport_connect_failed error s', error)).0)
        ≡ true
  attempt-settled now endpoint s e true =
      enter_connected-settled now (connect_transport w p live now endpoint s).0
        (connect_transport-attempting now endpoint s e)
  attempt-settled now endpoint s e false =
      fail_connect-settled now (connect_transport w p live now endpoint s).1
        (connect_transport w p live now endpoint s).0
        (connect_transport-attempting now endpoint s e)

  open_endpoint-settled :
      (now : ℕ) (fresh : w.Socket) (endpoint : Endpoint) (s : Conn w)
      → is_settled w p live s ≡ true
      → can_open s ≡ true
      → is_settled w p live (open_endpoint w p live now fresh endpoint s).0 ≡ true
  unfolding open_endpoint
  open_endpoint-settled now fresh endpoint s e f =
      attempt-settled now endpoint _ (started-attempting now fresh endpoint s e f) _

  refused-settled :
      (error : Error) (s : Conn w)
      → is_settled w p live s ≡ true
      → is_settled w p live (record s { last_error = error }) ≡ true
  unfolding is_settled
  refused-settled error s e = e

  -- Opening a connection that is settled leaves it settled, whatever the URL's parse and the
  -- transport's attempt come to.
  pub open_connection-settled :
      (now : ℕ) (fresh : w.Socket) (url : Error ⊎ Endpoint) (s : Conn w)
      → is_settled w p live s ≡ true
      → is_settled w p live (open_connection w p live now fresh url s).0 ≡ true
  unfolding open_connection open_url can_open
  open_connection-settled now fresh (inl error) s e = ground (arith, refused-settled error s e)
  open_connection-settled now fresh (inr endpoint) s e =
      ground (arith, open_endpoint-settled now fresh endpoint s e)

  connect_transport-root :
      (now : ℕ) (endpoint : Endpoint) (s : Conn w)
      → (connect_transport w p live now endpoint s).0.retry_root_error ≡ s.retry_root_error
  unfolding connect_transport
  connect_transport-root now endpoint s = ground arith

  reattempt-settled :
      (now : ℕ) (endpoint : Endpoint) (s : Conn w)
      → is_attempting s ≡ true
      → should_retry p s.retry_root_error ≡ true
      → (b : Bool)
      → let (s', error) = connect_transport w p live now endpoint s in
        is_settled w p live (
          if b
          then (transition w p live now transport_connected no_error s')
          else (transition w p live now transport_reconnect_failed error s'))
        ≡ true
  reattempt-settled now endpoint s e f true =
      enter_connected-settled now (connect_transport w p live now endpoint s).0
        (connect_transport-attempting now endpoint s e)
  reattempt-settled now endpoint s e f false =
      fail_reconnect-settled now (connect_transport w p live now endpoint s).1
        (connect_transport w p live now endpoint s).0
        (connect_transport-attempting now endpoint s e)
        (ap (should_retry p) (connect_transport-root now endpoint s) ∙ f)

  -- The state is WaitingReconnect.
  unfoldable pub is_waiting : Conn w → Bool
  is_waiting s = elim s.state [ waiting_reconnect ↦ true | _ ↦ false ]

  waiting-facts :
      (s : Conn w)
      → is_settled w p live s ≡ true
      → is_waiting s ≡ true
      → ((endpoint : Endpoint) × (s.parsed_url ≡ some endpoint))
        × (should_retry p s.retry_root_error ≡ true)
  unfolding is_settled is_waiting
  waiting-facts s e f = ground (arith, Option-cases s.parsed_url)

  restarted-attempting :
      (now : ℕ) (fresh : w.Socket) (s : Conn w)
      → is_settled w p live s ≡ true
      → is_waiting s ≡ true
      → is_attempting
          (create_transport w fresh (transition w p live now retry_timer_expired no_error s))
        ≡ true
  unfolding is_attempting create_transport transition is_settled is_waiting
  restarted-attempting now fresh s e f = ground arith

  restarted-root :
      (now : ℕ) (fresh : w.Socket) (s : Conn w)
      → is_waiting s ≡ true
      → (create_transport w fresh
          (transition w p live now retry_timer_expired no_error s)).retry_root_error
        ≡ s.retry_root_error
  unfolding create_transport transition is_waiting
  restarted-root now fresh s f = ground arith

  reconnect_to-settled :
      (now : ℕ) (fresh : w.Socket) (endpoint : Endpoint) (s : Conn w)
      → is_settled w p live s ≡ true
      → is_waiting s ≡ true
      → is_settled w p live (reconnect_to w p live now fresh endpoint s) ≡ true
  unfolding reconnect_to
  reconnect_to-settled now fresh endpoint s e f =
      reattempt-settled now endpoint _ (restarted-attempting now fresh s e f)
        (ap (should_retry p) (restarted-root now fresh s f) ∙ (waiting-facts s e f).1) _

  -- The operation returns, and what it returns is settled.
  unfoldable pub returns_settled : Option (Conn w) → Bool
  returns_settled none = false
  returns_settled (some s) = is_settled w p live s

  reconnect-settled :
      (now : ℕ) (fresh : w.Socket) (s : Conn w)
      → is_settled w p live s ≡ true
      → is_waiting s ≡ true
      → returns_settled (reconnect w p live now fresh s) ≡ true
  unfolding reconnect returns_settled
  reconnect-settled now fresh s e f =
      let ((endpoint, c), r) = waiting-facts s e f in
      simp (reconnect, c, reconnect_to-settled now fresh endpoint s e f)

  pub reconnect_if_due-settled :
      (now : ℕ) (fresh : w.Socket) (s : Conn w)
      → is_settled w p live s ≡ true
      → returns_settled (reconnect_if_due w p live now fresh s) ≡ true
  unfolding reconnect_if_due is_waiting returns_settled
  reconnect_if_due-settled now fresh s e = ground (arith, reconnect-settled now fresh s e)
