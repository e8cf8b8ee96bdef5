-- ===== src/Tests/Transport.antt =====
-- Tests and witnesses of the transport connection, over a transport that connects with the outcome
-- it was made with, and that puts one close event on the control ring when it is closed.
use wirekrak.Common.{
  ℕ, ◌≡◌, refl, ◌≤◌, ◌+◌, ◌*◌, ◌^◌, true, List, [], ◌∷◌, ◌++◌, some, length, length-append, arith,
}
use wirekrak.Transport.Policy.{
  Error, should_retry, backoff, RetryPolicy, LivenessPolicy, liveness_disabled, exponential,
  no_error, remote_closed, timed_out, protocol_error, retryable_only, always,
}
use wirekrak.Transport.Policy.Backoff.{backoff-overflow}
use wirekrak.Transport.State.{
  connected, disconnecting, waiting_reconnect, liveness_timeout, transport_error, signal_connected,
  ControlEvent, ws_close, ws_error, backpressure_detected, WebSocket,
}
use wirekrak.Transport.Connection.{Conn, new_connection, emit, close}
use wirekrak.Transport.Connection.Operations.{
  is_threatened, reconnect, poll, handle, enforce_liveness_policy,
}
use wirekrak.Transport.Connection.Invariant.{is_settled}
use wirekrak.Transport.Connection.Attempts.{returns_settled}
use wirekrak.Transport.Connection.Polling.{poll-settled}
use wirekrak.Transport.Connection.Closing.{
  can_close, polls, stays_over, is_up, polls-close, close-liveness_timeout, emit-signals,
}
use wirekrak.Transport.Connection.Observers.{is_idle, is_idle-poll}
use wirekrak.Transport.Connection.Liveness.{enforce-is_threatened}

abbrev test_ws : WebSocket ℕ ℕ
test_ws = record {
  Socket = Error;
  connect = λ endpoint socket ring. (socket, ring, socket);
  send = λ message socket ring. (socket, ring, true);
  close = λ socket ring. (socket, ring ++ ws_close ∷ []);
}

abbrev default_retry : RetryPolicy
default_retry = exponential retryable_only 6 0

abbrev default_liveness : LivenessPolicy
default_liveness = record { enabled = true; message_timeout = 15000; warning_percent = 80 }

-- A connection that is up, with two events on its control ring.
abbrev up : Conn test_ws
up = record (new_connection 0) {
  parsed_url = some 7;
  control_ring = backpressure_detected ∷ ws_error remote_closed ∷ [];
  ws = some no_error;
  epoch = 1;
  state = connected;
}

-- A connection that waits to retry at 50 milliseconds.
abbrev waiting : Conn test_ws
waiting = record (new_connection 0) {
  parsed_url = some 7;
  retry_root_error = remote_closed;
  disconnect_reason = transport_error;
  state = waiting_reconnect;
  next_retry = 50000000;
  retry_attempts = 2;
}

-- A connection that a liveness timeout takes down.
abbrev stale : Conn test_ws
stale = record up {
  control_ring = [];
  last_error = timed_out;
  disconnect_reason = liveness_timeout;
  state = disconnecting;
}

abbrev closes_once :
    (socket : Error) (ring : List ControlEvent)
    → length (test_ws.close socket ring).1 ≤ length ring + 1
closes_once socket ring = omega (arith, length-append ring (ws_close ∷ []))

poll-settled_example :
    returns_settled test_ws default_retry default_liveness
      (poll test_ws default_retry default_liveness 60000000 3 no_error waiting)
    ≡ true
unfolding is_settled new_connection exponential should_retry
poll-settled_example =
    poll-settled test_ws default_retry default_liveness 60000000 3 no_error waiting refl

polls-close_example :
    stays_over test_ws default_retry default_liveness (
      polls test_ws default_retry default_liveness
        ((5, 4, no_error) ∷ (60000000, 4, no_error) ∷ [])
        (close test_ws up))
    ≡ true
unfolding new_connection can_close
polls-close_example =
    polls-close test_ws default_retry default_liveness
      ((5, 4, no_error) ∷ (60000000, 4, no_error) ∷ []) up refl

enforce-is_threatened_example :
    (enforce_liveness_policy test_ws default_retry default_liveness 13000000000
      (enforce_liveness_policy test_ws default_retry default_liveness 12000000000 up)).signals
    ≡ (enforce_liveness_policy test_ws default_retry default_liveness 12000000000 up).signals
unfolding new_connection is_threatened
enforce-is_threatened_example =
    enforce-is_threatened test_ws default_retry default_liveness 12000000000 13000000000 up
      (omega arith) refl

close-liveness_timeout_example :
    (handle test_ws default_retry default_liveness 5 ws_close (close test_ws stale)).state
    ≡ waiting_reconnect
unfolding new_connection exponential should_retry
close-liveness_timeout_example =
    close-liveness_timeout test_ws default_retry default_liveness 5 stale refl refl refl refl

emit-signals_example :
    ((emit test_ws signal_connected up).signals ≡ signal_connected ∷ [])
    × (is_up test_ws default_retry default_liveness (emit test_ws signal_connected up) ≡ true)
unfolding new_connection is_up
emit-signals_example = emit-signals test_ws default_retry default_liveness signal_connected up

backoff-overflow_example : 2 ^ 63 ≤ backoff (exponential always 6 0) protocol_error 3 * 1000000
unfolding exponential should_retry
backoff-overflow_example = backoff-overflow (exponential always 6 0) protocol_error 3 refl refl refl

-- A connection that waits for an immediate retry, with its signals taken.
abbrev immediate : Conn test_ws
immediate = record waiting { next_retry = 0; retry_attempts = 1 }

is_idle-poll_example :
    (is_idle test_ws 9 immediate ≡ true)
    × (poll test_ws default_retry liveness_disabled 9 4 no_error immediate
        ≡ reconnect test_ws default_retry liveness_disabled 9 no_error immediate)
unfolding new_connection liveness_disabled
is_idle-poll_example =
    is_idle-poll test_ws default_retry liveness_disabled 9 4 no_error immediate refl refl refl refl
      refl
