-- ===== src/Transport/Connection/Liveness.antt =====
-- The liveness policy: its timeout takes the connection down, and its warning is given once.
use wirekrak.Common.{◌/◌, ◌-◌, ℕ, ◌≡◌, ◌≤◌, true, false, arith}
use wirekrak.Transport.Policy.{RetryPolicy, LivenessPolicy}
use wirekrak.Transport.State.{WebSocket, connected, disconnecting}
use wirekrak.Transport.Connection.{
  Conn, close_transport, request_close, close, emit, expire_liveness, transition,
}
use wirekrak.Transport.Connection.Operations.{
  is_threatened, is_liveness_stale, check_warning, check_timeout, enforce_liveness_policy,
}

-- A million divides to no more.
div_monotone : (a b : ℕ) → a ≤ b → a / 1000000 ≤ b / 1000000
div_monotone a b l = omega arith

module _ {Endpoint Message : Type 0} (w : WebSocket Endpoint Message) (p : RetryPolicy)
    (live : LivenessPolicy) where
  -- A connected connection whose timeout has passed is taken down by the next enforcement, unless
  -- that timeout was reported before.
  pub enforce-is_liveness_stale :
      (now : ℕ) (s : Conn w)
      → s.state ≡ connected
      → s.liveness_timeout_emitted ≡ false
      → is_liveness_stale w p live now s ≡ true
      → (enforce_liveness_policy w p live now s).state ≡ disconnecting
  unfolding enforce_liveness_policy check_warning check_timeout is_liveness_stale transition
      expire_liveness emit close request_close close_transport
  enforce-is_liveness_stale now s e f g = ground arith

  -- Without traffic in between, threat follows on threat.
  threatened-later :
      (now later : ℕ) (s : Conn w)
      → now ≤ later
      → is_threatened w p live now s ≡ true
      → is_threatened w p live later s ≡ true
  unfolding is_threatened
  threatened-later now later s l e =
      ground
        (arith, div_monotone (now - s.last_message_ts) (later - s.last_message_ts) (omega arith))

  -- A warning is given once for a silence: enforcing again at a later time, with no traffic in
  -- between, gives no further signal.
  pub enforce-is_threatened :
      (now later : ℕ) (s : Conn w)
      → now ≤ later
      → is_threatened w p live now s ≡ true
      → (enforce_liveness_policy w p live later (enforce_liveness_policy w p live now s)).signals
        ≡ (enforce_liveness_policy w p live now s).signals
  unfolding enforce_liveness_policy check_warning check_timeout transition expire_liveness emit
      close request_close close_transport
  enforce-is_threatened now later s l e = ground (arith, threatened-later now later s l e)
