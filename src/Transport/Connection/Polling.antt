-- ===== src/Transport/Connection/Polling.antt =====
-- Sending, polling and taking messages and signals keep the connection settled.
use wirekrak.Common.{
  ℕ, ◌≡◌, Bool, true, false, [], ◌∷◌, Option, none, some, if◌then◌else◌, length-append, arith,
}
use wirekrak.Transport.Policy.{RetryPolicy, LivenessPolicy}
use wirekrak.Transport.State.{WebSocket, liveness_threatened}
use wirekrak.Transport.Connection.{
  Conn, close_transport, destroy_transport_if_needed, request_close, close, emit, expire_liveness,
  transition,
}
use wirekrak.Transport.Connection.Operations.{
  poll_signal, peek_message, release_message, send, check_warning, check_timeout,
  enforce_liveness_policy, poll,
}
use wirekrak.Transport.Connection.Invariant.{is_settled, drain-settled}
use wirekrak.Transport.Connection.Attempts.{returns_settled, reconnect_if_due-settled}

module _ {Endpoint Message : Type 0} (w : WebSocket Endpoint Message) (p : RetryPolicy)
    (live : LivenessPolicy) where
  -- Sending on a settled connection leaves it settled.
  pub send-settled :
      (now : ℕ) (message : Message) (s : Conn w)
      → is_settled w p live s ≡ true
      → is_settled w p live (send w p live now message s).0 ≡ true
  unfolding send is_settled
  send-settled now message s e = ground arith

  check_warning-settled :
      (now : ℕ) (s : Conn w)
      → is_settled w p live s ≡ true
      → is_settled w p live (check_warning w p live now s) ≡ true
  unfolding check_warning transition emit close request_close close_transport
      destroy_transport_if_needed is_settled
  check_warning-settled now s e = ground (arith, length-append s.signals (liveness_threatened ∷ []))

  check_timeout-settled :
      (now : ℕ) (s : Conn w)
      → is_settled w p live s ≡ true
      → is_settled w p live (check_timeout w p live now s) ≡ true
  unfolding check_timeout transition expire_liveness close_transport is_settled
  check_timeout-settled now s e = ground arith

  enforce-settled :
      (now : ℕ) (s : Conn w)
      → is_settled w p live s ≡ true
      → is_settled w p live (enforce_liveness_policy w p live now s) ≡ true
  unfolding enforce_liveness_policy
  enforce-settled now s e = ground (
    arith,
    check_timeout-settled now (check_warning w p live now s) (check_warning-settled now s e),
  )

  enforced-settled :
      (now : ℕ) (enabled : Bool) (o : Option (Conn w))
      → returns_settled w p live o ≡ true
      → returns_settled w p live (elim o [
        | none ↦ none
        | some s ↦ some (if enabled then enforce_liveness_policy w p live now s else s)
      ])
        ≡ true
  unfolding returns_settled
  enforced-settled now enabled none e = e
  enforced-settled now true (some s) e = enforce-settled now s e
  enforced-settled now false (some s) e = e

  -- Polling a settled connection never meets the failing assertion on the URL: it returns, and
  -- leaves the connection settled.
  pub poll-settled :
      (now fuel : ℕ) (fresh : w.Socket) (s : Conn w)
      → is_settled w p live s ≡ true
      → returns_settled w p live (poll w p live now fuel fresh s) ≡ true
  unfolding poll returns_settled
  poll-settled now fuel fresh s e = ground (
    arith,
    enforced-settled now live.enabled _
        (reconnect_if_due-settled w p live now fresh _ (drain-settled w p live now fuel s e)),
  )

  -- Taking a signal or a message leaves a settled connection settled.
  pub poll_signal-settled :
      (s : Conn w)
      → is_settled w p live s ≡ true
      → is_settled w p live (poll_signal w p live s).0 ≡ true
  unfolding poll_signal is_settled
  poll_signal-settled s e = ground arith

  pub peek_message-settled :
      (now : ℕ) (s : Conn w)
      → is_settled w p live s ≡ true
      → is_settled w p live (peek_message w p live now s).0 ≡ true
  unfolding peek_message is_settled
  peek_message-settled now s e = ground arith

  pub release_message-settled :
      (s : Conn w)
      → is_settled w p live s ≡ true
      → is_settled w p live (release_message w p live s) ≡ true
  unfolding release_message is_settled
  release_message-settled s e = ground arith
