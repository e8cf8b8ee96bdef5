-- ===== src/Transport/Connection/Observers.antt =====
-- include/wirekrak/core/transport/connection.hpp, what `Connection` lets its owner observe.
use wirekrak.Common.{
  ℕ, zero, suc, ◌≡◌, refl, Bool, true, false, not, ◌&&◌, [], ◌∷◌, ◌==◌, leb, length, arith,
}
use wirekrak.Transport.Policy.{RetryPolicy, LivenessPolicy}
use wirekrak.Transport.State.{connecting, connected, disconnecting, waiting_reconnect, WebSocket}
use wirekrak.Transport.Connection.{Conn}
use wirekrak.Transport.Connection.Operations.{poll, drain, reconnect, reconnect_if_due}

module _ {Endpoint Message : Type 0} (w : WebSocket Endpoint Message) where
  unfoldable pub is_connected : Conn w → Bool
  is_connected s = elim s.state [ connected ↦ true | _ ↦ false ]

  unfoldable pub is_active : Conn w → Bool
  is_active s = elim s.state [
    | connected ↦ true
    | connecting ↦ true
    | disconnecting ↦ true
    | waiting_reconnect ↦ true
    | _ ↦ false
  ]

  -- `is_idle` at the time `now`; a retry time of 0 is the one that is not set.
  unfoldable pub is_idle : ℕ → Conn w → Bool
  is_idle now s = elim s.signals [
    | [] ↦ elim s.state [
      | waiting_reconnect ↦ not (not (s.next_retry == 0) && leb s.next_retry now)
      | _ ↦ true
    ]
    | sig ∷ signals ↦ false
  ]

  unfoldable pub pending_signals : Conn w → ℕ
  pending_signals s = length s.signals

  unfoldable pub pending_messages : Conn w → ℕ
  pending_messages s = length s.message_ring

  module _ (p : RetryPolicy) (live : LivenessPolicy) where
    drain-idle : (now fuel : ℕ) (s : Conn w) → s.control_ring ≡ [] → drain w p live now fuel s ≡ s
    unfolding drain
    drain-idle now zero s c = refl
    drain-idle now (suc fuel) s c = simp (drain, c)

    -- A connection that waits for an immediate retry, with nothing on its rings, reports that it
    -- is idle, and yet its next poll reconnects, where the liveness policy is disabled.
    pub is_idle-poll :
        (now fuel : ℕ) (fresh : w.Socket) (s : Conn w)
        → s.state ≡ waiting_reconnect
        → s.next_retry ≡ 0
        → s.signals ≡ []
        → s.control_ring ≡ []
        → live.enabled ≡ false
        → (is_idle now s ≡ true) × (poll w p live now fuel fresh s ≡ reconnect w p live now fresh s)
    unfolding is_idle poll reconnect_if_due
    is_idle-poll now fuel fresh s e f g c d =
        (ground arith, ground (arith, drain-idle now fuel s c))
