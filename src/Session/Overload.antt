-- ===== src/Session/Overload.antt =====
-- The backpressure policy, and what a disconnection clears.
use mathlib.Core.Path.{ap₂}
use wirekrak.Common.{
  ◌^◌, ◌==◌, ℕ, zero, suc, ◌<◌, ◌≡◌, refl, ◌∙◌, true, false, List, [], ◌∷◌, arith, if◌then◌else◌,
}
use wirekrak.Request.Scheduler.{Text}
use wirekrak.Subscription.Controller.{
  Controller, register_subscription_for, register_unsubscription_for,
}
use wirekrak.Transport.Policy.{RetryPolicy, LivenessPolicy}
use wirekrak.Transport.State.{WebSocket}
use wirekrak.Session.{Protocol, Policies}
use wirekrak.Session.Requests.{Sess}
use wirekrak.Control.Consecutive
use wirekrak.Transport.Connection.{close}
use wirekrak.Subscription.Controller.{
  process_subscribe_ack_for, process_unsubscribe_ack_for, try_process_rejection_for, clear_all_for,
}
use wirekrak.Session.Signals.{handle_disconnect}
use wirekrak.Session.Polling.{enforce_backpressure_policy}
use wirekrak.Subscription.Controller
use wirekrak.Subscription.Controller.{
  none_pending, clear_managers, sum_over, total_owned_symbols, mark_progress,
}
use wirekrak.Subscription.Manager.{Manager, clear_all, has_pending_requests, total_symbols}
use wirekrak.Subscription.Pending.{clear, is_empty, symbol_count}

module _ (m : Protocol) {Endpoint : Type 0} (w : WebSocket Endpoint Text) (p : RetryPolicy)
    (live : LivenessPolicy) (policies : Policies) (now : ℕ) where
  abbrev S : Type 0
  S = Sess m w p live policies

  quiet :
      (ms : List Manager)
      → (none_pending (clear_managers ms) ≡ true) × (sum_over total_symbols (clear_managers ms) ≡ 0)
  unfolding none_pending clear_managers clear_all clear has_pending_requests is_empty sum_over
      total_symbols symbol_count
  quiet [] = (refl, refl)
  quiet (x ∷ ms) = ((quiet ms).0, omega (arith, (quiet ms).1))

  -- A disconnection leaves no request pending and no symbol active, ends the overload, and keeps
  -- what the replay database stores.
  pub handle_disconnect-is_quiescent :
      (s : S)
      → let s' = handle_disconnect m w p live policies now s in
        (Controller.is_quiescent s'.controller ≡ true)
        × (total_owned_symbols s'.controller ≡ 0)
        × (s'.overload.active ≡ false)
        × (s'.replay_db ≡ s.replay_db)
  unfolding handle_disconnect Controller.is_quiescent total_owned_symbols clear_all_for
      mark_progress Consecutive.reset
  handle_disconnect-is_quiescent s =
      ((quiet s.controller.managers).0, (quiet s.controller.managers).1, refl, refl)

  -- `k` runs of the policy on a session whose transport stays overloaded, with nothing in between.
  unfoldable pub overloaded : ℕ → S → S
  overloaded zero s = s
  overloaded (suc k) s = enforce_backpressure_policy m w p live policies now (overloaded k s)

  -- Below the threshold the policy only counts.
  counts :
      (s : S)
      → policies.zero_tolerance ≡ false
      → s.overload.active ≡ true
      → suc s.overload.consecutive < policies.escalation_threshold
      → policies.escalation_threshold < 2 ^ 32
      → let s' = enforce_backpressure_policy m w p live policies now s in
        (s'.connection ≡ s.connection)
        × (s'.overload.active ≡ true)
        × (s'.overload.consecutive ≡ suc s.overload.consecutive)
  unfolding enforce_backpressure_policy Consecutive.next_frame
  counts s z a l b = ground arith

  streak :
      (k : ℕ) (s : S)
      → policies.zero_tolerance ≡ false
      → s.overload.active ≡ true
      → s.overload.consecutive ≡ 0
      → k < policies.escalation_threshold
      → policies.escalation_threshold < 2 ^ 32
      → let t = overloaded k s in
        (t.connection ≡ s.connection) × (t.overload.active ≡ true) × (t.overload.consecutive ≡ k)
  unfolding overloaded
  streak zero s z a c l b = (refl, a, c)
  streak (suc k) s z a c l b =
      let (e, f, g) = streak k s z a c (omega arith) b in
      let (e', f', g') = counts (overloaded k s) z f (omega (arith, g)) b in
      (e' ∙ e, f', omega (arith, g, g'))

  escalates :
      (s : S)
      → policies.zero_tolerance ≡ false
      → s.overload.active ≡ true
      → s.overload.consecutive < policies.escalation_threshold
      → policies.escalation_threshold < 2 ^ 32
      → (enforce_backpressure_policy m w p live policies now s).connection ≡ (
          if suc s.overload.consecutive == policies.escalation_threshold
          then close w s.connection
          else s.connection)
  unfolding enforce_backpressure_policy Consecutive.next_frame
  escalates s z a l b = ground arith

  -- The policy alone, run again and again on a session whose overload has just become active: unless
  -- it tolerates nothing, and for a threshold below 2 ^ 32, fewer runs than the threshold leave the
  -- connection as it is, and the run that reaches the threshold closes it.
  pub overloaded-close :
      (k : ℕ) (s : S)
      → policies.zero_tolerance ≡ false
      → s.overload.active ≡ true
      → s.overload.consecutive ≡ 0
      → k < policies.escalation_threshold
      → policies.escalation_threshold < 2 ^ 32
      → ((overloaded k s).connection ≡ s.connection)
        × ((overloaded (suc k) s).connection ≡ (
            if suc k == policies.escalation_threshold then close w s.connection else s.connection))
  unfolding overloaded
  overloaded-close k s z a c l b =
      let (e, f, g) = streak k s z a c l b in
      (
        e,
        escalates (overloaded k s) z f (omega (arith, g)) b
            ∙ ap₂ (λ c i. if suc i == policies.escalation_threshold then close w c else c) e g,
      )
