-- ===== src/Transport/Policy.antt =====
-- include/wirekrak/core/transport/error.hpp and include/wirekrak/core/policy/transport/retry.hpp and
-- liveness.hpp. The compile-time policies are records of their constants, in milliseconds.
pub mod Backoff
use wirekrak.Common.{ℕ, ◌*◌, ◌-◌, ◌^◌, Bool, true, false, ltb, if◌then◌else◌}

pub data Error : Type 0 where
  no_error invalid_url invalid_state cancelled : Error
  local_shutdown remote_closed : Error
  timed_out connection_failed handshake_failed : Error
  protocol_error transport_failure backpressure : Error

pub data RetryMode : Type 0 where
  never retryable_only always : RetryMode

pub record RetryPolicy : Type 0 where
  pub mode : RetryMode
  pub max_attempts : ℕ
  pub max_exponent : ℕ
  pub fast_base : ℕ
  pub normal_base : ℕ
  pub slow_base : ℕ
  pub fast_cap : ℕ
  pub normal_cap : ℕ
  pub slow_cap : ℕ

pub record LivenessPolicy : Type 0 where
  pub enabled : Bool
  pub message_timeout : ℕ
  pub warning_percent : ℕ

-- `retry::Exponential<Mode, MaxExponent, MaxAttempts>`.
unfoldable pub exponential : RetryMode → ℕ → ℕ → RetryPolicy
exponential mode max_exponent max_attempts = record {
  mode = mode;
  max_attempts = max_attempts;
  max_exponent = max_exponent;
  fast_base = 50;
  normal_base = 100;
  slow_base = 250;
  fast_cap = 1000;
  normal_cap = 5000;
  slow_cap = 10000;
}

-- `retry::Disabled`.
unfoldable pub retry_disabled : RetryPolicy
retry_disabled = record {
  mode = never;
  max_attempts = 0;
  max_exponent = 1;
  fast_base = 0;
  normal_base = 0;
  slow_base = 0;
  fast_cap = 0;
  normal_cap = 0;
  slow_cap = 0;
}

-- `liveness::Disabled` and `liveness::Enabled<TimeoutMs, WarningPercent>`.
unfoldable pub liveness_disabled : LivenessPolicy
liveness_disabled = record { enabled = false; message_timeout = 0; warning_percent = 0 }

unfoldable pub liveness_enabled : ℕ → ℕ → LivenessPolicy
liveness_enabled timeout_ms warning_percent = record {
  enabled = true;
  message_timeout = timeout_ms;
  warning_percent = warning_percent;
}

-- `std::chrono::milliseconds::max()`.
abbrev pub max_milliseconds : ℕ
max_milliseconds = 2 ^ 63 - 1

module _ (p : RetryPolicy) where
  unfoldable pub compute_backoff : ℕ → ℕ → ℕ → ℕ
  compute_backoff base cap attempt =
      let exponent = if ltb p.max_exponent attempt then p.max_exponent else attempt in
      let delay = base * 2 ^ exponent in if ltb cap delay then cap else delay

  -- `Connection::backoff_`.
  unfoldable pub backoff : Error → ℕ → ℕ
  unfolding compute_backoff
  backoff error attempt = elim p.mode [
    | never ↦ max_milliseconds
    | _ ↦
        let exponent = if ltb p.max_exponent attempt then p.max_exponent else attempt in
        elim error [
          | remote_closed ↦ compute_backoff p.fast_base p.fast_cap exponent
          | timed_out ↦ compute_backoff p.fast_base p.fast_cap exponent
          | backpressure ↦ compute_backoff p.fast_base p.fast_cap exponent
          | connection_failed ↦ compute_backoff p.normal_base p.normal_cap exponent
          | handshake_failed ↦ compute_backoff p.normal_base p.normal_cap exponent
          | transport_failure ↦ compute_backoff p.slow_base p.slow_cap exponent
          | _ ↦ max_milliseconds
        ]
  ]

  -- `Connection::should_retry_`.
  unfoldable pub should_retry : Error → Bool
  should_retry error = elim p.mode [
    | never ↦ false
    | always ↦ true
    | retryable_only ↦ elim error [
      | connection_failed ↦ true
      | handshake_failed ↦ true
      | timed_out ↦ true
      | remote_closed ↦ true
      | transport_failure ↦ true
      | _ ↦ false
    ]
  ]
