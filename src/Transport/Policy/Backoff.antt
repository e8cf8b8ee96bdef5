-- ===== src/Transport/Policy/Backoff.antt =====
-- The delays of the retry policy.
use wirekrak.Common.{ℕ, ◌≡◌, ◌≤◌, ◌*◌, ◌^◌, true, false, arith}
use wirekrak.Transport.Policy.{
  Error, RetryPolicy, compute_backoff, backoff, should_retry, always, retryable_only, backpressure,
}

module _ (p : RetryPolicy) where
  -- An error that the policy retries only where it is retryable is retried after a delay that no
  -- cap of the policy exceeds: it is never the unbounded delay.
  pub backoff-should_retry :
      (error : Error) (attempt bound : ℕ)
      → p.mode ≡ retryable_only
      → should_retry p error ≡ true
      → p.fast_cap ≤ bound
      → p.normal_cap ≤ bound
      → p.slow_cap ≤ bound
      → backoff p error attempt ≤ bound
  unfolding backoff should_retry compute_backoff
  backoff-should_retry error attempt bound e f a b c = ground arith

  -- Under the mode that retries every error, an error that the mode for retryable errors refuses,
  -- and that is no backpressure, has a delay that does not fit into 64 bits of nanoseconds.
  pub backoff-overflow :
      (error : Error) (attempt : ℕ)
      → p.mode ≡ always
      → should_retry (record p { mode = retryable_only }) error ≡ false
      → (elim error [ backpressure ↦ true | _ ↦ false ]) ≡ false
      → 2 ^ 63 ≤ backoff p error attempt * 1000000
  unfolding backoff should_retry
  backoff-overflow error attempt e f g = ground arith
