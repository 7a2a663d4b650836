-- ===== src/Engine/Retry.antt =====
-- internal/engine/retry.go
use n8n_turbo.Prelude.{
  ℕ, zero, suc, ◌-◌, ◌*◌, ◌%◌, ◌^◌, Bool, not, ◌&&◌, ◌||◌, Option, none, some, [], if◌then◌else◌,
  ltb, leb, pos_part,
}
use n8n_turbo.Dataplane.Types.{RetryConfig, Output}
use n8n_turbo.Engine.Failure.{Failure, exhausted, is_retriable_error}

-- What `executor.Execute` returns.
pub record Executed : Type 0 where
  pub output : Output
  pub err : Option Failure

abbrev pub failed : Failure → Executed
failed e = record { output = []; err = some e }

-- `attempt k` is the call of the executor with run index `k`. The context's error, if it has ended,
-- is `before k` ahead of attempt `k` and `during k` in the wait after it.
module _ (attempt : ℕ → Executed) (before during : ℕ → Option Failure) where
  -- The body of the loop at attempt `k`; `none` goes on with the next attempt.
  unfoldable pub try_once : ℕ → ℕ → Option Executed
  try_once max_tries k = elim (before k) [
    | some e ↦ some (failed e)
    | none ↦
        let r = attempt (k - 1) in
        elim r.err [
          | none ↦ some r
          | some e ↦
              if not (is_retriable_error e) || leb max_tries k
              then some (failed (exhausted k e))
              else elim (during k) [ some c ↦ some (failed c) | none ↦ none ]
        ]
  ]

  -- The loop from attempt `k` on, with as many rounds left as `rounds`.
  unfoldable pub retry_loop : ℕ → ℕ → ℕ → Option Executed
  retry_loop zero max_tries k = none
  retry_loop (suc rounds) max_tries k = elim (try_once max_tries k) [
    | some r ↦ some r
    | none ↦ retry_loop rounds max_tries (suc k)
  ]

  -- `executeNodeWithRetry`
  unfoldable pub execute_node_with_retry : RetryConfig → Option Executed
  execute_node_with_retry cfg =
      if not cfg.enabled || leb (pos_part cfg.max_tries) 1
      then some (attempt 0)
      else retry_loop (pos_part cfg.max_tries) (pos_part cfg.max_tries) 1

-- A `time.Duration` is an `int64` of nanoseconds, here its bits as a number below 2^64.
abbrev pub int64_mul : ℕ → ℕ → ℕ
int64_mul a b = (a * b) % 2 ^ 64

abbrev pub five_minutes : ℕ
five_minutes = 300000000000

-- `retryWait`, of a wait in milliseconds that is not negative.
unfoldable pub retry_wait : ℕ → Bool → ℕ → ℕ
retry_wait wait_between_tries use_exponential_backoff attempt =
    let base = int64_mul wait_between_tries 1000000 in
    let wait = if use_exponential_backoff then int64_mul base (2 ^ (attempt - 1)) else base in
    if ltb five_minutes wait && ltb wait (2 ^ 63) then five_minutes else wait
