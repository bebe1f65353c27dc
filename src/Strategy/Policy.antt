-- ===== src/Strategy/Policy.antt =====
-- strategy/failure_policy.rs: when a task must give up. Instants have no upper bound.
use bolt_load.Prelude.{
  ℕ, suc, ◌+◌, Bool, true, false, not, ◌&&◌, Option, none, some, ltb, leb, if◌then◌else◌,
}
use bolt_load.Adapter.Error.{
  congestion, unretryable, TaskError, stream_error, no_progress, retry_limit_exceeded,
}

-- runner_manager.rs.
pub record AttemptFailure : Type 0 where
  pub runner_id : ℕ
  pub error : TaskError
  pub retryable : Bool

abbrev pub is_congestion : TaskError → Bool
is_congestion (stream_error (unretryable (congestion status retry_after))) = true
is_congestion _ = false

pub record FailurePolicy : Type 0 where
  pub max_consecutive : ℕ
  pub no_progress_timeout : ℕ
  pub consecutive : ℕ
  pub last_progress_at : ℕ

-- `new`, with the two options that it reads.
abbrev pub new : (max_consecutive_failures no_progress_timeout now : ℕ) → FailurePolicy
new max_consecutive_failures no_progress_timeout now = record {
  max_consecutive = max_consecutive_failures;
  no_progress_timeout = no_progress_timeout;
  consecutive = 0;
  last_progress_at = now;
}

abbrev pub on_progress : FailurePolicy → ℕ → FailurePolicy
on_progress p now = record p { last_progress_at = now }

abbrev pub on_write_ok : FailurePolicy → ℕ → FailurePolicy
on_write_ok p written = if ltb 0 written then record p { consecutive = 0 } else p

unfoldable pub on_failure : FailurePolicy → AttemptFailure → ℕ → FailurePolicy × Option TaskError
on_failure p failure in_flight =
    if not failure.retryable
    then (
      p,
      if not (ltb 0 in_flight && is_congestion failure.error) then some failure.error else none,
    )
    else (let p' : FailurePolicy = record p { consecutive = suc p.consecutive } in
        (
          p',
          if leb p.max_consecutive p'.consecutive
              then some (retry_limit_exceeded p.max_consecutive failure.error)
              else none,
        ))

abbrev pub deadline : FailurePolicy → ℕ
deadline p = p.last_progress_at + p.no_progress_timeout

abbrev pub check : FailurePolicy → ℕ → Option TaskError
check p now = if leb (deadline p) now then some (no_progress p.no_progress_timeout) else none
