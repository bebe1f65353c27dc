-- ===== src/Strategy/Streak.antt =====
-- The failure policy against a description of it in terms of what has happened so far.
use bolt_load.Prelude.{
  ℕ, suc, ◌+◌, ◌≡◌, refl, ◌∙◌, ◌&&◌, inl, inr, none, some, List, [], ◌∷◌, ltb, leb, if◌then◌else◌,
  Bool-cases,
}
use bolt_load.Adapter.Error.{no_progress, retry_limit_exceeded}
use bolt_load.Strategy.Policy.{
  AttemptFailure, FailurePolicy, new, on_progress, on_write_ok, on_failure, check, is_congestion,
}

-- What a policy is told.
pub data Report : Type 0 where
  progress : (now : ℕ) → Report
  write_ok : (written : ℕ) → Report
  failed : AttemptFailure → (in_flight : ℕ) → Report

-- The policy after the reports, the newest of which comes first.
unfoldable pub after : FailurePolicy → List Report → FailurePolicy
after p [] = p
after p (progress now ∷ rs) = on_progress (after p rs) now
after p (write_ok written ∷ rs) = on_write_ok (after p rs) written
after p (failed failure in_flight ∷ rs) = (on_failure (after p rs) failure in_flight).0

-- The retryable failures since the last write that was not empty.
unfoldable pub streak : List Report → ℕ
streak [] = 0
streak (progress now ∷ rs) = streak rs
streak (write_ok written ∷ rs) = let rest = streak rs in if ltb 0 written then 0 else rest
streak (failed failure in_flight ∷ rs) =
    let rest = streak rs in if failure.retryable then suc rest else rest

-- The time of the last progress, or of the start.
unfoldable pub last_progress : ℕ → List Report → ℕ
last_progress start [] = start
last_progress start (progress now ∷ rs) = now
last_progress start (write_ok written ∷ rs) = last_progress start rs
last_progress start (failed failure in_flight ∷ rs) = last_progress start rs

-- What a failure does to the policy.
on_failure-consecutive :
    (p : FailurePolicy) (failure : AttemptFailure) (n : ℕ)
    → (on_failure p failure n).0
      ≡ record p { consecutive = if failure.retryable then suc p.consecutive else p.consecutive }
unfolding on_failure
on_failure-consecutive p failure n = elim (Bool-cases failure.retryable) [
  | inl e ↦ rw (e, on_failure) refl
  | inr e ↦ rw (e, on_failure) refl
]

after_lem :
    (limit timeout start : ℕ) (rs : List Report)
    → after (new limit timeout start) rs ≡ record {
      max_consecutive = limit;
      no_progress_timeout = timeout;
      consecutive = streak rs;
      last_progress_at = last_progress start rs;
    }
unfolding after streak last_progress
after_lem limit timeout start [] = refl
after_lem limit timeout start (progress now ∷ rs) =
    rw (after_lem limit timeout start rs, after) refl
after_lem limit timeout start (write_ok written ∷ rs) = elim (Bool-cases (ltb 0 written)) [
  | inl e ↦ rw (e, after_lem limit timeout start rs, after, streak) refl
  | inr e ↦ rw (e, after_lem limit timeout start rs, after, streak) refl
]
after_lem limit timeout start (failed failure n ∷ rs) =
    on_failure-consecutive (after (new limit timeout start) rs) failure n
    ∙ rw (after_lem limit timeout start rs) refl

on_failure-error :
    (p : FailurePolicy) (failure : AttemptFailure) (n : ℕ)
    → (on_failure p failure n).1 ≡ (
        if failure.retryable
        then (if leb p.max_consecutive (suc p.consecutive)
            then some (retry_limit_exceeded p.max_consecutive failure.error)
            else none)
        else (if ltb 0 n && is_congestion failure.error then none else some failure.error))
unfolding on_failure
on_failure-error p failure n = elim (Bool-cases failure.retryable) [
  | inl e ↦ rw (e, on_failure) refl
  | inr e ↦ elim (Bool-cases (ltb 0 n && is_congestion failure.error)) [
    | inl k ↦ rw (e, k, on_failure) refl
    | inr k ↦ rw (e, k, on_failure) refl
  ]
]

-- After any reports to a new policy, a failed attempt ends the task exactly as follows. A retryable
-- failure ends it with `RetryLimitExceeded` if, with this one, as many retryable failures as the
-- limit have come since the last write that was not empty. Any other failure ends it with its
-- own error, except for a congestion while other attempts are in flight. And the check at an instant
-- ends it if the time since the last progress (or the start) has reached the timeout.
pub on_failure_iff :
    (limit timeout start : ℕ) (rs : List Report) (failure : AttemptFailure) (n now : ℕ)
    → let p = after (new limit timeout start) rs in
      ((on_failure p failure n).1 ≡ (
        if failure.retryable
        then (if leb limit (suc (streak rs))
            then some (retry_limit_exceeded limit failure.error)
            else none)
        else (if ltb 0 n && is_congestion failure.error then none else some failure.error)))
      × (check p now ≡ (
          if leb (last_progress start rs + timeout) now then some (no_progress timeout) else none))
on_failure_iff limit timeout start rs failure n now = (
  rw (after_lem limit timeout start rs) (on_failure-error _ failure n),
  rw (after_lem limit timeout start rs) refl,
)
