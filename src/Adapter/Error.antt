-- ===== src/Adapter/Error.antt =====
-- adapter/error.rs, `ContentRange`, and runner/error.rs.
use bolt_load.Prelude.{ℕ, Option, List, Bool, true, false}
use bolt_load.Planner.Chunk.{Range}

abbrev pub Text : Type 0
Text = List ℕ

-- A parsed `Content-Range`; `last` is inclusive.
pub record ContentRange : Type 0 where
  pub first : ℕ
  pub last : ℕ
  pub complete : Option ℕ

pub data RetryableError : Type 0 where
  io : ℕ → RetryableError
  status : ℕ → RetryableError

pub data UnretryableError : Type 0 where
  unauthorized : (status : ℕ) (message : Text) → UnretryableError
  not_found : (status : ℕ) → UnretryableError
  congestion : (status : ℕ) (retry_after : Option ℕ) → UnretryableError
  status : ℕ → UnretryableError
  range_ignored : UnretryableError
  range_mismatch : (requested : Range) (got : Option ContentRange) → UnretryableError
  range_content_coded : (coding : Text) → UnretryableError
  range_body_too_long : ContentRange → UnretryableError
  range_body_too_short : (got : ContentRange) (received : ℕ) → UnretryableError
  body_undecodable : ℕ → UnretryableError
  content_coded : (coding : Text) → UnretryableError
  range_not_satisfiable : (total : Option ℕ) → UnretryableError
  internal : (message : Text) → UnretryableError
  cancelled : UnretryableError
  io : ℕ → UnretryableError
  range_stream_not_supported : UnretryableError
  whatever : (message : Text) (source : Option ℕ) → UnretryableError

pub data AdapterError : Type 0 where
  retryable : RetryableError → AdapterError
  unretryable : UnretryableError → AdapterError

abbrev pub from_retryable_error : RetryableError → UnretryableError
from_retryable_error (RetryableError.io e) = UnretryableError.io e
from_retryable_error (RetryableError.status s) = UnretryableError.status s

pub data TaskError : Type 0 where
  cancelled timeout empty channel_closed exceeded_total_size smaller_than_total_size : TaskError
  stream_error : AdapterError → TaskError
  no_progress : (timeout : ℕ) → TaskError
  retry_limit_exceeded : (limit : ℕ) (source : TaskError) → TaskError
  other : (message : Text) → TaskError

-- `TaskError::is_retryable`.
abbrev pub is_retryable : TaskError → Bool
is_retryable (stream_error (AdapterError.retryable e)) = true
is_retryable timeout = true
is_retryable _ = false
