-- ===== src/Http/Status.antt =====
-- status.rs: a `Duration` is in nanoseconds.
use bolt_load.Prelude.{ℕ, ◌||◌, ◌&&◌, Option, none, some, [], ◌∷◌, leb, ◌==◌, if◌then◌else◌, min}
use bolt_load.Adapter.Error.{
  Text, RetryableError, UnretryableError, unauthorized, not_found, congestion,
  range_not_satisfiable, AdapterError, retryable, unretryable,
}

abbrev pub max_retry_after : ℕ
max_retry_after = 120000000000

-- `unauthorized` and `forbidden`.
abbrev pub message_of : ℕ → Text
message_of status =
    if status == 401
    then b'u' ∷ b'n' ∷ b'a' ∷ b'u' ∷ b't' ∷ b'h' ∷ b'o' ∷ b'r' ∷ b'i' ∷ b'z' ∷ b'e' ∷ b'd' ∷ []
    else b'f' ∷ b'o' ∷ b'r' ∷ b'b' ∷ b'i' ∷ b'd' ∷ b'd' ∷ b'e' ∷ b'n' ∷ []

abbrev pub clamp : Option ℕ → Option ℕ
clamp none = none
clamp (some delay) = some (min delay max_retry_after)

unfoldable pub classify_status : ℕ → Option ℕ → AdapterError
classify_status status retry_after =
    if status == 401 || status == 403
    then unretryable (unauthorized status (message_of status))
    else if status == 404 || status == 410
    then unretryable (not_found status)
    else if status == 408
    then retryable (RetryableError.status status)
    else if status == 416
    then unretryable (range_not_satisfiable none)
    else if status == 429 || status == 503
    then unretryable (congestion status (clamp retry_after))
    else if leb 500 status && leb status 599
    then retryable (RetryableError.status status)
    else unretryable (UnretryableError.status status)
