-- ===== src/Http/Classes.antt =====
-- What the rest of the program makes of a classified status.
use bolt_load.Prelude.{ℕ, ◌≡◌, not, ◌||◌, ◌&&◌, Option, leb, ◌==◌, arith}
use bolt_load.Adapter.Error.{stream_error, is_retryable}
use bolt_load.Strategy.Policy.{is_congestion}
use bolt_load.Http.Status.{classify_status}

-- The error of a status is retried exactly for 408 and for 5xx other than 503, and counts as a
-- congestion exactly for 429 and 503.
pub classify_status_lem :
    (status : ℕ) (retry_after : Option ℕ)
    → (is_retryable (stream_error (classify_status status retry_after))
        ≡ (status == 408 || (leb 500 status && leb status 599 && not (status == 503))))
      × (is_congestion (stream_error (classify_status status retry_after))
          ≡ (status == 429 || status == 503))
unfolding classify_status
classify_status_lem status retry_after = (ground arith, ground arith)
