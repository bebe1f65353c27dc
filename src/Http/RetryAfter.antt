-- ===== src/Http/RetryAfter.antt =====
-- header/retry_after.rs: a time and a `Duration` are in nanoseconds, a time since any origin; the dates
-- of HTTP are parsed by the crate httpdate, a parameter. A text's bytes are all ASCII digits when its
-- characters are.
use bolt_load.Prelude.{
  ℕ, ◌-◌, ◌*◌, not, ◌&&◌, Option, none, some, if◌then◌else◌, all, is_empty, u64_mod,
}
use bolt_load.Adapter.Error.{Text}
use bolt_load.Adapter.Text.{is_ascii_digit, trim, parse_u64}

-- `parse().unwrap_or(u64::MAX)`.
abbrev pub or_max : Option ℕ → ℕ
or_max none = u64_mod - 1
or_max (some n) = n

-- `Duration::from_secs`.
abbrev pub from_secs : ℕ → ℕ
from_secs n = n * 1000000000

-- `duration_since(now).unwrap_or(Duration::ZERO)`.
abbrev pub delay_from : ℕ → Option ℕ → Option ℕ
delay_from now none = none
delay_from now (some at) = some (at - now)

-- `parse_retry_after`.
unfoldable pub parse_retry_after : (Text → Option ℕ) → Text → ℕ → Option ℕ
parse_retry_after parse_http_date value now =
    let trimmed = trim value in
    if not (is_empty trimmed) && all is_ascii_digit trimmed
    then some (from_secs (or_max (parse_u64 trimmed)))
    else delay_from now (parse_http_date trimmed)
