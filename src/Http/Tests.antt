-- ===== src/Http/Tests.antt =====
-- Responses to a request for the bytes 10..20, and the theorems at them.
use bolt_load.Prelude.{
  add64, sub64, ℕ, ◌+◌, ◌≤◌, ◌≡◌, refl, true, false, none, some, List, [], ◌∷◌, ok, arith, all,
}
use bolt_load.Planner.Chunk.{range}
use bolt_load.Adapter.Error.{Text, ContentRange, stream_error, is_retryable}
use bolt_load.Adapter.Text.{
  lowercase, text_eq, eq_ignore_ascii_case, trim_start, trim_end, trim, split_once, digits_value,
  parse_u64,
}
use bolt_load.Adapter.ContentRange.{byte_range, number, complete_length, parse_parts, from_str}
use bolt_load.Strategy.Policy.{is_congestion}
use bolt_load.Http.Status.{classify_status}
use bolt_load.Http.Range.{
  RangeHeaders, is_multipart, parse_list, check_partial, validate_range_response,
}
use bolt_load.Http.Body.{Item, limit_range_body, poll_next}
use bolt_load.Http.Limit.{drain, total_bytes, is_chunk, limit_range_body-exact}
use bolt_load.Http.Accept.{
  validated_body-total_bytes, IsAccepted, validate_range_response-IsAccepted, validated_body_fits,
}
use bolt_load.Http.Classes.{classify_status_lem}
use bolt_load.Http.RetryAfter.{from_secs, parse_retry_after}
use bolt_load.Http.Delay.{parse_retry_after_lem}
use bolt_load.Adapter.Error.{unretryable, congestion}
use bolt_load.Prelude.{◌++◌, min}

-- `Bytes 10-14/ 99`.
abbrev header : Text
header =
    b'B' ∷ b'y' ∷ b't' ∷ b'e' ∷ b's' ∷ 32 ∷ b'1' ∷ b'0' ∷ b'-' ∷ b'1' ∷ b'4' ∷ b'/' ∷ 32 ∷ b'9'
    ∷ b'9' ∷ []

abbrev headers : RangeHeaders
headers = record {
  content_range = some header;
  content_type = none;
  content_encoding = none;
  retry_after = none;
}

abbrev got : ContentRange
got = record { first = 10; last = 14; complete = some 99 }

accepted : validate_range_response 206 headers (range 10 20) (some 99) ≡ ok got
unfolding validate_range_response check_partial from_str parse_parts byte_range number
    complete_length trim trim_start trim_end split_once eq_ignore_ascii_case lowercase text_eq
    parse_u64 digits_value is_multipart parse_list
accepted = refl

abbrev partial_content : ℕ
partial_content = 206

validate_range_response_example :
    (partial_content ≡ 206) × IsAccepted headers (range 10 20) (some 99) got
validate_range_response_example =
    validate_range_response-IsAccepted 206 headers (range 10 20) (some 99) got accepted

-- Three bytes and then four, two more than there should be.
abbrev items : List Item
items = ok (1 ∷ 2 ∷ 3 ∷ []) ∷ ok (4 ∷ 5 ∷ 6 ∷ 7 ∷ []) ∷ []

validated_body_fits_example : 10 + total_bytes (drain (limit_range_body got) items) ≤ 20
validated_body_fits_example =
    validated_body_fits 206 headers (range 10 20) (some 99) got items (omega arith) accepted

-- Three bytes and then two, which is what there should be.
abbrev whole : List Item
whole = ok (1 ∷ 2 ∷ 3 ∷ []) ∷ ok (4 ∷ 5 ∷ []) ∷ []

whole-passes : all is_chunk (drain (limit_range_body got) whole) ≡ true
unfolding drain poll_next add64 sub64
whole-passes = refl

whole-bytes : total_bytes whole ≡ 5
unfolding total_bytes
whole-bytes = refl

validated_body-total_bytes_example : 10 + total_bytes (drain (limit_range_body got) whole) ≡ 15
validated_body-total_bytes_example =
    validated_body-total_bytes 206 headers (range 10 20) (some 99) got whole (omega arith) accepted
      whole-passes

limit_range_body-exact_example : drain (limit_range_body got) whole ≡ whole
limit_range_body-exact_example =
    limit_range_body-exact got whole (omega arith) (omega arith) refl whole-bytes

classify_status_example :
    (is_retryable (stream_error (classify_status 503 (some 7))) ≡ false)
    × (is_congestion (stream_error (classify_status 503 (some 7))) ≡ true)
classify_status_example = classify_status_lem 503 (some 7)

abbrev endless : Text
endless =
    b'9' ∷ b'9' ∷ b'9' ∷ b'9' ∷ b'9' ∷ b'9' ∷ b'9' ∷ b'9' ∷ b'9' ∷ b'9' ∷ b'9' ∷ b'9' ∷ b'9' ∷ b'9'
    ∷ b'9' ∷ b'9' ∷ b'9' ∷ b'9' ∷ b'9' ∷ b'9' ∷ b'9' ∷ []

-- A number of seconds beyond a `u64`, after a space.
parse_retry_after_lem_example :
    classify_status 503 (parse_retry_after (λ _. none) ((32 ∷ []) ++ (endless ++ (32 ∷ []))) 5)
    ≡ unretryable (congestion 503 (some (from_secs (min (digits_value 0 endless) 120))))
parse_retry_after_lem_example =
    parse_retry_after_lem (λ _. none) 503 5 (32 ∷ []) endless (32 ∷ []) refl refl refl refl refl
