-- ===== src/Http/Accept.antt =====
-- Which responses `validate_range_response` lets through, and where their bytes lie.
use bolt_load.Prelude.{
  ℕ, ◌+◌, ◌≤◌, ◌<◌, ◌≡◌, refl, ◌∙◌, true, false, not, ◌||◌, ◌&&◌, inl, inr, Option, none, some,
  List, ltb, ◌==◌, Result, ok, err, arith, Bool-cases, Option-cases, u64_mod, all, ◌>>=◌,
}
use bolt_load.Planner.Chunk.{Range}
use bolt_load.Adapter.Error.{Text, ContentRange, UnretryableError}
use bolt_load.Adapter.ContentRange.{
  InvalidContentRange, from_str, parse_parts, check_order, is_beyond,
}
use bolt_load.Http.Range.{
  RangeHeaders, is_multipart, is_some_and, agrees, coded, check_got, check_partial, into, ok_of,
  validate_range_response,
}
use bolt_load.Http.Body.{Item, limit_range_body}
use bolt_load.Http.Limit.{drain, total_bytes, is_chunk, limit_range_body_lem}

check_order-le : (r s : ContentRange) → check_order r ≡ some s → s.first ≤ s.last
check_order-le r s e = elim (Bool-cases (ltb r.last r.first || is_beyond r.last r.complete)) [
  | inl k ↦ absurd (ground (arith, rw k at e))
  | inr k ↦ ground (arith, rw k at e)
]

-- A header that parses is in order.
parse_parts-le : (value : Text) (r : ContentRange) → parse_parts value ≡ some r → r.first ≤ r.last
unfolding parse_parts
parse_parts-le value r e = ground arith

from_str-le : (value : Text) (r : ContentRange) → from_str value ≡ ok r → r.first ≤ r.last
unfolding from_str
from_str-le value r e = elim (Option-cases (parse_parts value)) [
  | inl k ↦ absurd (ground (arith, rw (k, from_str) at e))
  | inr (s, k) ↦ parse_parts-le value r (k ∙ ground (arith, rw (k, from_str) at e))
]

-- What makes a partial response acceptable.
pub record IsAccepted (headers : RangeHeaders) (requested : Range) (expected : Option ℕ)
    (got : ContentRange) : Type 0 where
  pub parsed : (value : Text) × (headers.content_range ≡ some value) × (from_str value ≡ ok got)
  pub starts : got.first ≡ requested.start
  pub ordered : got.first ≤ got.last
  pub ends : got.last < requested.end
  pub total : agrees got.complete expected ≡ true
  pub single : is_some_and is_multipart headers.content_type ≡ false
  pub uncoded : coded headers.content_encoding ≡ none

into-ok :
    (r : Result ContentRange UnretryableError) (got : ContentRange) → into r ≡ ok got → r ≡ ok got
into-ok (ok a) got e = ground arith
into-ok (err x) got e = absurd (ground arith)

ok_of-some :
    (r : Result ContentRange InvalidContentRange) (got : ContentRange)
    → ok_of r ≡ some got
    → r ≡ ok got
ok_of-some (ok a) got e = ground arith
ok_of-some (err x) got e = absurd (ground arith)

header_parsed :
    (header : Option Text) (got : ContentRange)
    → (header >>= λ value. ok_of (from_str value)) ≡ some got
    → (value : Text) × (header ≡ some value) × (from_str value ≡ ok got)
header_parsed none got e = absurd (ground arith)
header_parsed (some value) got e = (value, refl, ok_of-some (from_str value) got e)

check_got-ok :
    (headers : RangeHeaders) (requested : Range) (expected : Option ℕ) (o : Option ContentRange)
    (got : ContentRange)
    → check_got headers requested expected o ≡ ok got
    → (o ≡ some got)
      × (got.first ≡ requested.start)
      × (got.last < requested.end)
      × (agrees got.complete expected ≡ true)
      × (is_some_and is_multipart headers.content_type ≡ false)
      × (coded headers.content_encoding ≡ none)
check_got-ok headers requested expected none got e = absurd (ground arith)
check_got-ok headers requested expected (some g) got e =
    elim (Bool-cases (
      not (is_some_and is_multipart headers.content_type)
      && g.first == requested.start
      && ltb g.last requested.end
      && agrees g.complete expected)) [
        | inl k ↦ elim (Option-cases (coded headers.content_encoding)) [
          | inl n ↦
              let same : g ≡ got = ground (arith, rw (k, n) at e) in
              rw (← same) (refl, ground arith, ground arith, ground arith, ground arith, n)
          | inr (coding, n) ↦ absurd (ground (arith, rw (k, n) at e))
        ]
        | inr k ↦ absurd (ground (arith, rw k at e))
      ]

check_partial-IsAccepted :
    (headers : RangeHeaders) (requested : Range) (expected : Option ℕ) (got : ContentRange)
    → check_partial headers requested expected ≡ ok got
    → IsAccepted headers requested expected got
unfolding check_partial
check_partial-IsAccepted headers requested expected got e =
    let o = headers.content_range >>= λ value. ok_of (from_str value) in
    let (found, starts, ends, total, single, uncoded) =
      check_got-ok headers requested expected o got (into-ok _ got e) in
    let (value, header, parsed) = header_parsed headers.content_range got found in
    record {
      parsed = (value, header, parsed);
      starts = starts;
      ordered = from_str-le value got parsed;
      ends = ends;
      total = total;
      single = single;
      uncoded = uncoded;
    }

-- A response that `validate_range_response` lets through has status 206 and a `Content-Range` that
-- parses to the returned range, is in order, starts at the requested start, ends before the requested
-- end and names no other total than the expected one; it is not multipart and names no content coding.
pub validate_range_response-IsAccepted :
    (status : ℕ) (headers : RangeHeaders) (requested : Range) (expected : Option ℕ)
    (got : ContentRange)
    → validate_range_response status headers requested expected ≡ ok got
    → (status ≡ 206) × IsAccepted headers requested expected got
unfolding validate_range_response
validate_range_response-IsAccepted status headers requested expected got e =
    elim (Bool-cases (status == 206)) [
      | inl k ↦ (
        ground arith,
        check_partial-IsAccepted headers requested expected got
            (rw (k, validate_range_response) at e),
      )
      | inr k ↦ absurd (ground (arith, rw (k, validate_range_response) at e))
    ]

-- The body of an accepted response, held to its range, stays within the requested range: whatever
-- the inner body gives, what is passed on and written from the requested start ends no later than the
-- requested end.
pub validated_body_fits :
    (status : ℕ) (headers : RangeHeaders) (requested : Range) (expected : Option ℕ)
    (got : ContentRange) (items : List Item)
    → requested.end < u64_mod
    → validate_range_response status headers requested expected ≡ ok got
    → requested.start + total_bytes (drain (limit_range_body got) items) ≤ requested.end
validated_body_fits status headers requested expected got items fits e =
    let (_, a) = validate_range_response-IsAccepted status headers requested expected got e in
    let (most, _) = limit_range_body_lem got items a.ordered (omega (arith, a.ends)) in
    omega (arith, most, a.ends, a.ordered, a.starts)

-- If no error is passed on from the body of an accepted response, what is written from the requested
-- start ends exactly at the last byte of the `Content-Range`.
pub validated_body-total_bytes :
    (status : ℕ) (headers : RangeHeaders) (requested : Range) (expected : Option ℕ)
    (got : ContentRange) (items : List Item)
    → requested.end < u64_mod
    → validate_range_response status headers requested expected ≡ ok got
    → all is_chunk (drain (limit_range_body got) items) ≡ true
    → requested.start + total_bytes (drain (limit_range_body got) items) ≡ got.last + 1
validated_body-total_bytes status headers requested expected got items fits e k =
    let (_, a) = validate_range_response-IsAccepted status headers requested expected got e in
    let (_, exact) = limit_range_body_lem got items a.ordered (omega (arith, a.ends)) in
    omega (arith, exact k, a.ordered, a.starts)
