-- ===== src/Http/Range.antt =====
-- range.rs: validating the response to a range request; with `ContentCoding::parse_list` of coding.rs.
use bolt_load.Prelude.{
  ℕ, Bool, true, false, not, ◌||◌, ◌&&◌, Option, none, some, List, [], ◌∷◌, ltb, leb, ◌==◌,
  if◌then◌else◌, any, filter, map, is_empty, Result, ok, err, ◌>>=◌,
}
use bolt_load.Planner.Chunk.{Range}
use bolt_load.Adapter.Error.{
  Text, ContentRange, UnretryableError, range_ignored, range_mismatch, range_content_coded,
  range_not_satisfiable, AdapterError, unretryable,
}
use bolt_load.Adapter.Text.{split, trim, lowercase, text_eq, eq_ignore_ascii_case}
use bolt_load.Adapter.ContentRange.{from_str, unsatisfied_complete}
use bolt_load.Http.Status.{classify_status}

abbrev comma : ℕ
comma = b','

abbrev semicolon : ℕ
semicolon = b';'

-- coding.rs.
pub data ContentCoding : Type 0 where
  gzip deflate brotli zstd : ContentCoding
  other : Text → ContentCoding

abbrev pub gzip_name : Text
gzip_name = b'g' ∷ b'z' ∷ b'i' ∷ b'p' ∷ []

unfoldable pub from_name : Text → ContentCoding
unfolding lowercase text_eq
from_name name =
    let name' = lowercase name in
    if text_eq name' gzip_name || text_eq name' (b'x' ∷ b'-' ∷ gzip_name)
    then gzip
    else if text_eq name' (b'd' ∷ b'e' ∷ b'f' ∷ b'l' ∷ b'a' ∷ b't' ∷ b'e' ∷ [])
    then deflate
    else if text_eq name' (b'b' ∷ b'r' ∷ [])
    then brotli
    else if text_eq name' (b'z' ∷ b's' ∷ b't' ∷ b'd' ∷ [])
    then zstd
    else other name'

abbrev identity_name : Text
identity_name = b'i' ∷ b'd' ∷ b'e' ∷ b'n' ∷ b't' ∷ b'i' ∷ b't' ∷ b'y' ∷ []

abbrev pub parts_of : Text × List Text → List Text
parts_of (part, parts) = part ∷ parts

unfoldable pub parse_list : Text → List ContentCoding
unfolding split trim eq_ignore_ascii_case from_name
parse_list value = map from_name (
    filter (λ name. not (is_empty name) && not (eq_ignore_ascii_case name identity_name))
      (map trim (parts_of (split comma value))))

abbrev multipart_name : Text
multipart_name =
    b'm' ∷ b'u' ∷ b'l' ∷ b't' ∷ b'i' ∷ b'p' ∷ b'a' ∷ b'r' ∷ b't' ∷ b'/' ∷ b'b' ∷ b'y' ∷ b't' ∷ b'e'
    ∷ b'r' ∷ b'a' ∷ b'n' ∷ b'g' ∷ b'e' ∷ b's' ∷ []

unfoldable pub is_multipart : Text → Bool
unfolding split trim eq_ignore_ascii_case
is_multipart content_type =
    any (λ value. eq_ignore_ascii_case (trim (split semicolon value).0) multipart_name)
      (parts_of (split comma content_type))

pub record RangeHeaders : Type 0 where
  pub content_range : Option Text
  pub content_type : Option Text
  pub content_encoding : Option Text
  pub retry_after : Option ℕ

abbrev pub ok_of {ℓ κ} : {A : Type ℓ} {E : Type κ} → Result A E → Option A
ok_of (ok a) = some a
ok_of (err e) = none

abbrev pub is_some_and {ℓ} : {A : Type ℓ} → (A → Bool) → Option A → Bool
is_some_and p none = false
is_some_and p (some a) = p a

-- The total of the response against the one that is expected.
abbrev pub agrees : Option ℕ → Option ℕ → Bool
agrees (some complete) (some total) = complete == total
agrees (some complete) none = true
agrees none expected = true

-- The coding, if the value names one.
abbrev pub coded : Option Text → Option Text
coded none = none
coded (some coding) = if not (is_empty (parse_list coding)) then some coding else none

-- The match on the parsed header in `check_partial`.
abbrev pub check_got :
    RangeHeaders → Range → Option ℕ → Option ContentRange → Result ContentRange UnretryableError
check_got headers requested expected none = err (range_mismatch requested none)
check_got headers requested expected (some got) =
    if not (is_some_and is_multipart headers.content_type)
      && got.first == requested.start
      && ltb got.last requested.end
      && agrees got.complete expected
    then (elim (coded headers.content_encoding) [
      | none ↦ ok got
      | some coding ↦ err (range_content_coded coding)
    ])
    else err (range_mismatch requested (some got))

abbrev pub into {ℓ} : {A : Type ℓ} → Result A UnretryableError → Result A AdapterError
into (ok a) = ok a
into (err e) = err (unretryable e)

unfoldable pub check_partial : RangeHeaders → Range → Option ℕ → Result ContentRange AdapterError
unfolding from_str is_multipart parse_list
check_partial headers requested expected = into (
    check_got headers requested expected
      (headers.content_range >>= λ value. ok_of (from_str value)))

unfoldable pub validate_range_response :
    ℕ → RangeHeaders → Range → Option ℕ → Result ContentRange AdapterError
unfolding check_partial unsatisfied_complete classify_status
validate_range_response status headers requested expected =
    if status == 206
    then check_partial headers requested expected
    else if status == 200
    then err (unretryable range_ignored)
    else if status == 416
    then err (unretryable (range_not_satisfiable (headers.content_range >>= unsatisfied_complete)))
    else if leb 400 status && leb status 599
    then err (classify_status status headers.retry_after)
    else err (unretryable (UnretryableError.status status))
