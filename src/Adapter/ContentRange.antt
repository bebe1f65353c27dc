-- ===== src/Adapter/ContentRange.antt =====
-- adapter/content_range.rs: parsing the header `Content-Range`.
use bolt_load.Prelude.{
  ℕ, ◌>>=◌, Bool, false, not, ◌||◌, Option, none, some, [], ◌∷◌, ltb, leb, ◌==◌, if◌then◌else◌, all,
  is_empty, Result, ok, err,
}
use bolt_load.Adapter.Error.{Text, ContentRange}
use bolt_load.Adapter.Text.{
  is_ascii_whitespace, is_ascii_digit, trim, split_once, eq_ignore_ascii_case, parse_u64, text_eq,
}

pub data InvalidContentRange : Type 0 where
  invalid_content_range : InvalidContentRange

abbrev pub bytes_unit : Text
bytes_unit = b'b' ∷ b'y' ∷ b't' ∷ b'e' ∷ b's' ∷ []

abbrev star : Text
star = b'*' ∷ []

-- The part after the `bytes` unit.
unfoldable pub byte_range : Text → Option Text
unfolding trim split_once eq_ignore_ascii_case
byte_range value = elim (split_once is_ascii_whitespace (trim value)) [
  | none ↦ none
  | some (unit, range) ↦ if eq_ignore_ascii_case unit bytes_unit then some range else none
]

unfoldable pub number : Text → Option ℕ
unfolding trim parse_u64
number value =
    let trimmed = trim value in
    if is_empty trimmed || not (all is_ascii_digit trimmed) then none else parse_u64 trimmed

-- `match complete.trim()`: the outer option is the failure.
unfoldable pub complete_length : Text → Option (Option ℕ)
unfolding trim text_eq number
complete_length complete =
    if text_eq (trim complete) star
    then some none
    else (elim (number (trim complete)) [ none ↦ none | some n ↦ some (some n) ])

-- `complete.is_some_and(|complete| last >= complete)`.
abbrev pub is_beyond : ℕ → Option ℕ → Bool
is_beyond last none = false
is_beyond last (some complete) = leb complete last

-- The final check of `from_str`.
abbrev pub check_order : ContentRange → Option ContentRange
check_order r = if ltb r.last r.first || is_beyond r.last r.complete then none else some r

-- The chain of `?` in `from_str`.
unfoldable pub parse_parts : Text → Option ContentRange
unfolding byte_range number complete_length
parse_parts value = do
  range ← byte_range value
  (span, complete) ← split_once (λ c. c == b'/') range
  (first, last) ← split_once (λ c. c == b'-') span
  first ← number first
  last ← number last
  complete ← complete_length complete
  check_order (record { first = first; last = last; complete = complete })

-- `from_str`; each failure is the same error.
unfoldable pub from_str : Text → Result ContentRange InvalidContentRange
unfolding parse_parts
from_str value = elim (parse_parts value) [ none ↦ err invalid_content_range | some r ↦ ok r ]

unfoldable pub unsatisfied_complete : Text → Option ℕ
unfolding byte_range number trim
unsatisfied_complete value = do
  range ← byte_range value
  (left, complete) ← split_once (λ c. c == b'/') range
  if text_eq (trim left) star then number complete else none
