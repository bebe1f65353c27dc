-- ===== src/Adapter/RoundTrip.antt =====
-- adapter/content_range.rs: what is displayed is parsed back.
use bolt_load.Prelude.{
  ◌>>=◌, ℕ, ◌≤◌, ◌<◌, ◌≡◌, refl, sym, ap, ◌∙◌, true, false, not, ◌||◌, Option, none, some, [], ◌∷◌,
  ◌++◌, arith, ltb, ◌==◌, if◌then◌else◌, all, is_empty, ok, err, u64_mod,
}
use bolt_load.Adapter.Error.{Text, ContentRange}
use bolt_load.Adapter.Text.{
  is_whitespace, is_ascii_whitespace, is_ascii_digit, trim_start, trim_end, trim, split_once,
  eq_ignore_ascii_case,
}
use bolt_load.Adapter.ContentRange.{
  invalid_content_range, bytes_unit, byte_range, number, complete_length, check_order, is_beyond,
  parse_parts, from_str,
}
use bolt_load.Adapter.Display.{display_u64, display_complete, unit_prefix, to_string}
use bolt_load.Adapter.Digits.{
  digits-nonempty, split_once-append, is_empty-append, trim_end-append, trim_end-solid, all_weaken,
  u64_digits, digit-solid, digit-slash, digit-dash, number-display, complete_length-display,
  append_assoc, all-append,
}

-- The two ends and the complete length, each as a text.
abbrev joined : Text → Text → Text → Text
joined first last complete = first ++ (b'-' ∷ (last ++ (b'/' ∷ complete)))

split-joined :
    (first last complete : Text)
    → all is_ascii_digit first ≡ true
    → all is_ascii_digit last ≡ true
    → split_once (λ c. c == b'/') (joined first last complete)
      ≡ some (first ++ b'-' ∷ last, complete)
split-joined first last complete h k =
    ap (split_once (λ c. c == b'/')) (sym (append_assoc first (b'-' ∷ last) (b'/' ∷ complete)))
    ∙ split_once-append (λ c. c == b'/') b'/' (first ++ b'-' ∷ last) complete
        (all-append (λ c. not (c == b'/')) first (b'-' ∷ last)
          (all_weaken is_ascii_digit (λ c. not (c == b'/')) first digit-slash h)
          (all_weaken is_ascii_digit (λ c. not (c == b'/')) last digit-slash k))
        refl

split-span :
    (first last : Text)
    → all is_ascii_digit first ≡ true
    → split_once (λ c. c == b'-') (first ++ b'-' ∷ last) ≡ some (first, last)
split-span first last h =
    split_once-append (λ c. c == b'-') b'-' first last
      (all_weaken is_ascii_digit (λ c. not (c == b'-')) first digit-dash h) refl

byte_range-prefix :
    (range : Text)
    → is_empty range ≡ false
    → trim_end range ≡ range
    → byte_range (unit_prefix ++ range) ≡ some range
unfolding byte_range trim trim_start
byte_range-prefix range h e =
    ap
      (λ t. elim (split_once is_ascii_whitespace t) [
        | none ↦ none
        | some (unit, range) ↦ if eq_ignore_ascii_case unit bytes_unit then some range else none
      ])
      (trim_end-append unit_prefix range h e)

trim_end-joined :
    (first last complete : Text)
    → is_empty complete ≡ false
    → trim_end complete ≡ complete
    → trim_end (joined first last complete) ≡ joined first last complete
trim_end-joined first last complete h e =
    let step : trim_end (last ++ (b'/' ∷ complete)) ≡ last ++ (b'/' ∷ complete) =
      trim_end-append last (b'/' ∷ complete) refl (trim_end-append (b'/' ∷ []) complete h e) in
    trim_end-append first (b'-' ∷ (last ++ (b'/' ∷ complete))) refl (
      trim_end-append (b'-' ∷ []) (last ++ (b'/' ∷ complete))
        (is_empty-append last (b'/' ∷ complete) refl) step)

is_empty-joined : (first last complete : Text) → is_empty (joined first last complete) ≡ false
is_empty-joined first last complete =
    is_empty-append first (b'-' ∷ (last ++ (b'/' ∷ complete))) refl

display_complete-Trimmed :
    (complete : Option ℕ)
    → is_empty (display_complete complete) ≡ false
      × trim_end (display_complete complete) ≡ display_complete complete
unfolding trim_end
display_complete-Trimmed none = (refl, refl)
display_complete-Trimmed (some c) = (
  digits-nonempty 19 c [],
  trim_end-solid (display_u64 c) (
      all_weaken is_ascii_digit (λ d. not (is_whitespace d)) (display_u64 c) digit-solid
        (u64_digits c)),
)

bind-some : {A B : Type 0} (m : Option A) (k : A → Option B) (a : A) → m ≡ some a → (m >>= k) ≡ k a
bind-some m k a h = ap (λ n. n >>= k) h

parse_parts_lem :
    (value range span complete first last : Text) (r : ContentRange)
    → byte_range value ≡ some range
    → split_once (λ c. c == b'/') range ≡ some (span, complete)
    → split_once (λ c. c == b'-') span ≡ some (first, last)
    → number first ≡ some r.first
    → number last ≡ some r.last
    → complete_length complete ≡ some r.complete
    → parse_parts value ≡ check_order r
unfolding parse_parts
parse_parts_lem value range span complete first last r h1 h2 h3 h4 h5 h6 =
    bind-some (byte_range value) _ range h1
    ∙ bind-some (split_once (λ c. c == b'/') range) _ (span, complete) h2
    ∙ bind-some (split_once (λ c. c == b'-') span) _ (first, last) h3
    ∙ bind-some (number first) _ r.first h4
    ∙ bind-some (number last) _ r.last h5
    ∙ bind-some (complete_length complete) _ r.complete h6

abbrev range_text : ContentRange → Text
range_text r = joined (display_u64 r.first) (display_u64 r.last) (display_complete r.complete)

to_string-prefix : (r : ContentRange) → to_string r ≡ unit_prefix ++ range_text r
unfolding to_string
to_string-prefix r = refl

byte_range-to_string : (r : ContentRange) → byte_range (to_string r) ≡ some (range_text r)
byte_range-to_string r =
    let first = display_u64 r.first in
    let last = display_u64 r.last in
    let complete = display_complete r.complete in
    let (filled, trimmed) = display_complete-Trimmed r.complete in
    rw (to_string-prefix r) (
      byte_range-prefix (range_text r) (is_empty-joined first last complete)
        (trim_end-joined first last complete filled trimmed))

parse_parts-to_string :
    (r : ContentRange)
    → r.first < u64_mod
    → r.last < u64_mod
    → ((c : ℕ) → r.complete ≡ some c → c < u64_mod)
    → parse_parts (to_string r) ≡ check_order r
parse_parts-to_string r h k l =
    let first = display_u64 r.first in
    let last = display_u64 r.last in
    let complete = display_complete r.complete in
    parse_parts_lem (to_string r) (range_text r) (first ++ b'-' ∷ last) complete first last r
      (byte_range-to_string r)
      (split-joined first last complete (u64_digits r.first) (u64_digits r.last))
      (split-span first last (u64_digits r.first)) (number-display r.first h)
      (number-display r.last k) (complete_length-display r.complete l)

not_beyond :
    (last : ℕ) (complete : Option ℕ)
    → ((c : ℕ) → complete ≡ some c → last < c)
    → is_beyond last complete ≡ false
not_beyond last none h = refl
not_beyond last (some c) h = ground (arith, h c refl)

check_order_lem :
    (r : ContentRange)
    → r.first ≤ r.last
    → ((c : ℕ) → r.complete ≡ some c → r.last < c)
    → check_order r ≡ some r
check_order_lem r ordered within =
    let in_order : ltb r.last r.first ≡ false = ground (arith, ordered) in
    ap (λ b. if ltb r.last r.first || b then none else some r) (not_beyond r.last r.complete within)
    ∙ ap (λ b. if b || false then none else some r) in_order

from_str-parsed :
    (value : Text) (r : ContentRange) → parse_parts value ≡ some r → from_str value ≡ ok r
unfolding from_str
from_str-parsed value r h = ap (λ m. elim m [ none ↦ err invalid_content_range | some s ↦ ok s ]) h

-- A range whose ends are in order, that lies within its complete length and whose numbers are `u64`s is
-- parsed back, by `from_str`, from what its display writes.
pub from_str-to_string :
    (r : ContentRange)
    → r.first ≤ r.last
    → r.last < u64_mod
    → ((c : ℕ) → r.complete ≡ some c → (r.last < c) × (c < u64_mod))
    → from_str (to_string r) ≡ ok r
from_str-to_string r ordered fits within = from_str-parsed (to_string r) r (
    parse_parts-to_string r (ground (arith, ordered, fits)) fits (λ c h. (within c h).1)
    ∙ check_order_lem r ordered (λ c h. (within c h).0))
