-- ===== src/Adapter/Text.antt =====
-- What the parsers use of Rust's `str`: a text is the list of its characters' code points.
use bolt_load.Prelude.{
  ℕ, ◌+◌, ◌-◌, ◌*◌, Bool, true, false, ◌||◌, ◌&&◌, Option, none, some, List, [], ◌∷◌, ltb, leb,
  ◌==◌, if◌then◌else◌, is_empty, u64_mod,
}
use bolt_load.Adapter.Error.{Text}

abbrev within : ℕ → ℕ → ℕ → Bool
within low high c = leb low c && leb c high

-- `char::is_whitespace` (White_Space) and `char::is_ascii_whitespace`.
abbrev pub is_whitespace : ℕ → Bool
is_whitespace c =
    within 9 13 c
    || c == 32
    || c == 133
    || c == 160
    || c == 5760
    || within 8192 8202 c
    || within 8232 8233 c
    || c == 8239
    || c == 8287
    || c == 12288

abbrev pub is_ascii_whitespace : ℕ → Bool
is_ascii_whitespace c = within 9 10 c || within 12 13 c || c == 32

abbrev pub is_ascii_digit : ℕ → Bool
is_ascii_digit c = within b'0' b'9' c

abbrev pub to_ascii_lowercase : ℕ → ℕ
to_ascii_lowercase c = if within b'A' b'Z' c then c + 32 else c

unfoldable pub lowercase : Text → Text
lowercase [] = []
lowercase (c ∷ cs) = to_ascii_lowercase c ∷ lowercase cs

unfoldable pub text_eq : Text → Text → Bool
text_eq [] [] = true
text_eq [] (d ∷ ds) = false
text_eq (c ∷ cs) [] = false
text_eq (c ∷ cs) (d ∷ ds) = c == d && text_eq cs ds

unfoldable pub eq_ignore_ascii_case : Text → Text → Bool
unfolding lowercase text_eq
eq_ignore_ascii_case s t = text_eq (lowercase s) (lowercase t)

unfoldable pub trim_start : Text → Text
trim_start [] = []
trim_start (c ∷ cs) = let rest = trim_start cs in if is_whitespace c then rest else c ∷ cs

unfoldable pub trim_end : Text → Text
trim_end [] = []
trim_end (c ∷ cs) =
    let rest = trim_end cs in if is_whitespace c && is_empty rest then [] else c ∷ rest

unfoldable pub trim : Text → Text
unfolding trim_start trim_end
trim s = trim_end (trim_start s)

-- `split_once` at the first character with a property.
unfoldable pub split_once : (ℕ → Bool) → Text → Option (Text × Text)
split_once p [] = none
split_once p (c ∷ cs) =
    let rest = split_once p cs in
    if p c
    then some ([], cs)
    else (elim rest [ none ↦ none | some (before, behind) ↦ some (c ∷ before, behind) ])

-- `split` at each occurrence of a character; there is always a first part.
unfoldable pub split : ℕ → Text → Text × List Text
split d [] = ([], [])
split d (c ∷ cs) =
    let (part, parts) = split d cs in if c == d then ([], part ∷ parts) else (c ∷ part, parts)

-- The value of the digits so far and of those that follow.
unfoldable pub digits_value : ℕ → Text → ℕ
digits_value acc [] = acc
digits_value acc (c ∷ cs) = digits_value (acc * 10 + (c - b'0')) cs

-- `parse::<u64>` of a text of digits: `none` is the overflow.
unfoldable pub parse_u64 : Text → Option ℕ
unfolding digits_value
parse_u64 s = let n = digits_value 0 s in if ltb n u64_mod then some n else none
