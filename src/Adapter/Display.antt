-- ===== src/Adapter/Display.antt =====
-- adapter/content_range.rs: the display of `ContentRange`; `{}` of a `u64` is its decimal digits.
use bolt_load.Prelude.{
  ℕ, zero, suc, ◌+◌, ◌/◌, ◌%◌, Option, none, some, [], ◌∷◌, ◌++◌, ◌==◌, if◌then◌else◌,
}
use bolt_load.Adapter.Error.{Text, ContentRange}

-- The digits of a number before those that follow, at most as many as the fuel; a `u64` has at most 20.
unfoldable pub digits : ℕ → ℕ → Text → Text
digits zero n out = out
digits (suc fuel) n out =
    let out' = (b'0' + n % 10) ∷ out in
    let longer = digits fuel (n / 10) out' in if n / 10 == 0 then out' else longer

abbrev pub display_u64 : ℕ → Text
display_u64 n = digits 20 n []

abbrev pub display_complete : Option ℕ → Text
display_complete none = b'*' ∷ []
display_complete (some complete) = display_u64 complete

abbrev pub unit_prefix : Text
unit_prefix = b'b' ∷ b'y' ∷ b't' ∷ b'e' ∷ b's' ∷ b' ' ∷ []

-- `write!(f, "bytes {}-{}/", …)` and the complete length.
unfoldable pub to_string : ContentRange → Text
to_string r =
    unit_prefix
    ++ (display_u64 r.first
        ++ (b'-' ∷ (display_u64 r.last ++ (b'/' ∷ display_complete r.complete))))
