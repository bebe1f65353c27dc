-- ===== src/Adapter/Tests.antt =====
-- A display of adapter/content_range.rs at a concrete range.
use bolt_load.Prelude.{ℕ, ◌<◌, ◌≡◌, refl, arith, some, u64_mod, ok, [], ◌∷◌}
use bolt_load.Adapter.Error.{ContentRange}
use bolt_load.Adapter.ContentRange.{from_str}
use bolt_load.Adapter.Display.{digits, to_string}
use bolt_load.Adapter.RoundTrip.{from_str-to_string}

abbrev second_half : ContentRange
second_half = record { first = 512; last = 1023; complete = some 1024 }

to_string-second_half :
    to_string second_half
    ≡ b'b' ∷ b'y' ∷ b't' ∷ b'e' ∷ b's' ∷ b' ' ∷ b'5' ∷ b'1' ∷ b'2' ∷ b'-' ∷ b'1' ∷ b'0' ∷ b'2'
      ∷ b'3' ∷ b'/' ∷ b'1' ∷ b'0' ∷ b'2' ∷ b'4' ∷ []
unfolding to_string digits
to_string-second_half = refl

some_within : (c : ℕ) → some 1024 ≡ some c → (1023 < c) × (c < u64_mod)
some_within c h = ground (arith, h)

from_str-to_string_example : from_str (to_string second_half) ≡ ok second_half
from_str-to_string_example =
    from_str-to_string second_half (ground arith) (ground arith) some_within
