-- ===== src/Http/Body.antt =====
-- range.rs: `limit_range_body` and `RangeBody`.
use bolt_load.Prelude.{
  ℕ, ◌-◌, Bool, true, false, Option, none, some, ltb, leb, if◌then◌else◌, length, Result, ok, err,
  add64, sub64,
}
use bolt_load.Adapter.Error.{
  Text, ContentRange, range_body_too_long, range_body_too_short, AdapterError, unretryable,
}

-- An item of a body: a chunk, by its bytes, or an error.
abbrev pub Item : Type 0
Item = Result Text AdapterError

-- `is_open` is false once the body has failed the check; the body itself is what its polls give.
pub record RangeBody : Type 0 where
  pub is_open : Bool
  pub got : ContentRange
  pub remaining : ℕ

-- `got.last - got.first + 1`.
abbrev pub covered : ContentRange → ℕ
covered got = add64 (sub64 got.last got.first) 1

abbrev pub limit_range_body : ContentRange → RangeBody
limit_range_body got = record { is_open = true; got = got; remaining = covered got }

-- `poll_next` on an open body whose poll is ready with an item, or with the end.
abbrev pub poll_item : RangeBody → Option Item → RangeBody × Option Item
poll_item b (some (ok chunk)) =
    if leb (length chunk) b.remaining
    then (record b { remaining = b.remaining - length chunk }, some (ok chunk))
    else (record b { is_open = false }, some (err (unretryable (range_body_too_long b.got))))
poll_item b (some (err e)) = (b, some (err e))
poll_item b none =
    if ltb 0 b.remaining
    then (
      record b { is_open = false },
      some (err (unretryable (range_body_too_short b.got (sub64 (covered b.got) b.remaining)))),
    )
    else (b, none)

unfoldable pub poll_next : RangeBody → Option Item → RangeBody × Option Item
poll_next b item = if b.is_open then poll_item b item else (b, none)
