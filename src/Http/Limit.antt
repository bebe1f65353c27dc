-- ===== src/Http/Limit.antt =====
-- What a limited body passes on.
use bolt_load.Prelude.{
  ℕ, ◌+◌, ◌-◌, ◌≤◌, ◌<◌, ◌≡◌, refl, sym, ◌∙◌, Bool, true, false, inl, inr, Option, none, some, List,
  [], ◌∷◌, ltb, leb, length, ok, err, add64, sub64, arith, Bool-cases, u64_mod, le→leb, all,
}
use bolt_load.Adapter.Error.{ContentRange}
use bolt_load.Http.Body.{Item, RangeBody, covered, limit_range_body, poll_next}

-- The items that the reader of a body gets, up to the end: the inner stream gives the items and then
-- ends.
abbrev pub and_then : Option Item → List Item → List Item
and_then none items = []
and_then (some item) items = item ∷ items

unfoldable pub drain : RangeBody → List Item → List Item
unfolding poll_next
drain b [] = let (b', out) = poll_next b none in and_then out []
drain b (item ∷ items) =
    let (b', out) = poll_next b (some item) in let rest = drain b' items in and_then out rest

-- The bytes of the chunks.
abbrev pub item_bytes : Item → ℕ
item_bytes (ok chunk) = length chunk
item_bytes (err e) = 0

unfoldable pub total_bytes : List Item → ℕ
total_bytes [] = 0
total_bytes (item ∷ items) = item_bytes item + total_bytes items

abbrev pub is_chunk : Item → Bool
is_chunk (ok chunk) = true
is_chunk (err e) = false

drain-closed :
    (got : ContentRange) (remaining : ℕ) (items : List Item)
    → drain (record { is_open = false; got = got; remaining = remaining }) items ≡ []
unfolding drain poll_next
drain-closed got remaining [] = refl
drain-closed got remaining (item ∷ items) = refl

-- An open body with `n` bytes to come: at most so many are passed on, and so many if there is no error.
drain_lem :
    (got : ContentRange) (n : ℕ) (items : List Item)
    → let out = drain (record { is_open = true; got = got; remaining = n }) items in
      (total_bytes out ≤ n) × (all is_chunk out ≡ true → total_bytes out ≡ n)
unfolding drain poll_next total_bytes
drain_lem got n [] = elim (Bool-cases (ltb 0 n)) [
  | inl e ↦ rw e (omega arith, λ k. absurd (ground arith))
  | inr e ↦ rw e (omega arith, λ k. ground arith)
]
drain_lem got n (err e ∷ items) =
    let (most, _) = drain_lem got n items in (omega (arith, most), λ k. absurd (ground arith))
drain_lem got n (ok chunk ∷ items) = elim (Bool-cases (leb (length chunk) n)) [
  | inl e ↦
      let (most, exact) = drain_lem got (n - length chunk) items in
      rw e (ground (arith, most), λ k. ground (arith, exact k))
  | inr e ↦ rw (e, drain-closed got n items) (omega arith, λ k. absurd (ground arith))
]

-- A body that gives exactly the bytes, without an error, is passed on as it is.
drain-exact :
    (got : ContentRange) (n : ℕ) (items : List Item)
    → all is_chunk items ≡ true
    → total_bytes items ≡ n
    → drain (record { is_open = true; got = got; remaining = n }) items ≡ items
unfolding drain poll_next total_bytes
drain-exact got n [] a e = rw (← e) refl
drain-exact got n (err x ∷ items) a e = absurd (ground arith)
drain-exact got n (ok chunk ∷ items) a e =
    rw
      (
        le→leb (length chunk) n (omega (arith, e)),
        drain-exact got (n - length chunk) items a (omega (arith, e)),
      )
      refl

covered_lem :
    (got : ContentRange)
    → got.first ≤ got.last
    → got.last + 1 < u64_mod
    → covered got ≡ got.last + 1 - got.first
unfolding add64 sub64
covered_lem got l m = omega arith

pub limit_range_body_lem :
    (got : ContentRange) (items : List Item)
    → got.first ≤ got.last
    → got.last + 1 < u64_mod
    → let out = drain (limit_range_body got) items in
      (total_bytes out ≤ got.last + 1 - got.first)
      × (all is_chunk out ≡ true → total_bytes out ≡ got.last + 1 - got.first)
limit_range_body_lem got items l m =
    let size : covered got ≡ got.last + 1 - got.first = covered_lem got l m in
    let (most, exact) = drain_lem got (covered got) items in
    (omega (arith, most, size), λ k. exact k ∙ size)

-- For a `Content-Range` in order and within 64 bits, a body that gives exactly as many bytes as the range
-- has, without an error, is passed on as it is.
pub limit_range_body-exact :
    (got : ContentRange) (items : List Item)
    → got.first ≤ got.last
    → got.last + 1 < u64_mod
    → all is_chunk items ≡ true
    → total_bytes items ≡ got.last + 1 - got.first
    → drain (limit_range_body got) items ≡ items
limit_range_body-exact got items l m k e =
    drain-exact got (covered got) items k (e ∙ sym (covered_lem got l m))
