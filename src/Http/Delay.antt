-- ===== src/Http/Delay.antt =====
-- What a server's `Retry-After` makes of a refusal.
use bolt_load.Prelude.{
  ℕ, ◌≡◌, refl, ap, ◌∙◌, Bool, true, false, not, ◌||◌, ◌&&◌, Option, none, some, [], ◌∷◌, ◌++◌, ltb,
  ◌==◌, if◌then◌else◌, all, is_empty, u64_mod, min, arith,
}
use bolt_load.Adapter.Error.{Text, unretryable, congestion}
use bolt_load.Adapter.Text.{
  is_whitespace, is_ascii_digit, trim_start, trim_end, trim, digits_value, parse_u64,
}
use bolt_load.Adapter.Digits.{digit-solid, all_weaken, trim_end-solid}
use bolt_load.Http.Status.{clamp, classify_status}
use bolt_load.Http.RetryAfter.{or_max, from_secs, delay_from, parse_retry_after}

and_parts : (a b : Bool) → (a && b) ≡ true → (a ≡ true) × (b ≡ true)
and_parts a b h = (ground (arith, h), ground (arith, h))

trim_end-blank : (after : Text) → all is_whitespace after ≡ true → trim_end after ≡ []
unfolding trim_end
trim_end-blank [] h = refl
trim_end-blank (c ∷ cs) h = ground (arith, trim_end-blank cs, h)

trim_end-before :
    (xs after : Text) → all is_whitespace after ≡ true → trim_end (xs ++ after) ≡ trim_end xs
unfolding trim_end
trim_end-before [] after h = trim_end-blank after h
trim_end-before (x ∷ xs) after h = rw (trim_end-before xs after h) refl

trim_start-blank :
    (before xs : Text) → all is_whitespace before ≡ true → trim_start (before ++ xs) ≡ trim_start xs
unfolding trim_start
trim_start-blank [] xs h = refl
trim_start-blank (c ∷ cs) xs h =
    let (blank, blanks) = and_parts (is_whitespace c) (all is_whitespace cs) h in
    ap (λ b. if b then trim_start (cs ++ xs) else (c ∷ (cs ++ xs))) blank
    ∙ trim_start-blank cs xs blanks

trim_start-solid :
    (s after : Text)
    → is_empty s ≡ false
    → all (λ c. not (is_whitespace c)) s ≡ true
    → trim_start (s ++ after) ≡ s ++ after
unfolding trim_start
trim_start-solid [] after h k = ground (arith, h)
trim_start-solid (c ∷ cs) after h k = ground (arith, k)

trim-padded :
    (before s after : Text)
    → all is_whitespace before ≡ true
    → is_empty s ≡ false
    → all (λ c. not (is_whitespace c)) s ≡ true
    → all is_whitespace after ≡ true
    → trim (before ++ (s ++ after)) ≡ s
unfolding trim
trim-padded before s after b filled solid a =
    ap trim_end (trim_start-blank before (s ++ after) b ∙ trim_start-solid s after filled solid)
    ∙ trim_end-before s after a
    ∙ trim_end-solid s solid

clamped :
    (n : ℕ)
    → clamp (some (from_secs (or_max (if ltb n u64_mod then some n else none))))
      ≡ some (from_secs (min n 120))
clamped n = ground arith

-- The clamp makes up for the saturation.
clamp-digits :
    (s : Text)
    → clamp (some (from_secs (or_max (parse_u64 s))))
      ≡ some (from_secs (min (digits_value 0 s) 120))
unfolding parse_u64
clamp-digits s = clamped (digits_value 0 s)

parse_retry_after-digits :
    (parse_http_date : Text → Option ℕ)
    → (value s : Text) (now : ℕ) → trim value ≡ s
    → is_empty s ≡ false
    → all is_ascii_digit s ≡ true
    → parse_retry_after parse_http_date value now ≡ some (from_secs (or_max (parse_u64 s)))
unfolding parse_retry_after
parse_retry_after-digits parse_http_date value s now h filled digits =
    ap
      (λ t.
        if not (is_empty t) && all is_ascii_digit t
        then some (from_secs (or_max (parse_u64 t)))
        else delay_from now (parse_http_date t))
      h
    ∙ ap
        (λ b.
          if not b && all is_ascii_digit s
          then some (from_secs (or_max (parse_u64 s)))
          else delay_from now (parse_http_date s))
        filled
    ∙ ap
        (λ b.
          if b then some (from_secs (or_max (parse_u64 s))) else delay_from now (parse_http_date s))
        digits

classify_status-congestion :
    (status : ℕ) (retry_after : Option ℕ)
    → (status == 429 || status == 503) ≡ true
    → classify_status status retry_after ≡ unretryable (congestion status (clamp retry_after))
unfolding classify_status
classify_status-congestion status retry_after h = ground (arith, h)

-- A refusal with the status 429 or 503 whose `Retry-After` is a number, in digits and with any white
-- space around them, is a congestion whose delay is that number of seconds, and 120 seconds where it
-- is more, also when the number exceeds a `u64`.
pub parse_retry_after_lem :
    (parse_http_date : Text → Option ℕ)
    → (status now : ℕ) (before s after : Text) → (status == 429 || status == 503) ≡ true
    → all is_whitespace before ≡ true
    → is_empty s ≡ false
    → all is_ascii_digit s ≡ true
    → all is_whitespace after ≡ true
    → classify_status status (parse_retry_after parse_http_date (before ++ (s ++ after)) now)
      ≡ unretryable (congestion status (some (from_secs (min (digits_value 0 s) 120))))
parse_retry_after_lem parse_http_date status now before s after refused b filled digits a =
    let solid = all_weaken is_ascii_digit (λ c. not (is_whitespace c)) s digit-solid digits in
    let trimmed = trim-padded before s after b filled solid a in
    classify_status-congestion status
      (parse_retry_after parse_http_date (before ++ (s ++ after)) now) refused
    ∙ ap (λ d. unretryable (congestion status (clamp d)))
        (parse_retry_after-digits parse_http_date (before ++ (s ++ after)) s now trimmed filled
          digits)
    ∙ ap (λ d. unretryable (congestion status d)) (clamp-digits s)
