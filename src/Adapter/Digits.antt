-- ===== src/Adapter/Digits.antt =====
-- The texts that the display of `Content-Range` is made of, under the parsers' helpers.
use bolt_load.Prelude.{
  ℕ, zero, suc, ◌+◌, ◌*◌, ◌/◌, ◌%◌, ◌<◌, ◌≡◌, refl, ap, ◌∙◌, Bool, true, false, not, ◌&&◌, Option,
  none, some, [], ◌∷◌, ◌++◌, arith, ltb, ◌==◌, if◌then◌else◌, all, is_empty, u64_mod,
}
use bolt_load.Adapter.Error.{Text}
use bolt_load.Adapter.Text.{
  is_whitespace, is_ascii_digit, trim_start, trim_end, trim, split_once, digits_value, parse_u64,
  text_eq,
}
use bolt_load.Adapter.ContentRange.{number, complete_length}
use bolt_load.Adapter.Display.{digits, display_u64, display_complete}

-- What has at most that many digits.
abbrev bound : ℕ → ℕ
bound zero = 1
bound (suc fuel) = 10 * bound fuel

digits_value-digits :
    (fuel n : ℕ) (out : Text)
    → n < bound (suc fuel)
    → digits_value 0 (digits (suc fuel) n out) ≡ digits_value n out
unfolding digits digits_value
digits_value-digits zero n out h = ground arith
digits_value-digits (suc fuel) n out h =
    ground (arith, digits_value-digits fuel (n / 10) ((b'0' + n % 10) ∷ out))

all-digits :
    (fuel n : ℕ) (out : Text)
    → all is_ascii_digit out ≡ true
    → all is_ascii_digit (digits fuel n out) ≡ true
unfolding digits
all-digits zero n out h = h
all-digits (suc fuel) n out h = ground (arith, all-digits fuel (n / 10) ((b'0' + n % 10) ∷ out), h)

pub digits-nonempty : (fuel n : ℕ) (out : Text) → is_empty (digits (suc fuel) n out) ≡ false
unfolding digits
digits-nonempty zero n out = ground arith
digits-nonempty (suc fuel) n out =
    ground (arith, digits-nonempty fuel (n / 10) ((b'0' + n % 10) ∷ out))

-- A text of digits.
pub split_once-append :
    (p : ℕ → Bool) (c : ℕ) (xs ys : Text)
    → all (λ x. not (p x)) xs ≡ true
    → p c ≡ true
    → split_once p (xs ++ c ∷ ys) ≡ some (xs, ys)
unfolding split_once
split_once-append p c [] ys h hit = rw hit refl
split_once-append p c (x ∷ xs) ys h hit = ground (arith, split_once-append p c xs ys, h, hit)

pub is_empty-append : (xs ys : Text) → is_empty ys ≡ false → is_empty (xs ++ ys) ≡ false
is_empty-append [] ys h = h
is_empty-append (x ∷ xs) ys h = refl

and_false : (b : Bool) → (b && false) ≡ false
and_false true = refl
and_false false = refl

pub trim_end-append :
    (xs ys : Text) → is_empty ys ≡ false → trim_end ys ≡ ys → trim_end (xs ++ ys) ≡ xs ++ ys
unfolding trim_end
trim_end-append [] ys h e = e
trim_end-append (x ∷ xs) ys h e =
    rw (trim_end-append xs ys h e, is_empty-append xs ys h, and_false) refl

pub trim_end-solid : (ys : Text) → all (λ c. not (is_whitespace c)) ys ≡ true → trim_end ys ≡ ys
unfolding trim_end
trim_end-solid [] h = refl
trim_end-solid (y ∷ ys) h = ground (arith, trim_end-solid ys, h)

pub all_weaken :
    (p q : ℕ → Bool) (xs : Text)
    → ((c : ℕ) → p c ≡ true → q c ≡ true)
    → all p xs ≡ true
    → all q xs ≡ true
all_weaken p q [] f h = refl
all_weaken p q (x ∷ xs) f h = ground (arith, f x, all_weaken p q xs f, h)

pub trim_solid : (ys : Text) → all (λ c. not (is_whitespace c)) ys ≡ true → trim ys ≡ ys
unfolding trim trim_start
trim_solid [] h = refl
trim_solid (y ∷ ys) h = ground (arith, trim_end-solid (y ∷ ys), h)

-- The digits of a `u64`.
pub u64_digits : (n : ℕ) → all is_ascii_digit (display_u64 n) ≡ true
u64_digits n = all-digits 20 n [] refl

pub digit-solid : (c : ℕ) → is_ascii_digit c ≡ true → not (is_whitespace c) ≡ true
digit-solid c h = ground (arith, h)

pub digit-slash : (c : ℕ) → is_ascii_digit c ≡ true → not (c == b'/') ≡ true
digit-slash c h = ground (arith, h)

pub digit-dash : (c : ℕ) → is_ascii_digit c ≡ true → not (c == b'-') ≡ true
digit-dash c h = ground (arith, h)

trim-display : (n : ℕ) → trim (display_u64 n) ≡ display_u64 n
trim-display n = trim_solid (display_u64 n) (
    all_weaken is_ascii_digit (λ c. not (is_whitespace c)) (display_u64 n) digit-solid
      (u64_digits n))

if_lem : {A : Type 0} (x y : A) (b : Bool) → b ≡ true → (if b then x else y) ≡ x
if_lem x y b h = ap (λ c. if c then x else y) h

pub number-display : (n : ℕ) → n < u64_mod → number (display_u64 n) ≡ some n
unfolding number parse_u64
number-display n h =
    let small : n < bound 20 = ground (arith, h) in
    rw (trim-display n, digits-nonempty 19 n [], u64_digits n, digits_value-digits 19 n [] small)
      (if_lem (some n) none (ltb n u64_mod) (ground (arith, h)))

not_star : (ds : Text) → all is_ascii_digit ds ≡ true → text_eq ds (b'*' ∷ []) ≡ false
unfolding text_eq
not_star [] h = refl
not_star (d ∷ ds) h = ground (arith, h)

pub complete_length-display :
    (complete : Option ℕ)
    → ((c : ℕ) → complete ≡ some c → c < u64_mod)
    → complete_length (display_complete complete) ≡ some complete
unfolding complete_length
complete_length-display none h = refl
complete_length-display (some c) h =
    let ds = display_u64 c in
    ap
      (λ t.
        if text_eq t (b'*' ∷ [])
        then some none
        else (elim (number t) [ none ↦ none | some n ↦ some (some n) ]))
      (trim-display c)
    ∙ ap (λ b. if b then some none else (elim (number ds) [ none ↦ none | some n ↦ some (some n) ]))
        (not_star ds (u64_digits c))
    ∙ ap (λ m. elim m [ none ↦ none | some n ↦ some (some n) ]) (number-display c (h c refl))

pub append_assoc : (xs ys zs : Text) → (xs ++ ys) ++ zs ≡ xs ++ (ys ++ zs)
append_assoc [] ys zs = refl
append_assoc (x ∷ xs) ys zs = ap (λ t. x ∷ t) (append_assoc xs ys zs)

pub all-append :
    (p : ℕ → Bool) (xs ys : Text) → all p xs ≡ true → all p ys ≡ true → all p (xs ++ ys) ≡ true
all-append p [] ys h k = k
all-append p (x ∷ xs) ys h k = ground (arith, all-append p xs ys, h, k)
