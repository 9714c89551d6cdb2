-- ===== src/Expiry/Limits.antt =====
-- src/app/services/expiry_policy.cpp: which texts are accepted, and the bounds on the answer.
use fssvrcpp.Decimal.{decimal_from}
use fssvrcpp.Errors.{Result, ok, err, is_ok}
use fssvrcpp.Expiry.{ExpiryOptions, split_last, parse_digits, scale, cap_with, parse, cap_scaled}
use fssvrcpp.Expiry.Digits.{is_number, parse_digits_lem}
use fssvrcpp.Prelude.{
  ℕ, Bool, true, false, ◌&&◌, ◌||◌, ◌≡◌, refl, arith, Option, none, some, ◌==◌, Bool-cases,
  Option-cases, inl, inr,
}
use fssvrcpp.Prelude.Bytes.{Bytes}
use fssvrcpp.Prelude.Int.{ℤ, pos, ◌≤ℤ◌, leb_ℤ}

abbrev pub is_unit : ℕ → Bool
is_unit c = c == b'M' || (c == b'H' || c == b'D')

-- Nothing, the empty text, or 1 to 18 digits and a unit.
abbrev pub is_expiry : Option Bytes → Bool
is_expiry none = true
is_expiry (some raw) = elim (split_last raw) [
  | none ↦ true
  | some (digits, unit) ↦ is_number digits && is_unit unit
]

scale-is_ok : (unit value : ℕ) → is_ok (scale unit value) ≡ is_unit unit
unfolding scale
scale-is_ok unit value = ground arith

cap_scaled-is_ok : (options : ExpiryOptions) (r : Result ℤ) → is_ok (cap_scaled options r) ≡ is_ok r
cap_scaled-is_ok options (ok s) = refl
cap_scaled-is_ok options (err e) = refl

parse_digits-none : (cs : Bytes) → is_number cs ≡ false → parse_digits cs ≡ none
parse_digits-none cs h = rw (parse_digits_lem cs, h) refl

parse_digits-some : (cs : Bytes) → is_number cs ≡ true → parse_digits cs ≡ some (decimal_from 0 cs)
parse_digits-some cs h = rw (parse_digits_lem cs, h) refl

-- Whatever the limits, the parameter is accepted just where it is missing or empty, or is 1 to 18
-- decimal digits and then one of the letters M, H and D.
pub parse-is_expiry :
    (raw : Option Bytes) (options : ExpiryOptions) → is_ok (parse raw options) ≡ is_expiry raw
unfolding parse
parse-is_expiry none options = refl
parse-is_expiry (some raw) options = elim (Option-cases (split_last raw)) [
  | inl e ↦ rw (parse, is_expiry, e) refl
  | inr ((digits, unit), e) ↦ elim (Bool-cases (is_number digits)) [
    | inl h ↦
        rw
          (
            parse,
            is_expiry,
            e,
            parse_digits-some digits h,
            h,
            cap_scaled-is_ok options (scale unit (decimal_from 0 digits)),
          )
          (scale-is_ok unit (decimal_from 0 digits))
    | inr h ↦ rw (parse, is_expiry, e, parse_digits-none digits h, h) refl
  ]
]

abbrev pub is_within : ExpiryOptions → Result ℤ → Bool
is_within options (ok seconds) = leb_ℤ (pos 0) seconds && leb_ℤ seconds options.max_seconds
is_within options (err e) = true

cap_scaled-is_within :
    (options : ExpiryOptions) (r : Result ℤ)
    → pos 0 ≤ℤ options.max_seconds
    → is_within options (cap_scaled options r) ≡ true
unfolding cap_with
cap_scaled-is_within options (ok s) h = ground arith
cap_scaled-is_within options (err e) h = refl

-- Where the default lies between 0 and the maximum, so does every expiry that is accepted,
-- whatever the text and whether or not the product of its number and its unit overflows.
pub parse-is_within :
    (raw : Option Bytes) (options : ExpiryOptions)
    → pos 0 ≤ℤ options.default_seconds
    → options.default_seconds ≤ℤ options.max_seconds
    → is_within options (parse raw options) ≡ true
unfolding parse
parse-is_within none options h k = ground arith
parse-is_within (some raw) options h k = elim (Option-cases (split_last raw)) [
  | inl e ↦ rw (parse, e) (ground arith)
  | inr ((digits, unit), e) ↦ elim (Option-cases (parse_digits digits)) [
    | inl bad ↦ rw (parse, e, bad) refl
    | inr (value, good) ↦
        rw (parse, e, good) (cap_scaled-is_within options (scale unit value) (ground arith))
  ]
]
