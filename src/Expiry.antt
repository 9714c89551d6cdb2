-- ===== src/Expiry.antt =====
-- src/app/services/expiry_policy.cpp: the `expiryTime` parameter of the signing calls. A text is
-- bytes; seconds are signed, and a product of seconds wraps as a 64-bit machine's does.
pub mod Digits
pub mod Limits
pub mod RoundTrip
use fssvrcpp.Prelude.{
  ℕ, zero, suc, ◌+◌, ◌-◌, ◌*◌, ◌/◌, ◌%◌, ◌^◌, Bool, true, false, ◌&&◌, ◌||◌, not, List, [], ◌∷◌,
  ◌++◌, Option, none, some, ltb, leb, ◌==◌, if◌then◌else◌, length,
}
use fssvrcpp.Prelude.Bytes.{Bytes, is_empty}
use fssvrcpp.Prelude.Int.{to_int64, ℤ, pos, negsuc, ◌+ℤ◌, ltb_ℤ, is_neg}
use fssvrcpp.Errors.{ErrorKind, invalid_argument, Result, ok, err}
use fssvrcpp.Decimal.{to_string}

pub record ExpiryOptions : Type 0 where
  pub default_seconds : ℤ
  pub max_seconds : ℤ

-- `kDefaultExpirySeconds` and `kMaxExpirySeconds`
abbrev pub default_options : ExpiryOptions
default_options = record { default_seconds = pos 3600; max_seconds = pos (7 * 86400) }

abbrev pub int64_max : ℕ
int64_max = 2 ^ 63 - 1

-- The loop of `ParseDigits`.
unfoldable pub digits_from : ℕ → Bytes → Option ℕ
digits_from value [] = some value
digits_from value (c ∷ cs) =
    let digit = c - b'0' in
    let rest = digits_from (value * 10 + digit) cs in
    if ltb c b'0' || ltb b'9' c
    then none
    else if ltb ((int64_max - digit) / 10) value
    then none
    else rest

unfoldable pub parse_digits : Bytes → Option ℕ
unfolding digits_from
parse_digits text = if is_empty text || ltb 18 (length text) then none else digits_from 0 text

-- `substr(0, size() - 1)` and `back()` of a text that is not empty.
unfoldable pub split_last : Bytes → Option (Bytes × ℕ)
split_last [] = none
split_last (c ∷ cs) = elim (split_last cs) [
  | none ↦ some ([], c)
  | some (front, last) ↦ some (c ∷ front, last)
]

-- The `switch` on the unit.
unfoldable pub scale : ℕ → ℕ → Result ℤ
scale unit value =
    if unit == b'M'
    then ok (to_int64 (value * 60))
    else if unit == b'H'
    then ok (to_int64 (value * 3600))
    else if unit == b'D'
    then ok (to_int64 (value * 86400))
    else err invalid_argument

-- `ParseSeconds`, which is `ParseExact`.
unfoldable pub parse_exact : Option Bytes → Result ℤ
unfolding split_last parse_digits scale
parse_exact none = err invalid_argument
parse_exact (some raw) = elim (split_last raw) [
  | none ↦ err invalid_argument
  | some (digits, unit) ↦ elim (parse_digits digits) [
    | none ↦ err invalid_argument
    | some value ↦ scale unit value
  ]
]

unfoldable pub cap_with : ℤ → ExpiryOptions → ℤ
cap_with seconds options =
    if is_neg seconds
    then pos 0
    else if ltb_ℤ options.max_seconds seconds
    then options.max_seconds
    else seconds

-- `Cap` under the defaults.
unfoldable pub cap : ℤ → ℤ
unfolding cap_with
cap seconds = cap_with seconds default_options

abbrev pub cap_scaled : ExpiryOptions → Result ℤ → Result ℤ
cap_scaled options (ok seconds) = ok (cap_with seconds options)
cap_scaled options (err e) = err e

unfoldable pub parse : Option Bytes → ExpiryOptions → Result ℤ
unfolding split_last parse_digits scale cap_with
parse none options = ok options.default_seconds
parse (some raw) options = elim (split_last raw) [
  | none ↦ ok options.default_seconds
  | some (digits, unit) ↦ elim (parse_digits digits) [
    | none ↦ err invalid_argument
    | some value ↦ cap_scaled options (scale unit value)
  ]
]

abbrev int_text : ℤ → Bytes
int_text (pos n) = to_string n
int_text (negsuc n) = b'-' ∷ to_string (suc n)

-- `capped / 60`, which the machine rounds towards 0.
abbrev minutes : ℤ → ℤ
minutes (pos n) = pos (n / 60)
minutes (negsuc n) = if ltb (suc n) 60 then pos 0 else negsuc (suc n / 60 - 1)

abbrev part_minute : ℤ → ℕ
part_minute (pos n) = if n % 60 == 0 then 0 else 1
part_minute (negsuc n) = if suc n % 60 == 0 then 0 else 1

abbrev divides : ℕ → ℤ → Bool
divides d (pos n) = ltb 0 n && n % d == 0
divides d (negsuc n) = false

abbrev quotient : ℕ → ℤ → Bytes
quotient d (pos n) = to_string (n / d)
quotient d (negsuc n) = []

unfoldable pub format_capped : ℤ → Bytes
format_capped capped =
    if divides 86400 capped
    then quotient 86400 capped ++ (b'D' ∷ [])
    else if divides 3600 capped
    then quotient 3600 capped ++ (b'H' ∷ [])
    else if divides 60 capped
    then quotient 60 capped ++ (b'M' ∷ [])
    else int_text (minutes capped +ℤ pos (part_minute capped)) ++ (b'M' ∷ [])

unfoldable pub format : ℤ → Bytes
unfolding format_capped cap
format seconds = format_capped (cap seconds)
