-- ===== src/Expiry/RoundTrip.antt =====
-- src/app/services/expiry_policy.cpp: what the texts mean, and that `Format` prints texts that
-- `Parse` reads.
use fssvrcpp.Decimal.{to_string}
use fssvrcpp.Decimal.RoundTrip.{power}
use fssvrcpp.Errors.{ok}
use fssvrcpp.Expiry.{
  ExpiryOptions, default_options, scale, cap_with, parse, cap, format, format_capped,
}
use fssvrcpp.Expiry.Digits.{parse_digits-to_string, split_last-append}
use fssvrcpp.Prelude.{
  ℕ, ◌+◌, ◌*◌, ◌/◌, ◌%◌, ◌^◌, ◌<◌, ◌≤◌, ◌&&◌, [], ◌∷◌, ◌++◌, ◌≡◌, refl, arith, some, ltb, ◌==◌,
  if◌then◌else◌, Bool-cases, inl, inr, min, ◌∙◌, ap,
}
use fssvrcpp.Prelude.Int.{ℤ, pos, negsuc, ◌+ℤ◌}

pub data TimeUnit : Type 0 where
  minute hour day : TimeUnit

abbrev pub letter : TimeUnit → ℕ
letter minute = b'M'
letter hour = b'H'
letter day = b'D'

abbrev pub seconds_in : TimeUnit → ℕ
seconds_in minute = 60
seconds_in hour = 3600
seconds_in day = 86400

scale-letter :
    (u : TimeUnit) (n : ℕ)
    → n * seconds_in u < 2 ^ 63
    → scale (letter u) n ≡ ok (pos (n * seconds_in u))
unfolding scale
scale-letter minute n h = ground arith
scale-letter hour n h = ground arith
scale-letter day n h = ground arith

number-bound : (u : TimeUnit) (n : ℕ) → n * seconds_in u < 2 ^ 63 → n < power 18
number-bound minute n h = omega arith
number-bound hour n h = omega arith
number-bound day n h = omega arith

-- A printed number and the letter of a unit are read as that many units in seconds, cut at the
-- maximum, where the product fits in 63 bits.
pub parse-to_string :
    (options : ExpiryOptions) (u : TimeUnit) (n : ℕ)
    → n * seconds_in u < 2 ^ 63
    → parse (some (to_string n ++ (letter u ∷ []))) options
      ≡ ok (cap_with (pos (n * seconds_in u)) options)
unfolding parse
parse-to_string options u n h =
    rw
      (
        parse,
        split_last-append (to_string n) (letter u),
        parse_digits-to_string n (number-bound u n h),
        scale-letter u n h,
      )
      refl

-- `capped` in whole minutes, rounded up.
abbrev pub whole_minutes : ℤ → ℤ
whole_minutes (pos n) = pos ((n + 59) / 60 * 60)
whole_minutes (negsuc n) = negsuc n

parse-default :
    (u : TimeUnit) (n : ℕ)
    → n * seconds_in u ≤ 7 * 86400
    → parse (some (to_string n ++ (letter u ∷ []))) default_options ≡ ok (pos (n * seconds_in u))
unfolding cap_with
parse-default u n h = rw (parse-to_string default_options u n (omega arith)) (ground arith)

parse-as :
    (u : TimeUnit) (n m : ℕ)
    → n * seconds_in u ≡ m
    → m ≤ 7 * 86400
    → parse (some (to_string n ++ (letter u ∷ []))) default_options ≡ ok (pos m)
parse-as u n m e h = parse-default u n (omega arith) ∙ ap (λ k. ok (pos k)) e

+ℤ-pos : (a b : ℕ) → pos a +ℤ pos b ≡ pos (a + b)
unfolding ◌+ℤ◌
+ℤ-pos a b = ground arith

parse-format_capped :
    (n : ℕ)
    → n ≤ 7 * 86400
    → parse (some (format_capped (pos n))) default_options ≡ ok (whole_minutes (pos n))
unfolding format_capped
parse-format_capped n h = elim (Bool-cases (ltb 0 n && n % 86400 == 0)) [
  | inl d ↦ rw (format_capped, d) (parse-as day (n / 86400) _ (ground arith) (omega arith))
  | inr d ↦ elim (Bool-cases (ltb 0 n && n % 3600 == 0)) [
    | inl e ↦ rw (format_capped, d, e) (parse-as hour (n / 3600) _ (ground arith) (omega arith))
    | inr e ↦ elim (Bool-cases (ltb 0 n && n % 60 == 0)) [
      | inl f ↦
          rw (format_capped, d, e, f) (parse-as minute (n / 60) _ (ground arith) (omega arith))
      | inr f ↦
          rw (format_capped, d, e, f, +ℤ-pos (n / 60) (if n % 60 == 0 then 0 else 1))
            (parse-as minute (n / 60 + (if n % 60 == 0 then 0 else 1)) _ (ground arith)
              (omega arith))
    ]
  ]
]

-- The number that `cap` returns.
abbrev capped : ℤ → ℕ
capped (pos n) = min n (7 * 86400)
capped (negsuc n) = 0

cap-pos : (seconds : ℤ) → cap seconds ≡ pos (capped seconds)
unfolding cap cap_with
cap-pos (pos n) = ground arith
cap-pos (negsuc n) = ground arith

capped-le : (seconds : ℤ) → capped seconds ≤ 7 * 86400
capped-le (pos n) = omega arith
capped-le (negsuc n) = omega arith

-- What `Format` prints is read back, under the default limits, as the number of seconds cut to
-- between 0 and 7 days and rounded up to a whole minute.
pub parse-format :
    (seconds : ℤ) → parse (some (format seconds)) default_options ≡ ok (whole_minutes (cap seconds))
unfolding format
parse-format seconds =
    rw (format, cap-pos seconds) (parse-format_capped (capped seconds) (capped-le seconds))
