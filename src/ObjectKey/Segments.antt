-- ===== src/ObjectKey/Segments.antt =====
-- src/app/services/object_key_policy.cpp: texts without a separator, and what a separator cuts.
use fssvrcpp.Decimal.{is_digit, to_string}
use fssvrcpp.Decimal.RoundTrip.{all-append, all-to_string}
use fssvrcpp.ObjectKey.{
  is_safe_char, is_safe_segment, is_source_char, split, has_shape, is_timestamp_shape, SourcePath,
  stamp,
}
use fssvrcpp.Prelude.{
  ℕ, suc, Bool, true, ◌||◌, not, [], ◌∷◌, ◌++◌, some, ◌==◌, all, break_at, ◌≡◌, refl, arith,
}
use fssvrcpp.Prelude.Bytes.{Bytes}
use fssvrcpp.Prelude.Int.{pos_part}

pub all-implies :
    (p q : ℕ → Bool) (xs : Bytes)
    → ((c : ℕ) → p c ≡ true → q c ≡ true)
    → all p xs ≡ true
    → all q xs ≡ true
all-implies p q [] f h = refl
all-implies p q (x ∷ xs) f h = ground (arith, f x, all-implies p q xs f)

-- Not the separator.
abbrev pub differs : ℕ → ℕ → Bool
differs sep c = not (c == sep)

pub split-alone : (sep : ℕ) (xs : Bytes) → all (differs sep) xs ≡ true → split sep xs ≡ (xs, [])
unfolding split
split-alone sep [] h = refl
split-alone sep (x ∷ xs) h = ground (arith, split-alone sep xs)

pub split-append :
    (sep : ℕ) (xs ys : Bytes)
    → all (differs sep) xs ≡ true
    → split sep (xs ++ (sep ∷ ys)) ≡ (xs, (split sep ys).0 ∷ (split sep ys).1)
unfolding split
split-append sep [] ys h = ground arith
split-append sep (x ∷ xs) ys h = ground (arith, split-append sep xs ys)

pub break_at-append :
    (sep : ℕ) (xs ys : Bytes)
    → all (differs sep) xs ≡ true
    → break_at sep (xs ++ (sep ∷ ys)) ≡ some (xs, ys)
unfolding break_at
break_at-append sep [] ys h = ground arith
break_at-append sep (x ∷ xs) ys h = ground (arith, break_at-append sep xs ys)

-- The characters of a time stamp and of a number.
abbrev pub is_stamp_char : ℕ → Bool
is_stamp_char c = is_digit c || c == b'-'

has_shape-all : (i : ℕ) (cs : Bytes) → has_shape i cs ≡ true → all is_stamp_char cs ≡ true
unfolding has_shape
has_shape-all i [] h = refl
has_shape-all i (c ∷ cs) h = ground (arith, has_shape-all (suc i) cs)

pub timestamp-all : (ts : Bytes) → is_timestamp_shape ts ≡ true → all is_stamp_char ts ≡ true
unfolding is_timestamp_shape
timestamp-all ts h = has_shape-all 0 ts (ground (arith, h))

pub stamp-all :
    (parts : SourcePath)
    → is_timestamp_shape parts.timestamp ≡ true
    → all is_stamp_char (stamp parts) ≡ true
stamp-all parts h =
    let n = pos_part parts.epoch_millis in
    all-append is_stamp_char (to_string n) (b'-' ∷ parts.timestamp)
      (all-implies is_digit is_stamp_char (to_string n) (λ c d. ground (arith, d))
        (all-to_string n))
      (ground (arith, timestamp-all parts.timestamp h))

pub safe-all : (xs : Bytes) → is_safe_segment xs ≡ true → all is_safe_char xs ≡ true
unfolding is_safe_segment
safe-all xs h = ground (arith, h)

pub safe-differs : (c : ℕ) → is_safe_char c ≡ true → differs b'/' c ≡ true
safe-differs c h = ground (arith, h)

pub safe-source : (c : ℕ) → is_safe_char c ≡ true → is_source_char c ≡ true
safe-source c h = ground (arith, h)

pub stamp-differs : (c : ℕ) → is_stamp_char c ≡ true → differs b'/' c ≡ true
stamp-differs c h = ground (arith, h)

pub stamp-source : (c : ℕ) → is_stamp_char c ≡ true → is_source_char c ≡ true
stamp-source c h = ground (arith, h)

pub stamp-safe : (c : ℕ) → is_stamp_char c ≡ true → is_safe_char c ≡ true
stamp-safe c h = ground (arith, h)

pub digit-differs : (c : ℕ) → is_digit c ≡ true → differs b'-' c ≡ true
digit-differs c h = ground (arith, h)
