-- ===== src/ObjectKey/RoundTrip.antt =====
-- src/app/services/object_key_policy.cpp: file sources are read back as the parts they were made
-- of, and the key of an object on disk never leaves its container.
use fssvrcpp.Decimal.{is_digit, to_string}
use fssvrcpp.Decimal.RoundTrip.{
  all-append, all-to_string, decimal_from-to_string, to_string-ne-nil, length-to_string,
}
use fssvrcpp.Errors.{ok}
use fssvrcpp.ObjectKey.{
  SourcePath, is_safe_char, is_safe_segment, is_source_char, split, is_timestamp_shape, all_digits,
  stamp, make_posix_key, make_file_source, parse_stamp, parse_file_source, max_file_source_length,
  max_file_id_length,
}
use fssvrcpp.ObjectKey.Segments.{
  all-implies, differs, split-alone, split-append, break_at-append, is_stamp_char, stamp-all,
  safe-all, safe-differs, safe-source, stamp-differs, stamp-source, digit-differs,
}
use fssvrcpp.Prelude.{
  ℕ, ◌≤◌, true, false, [], ◌∷◌, ◌++◌, ltb, length, all, ◌≡◌, refl, arith, ap, sym, ◌∙◌,
}
use fssvrcpp.Prelude.Bytes.{Bytes}
use fssvrcpp.Prelude.Int.{ℤ, pos, negsuc, pos_part, is_nonpos}
use fssvrcpp.Range.{int64_max}

-- The three segments of a key.
pub split-make_posix_key :
    (parts : SourcePath)
    → is_safe_segment parts.user_id ≡ true
    → is_timestamp_shape parts.timestamp ≡ true
    → is_safe_segment parts.file_id ≡ true
    → split b'/' (make_posix_key parts) ≡ (parts.user_id, stamp parts ∷ parts.file_id ∷ [])
unfolding make_posix_key
split-make_posix_key parts user ts file =
    let plain = λ (xs : Bytes) (h : is_safe_segment xs ≡ true).
      all-implies is_safe_char (differs b'/') xs safe-differs (safe-all xs h) in
    let middle =
      all-implies is_stamp_char (differs b'/') (stamp parts) stamp-differs (stamp-all parts ts) in
    rw
      (
        split-append b'/' parts.user_id (stamp parts ++ (b'/' ∷ parts.file_id))
            (plain parts.user_id user),
        split-append b'/' (stamp parts) parts.file_id middle,
        split-alone b'/' parts.file_id (plain parts.file_id file),
      )
      refl

source_chars :
    (parts : SourcePath)
    → is_safe_segment parts.user_id ≡ true
    → is_timestamp_shape parts.timestamp ≡ true
    → is_safe_segment parts.file_id ≡ true
    → all is_source_char (b'/' ∷ make_posix_key parts) ≡ true
unfolding make_posix_key
source_chars parts user ts file =
    let plain = λ (xs : Bytes) (h : is_safe_segment xs ≡ true).
      all-implies is_safe_char is_source_char xs safe-source (safe-all xs h) in
    let middle =
      all-implies is_stamp_char is_source_char (stamp parts) stamp-source (stamp-all parts ts) in
    all-append is_source_char parts.user_id (b'/' ∷ (stamp parts ++ (b'/' ∷ parts.file_id)))
      (plain parts.user_id user)
      (all-append is_source_char (stamp parts) (b'/' ∷ parts.file_id) middle
        (plain parts.file_id file))

parse_stamp-stamp :
    (parts : SourcePath) (n : ℕ)
    → parts.epoch_millis ≡ pos n
    → n ≤ int64_max
    → is_timestamp_shape parts.timestamp ≡ true
    → is_safe_segment parts.file_id ≡ true
    → length parts.file_id ≤ max_file_id_length
    → parse_stamp parts.user_id (stamp parts) parts.file_id ≡ ok parts
unfolding parse_stamp all_digits
parse_stamp-stamp parts n e small ts file short =
    let cut =
      break_at-append b'-' (to_string n) parts.timestamp
        (all-implies is_digit (differs b'-') (to_string n) digit-differs (all-to_string n)) in
    let count = length-to_string 18 n (omega arith) in
    rw (e, parse_stamp, cut, all_digits, all-to_string n, ts, file, decimal_from-to_string n)
      (ground (arith, count, short, small, to_string-ne-nil n))

parse_file_source-key :
    (parts : SourcePath) (n : ℕ)
    → parts.epoch_millis ≡ pos n
    → n ≤ int64_max
    → is_safe_segment parts.user_id ≡ true
    → is_timestamp_shape parts.timestamp ≡ true
    → is_safe_segment parts.file_id ≡ true
    → length parts.file_id ≤ max_file_id_length
    → length (b'/' ∷ make_posix_key parts) ≤ max_file_source_length
    → parse_file_source (b'/' ∷ make_posix_key parts) ≡ ok parts
unfolding parse_file_source
parse_file_source-key parts n e small user ts file short fits =
    let bound : ltb max_file_source_length (length (b'/' ∷ make_posix_key parts)) ≡ false =
      ground (arith, fits) in
    let chars = source_chars parts user ts file in
    let cut = split-make_posix_key parts user ts file in
    rw (parse_file_source, bound, chars, cut, user)
      (parse_stamp-stamp parts n e small ts file short)

-- What the checks of `MakeFileSource` let through.
make_file_source-ok :
    (parts : SourcePath) (source : Bytes)
    → make_file_source parts ≡ ok source
    → (b'/' ∷ make_posix_key parts ≡ source)
      × (is_safe_segment parts.user_id ≡ true)
      × (is_safe_segment parts.file_id ≡ true)
      × (length parts.file_id ≤ max_file_id_length)
      × (is_nonpos parts.epoch_millis ≡ false)
      × (is_timestamp_shape parts.timestamp ≡ true)
      × (length (b'/' ∷ make_posix_key parts) ≤ max_file_source_length)
unfolding make_file_source
make_file_source-ok parts source h = (
  ground (arith, h),
  ground (arith, h),
  ground (arith, h),
  ground (arith, h),
  ground (arith, h),
  ground (arith, h),
  ground (arith, h),
)

positive : (a : ℤ) → is_nonpos a ≡ false → a ≡ pos (pos_part a)
positive (pos n) h = refl
positive (negsuc n) h = absurd (ground (arith, h))

-- What `MakeFileSource` makes of its parts, `ParseFileSource` reads back as the same parts, for a
-- time of 64 bits.
pub parse_file_source-make_file_source :
    (parts : SourcePath) (source : Bytes)
    → make_file_source parts ≡ ok source
    → pos_part parts.epoch_millis ≤ int64_max
    → parse_file_source source ≡ ok parts
parse_file_source-make_file_source parts source h small =
    let (made, user, file, short, after, ts, fits) = make_file_source-ok parts source h in
    ap parse_file_source (sym made)
    ∙ parse_file_source-key parts (pos_part parts.epoch_millis) (positive parts.epoch_millis after)
        small user ts file short fits
