-- ===== src/ObjectKey/Keys.antt =====
-- src/app/services/object_key_policy.cpp: where a key leads on disk.
use fssvrcpp.Decimal.{to_string}
use fssvrcpp.Errors.{ok}
use fssvrcpp.ObjectKey.{
  SourcePath, is_safe_char, is_safe_segment, split, is_timestamp_shape, stamp, make_posix_key,
  parse_stamp, parse_segments, parse_file_source, from_root,
}
use fssvrcpp.ObjectKey.RoundTrip.{split-make_posix_key}
use fssvrcpp.ObjectKey.Segments.{all-implies, is_stamp_char, stamp-all, stamp-safe}
use fssvrcpp.Prelude.{
  ◌≤◌, true, List, [], ◌∷◌, length, length-append, all, break_at, ◌≡◌, refl, arith, Option-cases,
  Bool-cases, inl, inr,
}
use fssvrcpp.Prelude.Bytes.{Bytes, bytes_eqb}
use fssvrcpp.Prelude.Int.{pos_part}

-- The parts that a file source may have.
pub record IsChecked (parts : SourcePath) : Type 0 where
  pub user : is_safe_segment parts.user_id ≡ true
  pub timestamp : is_timestamp_shape parts.timestamp ≡ true
  pub file : is_safe_segment parts.file_id ≡ true

parse_stamp-IsChecked :
    (user middle file : Bytes) (parts : SourcePath)
    → is_safe_segment user ≡ true
    → parse_stamp user middle file ≡ ok parts
    → IsChecked parts
unfolding parse_stamp
parse_stamp-IsChecked user middle file parts safe h = elim (Option-cases (break_at b'-' middle)) [
  | inl e ↦ absurd (ground (arith, e, h))
  | inr ((digits, ts), e) ↦ record {
    user = ground (arith, e, h, safe);
    timestamp = ground (arith, e, h);
    file = ground (arith, e, h);
  }
]

parse_segments-IsChecked :
    (s : Bytes × List Bytes) (parts : SourcePath) → parse_segments s ≡ ok parts → IsChecked parts
parse_segments-IsChecked (user, []) parts h = absurd (ground (arith, h))
parse_segments-IsChecked (user, middle ∷ []) parts h = absurd (ground (arith, h))
parse_segments-IsChecked (user, middle ∷ file ∷ []) parts h =
    elim (Bool-cases (is_safe_segment user)) [
      | inl safe ↦ parse_stamp-IsChecked user middle file parts safe (ground (arith, h, safe))
      | inr unsafe ↦ absurd (ground (arith, h, unsafe))
    ]
parse_segments-IsChecked (user, middle ∷ file ∷ more ∷ rest) parts h = absurd (ground (arith, h))

from_root-IsChecked :
    (source : Bytes) (parts : SourcePath) → from_root source ≡ ok parts → IsChecked parts
from_root-IsChecked [] parts h = absurd (ground (arith, h))
from_root-IsChecked (c ∷ path) parts h =
    parse_segments-IsChecked (split b'/' path) parts (ground (arith, h))

parse_file_source-IsChecked :
    (source : Bytes) (parts : SourcePath) → parse_file_source source ≡ ok parts → IsChecked parts
unfolding parse_file_source
parse_file_source-IsChecked source parts h = from_root-IsChecked source parts (ground (arith, h))

stamp-safe_segment :
    (xs : Bytes) → all is_stamp_char xs ≡ true → 1 ≤ length xs → is_safe_segment xs ≡ true
unfolding is_safe_segment bytes_eqb
stamp-safe_segment [] h n = absurd (ground arith)
stamp-safe_segment (c ∷ cs) h n =
    ground (arith, h, all-implies is_stamp_char is_safe_char (c ∷ cs) stamp-safe h)

-- The key on disk of every file source that is accepted has three segments, and each of them is
-- safe: it is not empty, not `.` or `..`, and has letters, digits, dots, dashes and underscores only.
pub make_posix_key-parse_file_source :
    (source : Bytes) (parts : SourcePath)
    → parse_file_source source ≡ ok parts
    → let segments = split b'/' (make_posix_key parts) in
      (is_safe_segment segments.0 ≡ true)
      × (length segments.1 ≡ 2)
      × (all is_safe_segment segments.1 ≡ true)
make_posix_key-parse_file_source source parts h =
    let checked = parse_file_source-IsChecked source parts h in
    let long = length-append (to_string (pos_part parts.epoch_millis)) (b'-' ∷ parts.timestamp) in
    let middle =
      stamp-safe_segment (stamp parts) (stamp-all parts checked.timestamp) (ground (arith, long)) in
    rw (split-make_posix_key parts checked.user checked.timestamp checked.file)
      (checked.user, refl, ground (arith, middle, checked.file))
