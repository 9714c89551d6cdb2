-- ===== src/Tests/Services.antt =====
-- The error contract, byte ranges, the expiry parameter, object keys and streams at single inputs.
use fssvrcpp.Decimal.{to_string}
use fssvrcpp.Errors.{err, invalid_argument, ok, is_ok}
use fssvrcpp.Expiry.{parse, cap, format, default_options}
use fssvrcpp.Expiry.Limits.{is_expiry, is_within, parse-is_expiry, parse-is_within}
use fssvrcpp.Expiry.RoundTrip.{whole_minutes, parse-format}
use fssvrcpp.Domain.{staging}
use fssvrcpp.ObjectKey.{
  SourcePath, is_safe_segment, split, make_posix_key, make_file_source, parse_file_source,
  container_for,
}
use fssvrcpp.ObjectKey.Keys.{make_posix_key-parse_file_source}
use fssvrcpp.ObjectKey.RoundTrip.{parse_file_source-make_file_source}
use fssvrcpp.Prelude.{leb, if◌then◌else◌, refl, length, all, true, some, ◌≡◌, arith}
use fssvrcpp.Prelude.Bytes.{Bytes, codes, bytes_eqb}
use fssvrcpp.Prelude.Int.{pos}
use fssvrcpp.Range.{parse_range_header}
use fssvrcpp.Streams.{string_source, limited_source, read_all}
use fssvrcpp.Streams.Limits.{limited_at, outcome, read_all-limited_source}
use fssvrcpp.Range.Bounds.{is_sound, parse_range_header-is_sound}

parse_range_header-is_sound_example :
    is_sound 100 (parse_range_header (codes "bytes=0-9, 90-, -5") (pos 100)) ≡ true
parse_range_header-is_sound_example = parse_range_header-is_sound (codes "bytes=0-9, 90-, -5") 100

parse-is_expiry_example :
    is_ok (parse (some (codes "5M")) default_options) ≡ is_expiry (some (codes "5M"))
parse-is_expiry_example = parse-is_expiry (some (codes "5M")) default_options

parse-is_within_example :
    is_within default_options (parse (some (codes "30D")) default_options) ≡ true
parse-is_within_example =
    parse-is_within (some (codes "30D")) default_options (omega arith) (omega arith)

parse-format_example :
    parse (some (format (pos 3601))) default_options ≡ ok (whole_minutes (cap (pos 3601)))
parse-format_example = parse-format (pos 3601)

abbrev parts : SourcePath
parts = record {
  user_id = codes "u1";
  epoch_millis = pos 7;
  timestamp = codes "2021-03-03-15-13-33-120";
  file_id = codes "f.las";
}

abbrev source : Bytes
source = codes "/u1/7-2021-03-03-15-13-33-120/f.las"

made : make_file_source parts ≡ ok source
unfolding make_file_source bytes_eqb to_string
made = refl

parse_file_source-make_file_source_example : parse_file_source source ≡ ok parts
parse_file_source-make_file_source_example =
    parse_file_source-make_file_source parts source made (omega arith)

accepted : parse_file_source source ≡ ok parts
accepted = parse_file_source-make_file_source parts source made (omega arith)

make_posix_key-parse_file_source_example :
    (is_safe_segment (split b'/' (make_posix_key parts)).0 ≡ true)
    × (length (split b'/' (make_posix_key parts)).1 ≡ 2)
    × (all is_safe_segment (split b'/' (make_posix_key parts)).1 ≡ true)
make_posix_key-parse_file_source_example = make_posix_key-parse_file_source source parts accepted

named : container_for (codes "Op") staging ≡ ok (codes "op-staging")
unfolding container_for
named = refl

named_lower : container_for (codes "op") staging ≡ ok (codes "op-staging")
unfolding container_for
named_lower = refl

read_all-limited_source_example :
    outcome (read_all (limited_source string_source) 9 8 (limited_at (codes "abc") 2 0))
    ≡ some (if leb (length (codes "abc")) 2 then ok (codes "abc") else err invalid_argument)
read_all-limited_source_example =
    read_all-limited_source (codes "abc") 2 8 9 (omega arith) (omega arith) (omega arith)
