-- ===== src/ObjectKey.antt =====
-- src/app/services/object_key_policy.cpp: the file sources that the service hands out and takes
-- back, the keys and containers of objects, and the old file ids. `FormatTimestamp` is left out; a
-- time stamp is a text here.
pub mod Segments
pub mod RoundTrip
pub mod Keys
pub mod Containers
use fssvrcpp.Decimal.{to_string, decimal_from, is_digit}
use fssvrcpp.Domain.{StorageZone, staging, persistent}
use fssvrcpp.Errors.{Result, ok, err, invalid_argument}
use fssvrcpp.Prelude.{
  ℕ, zero, suc, ◌+◌, Bool, true, false, ◌&&◌, ◌||◌, not, List, [], ◌∷◌, ◌++◌, map, Option, none,
  some, ltb, leb, ◌==◌, if◌then◌else◌, length, all, any, take, drop, break_at, min,
}
use fssvrcpp.Prelude.Bytes.{Bytes, codes, is_empty, bytes_eqb}
use fssvrcpp.Prelude.Int.{ℤ, pos, is_nonpos, pos_part}
use fssvrcpp.Range.{to_lower, int64_max}

-- `kMaxFileSourceLength` and `kMaxFileIdLength`
abbrev pub max_file_source_length : ℕ
max_file_source_length = 1024

abbrev pub max_file_id_length : ℕ
max_file_id_length = 512

pub record SourcePath : Type 0 where
  pub user_id : Bytes
  pub epoch_millis : ℤ
  pub timestamp : Bytes
  pub file_id : Bytes

-- `std::isalnum` in the C locale.
abbrev pub is_alnum : ℕ → Bool
is_alnum c = is_digit c || ((leb b'A' c && leb c b'Z') || (leb b'a' c && leb c b'z'))

-- Control characters.
abbrev pub is_control : ℕ → Bool
is_control c = ltb c 0x20 || c == 0x7f

-- The loop body of `IsSafeSegment`.
abbrev pub is_safe_char : ℕ → Bool
is_safe_char c =
    if is_control c
    then false
    else if c == b'/' || (c == b'\\' || c == b'%')
    then false
    else is_alnum c || (c == b'.' || (c == b'_' || c == b'-'))

unfoldable pub is_safe_segment : Bytes → Bool
is_safe_segment segment =
    if is_empty segment || (bytes_eqb segment (codes ".") || bytes_eqb segment (codes ".."))
    then false
    else all is_safe_char segment

unfoldable pub all_digits : Bytes → Bool
all_digits s = if is_empty s then false else all is_digit s

-- The positions of the dashes.
abbrev pub is_dash_position : ℕ → Bool
is_dash_position i = any (λ d. i == d) (4 ∷ 7 ∷ 10 ∷ 13 ∷ 16 ∷ 19 ∷ [])

-- A dash where one belongs and a digit elsewhere, from position `i` on.
unfoldable pub has_shape : ℕ → Bytes → Bool
has_shape i [] = true
has_shape i (c ∷ cs) =
    let rest = has_shape (suc i) cs in
    if is_dash_position i then c == b'-' && rest else is_digit c && rest

unfoldable pub is_timestamp_shape : Bytes → Bool
unfolding has_shape
is_timestamp_shape ts = if not (length ts == 23) then false else has_shape 0 ts

-- `<epoch_millis>-<timestamp>`; a positive number.
abbrev pub stamp : SourcePath → Bytes
stamp parts = to_string (pos_part parts.epoch_millis) ++ (b'-' ∷ parts.timestamp)

-- `MakePosixKey`, whose time is not negative.
unfoldable pub make_posix_key : SourcePath → Bytes
make_posix_key parts = parts.user_id ++ (b'/' ∷ (stamp parts ++ (b'/' ∷ parts.file_id)))

unfoldable pub make_file_source : SourcePath → Result Bytes
unfolding make_posix_key is_safe_segment is_timestamp_shape
make_file_source parts =
    let out = b'/' ∷ make_posix_key parts in
    if not (is_safe_segment parts.user_id)
    then err invalid_argument
    else if not (is_safe_segment parts.file_id) || ltb max_file_id_length (length parts.file_id)
    then err invalid_argument
    else if is_nonpos parts.epoch_millis
    then err invalid_argument
    else if not (is_timestamp_shape parts.timestamp)
    then err invalid_argument
    else if ltb max_file_source_length (length out)
    then err invalid_argument
    else ok out

-- The characters that the first loop of `ParseFileSource` lets pass.
abbrev pub is_source_char : ℕ → Bool
is_source_char c = not (is_control c) && not (c == b'\\' || c == b'%')

-- The segments between separators: one more than there are separators.
unfoldable pub split : ℕ → Bytes → Bytes × List Bytes
split sep [] = ([], [])
split sep (c ∷ cs) =
    let (front, others) = split sep cs in
    if c == sep then ([], front ∷ others) else (c ∷ front, others)

-- `std::strtoll` of digits, which stops at the largest number.
abbrev pub strtoll : Bytes → ℤ
strtoll digits = pos (min (decimal_from 0 digits) int64_max)

-- The second segment, cut at its first dash.
unfoldable pub parse_stamp : Bytes → Bytes → Bytes → Result SourcePath
unfolding all_digits is_timestamp_shape is_safe_segment
parse_stamp user_id middle file_id = elim (break_at b'-' middle) [
  | none ↦ err invalid_argument
  | some (epoch_text, ts) ↦
      if not (all_digits epoch_text) || (ltb 19 (length epoch_text) || not (is_timestamp_shape ts))
      then err invalid_argument
      else if not (is_safe_segment file_id) || ltb max_file_id_length (length file_id)
      then err invalid_argument
      else ok (record {
        user_id = user_id;
        epoch_millis = strtoll epoch_text;
        timestamp = ts;
        file_id = file_id;
      })
]

abbrev pub parse_segments : Bytes × List Bytes → Result SourcePath
parse_segments (user_id, middle ∷ file_id ∷ []) =
    if not (is_safe_segment user_id)
    then err invalid_argument
    else parse_stamp user_id middle file_id
parse_segments (user_id, _) = err invalid_argument

abbrev pub from_root : Bytes → Result SourcePath
from_root [] = err invalid_argument
from_root (c ∷ path) =
    if not (c == b'/') || not (all is_source_char (c ∷ path))
    then err invalid_argument
    else parse_segments (split b'/' path)

unfoldable pub parse_file_source : Bytes → Result SourcePath
unfolding split parse_stamp
parse_file_source file_source =
    if ltb max_file_source_length (length file_source)
    then err invalid_argument
    else from_root file_source

-- `<yyyy>/<MM>/<dd>/<file_id>`
unfoldable pub make_s3_key : SourcePath → Bytes
make_s3_key parts =
    let ts = parts.timestamp in
    if ltb (length ts) 10
    then parts.file_id
    else take 4 ts
      ++ (b'/' ∷ (take 2 (drop 5 ts) ++ (b'/' ∷ (take 2 (drop 8 ts) ++ (b'/' ∷ parts.file_id)))))

-- `ValidateContainerName`
abbrev pub is_container_char : ℕ → Bool
is_container_char c = not (is_control c) && not (c == b'/' || (c == b'\\' || c == b'%'))

unfoldable pub validate_container_name : Bytes → Result Bytes
validate_container_name name =
    if is_empty name
    then err invalid_argument
    else if all is_container_char name
    then ok name
    else err invalid_argument

abbrev pub zone_suffix : StorageZone → Bytes
zone_suffix staging = codes "staging"
zone_suffix persistent = codes "persistent"

abbrev pub name_container : StorageZone → Result Bytes → Result Bytes
name_container zone (ok name) = ok (map to_lower name ++ (b'-' ∷ zone_suffix zone))
name_container zone (err e) = err e

-- `ContainerFor` of a partition.
unfoldable pub container_for : Bytes → StorageZone → Result Bytes
unfolding validate_container_name
container_for partition zone = name_container zone (validate_container_name partition)

-- What `ContainerFor` reads of a `PartitionConfig`.
pub record PartitionConfig : Type 0 where
  pub partition : Bytes
  pub staging_container : Bytes
  pub persistent_container : Bytes

abbrev override_name : PartitionConfig → StorageZone → Bytes
override_name config staging = config.staging_container
override_name config persistent = config.persistent_container

-- `ContainerFor` of a configuration.
unfoldable pub container_for_config : PartitionConfig → StorageZone → Result Bytes
unfolding container_for validate_container_name
container_for_config config zone =
    if is_empty (override_name config zone)
    then container_for config.partition zone
    else validate_container_name (override_name config zone)

-- `ContainerFor` with what the registry of partitions answered.
unfoldable pub container_for_registered :
    Result PartitionConfig → Bytes → StorageZone → Result Bytes
unfolding container_for_config container_for
container_for_registered (ok config) partition zone = container_for_config config zone
container_for_registered (err e) partition zone = container_for partition zone

-- The characters of a file id in front of the dot, and behind it.
abbrev pub is_base_char : ℕ → Bool
is_base_char c =
    is_alnum c || (c == b'_' || (c == b'-' || (c == b',' || (c == b' ' || c == b'\t'))))

abbrev pub is_word_char : ℕ → Bool
is_word_char c = is_alnum c || c == b'_'

-- What is left behind the longest front of base characters.
unfoldable pub after_base : Bytes → Bytes
after_base [] = []
after_base (c ∷ cs) = if is_base_char c then after_base cs else c ∷ cs

abbrev is_extension : Bytes → Bool
is_extension [] = true
is_extension (dot ∷ []) = false
is_extension (dot ∷ c ∷ cs) = dot == b'.' && all is_word_char (c ∷ cs)

abbrev starts_base : Bytes → Bool
starts_base [] = false
starts_base (c ∷ cs) = is_base_char c

unfoldable pub is_valid_file_id : Bytes → Bool
unfolding after_base
is_valid_file_id file_id =
    if ltb max_file_id_length (length file_id) || not (starts_base file_id)
    then false
    else is_extension (after_base file_id)
