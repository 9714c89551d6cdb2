-- ===== src/Range.antt =====
-- src/common/bytes/bytes.cpp: `ParseRangeHeader` with its helpers, and the formatting of
-- `Content-Range`. Offsets that the code keeps in `std::int64_t` but that are never negative are
-- natural numbers; the total size, which may be, is an integer.
pub mod Bounds
pub mod Numbers
use fssvrcpp.Decimal.{to_string}
use fssvrcpp.Prelude.{
  ℕ, zero, suc, ◌+◌, ◌-◌, ◌*◌, ◌/◌, ◌^◌, Bool, true, false, ◌&&◌, ◌||◌, not, List, [], ◌∷◌, ◌++◌,
  map, Option, none, some, if◌then◌else◌, ltb, leb, ◌==◌, length, break_at, min,
}
use fssvrcpp.Prelude.Bytes.{Bytes, codes, is_empty, bytes_eqb}
use fssvrcpp.Prelude.Int.{ℤ, pos, negsuc, is_neg}

pub record ByteRange : Type 0 where
  pub first : ℕ
  pub last : ℕ

pub data RangeStatus : Type 0 where
  absent single multiple unsatisfiable malformed : RangeStatus

-- `RangeResult`, without the detail for the log.
pub record RangeResult : Type 0 where
  pub status : RangeStatus
  pub ranges : List ByteRange

-- `kMaxRanges`
abbrev pub max_ranges : ℕ
max_ranges = 32

abbrev pub int64_max : ℕ
int64_max = 2 ^ 63 - 1

abbrev pub uint64_max : ℕ
uint64_max = 2 ^ 64 - 1

-- The loop of `ParseUint64`.
unfoldable pub uint64_from : ℕ → Bytes → Option ℕ
uint64_from value [] = some value
uint64_from value (c ∷ cs) =
    let digit = c - b'0' in
    let rest = uint64_from (value * 10 + digit) cs in
    if ltb c b'0' || ltb b'9' c
    then none
    else if ltb ((uint64_max - digit) / 10) value
    then none
    else rest

unfoldable pub parse_uint64 : Bytes → Option ℕ
unfolding uint64_from
parse_uint64 [] = none
parse_uint64 (c ∷ cs) = elim (uint64_from 0 (c ∷ cs)) [
  | none ↦ none
  | some value ↦ if ltb int64_max value then none else some value
]

abbrev pub is_blank : ℕ → Bool
is_blank c = c == b' ' || c == b'\t'

-- `Trim`, at the front and at the back.
unfoldable pub trim_front : Bytes → Bytes
trim_front [] = []
trim_front (c ∷ cs) = if is_blank c then trim_front cs else c ∷ cs

unfoldable pub trim_back : Bytes → Bytes
trim_back [] = []
trim_back (c ∷ cs) = let rest = trim_back cs in if is_blank c && is_empty rest then [] else c ∷ rest

unfoldable pub trim : Bytes → Bytes
unfolding trim_front trim_back
trim cs = trim_back (trim_front cs)

-- `std::tolower` in the C locale.
abbrev pub to_lower : ℕ → ℕ
to_lower c = if leb b'A' c && leb c b'Z' then c + 32 else c

-- What the loop makes of one range.
pub data Spec : Type 0 where
  invalid : Spec
  beyond : Spec
  within : ByteRange → Spec

-- The last `suffix` bytes.
unfoldable pub suffix_range : ℤ → ℕ → Spec
suffix_range (negsuc t) suffix = if suffix == 0 then beyond else invalid
suffix_range (pos total) suffix =
    if suffix == 0
    then beyond
    else if total == 0
    then beyond
    else within
        (record { first = if leb total suffix then 0 else total - suffix; last = total - 1 })

-- `first-`
unfoldable pub open_range : ℤ → ℕ → Spec
open_range (negsuc t) first = within (record { first = first; last = int64_max })
open_range (pos total) first =
    if leb total first then beyond else within (record { first = first; last = total - 1 })

-- `first-last`
unfoldable pub closed_range : ℤ → ℕ → ℕ → Spec
closed_range (negsuc t) first last =
    if ltb last first then invalid else within (record { first = first; last = last })
closed_range (pos total) first last =
    if ltb last first
    then invalid
    else if leb total first
    then beyond
    else within (record { first = first; last = min last (total - 1) })

unfoldable pub parse_bounds : ℤ → Bytes → Bytes → Spec
unfolding suffix_range open_range closed_range
parse_bounds total first_text last_text =
    if is_empty first_text && is_empty last_text
    then invalid
    else if is_empty first_text
    then (elim (parse_uint64 last_text) [
      | none ↦ invalid
      | some suffix ↦ suffix_range total suffix
    ])
    else (elim (parse_uint64 first_text) [
      | none ↦ invalid
      | some first ↦
          if is_empty last_text then open_range total first else (elim (parse_uint64 last_text) [
            | none ↦ invalid
            | some last ↦ closed_range total first last
          ])
    ])

unfoldable pub parse_spec : ℤ → Bytes → Spec
unfolding parse_bounds
parse_spec total spec = elim (break_at b'-' spec) [
  | none ↦ invalid
  | some (before, after) ↦ parse_bounds total (trim before) (trim after)
]

-- The pieces that the loop visits, each with whether a comma ends it: a comma at the end of the
-- text is followed by no piece.
abbrev extend_piece : ℕ → List (Bytes × Bool) → List (Bytes × Bool)
extend_piece c [] = (c ∷ [], false) ∷ []
extend_piece c ((piece, ended) ∷ rest) = (c ∷ piece, ended) ∷ rest

unfoldable pub pieces : Bytes → List (Bytes × Bool)
pieces [] = []
pieces (c ∷ cs) =
    let rest = pieces cs in if c == b',' then ([], true) ∷ rest else extend_piece c rest

abbrev pub malformed_result : RangeResult
malformed_result = record { status = malformed; ranges = [] }

-- Behind the loop.
abbrev pub finish : List ByteRange → ℕ → RangeResult
finish [] misses =
    if ltb 0 misses then record { status = unsatisfiable; ranges = [] } else malformed_result
finish (r ∷ []) misses = record { status = single; ranges = r ∷ [] }
finish (r ∷ q ∷ rs) misses = record { status = multiple; ranges = r ∷ q ∷ rs }

-- The loop: the ranges and the misses so far, and the count of ranges looked at.
unfoldable pub scan : ℤ → List (Bytes × Bool) → List ByteRange → ℕ → ℕ → RangeResult
scan total [] ranges misses specs = finish ranges misses
scan total ((piece, ended) ∷ rest) ranges misses specs = elim (is_empty (trim piece)) [
  | true ↦ elim (specs == 0 && not ended) [
    | true ↦ malformed_result
    | false ↦ scan total rest ranges misses specs
  ]
  | false ↦ elim (ltb max_ranges (specs + 1)) [
    | true ↦ malformed_result
    | false ↦ elim (parse_spec total (trim piece)) [
      | invalid ↦ malformed_result
      | beyond ↦ scan total rest ranges (misses + 1) (specs + 1)
      | within r ↦ scan total rest (ranges ++ (r ∷ [])) misses (specs + 1)
    ]
  ]
]

unfoldable pub parse_set : ℤ → Bytes → RangeResult
unfolding scan pieces
parse_set total set = if is_empty set then malformed_result else scan total (pieces set) [] 0 0

unfoldable pub parse_range_header : Bytes → ℤ → RangeResult
unfolding parse_set trim
parse_range_header header total =
    if is_empty (trim header)
    then record { status = absent; ranges = [] }
    else (elim (break_at b'=' (trim header)) [
      | none ↦ malformed_result
      | some (unit, set) ↦
          if not (bytes_eqb (map to_lower (trim unit)) (codes "bytes"))
          then malformed_result
          else parse_set total (trim set)
    ])

abbrev total_text : ℤ → Bytes
total_text (pos n) = to_string n
total_text (negsuc n) = codes "*"

unfoldable pub format_content_range : ByteRange → ℤ → Bytes
format_content_range r total =
    codes "bytes "
    ++ (to_string r.first ++ (codes "-" ++ (to_string r.last ++ (codes "/" ++ total_text total))))

unfoldable pub format_unsatisfied_content_range : ℤ → Bytes
format_unsatisfied_content_range total = codes "bytes */" ++ total_text total

-- `FormatMultipartRangeHeader`
unfoldable pub format_multipart_range_header : Bytes → ByteRange → ℤ → Bytes → Bytes
unfolding format_content_range
format_multipart_range_header boundary r total content_type =
    let line_end = b'\r' ∷ b'\n' ∷ [] in
    let kind = if is_empty content_type then codes "application/octet-stream" else content_type in
    codes "--"
    ++ (boundary
        ++ (line_end
            ++ (codes "Content-Type: "
                ++ (kind
                    ++ (line_end
                        ++ (codes "Content-Range: "
                            ++ (format_content_range r total ++ (line_end ++ line_end))))))))
