-- ===== src/Kind.antt =====
-- src/app/services/kind_validator.cpp: the check of a record's `kind`. The regular expression, which
-- has characters and repeated characters only, is a list of them; where a repetition may end, both
-- ways to go on are tried.
pub mod Accepted
use fssvrcpp.Decimal.{is_digit}
use fssvrcpp.Errors.{Result, ok, err, invalid_argument}
use fssvrcpp.ObjectKey.{is_word_char, split}
use fssvrcpp.Prelude.{ℕ, Bool, true, false, not, ◌&&◌, ◌||◌, List, [], ◌∷◌, ◌==◌, if◌then◌else◌}
use fssvrcpp.Prelude.Bytes.{Bytes, codes, bytes_eqb}

-- One character that passes a test, or one or more of them.
pub data Part : Type 0 where
  one many : (ℕ → Bool) → Part

-- `std::regex_match`
unfoldable pub matches : List Part → Bytes → Bool
matches [] [] = true
matches [] (c ∷ cs) = false
matches (part ∷ parts) [] = false
matches (one p ∷ parts) (c ∷ cs) = p c && matches parts cs
matches (many p ∷ parts) (c ∷ cs) = elim (p c) [
  | false ↦ false
  | true ↦ elim (matches parts cs) [ true ↦ true | false ↦ matches (many p ∷ parts) cs ]
]

-- `[\w\-\.]`, `:` and the dot that is not escaped, which line ends do not match.
abbrev pub is_kind_char : ℕ → Bool
is_kind_char c = is_word_char c || (c == b'-' || c == b'.')

abbrev pub is_colon : ℕ → Bool
is_colon c = c == b':'

abbrev pub is_any : ℕ → Bool
is_any c = not (c == b'\n' || c == b'\r')

abbrev pub version_parts : List Part
version_parts = many is_digit ∷ one is_any ∷ many is_digit ∷ one is_any ∷ many is_digit ∷ []

-- `KindRegex`
abbrev pub kind_parts : List Part
kind_parts =
    many is_kind_char
    ∷ one is_colon
    ∷ many is_kind_char
    ∷ one is_colon
    ∷ many is_kind_char
    ∷ one is_colon
    ∷ version_parts

pub record KindParts : Type 0 where
  pub partition : Bytes
  pub source : Bytes
  pub entity : Bytes
  pub version : Bytes

unfoldable pub matches_syntax : Bytes → Bool
unfolding matches
matches_syntax kind = matches kind_parts kind

-- The checks behind the syntax, on the parts between colons.
unfoldable pub check_parts : Bytes × List Bytes → Result KindParts
check_parts (partition, source ∷ entity ∷ version ∷ []) =
    if not (bytes_eqb source (codes "wks"))
    then err invalid_argument
    else if not (bytes_eqb entity (codes "dataset--File.Generic"))
    then err invalid_argument
    else ok (record { partition = partition; source = source; entity = entity; version = version })
check_parts (partition, _) = err invalid_argument

-- `Validate`
unfoldable pub validate : Bytes → Result KindParts
unfolding matches_syntax check_parts split
validate kind =
    if not (matches_syntax kind) then err invalid_argument else check_parts (split b':' kind)
