-- ===== src/Errors/Names.antt =====
-- src/common/result/result.cpp: the names of the error kinds, for logs and metrics.
use fssvrcpp.Errors.{
  ErrorKind, invalid_argument, file_source_empty, invalid_source_path, location_already_exists,
  checksum_mismatch, unauthenticated, permission_denied, storage_access_denied, not_found,
  unimplemented, internal, bad_gateway, unavailable,
}
use fssvrcpp.Prelude.{
  List, [], ◌∷◌, Option, none, some, if◌then◌else◌, ◌≡◌, refl, sym, ap, ◌∙◌, arith,
}
use fssvrcpp.Prelude.Bytes.{Bytes, codes, bytes_eqb}

-- `ErrorKindName`
pub error_kind_name : ErrorKind → Bytes
error_kind_name ErrorKind.ok = codes "kOk"
error_kind_name invalid_argument = codes "kInvalidArgument"
error_kind_name file_source_empty = codes "kFileSourceEmpty"
error_kind_name invalid_source_path = codes "kInvalidSourcePath"
error_kind_name location_already_exists = codes "kLocationAlreadyExists"
error_kind_name checksum_mismatch = codes "kChecksumMismatch"
error_kind_name unauthenticated = codes "kUnauthenticated"
error_kind_name permission_denied = codes "kPermissionDenied"
error_kind_name storage_access_denied = codes "kStorageAccessDenied"
error_kind_name not_found = codes "kNotFound"
error_kind_name unimplemented = codes "kUnimplemented"
error_kind_name internal = codes "kInternal"
error_kind_name bad_gateway = codes "kBadGateway"
error_kind_name unavailable = codes "kUnavailable"

all_kinds : List ErrorKind
all_kinds =
    ErrorKind.ok ∷ invalid_argument ∷ file_source_empty ∷ invalid_source_path
    ∷ location_already_exists ∷ checksum_mismatch ∷ unauthenticated ∷ permission_denied
    ∷ storage_access_denied ∷ not_found ∷ unimplemented ∷ internal ∷ bad_gateway ∷ unavailable ∷ []

-- The first kind of a list that has a name.
find_named : Bytes → List ErrorKind → Option ErrorKind
unfolding error_kind_name bytes_eqb
find_named name [] = none
find_named name (k ∷ ks) = if bytes_eqb (error_kind_name k) name then some k else find_named name ks

find_named-error_kind_name : (k : ErrorKind) → find_named (error_kind_name k) all_kinds ≡ some k
unfolding find_named error_kind_name all_kinds
find_named-error_kind_name ErrorKind.ok = refl
find_named-error_kind_name invalid_argument = refl
find_named-error_kind_name file_source_empty = refl
find_named-error_kind_name invalid_source_path = refl
find_named-error_kind_name location_already_exists = refl
find_named-error_kind_name checksum_mismatch = refl
find_named-error_kind_name unauthenticated = refl
find_named-error_kind_name permission_denied = refl
find_named-error_kind_name storage_access_denied = refl
find_named-error_kind_name not_found = refl
find_named-error_kind_name unimplemented = refl
find_named-error_kind_name internal = refl
find_named-error_kind_name bad_gateway = refl
find_named-error_kind_name unavailable = refl

-- Error kinds that have the same name are the same.
pub eq_of_error_kind_name : (a b : ErrorKind) → error_kind_name a ≡ error_kind_name b → a ≡ b
eq_of_error_kind_name a b same =
    let found : some a ≡ some b =
      sym (find_named-error_kind_name a)
      ∙ (ap (λ n. find_named n all_kinds) same ∙ find_named-error_kind_name b) in
    ground (arith, found)
