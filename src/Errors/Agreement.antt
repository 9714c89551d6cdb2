-- ===== src/Errors/Agreement.antt =====
-- The REST and the gRPC face of one error agree.
use fssvrcpp.Errors.{
  ErrorKind, invalid_argument, file_source_empty, invalid_source_path, location_already_exists,
  checksum_mismatch, unauthenticated, permission_denied, storage_access_denied, not_found,
  unimplemented, internal, bad_gateway, unavailable,
}
use fssvrcpp.Errors.Contract.{
  ErrorContractRow, find_error_contract, http_status_for, reason_for, grpc_status_for,
}
use fssvrcpp.Prelude.{ℕ, ◌≡◌, refl, some, ◌≤◌, ◌↔◌, ◌⊎◌, arith}

-- What both adapters answer for an error kind: its own row of the table, with the reason phrase
-- that the HTTP side looks up again by the status alone.
abbrev pub SameRow : ErrorKind → Type 0
SameRow k =
    (row : ErrorContractRow) × (find_error_contract k ≡ some row)
    × (row.kind ≡ k)
    × (http_status_for k ≡ row.rest_status)
    × (reason_for (http_status_for k) ≡ row.rest_reason)
    × (grpc_status_for k ≡ row.grpc_status)

-- Every error kind has a row of its own, and both adapters answer from it. Looking the reason
-- phrase up by the status gives that row's phrase, so kinds that share a status share the phrase.
pub find_error_contract-SameRow : (k : ErrorKind) → SameRow k
unfolding find_error_contract http_status_for reason_for grpc_status_for
find_error_contract-SameRow ErrorKind.ok = (_, refl, refl, refl, refl, refl)
find_error_contract-SameRow invalid_argument = (_, refl, refl, refl, refl, refl)
find_error_contract-SameRow file_source_empty = (_, refl, refl, refl, refl, refl)
find_error_contract-SameRow invalid_source_path = (_, refl, refl, refl, refl, refl)
find_error_contract-SameRow location_already_exists = (_, refl, refl, refl, refl, refl)
find_error_contract-SameRow checksum_mismatch = (_, refl, refl, refl, refl, refl)
find_error_contract-SameRow unauthenticated = (_, refl, refl, refl, refl, refl)
find_error_contract-SameRow permission_denied = (_, refl, refl, refl, refl, refl)
find_error_contract-SameRow storage_access_denied = (_, refl, refl, refl, refl, refl)
find_error_contract-SameRow not_found = (_, refl, refl, refl, refl, refl)
find_error_contract-SameRow unimplemented = (_, refl, refl, refl, refl, refl)
find_error_contract-SameRow internal = (_, refl, refl, refl, refl, refl)
find_error_contract-SameRow bad_gateway = (_, refl, refl, refl, refl, refl)
find_error_contract-SameRow unavailable = (_, refl, refl, refl, refl, refl)

-- The gRPC codes UNIMPLEMENTED, INTERNAL and UNAVAILABLE.
abbrev pub IsServerCode : ℕ → Type 0
IsServerCode c = (c ≡ 12) ⊎ ((c ≡ 13) ⊎ (c ≡ 14))

-- An error is the server's fault over REST (status 500 and above) exactly if it is over gRPC.
pub http_status_for-IsServerCode :
    (k : ErrorKind) → (500 ≤ http_status_for k) ↔ IsServerCode (grpc_status_for k)
unfolding http_status_for grpc_status_for
http_status_for-IsServerCode ErrorKind.ok = ground arith
http_status_for-IsServerCode invalid_argument = ground arith
http_status_for-IsServerCode file_source_empty = ground arith
http_status_for-IsServerCode invalid_source_path = ground arith
http_status_for-IsServerCode location_already_exists = ground arith
http_status_for-IsServerCode checksum_mismatch = ground arith
http_status_for-IsServerCode unauthenticated = ground arith
http_status_for-IsServerCode permission_denied = ground arith
http_status_for-IsServerCode storage_access_denied = ground arith
http_status_for-IsServerCode not_found = ground arith
http_status_for-IsServerCode unimplemented = ground arith
http_status_for-IsServerCode internal = ground arith
http_status_for-IsServerCode bad_gateway = ground arith
http_status_for-IsServerCode unavailable = ground arith
