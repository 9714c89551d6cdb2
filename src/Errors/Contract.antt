-- ===== src/Errors/Contract.antt =====
-- src/domain/contract/error_table.cpp, and the status functions of
-- src/adapters/http/http_error_mapper.cpp and src/adapters/grpc/grpc_error_mapper.cpp.
use fssvrcpp.Errors.{
  ErrorKind, invalid_argument, file_source_empty, invalid_source_path, location_already_exists,
  checksum_mismatch, unauthenticated, permission_denied, storage_access_denied, not_found,
  unimplemented, internal, bad_gateway, unavailable, kind_eqb,
}
use fssvrcpp.Prelude.{ℕ, List, [], ◌∷◌, Option, none, some, ◌==◌, if◌then◌else◌}
use fssvrcpp.Prelude.Bytes.{Bytes, codes, bytes_eqb}

pub record ErrorContractRow : Type 0 where
  pub kind : ErrorKind
  pub rest_status : ℕ
  pub rest_reason : Bytes
  pub grpc_status : ℕ
  pub grpc_name : Bytes

abbrev row_of : ErrorKind → ℕ → Bytes → ℕ → Bytes → ErrorContractRow
row_of k s r g n = record {
  kind = k;
  rest_status = s;
  rest_reason = r;
  grpc_status = g;
  grpc_name = n;
}

unfoldable pub error_contract_table : List ErrorContractRow
error_contract_table =
    row_of ErrorKind.ok 500 (codes "Internal Server Error") 13 (codes "INTERNAL")
    ∷ row_of invalid_argument 400 (codes "Bad Request") 3 (codes "INVALID_ARGUMENT")
    ∷ row_of file_source_empty 400 (codes "Bad Request") 3 (codes "INVALID_ARGUMENT")
    ∷ row_of invalid_source_path 400 (codes "Bad Request") 3 (codes "INVALID_ARGUMENT")
    ∷ row_of location_already_exists 400 (codes "Bad Request") 6 (codes "ALREADY_EXISTS")
    ∷ row_of checksum_mismatch 400 (codes "Bad Request") 3 (codes "INVALID_ARGUMENT")
    ∷ row_of unauthenticated 401 (codes "Unauthorized") 16 (codes "UNAUTHENTICATED")
    ∷ row_of permission_denied 403 (codes "Forbidden") 7 (codes "PERMISSION_DENIED")
    ∷ row_of storage_access_denied 403 (codes "Forbidden") 7 (codes "PERMISSION_DENIED")
    ∷ row_of not_found 404 (codes "Not Found") 5 (codes "NOT_FOUND")
    ∷ row_of unimplemented 501 (codes "Not Implemented") 12 (codes "UNIMPLEMENTED")
    ∷ row_of internal 500 (codes "Internal Server Error") 13 (codes "INTERNAL")
    ∷ row_of bad_gateway 502 (codes "Bad Gateway") 14 (codes "UNAVAILABLE")
    ∷ row_of unavailable 503 (codes "Service Unavailable") 14 (codes "UNAVAILABLE")
    ∷ []

unfoldable pub find_row : ErrorKind → List ErrorContractRow → Option ErrorContractRow
unfolding kind_eqb
find_row k [] = none
find_row k (row ∷ rows) = if kind_eqb row.kind k then some row else find_row k rows

unfoldable pub find_error_contract : ErrorKind → Option ErrorContractRow
unfolding find_row error_contract_table
find_error_contract k = find_row k error_contract_table

unfoldable pub reason_in : ℕ → List ErrorContractRow → Bytes
reason_in status [] = codes "Unknown"
reason_in status (row ∷ rows) =
    if row.rest_status == status then row.rest_reason else reason_in status rows

unfoldable pub reason_for_status : ℕ → Bytes
unfolding reason_in error_contract_table
reason_for_status status = reason_in status error_contract_table

-- `HttpStatusFor`
unfoldable pub http_status_for : ErrorKind → ℕ
unfolding find_error_contract
http_status_for k = elim (find_error_contract k) [ none ↦ 500 | some row ↦ row.rest_status ]

-- `ReasonFor`
unfoldable pub reason_for : ℕ → Bytes
unfolding reason_for_status bytes_eqb
reason_for status =
    if bytes_eqb (reason_for_status status) (codes "Unknown")
    then (if status == 409
        then codes "Conflict"
        else if status == 413
        then codes "Payload Too Large"
        else if status == 416
        then codes "Range Not Satisfiable"
        else codes "Error")
    else reason_for_status status

-- `GrpcStatusFor`; 13 is `INTERNAL`.
unfoldable pub grpc_status_for : ErrorKind → ℕ
unfolding find_error_contract
grpc_status_for k = elim (find_error_contract k) [ none ↦ 13 | some row ↦ row.grpc_status ]
