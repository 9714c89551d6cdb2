-- ===== src/Transfer/Endpoint.antt =====
-- src/infra/transfer/transfer_endpoint.cpp: `TransferEndpoint`, which moves the bytes of the URLs
-- that the service signs itself, over the stores in memory.
pub mod Bodies
use fssvrcpp.BlobStore.Calls
use fssvrcpp.BlobStore.Calls.{ByteRange, ensure_container}
use fssvrcpp.BlobStore.Types.{default_put, ObjectStat}
use fssvrcpp.Domain.{ObjectRef}
use fssvrcpp.Errors.{Result, ok, err, unauthenticated, permission_denied, not_found}
use fssvrcpp.Prelude.{ℕ, Bool, not, ◌||◌, ◌&&◌, [], none, if◌then◌else◌}
use fssvrcpp.Prelude.Bytes.{Bytes, codes, is_empty, bytes_eqb}
use fssvrcpp.Prelude.Int.{ℤ, negsuc}
use fssvrcpp.Transfer.{TransferToken, Json, Codec, Signed, decode}
use fssvrcpp.World.{Stores, on_zone, proceed}

-- `TransferRequest`; its `op`, which nothing reads, is left out.
pub record TransferRequest : Type 0 where
  pub signed : Signed
  pub partition : Bytes

-- `ObjectRefFromToken`
unfoldable pub object_ref_from_token : TransferToken → ObjectRef
object_ref_from_token t = record { container = t.container; key = t.object_key; version_id = none }

-- The checks of `Resolve` on a token that was read.
unfoldable pub check_token : TransferRequest → Bytes → TransferToken → Result TransferToken
check_token request expected_op token =
    if not (bytes_eqb token.op expected_op)
    then err permission_denied
    else if not (is_empty request.partition) && not (bytes_eqb request.partition token.partition)
    then err permission_denied
    else if is_empty token.container || is_empty token.object_key
    then err unauthenticated
    else ok token

-- A stat of an object that is not there is an error.
abbrev pub existing : ObjectStat → Stores → Result ObjectStat × Stores
existing stat s = if not stat.exists then (err not_found, s) else (ok stat, s)

module _ {J : Type 0} (x : Json J) (c : Codec) (now : ℤ) where
  unfoldable pub resolve : TransferRequest → Bytes → Result TransferToken
  unfolding check_token
  resolve request expected_op = elim (decode x c now request.signed) [
    | err e ↦ err e
    | ok token ↦ check_token request expected_op token
  ]

  -- `Put`
  unfoldable pub put :
      (Bytes → Bytes) → TransferRequest → (ℕ → Result Bytes) → Stores → Result (Unit {0}) × Stores
  unfolding resolve object_ref_from_token
  put sha256_hex request body s =
      proceed (resolve request (codes "put"), s)
        λ token s.
          let ref = object_ref_from_token token in
          proceed (on_zone token.zone (ensure_container ref.container) s)
            λ _ s. on_zone token.zone (Calls.put sha256_hex now ref body default_put) s

  -- `Stat`
  unfoldable pub stat : TransferRequest → Stores → Result ObjectStat × Stores
  unfolding resolve object_ref_from_token
  stat request s =
      proceed (resolve request (codes "get"), s)
        λ token s.
          proceed (on_zone token.zone (Calls.stat (object_ref_from_token token)) s) existing

  -- `Get`
  unfoldable pub get :
      {W : Type 0} → TransferRequest → (Bytes → Result W) → ByteRange → Stores → Result W × Stores
  unfolding resolve object_ref_from_token
  get request sink range s =
      proceed (resolve request (codes "get"), s)
        λ token s. on_zone token.zone (Calls.get (object_ref_from_token token) sink range) s
