-- ===== src/BlobStore/Types.antt =====
-- src/infra/blob/memory/memory_blob_store.h, with the types of src/domain/model/types.h and
-- src/domain/ports/ports.h that the store's calls use, and what every call starts with. The texts
-- of the errors, which only logs read, are left out.
use fssvrcpp.Domain.{ObjectRef}
use fssvrcpp.Errors.{Result, ok, err, ErrorKind}
use fssvrcpp.Prelude.{ℕ, suc, Bool, true, false, not, List, [], none, some, ◌==◌, if◌then◌else◌}
use fssvrcpp.Prelude.Bytes.{Bytes, is_empty, codes}
use fssvrcpp.Prelude.Dict.{bytes_key, lookup}
use fssvrcpp.Prelude.Int.{ℤ, pos, negsuc, ◌+ℤ◌, ◌-ℤ◌, is_nonpos}

-- `Op`, without the count at its end.
pub data Op : Type 0 where
  ensure_container presign_put presign_get put get stat remove copy list : Op

-- The value of the enumerator.
unfoldable pub op_index : Op → ℕ
op_index ensure_container = 0
op_index presign_put = 1
op_index presign_get = 2
op_index put = 3
op_index get = 4
op_index stat = 5
op_index remove = 6
op_index copy = 7
op_index list = 8

unfoldable pub op_eqb : Op → Op → Bool
unfolding op_index
op_eqb a b = op_index a == op_index b

-- `OpName`
unfoldable pub op_name : Op → Bytes
op_name ensure_container = codes "ensure_container"
op_name presign_put = codes "presign_put"
op_name presign_get = codes "presign_get"
op_name put = codes "put"
op_name get = codes "get"
op_name stat = codes "stat"
op_name remove = codes "remove"
op_name copy = codes "copy"
op_name list = codes "list"

pub record FaultPlan : Type 0 where
  pub op : Op
  pub fail_count : ℤ
  pub error : ErrorKind
  pub truncate_put_to_bytes : ℤ
  pub checksum_override : Bytes
  pub latency_millis : ℤ

pub record Object : Type 0 where
  pub content : Bytes
  pub content_type : Bytes
  pub checksum : Bytes
  pub checksum_algorithm : Bytes
  pub last_modified_epoch_seconds : ℤ

abbrev pub Objects : Type 0
Objects = List (Bytes × Object)

-- `InMemoryBlobStore`
pub record Blobs : Type 0 where
  pub containers : List (Bytes × Objects)
  pub fault : FaultPlan
  pub op_counts : Op → ℕ
  pub injected_latency_millis : ℤ

pub record BlobCapabilities : Type 0 where
  pub native_presign : Bool
  pub server_side_copy : Bool
  pub range_read : Bool
  pub streaming_put : Bool
  pub recommended_part_size : ℕ
  pub driver_name : Bytes

unfoldable pub capabilities : BlobCapabilities
capabilities = record {
  native_presign = false;
  server_side_copy = true;
  range_read = true;
  streaming_put = true;
  recommended_part_size = 0;
  driver_name = codes "memory";
}

pub record PutOptions : Type 0 where
  pub content_type : Bytes
  pub expected_checksum : Bytes
  pub checksum_algorithm : Bytes
  pub expected_size : ℤ

-- `PutOptions{}`
abbrev pub default_put : PutOptions
default_put = record {
  content_type = [];
  expected_checksum = [];
  checksum_algorithm = [];
  expected_size = negsuc 0;
}

pub record ObjectStat : Type 0 where
  pub exists : Bool
  pub size : ℤ
  pub content_type : Bytes
  pub checksum : Bytes
  pub checksum_algorithm : Bytes
  pub last_modified_epoch_seconds : ℤ

-- `++op_counts_[OpIndex(op)]`
unfoldable pub bump : Op → (Op → ℕ) → Op → ℕ
bump op counts o = if op_eqb o op then suc (counts o) else counts o

abbrev pub counted : Op → Blobs → Blobs
counted op s = record s { op_counts = bump op s.op_counts }

-- `BeginOp`
unfoldable pub begin_op : Op → Blobs → Result (Unit {0}) × Blobs
begin_op op s =
    let s' = record (counted op s) {
      injected_latency_millis = s.injected_latency_millis +ℤ s.fault.latency_millis;
    } in
    if not (op_eqb s.fault.op op)
    then (ok tt, counted op s)
    else if is_nonpos s.fault.fail_count
    then (ok tt, s')
    else (
      err s.fault.error,
      record s' { fault = record s.fault { fail_count = s.fault.fail_count -ℤ pos 1 } },
    )

-- `FSS_TRY(BeginOp(op))` in front of the body of a call.
unfoldable pub begun : {A : Type 0} → Op → (Blobs → Result A × Blobs) → Blobs → Result A × Blobs
begun op body s = elim (begin_op op s).0 [
  | err e ↦ (err e, (begin_op op s).1)
  | ok _ ↦ body (begin_op op s).1
]

-- `ValidateRef`, as the test of its failure.
unfoldable pub is_bad_ref : ObjectRef → Bool
is_bad_ref r = if is_empty r.container then true else is_empty r.key

-- `Inject`, `ClearFaults` and `TakeInjectedLatencyMillis`
unfoldable pub inject : FaultPlan → Blobs → Blobs
inject plan s = record s { fault = plan }

unfoldable pub take_injected_latency_millis : Blobs → ℤ × Blobs
take_injected_latency_millis s =
    (s.injected_latency_millis, record s { injected_latency_millis = pos 0 })

-- `HasContainer`
unfoldable pub has_container : Bytes → Blobs → Bool
has_container name s = elim (lookup name s.containers) [ none ↦ false | some objects ↦ true ]
