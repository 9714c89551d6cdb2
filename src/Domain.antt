-- ===== src/Domain.antt =====
-- src/domain/model/types.h, and the parts of src/domain/ports/ports.h and
-- src/domain/model/file_metadata.h that the repositories share. `J` is the JSON value of the
-- vendored library, which no module here looks into but by a function that it is given; `R` is the
-- part of a metadata record that the repositories only copy (acl, legal, the rest of `data`, ...).
use fssvrcpp.Prelude.{Option, List, none, some, break_at, if◌then◌else◌}
use fssvrcpp.Prelude.Bytes.{Bytes, codes, bytes_eqb}
use fssvrcpp.Prelude.Int.{ℤ}

pub data StorageZone : Type 0 where
  staging persistent : StorageZone

pub data StorageDriver : Type 0 where
  posix s3 : StorageDriver

pub record ObjectRef : Type 0 where
  pub container : Bytes
  pub key : Bytes
  pub version_id : Option Bytes

pub record FileLocation (J : Type 0) : Type 0 where
  pub file_id : Bytes
  pub driver : StorageDriver
  pub zone : StorageZone
  pub file_source : Bytes
  pub user_id : Bytes
  pub signed_url : Bytes
  pub created_at_epoch_seconds : ℤ
  pub updated_at_epoch_seconds : ℤ
  pub extra : J

pub record LocationQuery : Type 0 where
  pub user_id : Bytes
  pub created_after_epoch_seconds : ℤ
  pub created_before_epoch_seconds : ℤ
  pub limit : ℤ
  pub offset : ℤ

-- `FileMetadataRecord`; `file_source` is `data.dataset_properties.file_source_info.file_source`, and
-- `name` is `data.name`.
pub record FileMetadataRecord (R : Type 0) : Type 0 where
  pub id : Bytes
  pub kind : Bytes
  pub version : ℤ
  pub name : Option Bytes
  pub file_source : Bytes
  pub rest : R

-- `FileMetadataRecord::Partition`: the id up to its first colon, empty if there is none.
unfoldable pub partition_of : Bytes → Bytes
partition_of id = elim (break_at b':' id) [ none ↦ List.[] | some (before, after) ↦ before ]

-- `StorageZoneName` and `ParseStorageZone`
unfoldable pub storage_zone_name : StorageZone → Bytes
storage_zone_name staging = codes "STAGING"
storage_zone_name persistent = codes "PERSISTENT"

unfoldable pub parse_storage_zone : Bytes → Option StorageZone
parse_storage_zone text =
    if bytes_eqb text (codes "STAGING")
    then some staging
    else if bytes_eqb text (codes "PERSISTENT")
    then some persistent
    else none

-- `StorageDriverName` and `ParseStorageDriver`
unfoldable pub storage_driver_name : StorageDriver → Bytes
storage_driver_name posix = codes "POSIX"
storage_driver_name s3 = codes "S3"

unfoldable pub parse_storage_driver : Bytes → Option StorageDriver
parse_storage_driver text =
    if bytes_eqb text (codes "POSIX")
    then some posix
    else if bytes_eqb text (codes "S3")
    then some s3
    else none
