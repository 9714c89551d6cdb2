-- ===== src/Metadata/Types.antt =====
-- The state of `InMemoryMetadataRepository` (memory_metadata_repository.h and .cpp under
-- src/infra/metadata/memory), with the types of src/domain/ports/ports.h that it uses, and its
-- common checks.
use fssvrcpp.Domain.{FileMetadataRecord, partition_of}
use fssvrcpp.Prelude.{ℕ, Bool, true, false, not, ◌||◌, List, Option, none, some, get_last?}
use fssvrcpp.Prelude.Bytes.{Bytes, bytes_eqb, is_empty}
use fssvrcpp.Prelude.Dict.{bytes_key, pair_key, lookup, lookup_in}
use fssvrcpp.Prelude.Int.{ℤ}

pub data MetadataState : Type 0 where
  claiming ready deleted : MetadataState

abbrev pub is_claiming : MetadataState → Bool
is_claiming claiming = true
is_claiming ready = false
is_claiming deleted = false

abbrev pub is_ready : MetadataState → Bool
is_ready claiming = false
is_ready ready = true
is_ready deleted = false

-- `Version`; its `record` is `content` here.
pub record Version (R : Type 0) : Type 0 where
  pub content : FileMetadataRecord R
  pub created_at_epoch_seconds : ℤ
  pub is_latest : Bool
  pub state : MetadataState

pub record Metadata (R : Type 0) : Type 0 where
  pub by_id : List (Bytes × List (Bytes × List (Version R)))
  pub source_index : List ((Bytes × Bytes) × Bytes)

pub record MetadataClaim (R : Type 0) : Type 0 where
  pub claimed : Bool
  pub content : FileMetadataRecord R
  pub state : MetadataState

pub record MetadataQuery : Type 0 where
  pub kind : Option Bytes
  pub name_prefix : Option Bytes
  pub created_after_epoch_seconds : ℤ
  pub created_before_epoch_seconds : ℤ
  pub limit : ℤ
  pub offset : ℤ

pub record MetadataPage (R : Type 0) : Type 0 where
  pub records : List (FileMetadataRecord R)
  pub total : ℕ

module _ {R : Type 0} where
  -- `ValidatePartitionAndId`, as the test of its failure.
  unfoldable pub is_invalid : Bytes → FileMetadataRecord R → Bool
  unfolding partition_of
  is_invalid partition r =
      is_empty partition || (is_empty r.id || not (bytes_eqb (partition_of r.id) partition))

  -- The latest version behind a file source, if its index entry leads to a chain that has one.
  unfoldable pub active : Bytes → Bytes → Metadata R → Option (Version R)
  active partition file_source s = elim (lookup (partition, file_source) s.source_index) [
    | none ↦ none
    | some id ↦ elim (lookup_in partition id s.by_id) [ none ↦ none | some chain ↦ get_last? chain ]
  ]
