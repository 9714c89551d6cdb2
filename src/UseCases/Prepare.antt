-- ===== src/UseCases/Prepare.antt =====
-- src/app/usecases/usecases.cpp: the work of `CreateFileMetadata` between the claim and the call of
-- `MarkReady`, which moves the object to the persistent zone and gets its checksum.
use fssvrcpp.BlobStore.Calls.{stat}
use fssvrcpp.BlobStore.Types.{ObjectStat}
use fssvrcpp.Domain.{StorageZone, staging, persistent, ObjectRef, FileLocation, FileMetadataRecord}
use fssvrcpp.Errors.{Result, ok, err, ErrorKind, invalid_source_path, bad_gateway, unavailable}
use fssvrcpp.Location.{find_by_file_source}
use fssvrcpp.Metadata.Records.{get_latest_by_file_source}
use fssvrcpp.ObjectKey.{container_for_registered}
use fssvrcpp.Prelude.{ℕ, Bool, not, ◌&&◌, Option, none, some, if◌then◌else◌}
use fssvrcpp.Prelude.Bytes.{Bytes, codes, is_empty}
use fssvrcpp.World.{Stores, World, Extra, store_of, set_store, object_ref_from_location}
use fssvrcpp.UseCases.Copy.{copy_between_zones, compute_checksum}
use fssvrcpp.UseCases.Ports.{CallerContext, Ports, lease_enabled}

-- What the work between the claim and `MarkReady` comes to: the claim given back with an error,
-- after the object at a reference was rolled back; an error without that; the record that someone
-- else has finished; or all that is needed to finish.
pub data Prepared (R J : Type 0) : Type 0 where
  aborts : Option ObjectRef → ErrorKind → Prepared R J
  leaves : ErrorKind → Prepared R J
  existing : FileMetadataRecord R → Prepared R J
  prepared : FileMetadataRecord R → FileLocation J → ObjectRef → ObjectRef → Prepared R J

abbrev digest_of : Result Bytes → Result (Bytes × Bytes)
digest_of (ok d) = ok (d, codes "SHA256")
digest_of (err e) = err e

abbrev pub stat_in : StorageZone → ObjectRef → Stores → Result ObjectStat × Stores
stat_in zone ref stores =
    let r = stat ref (store_of zone stores) in (r.0, set_store zone r.1 stores)

module _ {R : Type 0} where
  -- Whether the renewal, where there is one, has failed.
  abbrev pub is_lost : Ports R → ℕ → Bool
  is_lost ports n = lease_enabled ports && ports.lost n

  abbrev with_checksum : Ports R → FileMetadataRecord R → Bytes → Bytes → FileMetadataRecord R
  with_checksum ports out checksum algorithm =
      let named = if is_empty algorithm then codes "SHA256" else algorithm in
      if is_empty checksum
      then out
      else record out { rest = ports.set_checksum checksum named out.rest }

module _ {R J : Type 0} where
  -- The end of the work, with the checksum.
  abbrev checked :
      Ports R
      → FileMetadataRecord R
      → FileLocation J
      → ObjectRef
      → ObjectRef
      → Result (Bytes × Bytes)
      → Prepared R J
  checked ports out l from to (err e) = aborts (some to) bad_gateway
  checked ports out l from to (ok (checksum, algorithm)) =
      if is_lost ports 2
      then aborts (some to) unavailable
      else prepared (with_checksum ports out checksum algorithm) l from to

  -- The checksum of the object, the store's own if that is one.
  unfoldable pub add_checksum :
      Ports R
      → FileMetadataRecord R
      → FileLocation J
      → ObjectRef
      → ObjectRef
      → ObjectStat
      → Stores
      → Prepared R J × Stores
  add_checksum ports out l from to info stores =
      let d = compute_checksum ports.sha256_hex to persistent stores in
      if is_lost ports 1
      then (aborts (some to) unavailable, stores)
      else if ports.is_usable_digest info
      then (
        checked ports out l from to
            (ok (info.checksum, ports.canonical_name info.checksum_algorithm)),
        stores,
      )
      else (checked ports out l from to (digest_of d.0), d.1)

  -- The object of a location in the persistent zone is there already.
  abbrev pub found_object :
      Ports R
      → FileMetadataRecord R
      → FileLocation J
      → ObjectRef
      → ObjectRef
      → Result ObjectStat × Stores
      → Prepared R J × Stores
  found_object ports out l from to (err e, stores) = (aborts (some to) bad_gateway, stores)
  found_object ports out l from to (ok info, stores) =
      if not info.exists
      then (aborts (some to) bad_gateway, stores)
      else add_checksum ports out l from to info stores

  abbrev pub copied_object :
      Ports R
      → FileMetadataRecord R
      → FileLocation J
      → ObjectRef
      → ObjectRef
      → Result (FileMetadataRecord R)
      → Result ObjectStat × Stores
      → Prepared R J × Stores
  copied_object ports out l from to (ok other) (err e, stores) = (existing other, stores)
  copied_object ports out l from to (err _) (err e, stores) = (aborts (some to) bad_gateway, stores)
  copied_object ports out l from to other (ok info, stores) =
      add_checksum ports out l from to info stores

  -- The object in the persistent zone: a copy of the staged one, or the one that is there.
  unfoldable pub move_from :
      StorageZone
      → Ports R
      → CallerContext
      → FileMetadataRecord R
      → FileLocation J
      → ObjectRef
      → ObjectRef
      → World R J
      → Prepared R J × Stores
  unfolding copy_between_zones add_checksum
  move_from staging ports caller out l from to w =
      copied_object ports out l from to
        (get_latest_by_file_source caller.partition out.file_source w.metadata)
        (copy_between_zones ports.sha256_hex ports.now_seconds from to staging persistent w.stores)
  move_from persistent ports caller out l from to w =
      found_object ports out l from to (stat_in persistent to w.stores)

  module _ ⦃x : Extra J⦄ where
    unfoldable pub prepare :
        Ports R → CallerContext → FileMetadataRecord R → World R J → Prepared R J × Stores
    unfolding move_from object_ref_from_location container_for_registered
    prepare ports caller out w =
        let named =
          container_for_registered (ports.registered caller.partition) caller.partition
            persistent in
        if is_lost ports 0
        then (aborts none unavailable, w.stores)
        else elim (find_by_file_source caller.partition out.file_source w.locations) [
          | err e ↦ (aborts none invalid_source_path, w.stores)
          | ok l ↦ elim (object_ref_from_location l) [
            | err e ↦ (leaves e, w.stores)
            | ok from ↦ elim named [
              | err e ↦ (leaves e, w.stores)
              | ok container ↦
                  move_from l.zone ports caller out l from
                    (record { container = container; key = from.key; version_id = none }) w
            ]
          ]
        ]
