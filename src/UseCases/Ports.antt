-- ===== src/UseCases/Ports.antt =====
-- src/app/usecases/usecases.h and usecases.cpp: what the use cases are given, with the checks and
-- the handling of leases that they share.
use fssvrcpp.BlobStore.Calls.{remove}
use fssvrcpp.BlobStore.Types.{ObjectStat}
use fssvrcpp.Domain.{StorageZone, ObjectRef, FileLocation, FileMetadataRecord}
use fssvrcpp.Errors.{
  Result, ok, err, ErrorKind, kind_eqb, unauthenticated, internal, not_found, permission_denied,
  unavailable,
}
use fssvrcpp.Lease.{acquire, renew, release}
use fssvrcpp.Location.{find, delete}
use fssvrcpp.ObjectKey.{PartitionConfig}
use fssvrcpp.Prelude.{ℕ, Bool, not, ◌||◌, ◌&&◌, List, [], ◌∷◌, if◌then◌else◌}
use fssvrcpp.Prelude.Bytes.{Bytes, is_empty}
use fssvrcpp.Prelude.Int.{ℤ, pos, times_int64, is_nonpos}
use fssvrcpp.World.{World, Extra, store_of, set_store, object_ref_from_location}

pub record CallerContext : Type 0 where
  pub partition : Bytes
  pub user_id : Bytes

-- `UseCasePorts`, as what its services answer in one call. `authorize` is asked for any of the
-- roles, `validate` stands for the checks of kind and record, `validate_tags` for those of the legal
-- tags and the schema, and
-- `audit` for the record of success. `lost` is whether the renewal of the lease has failed, each
-- time that the use case looks. The last four are the digests and the fields they go to.
pub record Ports (R : Type 0) : Type 0 where
  pub authorize : List Bytes → Result (Unit {0})
  pub validate : FileMetadataRecord R → Result (Unit {0})
  pub validate_tags : FileMetadataRecord R → Result (Unit {0})
  pub audit : Result (Unit {0})
  pub registered : Bytes → Result PartitionConfig
  pub new_uuid : Bytes
  pub now_seconds : ℤ
  pub now_millis : ℤ
  pub has_leases : Bool
  pub leases_enabled : Bool
  pub lease_ttl_seconds : ℤ
  pub instance_id : Bytes
  pub lost : ℕ → Bool
  pub awaited : Result (FileMetadataRecord R)
  pub sha256_hex : Bytes → Bytes
  pub is_usable_digest : ObjectStat → Bool
  pub canonical_name : Bytes → Bytes
  pub set_checksum : Bytes → Bytes → R → R

-- The errors of a renewal that an acquisition may make good.
abbrev pub is_lapse : ErrorKind → Bool
is_lapse e = kind_eqb e not_found || kind_eqb e permission_denied

module _ {R : Type 0} where
  -- `AuthorizeCaller`
  unfoldable pub authorize_caller : Ports R → CallerContext → Bytes → Bool → Result (Unit {0})
  authorize_caller ports caller role require_partition =
      if require_partition && is_empty caller.partition
      then err unauthenticated
      else ports.authorize (role ∷ [])

  -- `AuthorizeCallerAny`
  unfoldable pub authorize_caller_any :
      Ports R → CallerContext → List Bytes → Bool → Result (Unit {0})
  authorize_caller_any ports caller [] require_partition =
      if require_partition && is_empty caller.partition then err unauthenticated else err internal
  authorize_caller_any ports caller (role ∷ roles) require_partition =
      if require_partition && is_empty caller.partition
      then err unauthenticated
      else ports.authorize (role ∷ roles)

  unfoldable pub lease_enabled : Ports R → Bool
  lease_enabled ports = ports.leases_enabled && ports.has_leases

  unfoldable pub lease_ttl_millis : Ports R → ℤ
  lease_ttl_millis ports =
      if is_nonpos ports.lease_ttl_seconds
      then pos 1000
      else times_int64 1000 ports.lease_ttl_seconds

  module _ {J : Type 0} where
    -- `Acquire` with its errors turned into `unavailable`.
    unfoldable pub try_acquire :
        Ports R → CallerContext → Bytes → World R J → Result (Unit {0}) × World R J
    unfolding lease_ttl_millis
    try_acquire ports caller file_source w =
        let r =
          acquire ports.now_millis caller.partition file_source ports.instance_id
            (lease_ttl_millis ports) w.leases in
        let w' = record w { leases = r.1 } in
        elim r.0 [ ok l ↦ (ok tt, w') | err e ↦ (err unavailable, w') ]

    -- `EnsureLeaseOwnership`
    unfoldable pub ensure_lease_ownership :
        Ports R → CallerContext → Bytes → World R J → Result (Unit {0}) × World R J
    unfolding lease_enabled lease_ttl_millis try_acquire
    ensure_lease_ownership ports caller file_source w =
        let r =
          renew ports.now_millis caller.partition file_source ports.instance_id
            (lease_ttl_millis ports) w.leases in
        let w' = record w { leases = r.1 } in
        if not (lease_enabled ports) then (ok tt, w) else elim r.0 [
          | ok _ ↦ (ok tt, w')
          | err e ↦
              if not (is_lapse e)
              then (err unavailable, w')
              else try_acquire ports caller file_source w'
        ]

    -- `UploadLeaseGuard::ReleaseNow`, where there is a guard.
    unfoldable pub release_now : Ports R → CallerContext → Bytes → World R J → World R J
    unfolding lease_enabled
    release_now ports caller file_source w =
        let r = release caller.partition file_source ports.instance_id w.leases in
        if lease_enabled ports then record w { leases = r.1 } else w

    module _ ⦃x : Extra J⦄ where
      abbrev remove_at : StorageZone → Result ObjectRef → World R J → World R J
      remove_at zone (err e) w = w
      remove_at zone (ok ref) w = record w {
        stores = set_store zone (remove ref (store_of zone w.stores)).1 w.stores;
      }

      abbrev remove_object : Result (FileLocation J) → World R J → World R J
      remove_object (err e) w = w
      remove_object (ok l) w = remove_at l.zone (object_ref_from_location l) w

      -- `RemoveIssuedUpload`
      unfoldable pub remove_issued_upload : CallerContext → Bytes → World R J → World R J
      remove_issued_upload caller file_id w =
          let w' = remove_object (find caller.partition file_id w.locations) w in
          record w' { locations = (delete caller.partition file_id w'.locations).1 }

      -- `AcquireUploadLease`
      unfoldable pub acquire_upload_lease :
          Ports R → CallerContext → Bytes → Bytes → World R J → Result (Unit {0}) × World R J
      unfolding lease_enabled
      acquire_upload_lease ports caller file_id file_source w =
          let r = try_acquire ports caller file_source w in
          if not (lease_enabled ports) then (ok tt, w) else elim r.0 [
            | ok _ ↦ (ok tt, r.1)
            | err e ↦ (err unavailable, remove_issued_upload caller file_id r.1)
          ]
