-- ===== src/Gc/Tasks.antt =====
-- src/app/tasks/gc_task.cpp: `DeleteCandidate` and the collection by leases that have run out.
use fssvrcpp.BlobStore.Calls.{remove}
use fssvrcpp.Domain.{StorageZone, ObjectRef, FileLocation}
use fssvrcpp.Errors.{Result, ok, err, is_ok}
use fssvrcpp.Lease.{Lease, claim_expired}
use fssvrcpp.Location.{find, find_by_file_source, delete}
use fssvrcpp.Metadata.Claiming.{reclaim_stale_claiming}
use fssvrcpp.Metadata.Records.{get_latest_by_file_source}
use fssvrcpp.Prelude.{
  ℕ, suc, Bool, true, false, not, List, [], ◌∷◌, ◌++◌, Option, none, some, if◌then◌else◌, length,
  map,
}
use fssvrcpp.Prelude.Bytes.{Bytes, is_empty}
use fssvrcpp.Prelude.Int.{ℤ, ◌-ℤ◌}
use fssvrcpp.World.{World, Extra, store_of, set_store, object_ref_from_location}

pub record GcOptions : Type 0 where
  pub dry_run : Bool
  pub require_lease_expiry : Bool
  pub staging_ttl_hours : ℤ
  pub orphan_grace_hours : ℤ
  pub claim_limit : ℤ
  pub lease_ttl_seconds : ℤ

pub record GcReport : Type 0 where
  pub dry_run : Bool
  pub expired_leases_claimed : ℕ
  pub reclaimed_claiming : ℕ
  pub deleted_objects : ℕ
  pub deleted_locations : ℕ
  pub skipped_has_record : ℕ
  pub skipped_no_location : ℕ
  pub skipped_too_young : ℕ
  pub tmp_removed : ℕ
  pub tmp_skipped_too_young : ℕ
  pub tmp_skipped_unknown_mtime : ℕ
  pub errors : ℕ
  pub deleted_file_ids : List Bytes

-- `LeaseKeyOf`
unfoldable pub lease_key_of : Lease → Bytes
lease_key_of l = if is_empty l.file_source then l.file_id else l.file_source

abbrev pub count_error : GcReport → GcReport
count_error r = record r { errors = suc r.errors }

abbrev pub count_deleted : Bytes → GcReport → GcReport
count_deleted file_id r = record r {
  deleted_objects = suc r.deleted_objects;
  deleted_file_ids = r.deleted_file_ids ++ (file_id ∷ []);
}

-- What a part of the task works on: its report and the repositories.
abbrev pub Progress : Type 0 → Type 0 → Type 0
Progress R J = GcReport × World R J

abbrev pub ok_or : {A : Type 0} → Result A → Option A → Option A
ok_or (ok l) other = some l
ok_or (err e) other = other

module _ {R J : Type 0} where
  -- `HasMetadataRecord`
  unfoldable pub has_metadata_record : Bytes → Bytes → World R J → Bool
  has_metadata_record partition file_source w =
      if is_empty file_source
      then false
      else is_ok (get_latest_by_file_source partition file_source w.metadata)

  abbrev delete_location : Bytes → Bytes → Progress R J → Progress R J
  delete_location partition file_id (report, w) =
      let r = delete partition file_id w.locations in
      (
        if is_ok r.0
            then record report { deleted_locations = suc report.deleted_locations }
            else report,
        record w { locations = r.1 },
      )

  unfoldable pub delete_candidate :
      GcOptions → StorageZone → ObjectRef → Bytes → Bool → Bytes → Progress R J → Progress R J
  delete_candidate options zone ref file_id with_location partition (report, w) =
      let removed = remove ref (store_of zone w.stores) in
      let w' = record w { stores = set_store zone removed.1 w.stores } in
      if options.dry_run
      then (count_deleted file_id report, w)
      else if not (is_ok removed.0)
      then (count_error report, w')
      else if with_location
      then delete_location partition file_id (count_deleted file_id report, w')
      else (count_deleted file_id report, w')

  -- The location that a lease leads to, by its file id or else by its key.
  unfoldable pub resolve : Bytes → Lease → World R J → Option (FileLocation J)
  unfolding lease_key_of
  resolve partition l w =
      let by_source =
        if is_empty (lease_key_of l)
        then none
        else ok_or (find_by_file_source partition (lease_key_of l) w.locations) none in
      if is_empty l.file_id
      then by_source
      else ok_or (find partition l.file_id w.locations) by_source

  module _ ⦃x : Extra J⦄ where
    -- The body of the loop, with what the lease leads to.
    unfoldable pub collect_resolved :
        GcOptions → Bytes → Option (FileLocation J) → Progress R J → Progress R J
    unfolding delete_candidate has_metadata_record
    collect_resolved options partition none (report, w) =
        (record report { skipped_no_location = suc report.skipped_no_location }, w)
    collect_resolved options partition (some l) (report, w) =
        if has_metadata_record partition l.file_source w
        then (record report { skipped_has_record = suc report.skipped_has_record }, w)
        else elim (object_ref_from_location l) [
          | err e ↦ (count_error report, w)
          | ok ref ↦ delete_candidate options l.zone ref l.file_id true partition (report, w)
        ]

    unfoldable pub collect_leases : GcOptions → Bytes → List Lease → Progress R J → Progress R J
    unfolding collect_resolved resolve
    collect_leases options partition [] g = g
    collect_leases options partition (l ∷ ls) g =
        collect_leases options partition ls
          (collect_resolved options partition (resolve partition l g.1) g)

    -- The claims of dead writers go, if their leases are among those just claimed.
    unfoldable pub reclaim_claims : GcOptions → Bytes → ℤ → List Lease → Progress R J → Progress R J
    reclaim_claims options partition now_seconds [] g = g
    reclaim_claims options partition now_seconds (l ∷ ls) (report, w) =
        let r =
          reclaim_stale_claiming partition (now_seconds -ℤ options.lease_ttl_seconds)
            options.claim_limit (map lease_key_of (l ∷ ls)) w.metadata in
        let w' = record w { metadata = r.1 } in
        elim r.0 [
          | err e ↦ (count_error report, w')
          | ok n ↦ (record report { reclaimed_claiming = n }, w')
        ]

    unfoldable pub collect_expired_leases :
        GcOptions → Bytes → Bytes → ℤ → ℤ → Progress R J → Progress R J
    unfolding collect_leases reclaim_claims
    collect_expired_leases options partition instance_id now_millis now_seconds (report, w) =
        let claimed = claim_expired now_millis partition options.claim_limit instance_id w.leases in
        let w' = record w { leases = claimed.1 } in
        elim claimed.0 [
          | err e ↦ (count_error report, w')
          | ok ls ↦ collect_leases options partition ls (
              reclaim_claims options partition now_seconds ls
                (record report { expired_leases_claimed = length ls }, w'))
        ]
