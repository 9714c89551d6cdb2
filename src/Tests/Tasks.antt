-- ===== src/Tests/Tasks.antt =====
-- src/app: a location with its record, a collection of what is left behind, and the use cases on
-- them.
use fssvrcpp.BlobStore.Keys.{empty_store}
use fssvrcpp.BlobStore.Types.{Op, FaultPlan}
use fssvrcpp.Domain.{staging, persistent, posix, FileLocation, FileMetadataRecord}
use fssvrcpp.Errors.{Result, ok, err, is_ok, kind_eqb, not_found, unavailable}
use fssvrcpp.Gc.DryRun.{run-dry}
use fssvrcpp.Gc.Safety.{collect_leases-held, held}
use fssvrcpp.BlobStore.Listing.{is_temp_key}
use fssvrcpp.Gc.Orphans.{collect_orphan_objects-held}
use fssvrcpp.Gc.Scans.{run, collect_orphan_objects}
use fssvrcpp.Gc.Tasks.{GcOptions, GcReport, collect_leases, has_metadata_record}
use fssvrcpp.Lease.{Lease, acquire, renew}
use fssvrcpp.Location
use fssvrcpp.Location.{find, find_by_file_source, save_checked}
use fssvrcpp.Location.Lookups
use fssvrcpp.Location.Lookups.{saves, histories-Inv}
use fssvrcpp.Metadata.Claiming.{claim_for_write, mark_ready, mark_in}
use fssvrcpp.Metadata.Histories.{empty}
use fssvrcpp.Metadata.Records
use fssvrcpp.Metadata.Records.{create, get_by_id, get_latest_by_file_source}
use fssvrcpp.Metadata.Types.{claiming, Metadata, MetadataClaim, is_invalid, active}
use fssvrcpp.ObjectKey.{PartitionConfig, container_for_registered}
use fssvrcpp.Prelude.{
  true, false, [], ◌∷◌, none, some, ◌≡◌, refl, sym, arith, break_at, get_last?, Bool-cases, inl,
  inr,
}
use fssvrcpp.Prelude.Bytes.{Bytes, codes, bytes_eqb, starts_with}
use fssvrcpp.Prelude.Dict.{bytes_key, pair_key, lookup, lookup_in, bucket, insert, insert_in}
use fssvrcpp.Prelude.Int.{pos, negsuc, ◌+ℤ◌, times_int64}
use fssvrcpp.UseCases.Create.{create_claimed}
use fssvrcpp.UseCases.Leases.{ensure_lease_ownership-held}
use fssvrcpp.UseCases.Ports.{
  CallerContext, Ports, lease_enabled, lease_ttl_millis, ensure_lease_ownership, try_acquire,
  authorize_caller_any,
}
use fssvrcpp.UseCases.Publishing.{create_claimed-IsSettled, IsSettled, IsRetry}
use fssvrcpp.UseCases.Records.{delete_file_metadata, delete_found, delete_file_metadata-gone}
use fssvrcpp.World.{shared, World, Extra, object_ref_from_location}

instance abbrev pair_extra : Extra (Bytes × Bytes × Bytes)
pair_extra = record {
  physical = λ j. some (j.0, j.1);
  set_physical = λ container key j. (container, key, j.2);
  physical-set = λ container key j. refl;
  no_members = ([], [], []);
  driver_name = λ j. some j.2;
  set_driver_name = λ name j. (j.0, j.1, name);
  driver_name-set = λ name j. refl;
  physical-set_driver_name = λ name j. refl;
}

abbrev p : Bytes
p = codes "p"

abbrev loc : FileLocation (Bytes × Bytes × Bytes)
loc = record {
  file_id = codes "f1";
  driver = posix;
  zone = staging;
  file_source = codes "/a";
  user_id = codes "u";
  signed_url = [];
  created_at_epoch_seconds = pos 1;
  updated_at_epoch_seconds = pos 1;
  extra = (codes "c", codes "k1", []);
}

abbrev entry : FileMetadataRecord (Unit {0})
entry = record {
  id = codes "p:1";
  kind = codes "k";
  version = pos 1;
  name = none;
  file_source = codes "/a";
  rest = tt;
}

abbrev plan : FaultPlan
plan = record {
  op = Op.put;
  fail_count = pos 0;
  error = unavailable;
  truncate_put_to_bytes = negsuc 0;
  checksum_override = [];
  latency_millis = pos 0;
}

abbrev located : Location.Locations (Bytes × Bytes × Bytes)
located = Lookups.run (saves p loc ∷ []) Lookups.empty

abbrev world_of : Metadata (Unit {0}) → World (Unit {0}) (Bytes × Bytes × Bytes)
world_of m = record {
  metadata = m;
  locations = located;
  leases = [];
  stores = shared (empty_store plan);
}

abbrev recorded : World (Unit {0}) (Bytes × Bytes × Bytes)
recorded = world_of (create (pos 5) p entry empty).1

abbrev dry_options : GcOptions
dry_options = record {
  dry_run = true;
  require_lease_expiry = false;
  staging_ttl_hours = pos 24;
  orphan_grace_hours = pos 72;
  claim_limit = pos 100;
  lease_ttl_seconds = pos 60;
}

abbrev registry : Bytes → Result PartitionConfig
registry partition = err not_found

run-dry_example :
    (held staging
        (codes "c")
        (codes "k1")
        (run 3 false dry_options p (codes "i") registry (pos 9) (pos 9) recorded).1
      ≡ held staging (codes "c") (codes "k1") recorded)
    × ((run 3 false dry_options p (codes "i") registry (pos 9) (pos 9) recorded).1.locations
        ≡ recorded.locations)
run-dry_example =
    run-dry 3 false dry_options p (codes "i") registry (pos 9) (pos 9) recorded staging (codes "c")
      (codes "k1") refl

abbrev start_report : GcReport
start_report = record {
  dry_run = false;
  expired_leases_claimed = 1;
  reclaimed_claiming = 0;
  deleted_objects = 0;
  deleted_locations = 0;
  skipped_has_record = 0;
  skipped_no_location = 0;
  skipped_too_young = 0;
  tmp_removed = 0;
  tmp_skipped_too_young = 0;
  tmp_skipped_unknown_mtime = 0;
  errors = 0;
  deleted_file_ids = [];
}

abbrev wet_options : GcOptions
wet_options = record dry_options { dry_run = false }

abbrev lease : Lease
lease = record {
  file_id = codes "/a";
  owner_instance_id = codes "i";
  file_source = [];
  expires_at_epoch_millis = pos 0;
}

recorded_source :
    has_metadata_record {R = Unit {0}} {J = Bytes × Bytes × Bytes} p (codes "/a") recorded ≡ true
unfolding has_metadata_record get_latest_by_file_source active create claim_for_write is_invalid
    mark_ready mark_in break_at lookup lookup_in insert insert_in bucket get_last? bytes_eqb
recorded_source = refl

found_source :
    (f : Bytes) (l : FileLocation (Bytes × Bytes × Bytes))
    → find p f recorded.locations ≡ ok l
    → l.file_source ≡ codes "/a"
unfolding find Lookups.run Lookups.step Location.save Location.save_checked lookup lookup_in insert
    insert_in bucket bytes_eqb
found_source f l h = elim (Bool-cases (bytes_eqb f (codes "f1"))) [
  | inl e ↦
      let h' = rw (find, lookup_in, bucket, lookup, e) at h in
      let q : loc ≡ l = cc in rw (sym q) refl
  | inr e ↦ absurd (let h' = rw (find, lookup_in, bucket, lookup, e) at h in cc)
]

collect_leases-held_example :
    held staging
      (codes "c")
      (codes "k1")
      (collect_leases wet_options p (lease ∷ []) (start_report, recorded)).1
    ≡ held staging (codes "c") (codes "k1") recorded
collect_leases-held_example =
    collect_leases-held wet_options p (codes "c") (codes "k1") (lease ∷ []) staging
      (start_report, recorded) (λ f l h e. rw (found_source f l h) recorded_source)

abbrev pub ports : Ports (Unit {0})
ports = record {
  authorize = λ roles. ok tt;
  validate = λ r. ok tt;
  validate_tags = λ r. ok tt;
  audit = ok tt;
  registered = registry;
  new_uuid = codes "1";
  now_seconds = pos 5;
  now_millis = pos 5000;
  has_leases = true;
  leases_enabled = true;
  lease_ttl_seconds = pos 60;
  instance_id = codes "i";
  lost = λ n. false;
  awaited = err unavailable;
  sha256_hex = λ content. content;
  is_usable_digest = λ info. true;
  canonical_name = λ name. name;
  set_checksum = λ checksum algorithm r. r;
}

abbrev pub caller : CallerContext
caller = record { partition = p; user_id = codes "u" }

switched_on : lease_enabled ports ≡ true
unfolding lease_enabled
switched_on = refl

owned : (ensure_lease_ownership ports caller (codes "/a") recorded).0 ≡ ok tt
unfolding ensure_lease_ownership lease_enabled lease_ttl_millis try_acquire acquire renew kind_eqb
    lookup
owned = refl

ensure_lease_ownership-held_example :
    (acquire
      (pos 6000)
      p
      (codes "/a")
      (codes "j")
      (pos 1)
      (ensure_lease_ownership ports caller (codes "/a") recorded).1.leases).0
    ≡ err unavailable
unfolding lease_ttl_millis times_int64 ◌+ℤ◌
ensure_lease_ownership-held_example =
    ensure_lease_ownership-held ports caller (codes "/a") (codes "j") recorded (pos 6000) (pos 1)
      switched_on owned (omega arith)

there : get_by_id p (codes "p:1") recorded.metadata ≡ ok entry
unfolding get_by_id create claim_for_write is_invalid mark_ready mark_in break_at lookup lookup_in
    insert insert_in bucket get_last? bytes_eqb active
there = refl

deleted_entry : (delete_file_metadata ports caller (codes "p:1") recorded).0 ≡ ok tt
unfolding delete_file_metadata delete_found authorize_caller_any get_by_id create claim_for_write
    is_invalid mark_ready mark_in break_at lookup lookup_in insert insert_in bucket get_last?
    bytes_eqb active Records.delete
deleted_entry = refl

delete_file_metadata-gone_example :
    (get_by_id p (codes "p:1") (delete_file_metadata ports caller (codes "p:1") recorded).1.metadata
      ≡ err not_found)
    × (find_by_file_source p
          (codes "/a")
          (delete_file_metadata ports caller (codes "p:1") recorded).1.locations
        ≡ err not_found)
delete_file_metadata-gone_example =
    delete_file_metadata-gone ports caller entry (codes "p:1") recorded
      (histories-Inv (saves p loc ∷ [])) there refl deleted_entry

abbrev claim : MetadataClaim (Unit {0})
claim = record { claimed = true; content = entry; state = claiming }

abbrev claimed_world : World (Unit {0}) (Bytes × Bytes × Bytes)
claimed_world = world_of (claim_for_write (pos 5) p entry empty).1

claimed_entry : claim_for_write (pos 5) p entry empty ≡ (ok claim, claimed_world.metadata)
unfolding claim_for_write is_invalid break_at active lookup_in lookup bucket bytes_eqb
claimed_entry = refl

abbrev retry : FileMetadataRecord (Unit {0})
retry = record entry { id = codes "p:2" }

retry_valid : IsRetry p entry empty retry
unfolding is_invalid break_at lookup_in lookup bucket bytes_eqb
retry_valid = (refl, refl, refl)

placed :
    (l : FileLocation (Bytes × Bytes × Bytes))
    → find_by_file_source p (codes "/a") claimed_world.locations ≡ ok l
    → is_ok (object_ref_from_location l) ≡ true
unfolding object_ref_from_location
placed l h = refl

container_named : is_ok (container_for_registered (registry p) p persistent) ≡ true
unfolding container_for_registered
container_named = refl

create_claimed-IsSettled_example :
    IsSettled p entry
      (pos 9)
      retry
      (create_claimed ports caller entry (pos 1) claimed_world).0
      (create_claimed ports caller entry (pos 1) claimed_world).1.metadata
create_claimed-IsSettled_example =
    create_claimed-IsSettled ports caller entry claimed_world empty claim (pos 9) retry retry_valid
      (claimed_entry, refl) refl (placed, container_named)

located_first : find p (codes "f1") recorded.locations ≡ ok loc
unfolding find Lookups.run Lookups.step Location.save Location.save_checked lookup lookup_in insert
    insert_in bucket bytes_eqb
located_first = refl

plain_key : is_temp_key (codes "k1") ≡ false
unfolding is_temp_key starts_with
plain_key = refl

collect_orphan_objects-held_example :
    held persistent
      (codes "c")
      (codes "k1")
      (collect_orphan_objects 3 wet_options p (ok (codes "c")) (pos 9) (start_report, recorded)).1
    ≡ held persistent (codes "c") (codes "k1") recorded
collect_orphan_objects-held_example =
    collect_orphan_objects-held 3 wet_options p (ok (codes "c")) (pos 9) start_report recorded
      (codes "f1") (codes "c") (codes "k1") loc persistent located_first refl plain_key
