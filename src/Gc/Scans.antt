-- ===== src/Gc/Scans.antt =====
-- src/app/tasks/gc_task.cpp: the collections that walk through a container, and `Run`. The walks
-- have fuel, one unit for each page; without fuel they stop as at their last page. `registered` is
-- what the registry of partitions answers.
use fssvrcpp.BlobStore.Listing.{ListEntry, list, is_temp_key, remove_temp_files}
use fssvrcpp.Domain.{StorageZone, staging, persistent, ObjectRef, FileLocation, LocationQuery}
use fssvrcpp.Errors.{unavailable, Result, ok, err, invalid_argument, internal}
use fssvrcpp.Location
use fssvrcpp.Location.{Locations, LocationPage, size}
use fssvrcpp.ObjectKey.{PartitionConfig, container_for_registered}
use fssvrcpp.Prelude.{
  Bool, ℕ, zero, suc, ◌+◌, true, false, not, ◌||◌, List, [], ◌∷◌, ◌++◌, none, some, if◌then◌else◌,
  length, leb,
}
use fssvrcpp.Prelude.Bytes.{Bytes, is_empty}
use fssvrcpp.Prelude.Dict.{bytes_key, lookup, insert}
use fssvrcpp.Prelude.Int.{ℤ, pos, negsuc, ◌-ℤ◌, times_int64, ltb_ℤ, is_nonpos}
use fssvrcpp.World.{World, Extra, store_of, set_store}
use fssvrcpp.Gc.Tasks.{
  GcOptions, GcReport, Progress, count_error, delete_candidate, has_metadata_record,
  collect_expired_leases,
}

abbrev pub unit_separator : ℕ
unit_separator = 0x1f

-- `PairKey`
unfoldable pub ref_key : Bytes → Bytes → Bytes
ref_key container key = container ++ (unit_separator ∷ key)

-- From the key of a reference to the file id and the file source of its location.
abbrev pub Refs : Type 0
Refs = List (Bytes × (Bytes × Bytes))

abbrev pub page_query : ℕ → LocationQuery
page_query offset = record {
  user_id = [];
  created_after_epoch_seconds = negsuc 0;
  created_before_epoch_seconds = negsuc 0;
  limit = pos 500;
  offset = pos offset;
}

-- The time from which on an object is too young to go.
abbrev pub cutoff_of : ℤ → ℤ → ℤ
cutoff_of now hours = now -ℤ times_int64 3600 hours

abbrev pub ref_at : Bytes → Bytes → ObjectRef
ref_at container key = record { container = container; key = key; version_id = none }

module _ {J : Type 0} ⦃x : Extra J⦄ where
  unfoldable pub add_refs : List (FileLocation J) → Refs → Refs
  unfolding ref_key
  add_refs [] refs = refs
  add_refs (l ∷ ls) refs = elim (x.physical l.extra) [
    | none ↦ add_refs ls refs
    | some (container, key) ↦
        add_refs ls (insert (ref_key container key) (l.file_id, l.file_source) refs)
  ]

  -- The loop of `ReferencedRefs`.
  unfoldable pub refs_from : ℕ → Bytes → ℕ → Refs → Locations J → Result Refs
  unfolding add_refs
  refs_from zero partition offset refs locations = err internal
  refs_from (suc fuel) partition offset refs locations =
      elim (Location.list partition (page_query offset) locations) [
        | err e ↦ err e
        | ok page ↦
            let refs' = add_refs page.records refs in
            let offset' = offset + length page.records in
            elim (leb (length page.records) 0 || leb page.total offset') [
              | true ↦ ok refs'
              | false ↦ refs_from fuel partition offset' refs' locations
            ]
      ]

  -- `ReferencedRefs`, with a page for each location and one more.
  unfoldable pub referenced_refs : Bytes → Locations J → Result Refs
  unfolding refs_from
  referenced_refs partition locations =
      refs_from (suc (size partition locations)) partition 0 [] locations

module _ {R J : Type 0} where
  unfoldable pub visit :
      (ListEntry → Progress R J → Progress R J) → List ListEntry → Progress R J → Progress R J
  visit step [] g = g
  visit step (e ∷ es) g = visit step es (step e g)

  -- The loop over the pages of a container.
  unfoldable pub walk_pages :
      ℕ
      → StorageZone
      → Bytes
      → (ListEntry → Progress R J → Progress R J)
      → Bytes
      → Progress R J
      → Progress R J
  unfolding visit
  walk_pages zero zone container step token g = g
  walk_pages (suc fuel) zone container step token (report, w) =
      let r = list container [] token (pos 500) (store_of zone w.stores) in
      let w' = record w { stores = set_store zone r.1 w.stores } in
      elim r.0 [
        | err e ↦ (count_error report, w')
        | ok page ↦ elim (is_empty page.continuation_token) [
          | true ↦ visit step page.entries (report, w')
          | false ↦
              walk_pages fuel zone container step page.continuation_token
                (visit step page.entries (report, w'))
        ]
      ]

  -- A temporary file: old enough, it goes.
  unfoldable pub visit_temp :
      GcOptions → StorageZone → Bytes → ℤ → Bytes → ListEntry → Progress R J → Progress R J
  unfolding delete_candidate
  visit_temp options zone partition cutoff container e (report, w) =
      if ltb_ℤ cutoff e.last_modified_epoch_seconds
      then (record report { tmp_skipped_too_young = suc report.tmp_skipped_too_young }, w)
      else delete_candidate options zone (ref_at container e.key) e.key false partition
          (record report { tmp_removed = suc report.tmp_removed }, w)

  abbrev pub too_young : Progress R J → Progress R J
  too_young (report, w) = (record report { skipped_too_young = suc report.skipped_too_young }, w)

  abbrev pub has_record : Progress R J → Progress R J
  has_record (report, w) = (record report { skipped_has_record = suc report.skipped_has_record }, w)

  -- The body of the loop of `CollectExpiredStaging`.
  unfoldable pub visit_staging :
      GcOptions → Bytes → ℤ → Bytes → Refs → ListEntry → Progress R J → Progress R J
  unfolding visit_temp delete_candidate has_metadata_record is_temp_key
  visit_staging options partition cutoff container refs e g =
      if is_temp_key e.key
      then visit_temp options staging partition cutoff container e g
      else if ltb_ℤ cutoff e.last_modified_epoch_seconds
      then too_young g
      else elim (lookup (ref_key container e.key) refs) [
        | none ↦ delete_candidate options staging (ref_at container e.key) e.key false partition g
        | some (file_id, file_source) ↦
            if has_metadata_record partition file_source g.1
            then has_record g
            else delete_candidate options staging (ref_at container e.key) file_id true partition g
      ]

  -- The body of the loop of `CollectOrphanObjects`.
  unfoldable pub visit_orphan :
      GcOptions → Bytes → ℤ → Bytes → Refs → ListEntry → Progress R J → Progress R J
  unfolding visit_temp delete_candidate is_temp_key
  visit_orphan options partition cutoff container refs e g =
      if is_temp_key e.key
      then visit_temp options persistent partition cutoff container e g
      else elim (lookup (ref_key container e.key) refs) [
        | some found ↦ g
        | none ↦
            if ltb_ℤ cutoff e.last_modified_epoch_seconds
            then too_young g
            else delete_candidate options persistent (ref_at container e.key) e.key false partition
                g
      ]

  -- The sweep of temporary files in the container of a zone.
  unfoldable pub sweep_zone :
      GcOptions → ℤ → StorageZone → Result Bytes → Progress R J → Progress R J
  unfolding remove_temp_files
  sweep_zone options cutoff zone (err e) (report, w) = (count_error report, w)
  sweep_zone options cutoff zone (ok container) (report, w) =
      let r = remove_temp_files container cutoff options.dry_run (store_of zone w.stores) in
      let w' = record w { stores = set_store zone r.1 w.stores } in
      elim r.0 [
        | err e ↦ (count_error report, w')
        | ok swept ↦ (
          record report {
            tmp_removed = report.tmp_removed + swept.removed;
            tmp_skipped_too_young = report.tmp_skipped_too_young + swept.skipped_too_young;
            tmp_skipped_unknown_mtime =
                report.tmp_skipped_unknown_mtime + swept.skipped_unknown_mtime;
          },
          w',
        )
      ]

abbrev pub new_report : GcOptions → GcReport
new_report options = record {
  dry_run = options.dry_run;
  expired_leases_claimed = 0;
  reclaimed_claiming = 0;
  deleted_objects = 0;
  deleted_locations = 0;
  skipped_has_record = 0;
  skipped_no_location = 0;
  skipped_too_young = 0;
  tmp_removed = 0;
  tmp_skipped_too_young = 0;
  tmp_skipped_unknown_mtime = 0;
  errors = 0;
  deleted_file_ids = [];
}

module _ {R J : Type 0} ⦃x : Extra J⦄ where
  -- The two scans, behind the name of their container and the references.
  unfoldable pub collect_expired_staging :
      ℕ → GcOptions → Bytes → Result Bytes → ℤ → Progress R J → Progress R J
  unfolding walk_pages visit_staging referenced_refs
  collect_expired_staging fuel options partition (err e) now (report, w) = (count_error report, w)
  collect_expired_staging fuel options partition (ok container) now (report, w) =
      elim (referenced_refs partition w.locations) [
        | err e ↦ (count_error report, w)
        | ok refs ↦
            walk_pages fuel staging container
              (visit_staging options partition (cutoff_of now options.staging_ttl_hours) container
                refs)
              [] (report, w)
      ]

  unfoldable pub collect_orphan_objects :
      ℕ → GcOptions → Bytes → Result Bytes → ℤ → Progress R J → Progress R J
  unfolding walk_pages visit_orphan referenced_refs
  collect_orphan_objects fuel options partition (err e) now (report, w) = (count_error report, w)
  collect_orphan_objects fuel options partition (ok container) now (report, w) =
      elim (referenced_refs partition w.locations) [
        | err e ↦ (count_error report, w)
        | ok refs ↦
            walk_pages fuel persistent container
              (visit_orphan options partition (cutoff_of now options.orphan_grace_hours) container
                refs)
              [] (report, w)
      ]

  -- The four parts of `Run`, in its order. `named` gives the containers of the two zones.
  unfoldable pub run_parts :
      ℕ
      → GcOptions
      → Bytes
      → Bytes
      → (StorageZone → Result Bytes)
      → ℤ
      → ℤ
      → Progress R J
      → Progress R J
  unfolding collect_expired_leases collect_expired_staging collect_orphan_objects sweep_zone
  run_parts fuel options partition instance_id named now_millis now g =
      let a = collect_expired_leases options partition instance_id now_millis now g in
      let b = collect_expired_staging fuel options partition (named staging) now a in
      let c =
        collect_orphan_objects fuel options partition (named persistent) now
          (if not options.require_lease_expiry then b else a) in
      let cutoff = cutoff_of now options.staging_ttl_hours in
      sweep_zone options cutoff persistent (named persistent)
        (sweep_zone options cutoff staging (named staging) c)

  -- `Run`; both stores are there in memory. `busy` is whether another run holds the mutex.
  unfoldable pub run :
      ℕ
      → Bool
      → GcOptions
      → Bytes
      → Bytes
      → (Bytes → Result PartitionConfig)
      → ℤ
      → ℤ
      → World R J
      → Result GcReport × World R J
  unfolding run_parts container_for_registered
  run fuel busy options partition instance_id registered now_millis now w =
      let named = container_for_registered (registered partition) partition in
      let r =
        run_parts fuel options partition instance_id named now_millis now (new_report options, w) in
      if busy
      then (err unavailable, w)
      else if is_empty partition
      then (err invalid_argument, w)
      else if is_nonpos options.claim_limit
      then (err invalid_argument, w)
      else (ok r.0, r.1)
