-- ===== src/UseCases/Create.antt =====
-- src/app/usecases/usecases.cpp: `CreateFileMetadata` on the repository in memory, whose claims are
-- atomic.
use fssvrcpp.BlobStore.Calls.{remove}
use fssvrcpp.Domain.{StorageZone, staging, persistent, ObjectRef, FileLocation, FileMetadataRecord}
use fssvrcpp.Errors.{Result, ok, err, is_ok, file_source_empty, internal, unavailable}
use fssvrcpp.Location.{save}
use fssvrcpp.Metadata.Claiming.{claim_for_write, mark_ready, release_claim}
use fssvrcpp.Metadata.Records.{get_latest_by_file_source}
use fssvrcpp.Metadata.Types.{claiming, ready, deleted, MetadataClaim}
use fssvrcpp.Prelude.{true, false, ◌++◌, Option, none, some, if◌then◌else◌}
use fssvrcpp.Prelude.Bytes.{Bytes, codes, is_empty}
use fssvrcpp.Prelude.Int.{ℤ, pos}
use fssvrcpp.World.{World, Extra, store_of, set_store}
use fssvrcpp.UseCases.Prepare.{Prepared, aborts, leaves, existing, prepared, prepare}
use fssvrcpp.UseCases.Ports.{
  CallerContext, Ports, authorize_caller, ensure_lease_ownership, release_now,
}

module _ {R : Type 0} where
  -- `ReturnExistingRecord`
  unfoldable pub return_existing_record : Ports R → FileMetadataRecord R → Result Bytes
  return_existing_record ports r = elim ports.audit [ err e ↦ err e | ok _ ↦ ok r.id ]

  abbrev pub new_record : Ports R → CallerContext → FileMetadataRecord R → FileMetadataRecord R
  new_record ports caller r = record r {
    id = caller.partition ++ (codes ":dataset--File.Generic:" ++ ports.new_uuid);
    version = pos 1;
  }

module _ {R J : Type 0} ⦃x : Extra J⦄ where
  -- `RollbackCreatedObject`
  unfoldable pub rollback_created_object :
      CallerContext → Bytes → Option ObjectRef → World R J → World R J
  rollback_created_object caller file_source none w = w
  rollback_created_object caller file_source (some to) w =
      if is_ok (get_latest_by_file_source caller.partition file_source w.metadata)
      then w
      else record w {
        stores = set_store persistent (remove to (store_of persistent w.stores)).1 w.stores;
      }

  -- `abort_create`
  unfoldable pub abort_create :
      CallerContext → FileMetadataRecord R → ℤ → Option ObjectRef → World R J → World R J
  unfolding rollback_created_object
  abort_create caller out version ref w =
      let w' = rollback_created_object caller out.file_source ref w in
      record w' { metadata = (release_claim caller.partition out.id version w'.metadata).1 }

  abbrev pub unstage : StorageZone → ObjectRef → World R J → World R J
  unstage persistent from w = w
  unstage staging from w = record w {
    stores = set_store staging (remove from (store_of staging w.stores)).1 w.stores;
  }

  -- What follows on `MarkReady`: the location moves, and the staged object goes.
  unfoldable pub settle :
      Ports R
      → CallerContext
      → FileMetadataRecord R
      → FileLocation J
      → ObjectRef
      → ObjectRef
      → World R J
      → World R J
  settle ports caller out l from to w =
      let w' = release_now ports caller out.file_source w in
      let moved = record l {
        zone = persistent;
        extra = x.set_physical to.container to.key l.extra;
        user_id = caller.user_id;
        updated_at_epoch_seconds = ports.now_seconds;
      } in
      let w'' = record w' { locations = (save caller.partition moved w'.locations).1 } in
      unstage l.zone from w''

  unfoldable pub finish :
      Ports R
      → CallerContext
      → FileMetadataRecord R
      → ℤ
      → Prepared R J
      → World R J
      → Result Bytes × World R J
  unfolding abort_create settle return_existing_record
  finish ports caller out version (aborts ref e) w =
      (err e, release_now ports caller out.file_source (abort_create caller out version ref w))
  finish ports caller out version (leaves e) w = (err e, release_now ports caller out.file_source w)
  finish ports caller out version (existing r) w = (
    return_existing_record ports r,
    release_now ports caller out.file_source (abort_create caller out version none w),
  )
  finish ports caller out version (prepared final' l from to) w =
      let marked = mark_ready caller.partition out.id version final' w.metadata in
      let w' = record w { metadata = marked.1 } in
      elim marked.0 [
        | err e ↦ (
          err internal,
          release_now ports caller out.file_source (abort_create caller out version (some to) w'),
        )
        | ok r ↦ (return_existing_record ports r, settle ports caller out l from to w')
      ]

  -- `Execute` behind a claim that was granted.
  unfoldable pub create_claimed :
      Ports R → CallerContext → FileMetadataRecord R → ℤ → World R J → Result Bytes × World R J
  unfolding finish prepare abort_create ensure_lease_ownership
  create_claimed ports caller out version w =
      let owned = ensure_lease_ownership ports caller out.file_source w in
      let w' = record w { leases = owned.1.leases } in
      let p = prepare ports caller out w' in
      elim owned.0 [
        | err e ↦ (err e, abort_create caller out version none w')
        | ok _ ↦ finish ports caller out version p.0 (record w' { stores = p.1 })
      ]

  -- A claim that someone else holds, or a record that is there.
  abbrev answer_claim : Ports R → CallerContext → MetadataClaim R → World R J → Result Bytes
  answer_claim ports caller c w = elim c.state [
    | ready ↦ return_existing_record ports c.content
    | deleted ↦ err internal
    | claiming ↦ elim ports.awaited [
      | ok r ↦ return_existing_record ports r
      | err e ↦ err unavailable
    ]
  ]

  abbrev answer_valid :
      Ports R → CallerContext → FileMetadataRecord R → World R J → Result Bytes × World R J
  answer_valid ports caller out w =
      let claim = claim_for_write ports.now_seconds caller.partition out w.metadata in
      let w' = record w { metadata = claim.1 } in
      elim (get_latest_by_file_source caller.partition out.file_source w.metadata) [
        | ok r ↦ (return_existing_record ports r, w)
        | err _ ↦ elim claim.0 [
          | err e ↦ (err e, w')
          | ok c ↦ elim c.claimed [
            | true ↦ create_claimed ports caller out c.content.version w'
            | false ↦ (answer_claim ports caller c w', w')
          ]
        ]
      ]

  -- `CreateFileMetadata::Execute`
  unfoldable pub create_file_metadata :
      Ports R → CallerContext → FileMetadataRecord R → World R J → Result Bytes × World R J
  unfolding authorize_caller create_claimed return_existing_record
  create_file_metadata ports caller r w =
      elim (authorize_caller ports caller (codes "service.file.editors") true) [
        | err e ↦ (err e, w)
        | ok _ ↦ elim (ports.validate r) [
          | err e ↦ (err e, w)
          | ok _ ↦
              if is_empty r.file_source
              then (err file_source_empty, w)
              else elim (ports.validate_tags r) [
                | err e ↦ (err e, w)
                | ok _ ↦ answer_valid ports caller (new_record ports caller r) w
              ]
        ]
      ]
