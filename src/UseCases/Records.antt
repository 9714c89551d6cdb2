-- ===== src/UseCases/Records.antt =====
-- src/app/usecases/usecases.cpp: `GetFileMetadata` and `DeleteFileMetadata`, and what a deletion
-- leaves.
use fssvrcpp.BlobStore.Calls.{remove}
use fssvrcpp.Domain.{StorageZone, ObjectRef, FileLocation, FileMetadataRecord}
use fssvrcpp.Errors.{Result, ok, err, ErrorKind, not_found, Result-cases}
use fssvrcpp.Location
use fssvrcpp.Location.{find, find_by_file_source}
use fssvrcpp.Location.Indices.{Inv}
use fssvrcpp.Location.Changes.{find-delete}
use fssvrcpp.Location.Lookups.{find_by_file_source-find}
use fssvrcpp.Metadata.Records
use fssvrcpp.Metadata.Records.{get_by_id}
use fssvrcpp.Prelude.{
  true, false, [], ◌∷◌, if◌then◌else◌, ◌≡◌, ◌∙◌, refl, inl, inr, arith, Option-cases,
}
use fssvrcpp.Prelude.Bytes.{Bytes, codes, is_empty, bytes_eqb_iff, bytes_eqb_refl}
use fssvrcpp.Prelude.Dict.{bytes_key, lookup_in, lookup_in-remove_in}
use fssvrcpp.UseCases.Ports.{CallerContext, Ports, authorize_caller, authorize_caller_any}
use fssvrcpp.World.{World, Extra, store_of, set_store, object_ref_from_location}

module _ {R J : Type 0} where
  -- `GetFileMetadata::Execute`
  unfoldable pub get_file_metadata :
      Ports R → CallerContext → Bytes → World R J → Result (FileMetadataRecord R)
  unfolding authorize_caller
  get_file_metadata ports caller id w =
      elim (authorize_caller ports caller (codes "service.file.viewers") true) [
        | err e ↦ err e
        | ok _ ↦ elim (get_by_id caller.partition id w.metadata) [
          | err e ↦ err e
          | ok r ↦ elim ports.audit [ err e ↦ err e | ok _ ↦ ok r ]
        ]
      ]

module _ {J : Type 0} where
  missing :
      (p src : Bytes) (s : Location.Locations J) (e : ErrorKind)
      → find_by_file_source p src s ≡ err e
      → find_by_file_source p src s ≡ err not_found
  unfolding find_by_file_source find
  missing p src s e h = ground (arith, h)

module _ {R J : Type 0} ⦃x : Extra J⦄ where
  abbrev remove_object : StorageZone → Result ObjectRef → World R J → World R J
  remove_object zone (err e) w = w
  remove_object zone (ok ref) w = record w {
    stores = set_store zone (remove ref (store_of zone w.stores)).1 w.stores;
  }

  -- The object and the location of a record that is gone.
  abbrev pub clear_location : Bytes → Result (FileLocation J) → World R J → World R J
  clear_location partition (err e) w = w
  clear_location partition (ok l) w =
      let w' = remove_object l.zone (object_ref_from_location l) w in
      record w' { locations = (Location.delete partition l.file_id w.locations).1 }

  -- `DeleteFileMetadata::Execute` on the record that is to go.
  unfoldable pub delete_found :
      Ports R
      → CallerContext
      → FileMetadataRecord R
      → Bytes
      → World R J
      → Result (Unit {0}) × World R J
  delete_found ports caller r id w =
      let gone = Records.delete caller.partition id w.metadata in
      let w' = record w { metadata = gone.1 } in
      elim gone.0 [
        | err e ↦ (err e, w')
        | ok _ ↦ (
          ports.audit,
          if is_empty r.file_source
              then w'
              else clear_location caller.partition
                  (find_by_file_source caller.partition r.file_source w'.locations) w',
        )
      ]

  unfoldable pub delete_file_metadata :
      Ports R → CallerContext → Bytes → World R J → Result (Unit {0}) × World R J
  unfolding authorize_caller_any delete_found
  delete_file_metadata ports caller id w =
      elim (authorize_caller_any ports caller
        (codes "service.file.editors" ∷ codes "service.file.admin" ∷ []) true) [
          | err e ↦ (err e, w)
          | ok _ ↦ elim (get_by_id caller.partition id w.metadata) [
            | err e ↦ (err e, w)
            | ok r ↦ delete_found ports caller r id w
          ]
        ]

  clear_location-metadata :
      (p : Bytes) (l : Result (FileLocation J)) (w : World R J)
      → (clear_location p l w).metadata ≡ w.metadata
  clear_location-metadata p (err e) w = refl
  clear_location-metadata p (ok l) w = elim (Result-cases (object_ref_from_location l)) [
    | inl (ref, e) ↦ rw e refl
    | inr (e, q) ↦ rw q refl
  ]

  cleared-source :
      (p src : Bytes) (w : World R J)
      → Inv w.locations
      → find_by_file_source p src
          (clear_location p (find_by_file_source p src w.locations) w).locations
        ≡ err not_found
  cleared-source p src w v = elim (Result-cases (find_by_file_source p src w.locations)) [
    | inr (e, q) ↦ rw q (missing p src w.locations e q)
    | inl (l, e) ↦
        let at = (find_by_file_source-find p src w.locations l v).0 e in
        let gone = (find-delete p l.file_id p l.file_id src w.locations v).2 in
        rw e (gone ∙ rw (at.0, at.1, bytes_eqb_refl p, bytes_eqb_refl src) refl)
  ]

  removed-hidden :
      (p id : Bytes) (w : World R J)
      → (Records.delete p id w.metadata).0 ≡ ok tt
      → get_by_id p id (Records.delete p id w.metadata).1 ≡ err not_found
  unfolding Records.delete get_by_id
  removed-hidden p id w h = elim (Option-cases (Records.latest (lookup_in p id w.metadata.by_id))) [
    | inl e ↦ absurd (let h' = rw (Records.delete, e) at h in cc)
    | inr (v, e) ↦
        rw (Records.delete, e)
          (ground (
            arith,
            lookup_in-remove_in p p id id w.metadata.by_id,
            bytes_eqb_iff p p,
            bytes_eqb_iff id id,
          ))
  ]

  delete_found-gone :
      (ports : Ports R) (caller : CallerContext) (r : FileMetadataRecord R) (id : Bytes)
      (w : World R J)
      → Inv w.locations
      → is_empty r.file_source ≡ false
      → (delete_found ports caller r id w).0 ≡ ok tt
      → let w' = (delete_found ports caller r id w).1 in
        (get_by_id caller.partition id w'.metadata ≡ err not_found)
        × (find_by_file_source caller.partition r.file_source w'.locations ≡ err not_found)
  unfolding delete_found
  delete_found-gone ports caller r id w v full h =
      let gone = Records.delete caller.partition id w.metadata in
      let w' = record w { metadata = gone.1 } in
      let l = find_by_file_source caller.partition r.file_source w.locations in
      elim (Result-cases gone.0) [
        | inr (e, q) ↦ absurd (let h' = rw (delete_found, q) at h in cc)
        | inl (u, e) ↦
            rw (delete_found, e, full)
              (
                rw (clear_location-metadata caller.partition l w')
                    (removed-hidden caller.partition id w e),
                cleared-source caller.partition r.file_source w' v,
              )
      ]

  -- With the two indices of the locations in agreement, a deletion that succeeds of a record with a
  -- file source: afterwards the record is not found by its id, and no location is found by its file
  -- source.
  pub delete_file_metadata-gone :
      (ports : Ports R) (caller : CallerContext) (r : FileMetadataRecord R) (id : Bytes)
      (w : World R J)
      → Inv w.locations
      → get_by_id caller.partition id w.metadata ≡ ok r
      → is_empty r.file_source ≡ false
      → (delete_file_metadata ports caller id w).0 ≡ ok tt
      → let w' = (delete_file_metadata ports caller id w).1 in
        (get_by_id caller.partition id w'.metadata ≡ err not_found)
        × (find_by_file_source caller.partition r.file_source w'.locations ≡ err not_found)
  unfolding delete_file_metadata
  delete_file_metadata-gone ports caller r id w v there full h =
      let roles = codes "service.file.editors" ∷ codes "service.file.admin" ∷ [] in
      elim (Result-cases (authorize_caller_any ports caller roles true)) [
        | inr (e, q) ↦ absurd (let h' = rw (delete_file_metadata, q) at h in cc)
        | inl (u, e) ↦
            let h' = rw (delete_file_metadata, e, there) at h in
            rw (delete_file_metadata, e, there) (delete_found-gone ports caller r id w v full h')
      ]
