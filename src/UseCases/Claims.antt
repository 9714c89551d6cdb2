-- ===== src/UseCases/Claims.antt =====
-- src/app/usecases/usecases.cpp: what `CreateFileMetadata` makes of its claim.
use fssvrcpp.Domain.{StorageZone, staging, persistent, ObjectRef, FileLocation, FileMetadataRecord}
use fssvrcpp.BlobStore.Types.{ObjectStat}
use fssvrcpp.Errors.{Result, ok, err, is_ok, bad_gateway, Result-cases}
use fssvrcpp.Location.{find_by_file_source}
use fssvrcpp.Metadata.Claiming.{release_claim}
use fssvrcpp.Metadata.Records.{get_latest_by_file_source}
use fssvrcpp.ObjectKey.{container_for_registered}
use fssvrcpp.Prelude.{
  Bool, true, false, not, Option, none, some, if◌then◌else◌, ◌≡◌, refl, inl, inr, arith, Bool-cases,
}
use fssvrcpp.Prelude.Bytes.{Bytes}
use fssvrcpp.Prelude.Dict.{bytes_key}
use fssvrcpp.Prelude.Int.{ℤ}
use fssvrcpp.UseCases.Copy.{copy_between_zones}
use fssvrcpp.UseCases.Create.{abort_create, rollback_created_object}
use fssvrcpp.UseCases.Ports.{CallerContext, Ports, release_now, lease_enabled}
use fssvrcpp.UseCases.Prepare.{
  Prepared, aborts, leaves, existing, prepared, prepare, add_checksum, found_object, copied_object,
  stat_in, is_lost, move_from,
}
use fssvrcpp.World.{Stores, World, Extra, object_ref_from_location}

module _ {R J : Type 0} where
  -- A record to be marked ready is the one that was claimed, but for its checksum.
  abbrev pub IsFor : FileMetadataRecord R → Prepared R J → Type 0
  IsFor out (aborts ref e) = Unit {0}
  IsFor out (leaves e) = Unit {0}
  IsFor out (existing r) = Unit {0}
  IsFor out (prepared f l from to) = (f.id ≡ out.id) × (f.file_source ≡ out.file_source)

  -- The claim is neither published nor given back for an error.
  abbrev pub is_left : Prepared R J → Bool
  is_left (aborts ref e) = false
  is_left (leaves e) = true
  is_left (existing r) = true
  is_left (prepared f l from to) = false

  add_checksum-IsFor :
      (ports : Ports R) (out : FileMetadataRecord R) (l : FileLocation J) (from to : ObjectRef)
      (info : ObjectStat) (stores : Stores)
      → IsFor out (add_checksum ports out l from to info stores).0
        × (is_left (add_checksum ports out l from to info stores).0 ≡ false)
  unfolding add_checksum
  add_checksum-IsFor ports out l from to info stores = ground arith

  if-IsFor :
      (out : FileMetadataRecord R) (b : Bool) (p q : Prepared R J × Stores)
      → IsFor out p.0 × (is_left p.0 ≡ false)
      → IsFor out q.0 × (is_left q.0 ≡ false)
      → IsFor out (if b then p else q).0 × (is_left (if b then p else q).0 ≡ false)
  if-IsFor out true p q h k = h
  if-IsFor out false p q h k = k

  copied_object-IsFor :
      (ports : Ports R) (out : FileMetadataRecord R) (l : FileLocation J) (from to : ObjectRef)
      (other : Result (FileMetadataRecord R)) (r : Result ObjectStat) (stores : Stores)
      → is_ok other ≡ false
      → IsFor out (copied_object ports out l from to other (r, stores)).0
        × (is_left (copied_object ports out l from to other (r, stores)).0 ≡ false)
  copied_object-IsFor ports out l from to (ok r) (err e) stores h = absurd cc
  copied_object-IsFor ports out l from to (err q) (err e) stores h = (tt, refl)
  copied_object-IsFor ports out l from to (ok r) (ok info) stores h =
      add_checksum-IsFor ports out l from to info stores
  copied_object-IsFor ports out l from to (err q) (ok info) stores h =
      add_checksum-IsFor ports out l from to info stores

  found_object-IsFor :
      (ports : Ports R) (out : FileMetadataRecord R) (l : FileLocation J) (from to : ObjectRef)
      (r : Result ObjectStat) (stores : Stores)
      → IsFor out (found_object ports out l from to (r, stores)).0
        × (is_left (found_object ports out l from to (r, stores)).0 ≡ false)
  found_object-IsFor ports out l from to (err e) stores = (tt, refl)
  found_object-IsFor ports out l from to (ok info) stores =
      if-IsFor out (not info.exists) (aborts (some to) bad_gateway, stores)
        (add_checksum ports out l from to info stores) (tt, refl)
        (add_checksum-IsFor ports out l from to info stores)

  move_from-IsFor :
      (zone : StorageZone) (ports : Ports R) (caller : CallerContext) (out : FileMetadataRecord R)
      (l : FileLocation J) (from to : ObjectRef) (w : World R J)
      → is_ok (get_latest_by_file_source caller.partition out.file_source w.metadata) ≡ false
      → IsFor out (move_from zone ports caller out l from to w).0
        × (is_left (move_from zone ports caller out l from to w).0 ≡ false)
  unfolding move_from
  move_from-IsFor staging ports caller out l from to w h =
      let c =
        copy_between_zones ports.sha256_hex ports.now_seconds from to staging persistent w.stores in
      copied_object-IsFor ports out l from to
        (get_latest_by_file_source caller.partition out.file_source w.metadata) c.0 c.1 h
  move_from-IsFor persistent ports caller out l from to w h =
      let c = stat_in persistent to w.stores in found_object-IsFor ports out l from to c.0 c.1

  pub release_now-metadata :
      (ports : Ports R) (caller : CallerContext) (src : Bytes) (w : World R J)
      → (release_now ports caller src w).metadata ≡ w.metadata
  unfolding release_now
  release_now-metadata ports caller src w = elim (Bool-cases (lease_enabled ports)) [
    | inl e ↦ rw (release_now, e) refl
    | inr e ↦ rw (release_now, e) refl
  ]

module _ {R J : Type 0} ⦃x : Extra J⦄ where
  rollback-metadata :
      (caller : CallerContext) (src : Bytes) (ref : Option ObjectRef) (w : World R J)
      → (rollback_created_object caller src ref w).metadata ≡ w.metadata
  unfolding rollback_created_object
  rollback-metadata caller src none w = refl
  rollback-metadata caller src (some to) w =
      elim (Bool-cases (is_ok (get_latest_by_file_source caller.partition src w.metadata))) [
        | inl e ↦ rw (rollback_created_object, e) refl
        | inr e ↦ rw (rollback_created_object, e) refl
      ]

  pub abort_create-metadata :
      (caller : CallerContext) (out : FileMetadataRecord R) (version : ℤ) (ref : Option ObjectRef)
      (w : World R J)
      → (abort_create caller out version ref w).metadata
        ≡ (release_claim caller.partition out.id version w.metadata).1
  unfolding abort_create
  abort_create-metadata caller out version ref w =
      rw (rollback-metadata caller out.file_source ref w) refl

  pub prepare-IsFor :
      (ports : Ports R) (caller : CallerContext) (out : FileMetadataRecord R) (w : World R J)
      → is_ok (get_latest_by_file_source caller.partition out.file_source w.metadata) ≡ false
      → IsFor out (prepare ports caller out w).0
  unfolding prepare
  prepare-IsFor ports caller out w unread = elim (Bool-cases (is_lost ports 0)) [
    | inl lost ↦ rw (prepare, lost) tt
    | inr on ↦
        elim (Result-cases (find_by_file_source caller.partition out.file_source w.locations)) [
          | inr (e, q) ↦ rw (prepare, on, q) tt
          | inl (l, e) ↦ elim (Result-cases (object_ref_from_location l)) [
            | inr (f, q) ↦ rw (prepare, on, e, q) tt
            | inl (from, o) ↦
                elim (Result-cases (
                  container_for_registered (ports.registered caller.partition) caller.partition
                    persistent)) [
                      | inr (f, q) ↦ rw (prepare, on, e, o, q) tt
                      | inl (container, n) ↦
                          rw (prepare, on, e, o, n)
                            (move_from-IsFor l.zone ports caller out l from
                              (record { container = container; key = from.key; version_id = none })
                              w unread).0
                    ]
          ]
        ]
  ]

  -- The location of the file source, if there is one, has its physical reference, and the persistent
  -- container of the partition has a name.
  abbrev pub IsLocated : Ports R → CallerContext → Bytes → World R J → Type 0
  IsLocated ports caller src w =
      ((l : FileLocation J)
        → find_by_file_source caller.partition src w.locations ≡ ok l
        → is_ok (object_ref_from_location l) ≡ true)
      × (is_ok (
            container_for_registered (ports.registered caller.partition) caller.partition
              persistent)
          ≡ true)

  pub prepare-is_left :
      (ports : Ports R) (caller : CallerContext) (out : FileMetadataRecord R) (w : World R J)
      → is_ok (get_latest_by_file_source caller.partition out.file_source w.metadata) ≡ false
      → IsLocated ports caller out.file_source w
      → is_left (prepare ports caller out w).0 ≡ false
  unfolding prepare
  prepare-is_left ports caller out w unread h = elim (Bool-cases (is_lost ports 0)) [
    | inl lost ↦ rw (prepare, lost) refl
    | inr on ↦
        elim (Result-cases (find_by_file_source caller.partition out.file_source w.locations)) [
          | inr (e, q) ↦ rw (prepare, on, q) refl
          | inl (l, e) ↦ elim (Result-cases (object_ref_from_location l)) [
            | inr (f, q) ↦ absurd (let bad = rw q at (h.0 l e) in cc)
            | inl (from, o) ↦
                elim (Result-cases (
                  container_for_registered (ports.registered caller.partition) caller.partition
                    persistent)) [
                      | inr (f, q) ↦ absurd (let bad = rw q at h.1 in cc)
                      | inl (container, n) ↦
                          rw (prepare, on, e, o, n)
                            (move_from-IsFor l.zone ports caller out l from
                              (record { container = container; key = from.key; version_id = none })
                              w unread).1
                    ]
          ]
        ]
  ]
