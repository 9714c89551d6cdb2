-- ===== src/UseCases/Withdrawal.antt =====
-- src/app/usecases/usecases.cpp: an upload whose lease another instance holds leaves no trace.
use fssvrcpp.BlobStore.Calls.{get, remove}
use fssvrcpp.BlobStore.Contents.{get-remove}
use fssvrcpp.Domain.{staging, ObjectRef, FileLocation}
use fssvrcpp.Errors.{ErrorKind, ok, err, not_found, unavailable, Result-cases}
use fssvrcpp.Issuer.{Issuer, LocationResult}
use fssvrcpp.Issuer.Issued.{issue_upload_location-IsIssued}
use fssvrcpp.Issuer.Issuing.{issue_upload_location}
use fssvrcpp.Issuer.Uploads.{whole}
use fssvrcpp.BlobStore.Puts.{is_clear}
use fssvrcpp.Lease.{acquire}
use fssvrcpp.Location.{Locations, find, find_by_file_source}
use fssvrcpp.Location.Changes.{find-delete}
use fssvrcpp.Location.Indices.{Inv, delete-Inv}
use fssvrcpp.Location.Lookups.{find_by_file_source-eq}
use fssvrcpp.Prelude.{true, [], Option, if◌then◌else◌, ◌&&◌, ◌≡◌, refl, ap, ◌∙◌, arith, inl, inr}
use fssvrcpp.Prelude.Bytes.{Bytes, bytes_eqb, bytes_eqb_refl, bytes_eqb_iff}
use fssvrcpp.Transfer.{Json}
use fssvrcpp.UseCases.Addresses.{editors, get_upload_location}
use fssvrcpp.UseCases.Ports.{
  CallerContext, Ports, authorize_caller, lease_enabled, lease_ttl_millis, try_acquire,
  acquire_upload_lease, remove_issued_upload,
}
use fssvrcpp.World.{World, Extra, store_of, object_ref_from_location, proceed, store_of-set_store}

module _ {R J : Type 0} ⦃x : Extra J⦄ (caller : CallerContext) where
  -- The object and the location of an upload, removed.
  remove_issued_upload-gone :
      (file_id : Bytes) (l : FileLocation J) (ref : ObjectRef) (w : World R J)
      → Inv w.locations
      → find caller.partition file_id w.locations ≡ ok l
      → object_ref_from_location l ≡ ok ref
      → l.zone ≡ staging
      → let w' = remove_issued_upload caller file_id w in
        (store_of staging w'.stores ≡ (remove ref (store_of staging w.stores)).1)
        × Inv w'.locations
        × ((p f : Bytes)
            → find p f w'.locations ≡ (
                if bytes_eqb p caller.partition && bytes_eqb f file_id
                then err not_found
                else find p f w.locations))
  unfolding remove_issued_upload
  remove_issued_upload-gone file_id l ref w v there at zone =
      rw (remove_issued_upload, there, at, zone)
        (
          store_of-set_store staging (remove ref (store_of staging w.stores)).1 w.stores,
          delete-Inv caller.partition file_id w.locations v,
          λ p f. (find-delete caller.partition file_id p f [] w.locations v).1,
        )

  try_acquire-apart :
      (ports : Ports R) (src : Bytes) (w : World R J)
      → ((try_acquire ports caller src w).1.locations ≡ w.locations)
        × ((try_acquire ports caller src w).1.stores ≡ w.stores)
  unfolding try_acquire
  try_acquire-apart ports src w =
      let r =
        acquire ports.now_millis caller.partition src ports.instance_id (lease_ttl_millis ports)
          w.leases in
      elim (Result-cases r.0) [
        | inl (u, q) ↦ rw (try_acquire, q) (refl, refl)
        | inr (e, q) ↦ rw (try_acquire, q) (refl, refl)
      ]

  acquire_upload_lease-refused :
      (ports : Ports R) (file_id src : Bytes) (w : World R J) (e : ErrorKind)
      → lease_enabled ports ≡ true
      → (try_acquire ports caller src w).0 ≡ err e
      → acquire_upload_lease ports caller file_id src w
        ≡ (err unavailable, remove_issued_upload caller file_id (try_acquire ports caller src w).1)
  unfolding acquire_upload_lease
  acquire_upload_lease-refused ports file_id src w e on refused =
      rw (acquire_upload_lease, on, refused) refl

module _ {P R J : Type 0} (json : Json P) ⦃x : Extra J⦄ (ports : Ports R) (i : Issuer)
    (caller : CallerContext) where
  -- With leases switched on, if the lease of an upload cannot be had: the request for its address
  -- fails with `unavailable`, every lookup of a location by id or by file source answers as it did
  -- before, the repository of locations is consistent, and the empty object that had been put where
  -- the location leads is not there any more. It is taken that the caller may ask, that no fault of
  -- the store is planned, that the repository was consistent and that the file id was new.
  pub get_upload_location-withdrawn :
      (p' f' src : Bytes) (requested expiry : Option Bytes) (w w' : World R J) (r : LocationResult)
      (e : ErrorKind)
      → Inv w.locations
      → is_clear (store_of staging w.stores) ≡ true
      → lease_enabled ports ≡ true
      → authorize_caller ports caller editors true ≡ ok tt
      → issue_upload_location json i caller.partition caller.user_id requested expiry w ≡ (ok r, w')
      → find caller.partition r.file_id w.locations ≡ err not_found
      → (try_acquire ports caller r.file_source w').0 ≡ err e
      → let a = get_upload_location json ports i caller requested expiry w in
        (a.0 ≡ err unavailable)
        × (find p' f' a.1.locations ≡ find p' f' w.locations)
        × (find_by_file_source p' src a.1.locations ≡ find_by_file_source p' src w.locations)
        × Inv a.1.locations
        × ((l : FileLocation J) × (ref : ObjectRef) × (find caller.partition r.file_id w'.locations
              ≡ ok l)
            × (object_ref_from_location l ≡ ok ref)
            × ((get ref ok whole (store_of staging a.1.stores)).0 ≡ err not_found))
  unfolding get_upload_location proceed
  get_upload_location-withdrawn p' f' src requested expiry w w' r e v h on may issued new refused =
      let (l, ref, ttl, known, _) =
        issue_upload_location-IsIssued json i caller.partition caller.user_id p' f' requested expiry
          w w' r v h issued in
      let w1 : World R J = (try_acquire ports caller r.file_source w').1 in
      let apart = try_acquire-apart caller ports r.file_source w' in
      let gone =
        remove_issued_upload-gone caller r.file_id l ref w1 (rw apart.0 known.consistent)
          (rw apart.0 known.registered) known.located known.staged in
      let left : Locations J = (remove_issued_upload caller r.file_id w1).locations in
      let same : (p f : Bytes) → find p f left ≡ find p f w.locations = λ p f.
        let (_, _, _, _, others) =
          issue_upload_location-IsIssued json i caller.partition caller.user_id p f requested expiry
            w w' r v h issued in
        ground (
          arith,
          gone.2 p f,
          ap (find p f) apart.0,
          others,
          new,
          bytes_eqb_iff p caller.partition,
          bytes_eqb_iff f r.file_id,
        ) in
      let off =
        get-remove ref ref whole (store_of staging w1.stores) (rw apart.1 known.clear)
          known.proper in
      let nothing = rw (bytes_eqb_refl ref.container, bytes_eqb_refl ref.key) at (off.2) in
      rw
        (
          get_upload_location,
          may,
          issued,
          acquire_upload_lease-refused caller ports r.file_id r.file_source w' e on refused,
        )
        (
          refl,
          same p' f',
          find_by_file_source-eq p' src w.locations left v gone.1 (same p'),
          gone.1,
          (
            l,
            ref,
            known.registered,
            known.located,
            ap (λ s. (get ref ok whole s).0) gone.0 ∙ nothing,
          ),
        )
