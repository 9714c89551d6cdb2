-- ===== src/Issuer/Issued.antt =====
-- src/app/services/location_issuer.cpp: what a caller can rely on who was given an address.
use mathlib.Core.Path.{subst}
use fssvrcpp.BlobStore.Calls.{get}
use fssvrcpp.BlobStore.Puts.{is_clear}
use fssvrcpp.BlobStore.Types.{capabilities, is_bad_ref}
use fssvrcpp.Domain.{staging, ObjectRef, FileLocation}
use fssvrcpp.Errors.{ok}
use fssvrcpp.Expiry
use fssvrcpp.Issuer.{
  Issuer, LocationResult, apply_self_signed_ttl, is_given, token_for, source_path, new_location,
}
use fssvrcpp.Issuer.Issuing.{object_at, issue_upload_location}
use fssvrcpp.Issuer.Uploads.{whole, place_upload-ok}
use fssvrcpp.Location.{Locations, find, save}
use fssvrcpp.Location.Indices.{Inv, save-Inv}
use fssvrcpp.Location.Changes.{find-save}
use fssvrcpp.ObjectKey.{make_posix_key}
use fssvrcpp.Prelude.{
  ◌&&◌, true, false, [], Option, some, if◌then◌else◌, ◌≡◌, refl, sym, ◌∙◌, ap, inl, inr, Bool-cases,
}
use fssvrcpp.Prelude.Bytes.{Bytes, bytes_eqb, bytes_eqb_refl, is_empty}
use fssvrcpp.Prelude.Int.{ℤ}
use fssvrcpp.Transfer.{Json, encode}
use fssvrcpp.World.{World, Extra, store_of, object_ref_from_location, proceed-ok}

object_ref_from_location-new :
    {J : Type 0} ⦃x : Extra J⦄ (l : FileLocation J) (name container key : Bytes)
    → l.extra ≡ x.set_driver_name name (x.set_physical container key x.no_members)
    → object_ref_from_location l ≡ ok (object_at container key)
unfolding object_ref_from_location
object_ref_from_location-new ⦃x = x⦄ l name container key e =
    let q : x.physical l.extra ≡ some (container, key) =
      ap x.physical e
      ∙ (x.physical-set_driver_name name (x.set_physical container key x.no_members)
          ∙ x.physical-set container key x.no_members) in
    rw (object_ref_from_location, q) refl

find-saved :
    {J : Type 0} (p q g id : Bytes) (l : FileLocation J) (s s' : Locations J)
    → Inv s
    → (save p l s).0 ≡ ok tt
    → s' ≡ (save p l s).1
    → id ≡ l.file_id
    → (find q g s' ≡ (if bytes_eqb q p && bytes_eqb g id then ok l else find q g s))
      × (find p id s' ≡ ok l)
find-saved p q g id l s s' v saved kept same =
    let held : (q g : Bytes)
        → find q g s' ≡ (if bytes_eqb q p && bytes_eqb g l.file_id then ok l else find q g s) =
      λ q g. ap (find q g) kept ∙ (rw saved at ((find-save p q g l.file_source l s v).1)) in
    rw same (held q g, held p l.file_id ∙ rw (bytes_eqb_refl p, bytes_eqb_refl l.file_id) refl)

module _ {P R J : Type 0} (json : Json P) ⦃x : Extra J⦄ (i : Issuer) where
  -- What an address for an upload stands for: a location under its file id, with its file source
  -- and the user, an empty object where the location leads, and a token for writing that object,
  -- which runs out after the bounded time.
  pub record IsIssued (p user : Bytes) (expiry : Option Bytes) (ref : ObjectRef)
      (l : FileLocation J) (ttl : ℤ) (r : LocationResult) (w' : World R J) : Type 0 where
    pub file_source : l.file_source ≡ r.file_source
    pub user_id : l.user_id ≡ user
    pub staged : l.zone ≡ staging
    pub located : object_ref_from_location l ≡ ok ref
    pub registered : find p r.file_id w'.locations ≡ ok l
    pub empty : (get ref ok whole (store_of staging w'.stores)).0 ≡ ok []
    pub proper : is_bad_ref ref ≡ false
    pub clear : is_clear (store_of staging w'.stores) ≡ true
    pub consistent : Inv w'.locations
    pub parsed : Expiry.parse expiry i.expiry ≡ ok ttl
    pub signed :
        encode json i.codec i.nonce
          (token_for i ref l p (apply_self_signed_ttl i ttl capabilities (is_given expiry)) true)
          i.self_base_url
        ≡ ok r.signed_url

  -- Where the repository of locations is consistent and no fault of the staging store is planned, an
  -- upload address that is handed out stands for all of the following: a location that is registered
  -- under its file id, with the file source of the answer and the user who asked; an empty object
  -- where that location leads; and a token for writing that object, signed for the time that was
  -- asked for within its bounds. Each other lookup answers as before.
  pub issue_upload_location-IsIssued :
      (p user p' f' : Bytes) (requested expiry : Option Bytes) (w w' : World R J)
      (r : LocationResult)
      → Inv w.locations
      → is_clear (store_of staging w.stores) ≡ true
      → issue_upload_location json i p user requested expiry w ≡ (ok r, w')
      → (l : FileLocation J) × (ref : ObjectRef) × (ttl : ℤ) × IsIssued p user expiry ref l ttl r w'
        × (find p' f' w'.locations
            ≡ (if bytes_eqb p' p && bytes_eqb f' r.file_id then ok l else find p' f' w.locations))
  unfolding issue_upload_location
  issue_upload_location-IsIssued p user p' f' requested expiry w w' r v h e =
      elim (Bool-cases (is_empty p)) [
        | inl bare ↦ absurd (let e' = rw bare at e in cc)
        | inr there ↦ elim (Bool-cases (is_empty user)) [
          | inl bare ↦ absurd (let e' = rw (there, bare) at e in cc)
          | inr known ↦
              let e' = rw (there, known) at e in
              let (ttl, e1, n1) = proceed-ok _ _ e' in
              let (id, e2, n2) = proceed-ok _ _ n1 in
              let (src, e3, n3) = proceed-ok _ _ n2 in
              let (container, e4, n4) = proceed-ok _ _ n3 in
              let key : Bytes = make_posix_key (source_path i user id) in
              let ref : ObjectRef = object_at container key in
              let l : FileLocation J = new_location i capabilities user id src ref in
              let (saved, kept, id_is, src_is, url_is, good, clear, read) =
                place_upload-ok json i p user ttl (is_given expiry) id src ref ref w w' r h n4 in
              let found =
                find-saved p p' f' r.file_id l w.locations w'.locations v saved kept id_is in
              let same = rw (bytes_eqb_refl container, bytes_eqb_refl key) at read in
              (
                l,
                ref,
                ttl,
                record {
                  file_source = sym src_is;
                  user_id = refl;
                  staged = refl;
                  located =
                      object_ref_from_location-new l capabilities.driver_name container key refl;
                  registered = found.1;
                  empty = same;
                  proper = good;
                  clear = clear;
                  consistent = subst Inv (sym kept) (save-Inv p l w.locations v);
                  parsed = e1;
                  signed = url_is;
                },
                found.0,
              )
        ]
      ]
