-- ===== src/Issuer/Uploads.antt =====
-- src/app/services/location_issuer.cpp: what an address for an upload leaves behind.
use fssvrcpp.BlobStore.Calls
use fssvrcpp.BlobStore.Calls.{ByteRange, ensure_container, get}
use fssvrcpp.BlobStore.Ensured.{put-ensured, put-ensured-good}
use fssvrcpp.BlobStore.Puts.{is_clear}
use fssvrcpp.BlobStore.Types.{Blobs, default_put, capabilities, is_bad_ref}
use fssvrcpp.Domain.{staging, ObjectRef, FileLocation}
use fssvrcpp.Errors.{Result, ok, ok-injective, Result-cases}
use fssvrcpp.Issuer.{
  Issuer, LocationResult, apply_self_signed_ttl, token_for, new_location, shape, signed_location,
  sign_and_shape,
}
use fssvrcpp.Issuer.Issuing.{empty_source, register, place_upload}
use fssvrcpp.Location.{save}
use fssvrcpp.Prelude.{Bool, ◌&&◌, true, false, [], if◌then◌else◌, ◌≡◌, refl, sym, ◌∙◌, ap, inl, inr}
use fssvrcpp.Prelude.Bytes.{Bytes, bytes_eqb}
use fssvrcpp.Prelude.Int.{ℤ}
use fssvrcpp.Transfer.{Json, encode}
use fssvrcpp.World.{World, Extra, store_of, on_store, proceed, proceed-ok, on_store_lem}

abbrev pub whole : ByteRange
whole = record { offset = 0; length = 0 }

module _ {P R J : Type 0} (json : Json P) where
  -- Over the stores in memory, an address is the service's own.
  pub sign_and_shape-ok :
      (i : Issuer) (ref : ObjectRef) (l : FileLocation J) (p : Bytes) (ttl : ℤ) (upload : Bool)
      (w w' : World R J) (r : LocationResult)
      → sign_and_shape json i ref l capabilities p ttl upload w ≡ (ok r, w')
      → (w' ≡ w)
        × (r.file_id ≡ l.file_id)
        × (r.file_source ≡ l.file_source)
        × (encode json i.codec i.nonce (token_for i ref l p ttl upload) i.self_base_url
            ≡ ok r.signed_url)
  unfolding sign_and_shape signed_location capabilities shape proceed
  sign_and_shape-ok i ref l p ttl upload w w' r h =
      let token = token_for i ref l p ttl upload in
      elim (Result-cases (encode json i.codec i.nonce token i.self_base_url)) [
        | inl (url, q) ↦
            let h' = rw (sign_and_shape, q) at h in
            let e = ok-injective (ap (λ z. z.0) h') in
            (
              sym (ap (λ z. z.1) h'),
              sym (ap (λ z. z.file_id) e),
              sym (ap (λ z. z.file_source) e),
              q ∙ ap (λ z. ok z.signed_url) e,
            )
        | inr (k, q) ↦ absurd (let h' = rw (sign_and_shape, q) at h in cc)
      ]

  module _ ⦃x : Extra J⦄ (i : Issuer) where
    -- What `place_upload` leaves, where it succeeds: the location is registered and its address is
    -- signed, the object is there and empty, and other objects are as they were.
    pub place_upload-ok :
        (p user : Bytes) (ttl : ℤ) (provided : Bool) (id src : Bytes) (ref ref' : ObjectRef)
        (w w' : World R J) (r : LocationResult)
        → is_clear (store_of staging w.stores) ≡ true
        → place_upload json i p user ttl provided id src ref w ≡ (ok r, w')
        → let l : FileLocation J = new_location i capabilities user id src ref in
          let ttl' = apply_self_signed_ttl i ttl capabilities provided in
          let same = bytes_eqb ref'.container ref.container && bytes_eqb ref'.key ref.key in
          ((save p l w.locations).0 ≡ ok tt)
          × (w'.locations ≡ (save p l w.locations).1)
          × (r.file_id ≡ id)
          × (r.file_source ≡ src)
          × (encode json i.codec i.nonce (token_for i ref l p ttl' true) i.self_base_url
              ≡ ok r.signed_url)
          × (is_bad_ref ref ≡ false)
          × (is_clear (store_of staging w'.stores) ≡ true)
          × ((get ref' ok whole (store_of staging w'.stores)).0
              ≡ (if same then ok [] else (get ref' ok whole (store_of staging w.stores)).0))
    unfolding place_upload Calls.part_of register
    place_upload-ok p user ttl provided id src ref ref' w w' r h e =
        let s0 : Blobs = store_of staging w.stores in
        let l : FileLocation J = new_location i capabilities user id src ref in
        let ttl' : ℤ = apply_self_signed_ttl i ttl capabilities provided in
        let put_empty : Blobs → Result (Unit {0}) × Blobs =
          Calls.put i.sha256_hex i.now_seconds ref empty_source default_put in
        let w1 : World R J = (on_store staging (ensure_container ref.container) w).1 in
        let w2 : World R J = (on_store staging put_empty w1).1 in
        let at1 = (on_store_lem staging (ensure_container ref.container) w).1 in
        let (u, e1, n1) = proceed-ok _ _ e in
        let (v, e2, n2) = proceed-ok _ _ n1 in
        let (u', e3, n3) = proceed-ok _ _ n2 in
        let (same_world, id_is, src_is, url_is) = sign_and_shape-ok i ref l p ttl' true _ w' r n3 in
        let good =
          put-ensured-good i.sha256_hex i.now_seconds ref empty_source [] s0 u v h refl
            (sym (on_store_lem staging (ensure_container ref.container) w).0 ∙ e1)
            (sym (ap (λ s. (put_empty s).0) at1)
              ∙ (sym (on_store_lem staging put_empty w1).0 ∙ e2)) in
        let read =
          put-ensured i.sha256_hex i.now_seconds ref empty_source [] ref' whole s0 h good refl in
        let at2 : store_of staging w'.stores ≡ (put_empty (ensure_container ref.container s0).1).1 =
          ap (λ z. store_of staging z.stores) same_world
          ∙ ((on_store_lem staging put_empty w1).1 ∙ ap (λ s. (put_empty s).1) at1) in
        let kept : w2.locations ≡ w.locations =
          (on_store_lem staging put_empty w1).2
          ∙ (on_store_lem staging (ensure_container ref.container) w).2 in
        (
          sym (ap (λ s. (save p l s).0) kept) ∙ e3,
          ap (λ z. z.locations) same_world ∙ ap (λ s. (save p l s).1) kept,
          id_is,
          src_is,
          url_is,
          good,
          ap is_clear at2 ∙ read.2,
          ap (λ s. (get ref' ok whole s).0) at2 ∙ read.3,
        )
