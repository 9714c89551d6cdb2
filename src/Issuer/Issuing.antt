-- ===== src/Issuer/Issuing.antt =====
-- src/app/services/location_issuer.cpp: `IssueUploadLocation` and `IssueDownloadLocation`.
use fssvrcpp.BlobStore.Calls
use fssvrcpp.BlobStore.Calls.{ensure_container}
use fssvrcpp.BlobStore.Types.{default_put, capabilities}
use fssvrcpp.Domain.{staging, ObjectRef, FileLocation}
use fssvrcpp.Errors.{Result, ok, err, invalid_argument}
use fssvrcpp.Expiry
use fssvrcpp.Issuer.{
  Issuer, LocationResult, apply_self_signed_ttl, is_given, container_in, choose_file_id,
  source_path, new_location, sign_and_shape,
}
use fssvrcpp.Location.{find, save}
use fssvrcpp.ObjectKey.{make_file_source, make_posix_key}
use fssvrcpp.Prelude.{ℕ, Bool, true, false, [], Option, none, if◌then◌else◌}
use fssvrcpp.Prelude.Bytes.{Bytes, is_empty}
use fssvrcpp.Prelude.Int.{ℤ}
use fssvrcpp.Transfer.{Json}
use fssvrcpp.World.{World, Extra, object_ref_from_location, on_store, proceed}

-- What an empty `StringSource` gives.
abbrev pub empty_source : ℕ → Result Bytes
empty_source max_bytes = ok []

abbrev pub object_at : Bytes → Bytes → ObjectRef
object_at container key = record { container = container; key = key; version_id = none }

-- `Save` of the location.
unfoldable pub register :
    {R J : Type 0} → Bytes → FileLocation J → World R J → Result (Unit {0}) × World R J
register partition location w =
    let r = save partition location w.locations in (r.0, record w { locations = r.1 })

module _ {P R J : Type 0} (json : Json P) ⦃x : Extra J⦄ where
  -- The steps from the container on: the empty object, the location, the address.
  unfoldable pub place_upload :
      Issuer
      → Bytes
      → Bytes
      → ℤ
      → Bool
      → Bytes
      → Bytes
      → ObjectRef
      → World R J
      → Result LocationResult × World R J
  unfolding register apply_self_signed_ttl capabilities sign_and_shape
  place_upload i partition user_id ttl_seconds provided file_id file_source ref w =
      proceed (on_store staging (ensure_container ref.container) w) λ _ w.
        proceed
          (on_store staging (Calls.put i.sha256_hex i.now_seconds ref empty_source default_put) w)
          λ _ w.
            let caps = capabilities in
            let ttl_seconds = apply_self_signed_ttl i ttl_seconds caps provided in
            let location = new_location i caps user_id file_id file_source ref in
            proceed (register partition location w)
              λ _ w. sign_and_shape json i ref location caps partition ttl_seconds true w

  unfoldable pub issue_upload_location :
      Issuer
      → Bytes
      → Bytes
      → Option Bytes
      → Option Bytes
      → World R J
      → Result LocationResult × World R J
  unfolding choose_file_id
  issue_upload_location i partition user_id requested_file_id expiry_time w =
      if is_empty partition
      then (err invalid_argument, w)
      else if is_empty user_id
      then (err invalid_argument, w)
      else proceed (Expiry.parse expiry_time i.expiry, w)
          λ ttl_seconds w.
            proceed (choose_file_id i partition requested_file_id w, w)
              λ file_id w.
                let parts = source_path i user_id file_id in
                proceed (make_file_source parts, w)
                  λ file_source w.
                    proceed (container_in i.partitions partition staging, w)
                      λ container w.
                        place_upload i partition user_id ttl_seconds (is_given expiry_time) file_id
                          file_source (object_at container (make_posix_key parts)) w

  unfoldable pub issue_download_location :
      Issuer → Bytes → Bytes → Option Bytes → World R J → Result LocationResult × World R J
  issue_download_location i partition file_id expiry_time w =
      if is_empty partition
      then (err invalid_argument, w)
      else if is_empty file_id
      then (err invalid_argument, w)
      else proceed (Expiry.parse expiry_time i.expiry, w)
          λ ttl_seconds w.
            proceed (find partition file_id w.locations, w)
              λ location w.
                proceed (object_ref_from_location location, w)
                  λ ref w.
                    let caps = capabilities in
                    let ttl_seconds =
                      apply_self_signed_ttl i ttl_seconds caps (is_given expiry_time) in
                    sign_and_shape json i ref location caps partition ttl_seconds false w
