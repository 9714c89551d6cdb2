-- ===== src/Tests/Uploads.antt =====
-- src/app/services/location_issuer.cpp: one upload, from its address to the download.
use fssvrcpp.BlobStore.Calls
use fssvrcpp.BlobStore.Calls.{part_of, ensure_container, put_read, get}
use fssvrcpp.BlobStore.Keys.{empty_store}
use fssvrcpp.BlobStore.Types.{Op, FaultPlan, capabilities, begun, begin_op, op_eqb, is_bad_ref}
use fssvrcpp.Domain.{staging, storage_zone_name, ObjectRef, FileLocation}
use fssvrcpp.Errors.{Result, ok, err, unavailable, location_already_exists}
use fssvrcpp.Decimal.{to_string, decimal_from}
use fssvrcpp.Expiry
use fssvrcpp.Expiry.{default_options, digits_from}
use fssvrcpp.Issuer.{
  Issuer, LocationResult, apply_self_signed_ttl, is_given, new_location, sign_and_shape, token_for,
}
use fssvrcpp.Issuer.Issued.{IsIssued, issue_upload_location-IsIssued}
use fssvrcpp.Issuer.Issuing.{
  object_at, place_upload, issue_upload_location, issue_download_location,
}
use fssvrcpp.Issuer.Refusals.{apply_self_signed_ttl_bounds, issue_upload_location-again}
use fssvrcpp.Issuer.Transfers.{IsRead, request_of, upload_token, download_token, upload-download}
use fssvrcpp.Location.{find, save}
use fssvrcpp.Location.Indices.{save-Inv}
use fssvrcpp.Location.Lookups
use fssvrcpp.Location.Lookups.{histories-Inv}
use fssvrcpp.Metadata.Histories
use fssvrcpp.ObjectKey.{make_file_source, container_for, is_valid_file_id}
use fssvrcpp.Prelude.{ℕ, false, true, ◌&&◌, [], none, some, ◌⊎◌, if◌then◌else◌, ◌≡◌, refl, arith}
use fssvrcpp.Prelude.Bytes.{Bytes, codes, bytes_eqb}
use fssvrcpp.Prelude.Dict.{lookup, insert, touch, insert_in, lookup_in, bucket}
use fssvrcpp.Prelude.Int.{ℤ, pos, negsuc, ◌+ℤ◌, ◌≤ℤ◌}
use fssvrcpp.Tests.Transfers.{json, codec}
use fssvrcpp.Transfer.{url_of, payload}
use fssvrcpp.Transfer.Endpoint
use fssvrcpp.Transfer.Endpoint.{TransferRequest}
use fssvrcpp.World.{
  Stores, shared, World, Extra, store_of, object_ref_from_location, on_zone, on_store, proceed,
}

abbrev pub Texts : Type 0
Texts = Bytes × Bytes × Bytes

instance abbrev pub texts_extra : Extra Texts
texts_extra = record {
  physical = λ j. some (j.0, j.1);
  set_physical = λ container key j. (container, key, j.2);
  physical-set = λ container key j. refl;
  no_members = ([], [], []);
  driver_name = λ j. some j.2;
  set_driver_name = λ name j. (j.0, j.1, name);
  driver_name-set = λ name j. refl;
  physical-set_driver_name = λ name j. refl;
}

abbrev pub p : Bytes
p = codes "p"

abbrev pub u : Bytes
u = codes "u"

abbrev plan : FaultPlan
plan = record {
  op = Op.put;
  fail_count = pos 0;
  error = unavailable;
  truncate_put_to_bytes = negsuc 0;
  checksum_override = [];
  latency_millis = pos 0;
}

abbrev pub start : World (Unit {0}) Texts
start = record {
  metadata = Histories.empty;
  locations = Lookups.run [] Lookups.empty;
  leases = [];
  stores = shared (empty_store plan);
}

abbrev pub issuer : Issuer
issuer = record {
  codec = codec;
  self_base_url = codes "http://h/";
  expiry = default_options;
  partitions = none;
  self_signed_ttl = record { default_seconds = pos 600; max_seconds = pos 3600 };
  now_seconds = pos 100;
  now_millis = pos 100000;
  timestamp = codes "1970-01-01-00-01-40-000";
  new_uuid = codes "f";
  nonce = codes "n";
  sha256_hex = λ content. codes "0";
}

abbrev blank : LocationResult
blank = record {
  file_id = [];
  file_source = [];
  signed_url = [];
  driver = [];
  zone = staging;
  expires_at_epoch_seconds = pos 0;
  native_presign = false;
}

abbrev pub got : Result LocationResult → LocationResult
got (ok r) = r
got (err e) = blank

abbrev pub issued : Result LocationResult × World (Unit {0}) Texts
issued = issue_upload_location json issuer p u none none start

pub issued_ok : issued ≡ (ok (got issued.0), issued.1)
unfolding issue_upload_location proceed Expiry.parse make_file_source bytes_eqb to_string
    container_for place_upload on_store on_zone ensure_container begun begin_op op_eqb Calls.put
    put_read lookup insert touch insert_in bucket save sign_and_shape storage_zone_name Lookups.run
    ◌+ℤ◌
issued_ok = refl

abbrev ref : ObjectRef
ref = object_at (codes "p-staging") (codes "u/100000-1970-01-01-00-01-40-000/f")

abbrev l : FileLocation Texts
l = new_location issuer capabilities u (codes "f") (codes "/u/100000-1970-01-01-00-01-40-000/f") ref

known : IsIssued json issuer p u none ref l (pos 3600) (got issued.0) issued.1
unfolding issue_upload_location proceed Expiry.parse make_file_source bytes_eqb to_string
    container_for place_upload on_store on_zone ensure_container begun begin_op op_eqb Calls.put
    put_read lookup insert touch insert_in bucket save sign_and_shape storage_zone_name Lookups.run
    ◌+ℤ◌ object_ref_from_location find lookup_in get is_bad_ref
known = record {
  file_source = refl;
  user_id = refl;
  staged = refl;
  located = refl;
  registered = refl;
  empty = refl;
  proper = refl;
  clear = refl;
  consistent = save-Inv p l start.locations (histories-Inv []);
  parsed = refl;
  signed = refl;
}

taken_id : is_valid_file_id (got issued.0).file_id ≡ true
unfolding issue_upload_location proceed Expiry.parse make_file_source bytes_eqb to_string
    container_for place_upload on_store on_zone ensure_container begun begin_op op_eqb Calls.put
    put_read lookup insert touch insert_in bucket save sign_and_shape storage_zone_name Lookups.run
    ◌+ℤ◌ is_valid_file_id
taken_id = refl

apply_self_signed_ttl_bounds_example :
    let bounded = apply_self_signed_ttl issuer (pos 3600) capabilities (is_given none) in
    (bounded ≤ℤ pos 3600)
    × (bounded ≤ℤ pos 3600)
    × ((is_given none ≡ true) ⊎ (bounded ≤ℤ pos 600))
    × ((bounded ≡ pos 3600) ⊎ ((bounded ≡ pos 3600) ⊎ (bounded ≡ pos 600)))
unfolding capabilities
apply_self_signed_ttl_bounds_example =
    apply_self_signed_ttl_bounds issuer (pos 3600) capabilities none refl

issue_upload_location-IsIssued_example :
    (l : FileLocation Texts) × (ref : ObjectRef) × (ttl : ℤ) × IsIssued json issuer p u none ref l
      ttl
      (got issued.0)
      issued.1
    × (find p (codes "g") issued.1.locations ≡ (
        if bytes_eqb p p && bytes_eqb (codes "g") (got issued.0).file_id
        then ok l
        else find p (codes "g") start.locations))
unfolding store_of
issue_upload_location-IsIssued_example =
    issue_upload_location-IsIssued json issuer p u p (codes "g") none none start issued.1
      (got issued.0) (histories-Inv []) refl issued_ok

issue_upload_location-again_example :
    issue_upload_location json issuer p
      (codes "v")
      (some (got issued.0).file_id)
      (some (codes "5M"))
      issued.1
    ≡ (err location_already_exists, issued.1)
unfolding Expiry.parse digits_from store_of
issue_upload_location-again_example =
    issue_upload_location-again json issuer issuer p u (codes "v") none none (some (codes "5M"))
      start issued.1 (got issued.0) (pos 300) (histories-Inv []) refl issued_ok refl refl refl
      taken_id

abbrev body : ℕ → Result Bytes
body max_bytes = ok (codes "abc")

abbrev up : TransferRequest
up = request_of json codec (codes "n") (upload_token issuer ref l p (pos 3600) none)

abbrev later : Issuer
later = record issuer { now_seconds = pos 200; nonce = codes "m" }

abbrev down : TransferRequest
down =
    request_of json codec (codes "m") (download_token later ref l p (pos 300) (some (codes "5M")))

abbrev sent : Result (Unit {0}) × Stores
sent = Endpoint.put json codec (pos 110) issuer.sha256_hex up body issued.1.stores

abbrev handed : Result LocationResult × World (Unit {0}) Texts
handed =
    issue_download_location json later p (got issued.0).file_id (some (codes "5M"))
      (record issued.1 { stores = sent.1 })

handed_ok : handed ≡ (ok (got handed.0), handed.1)
unfolding issue_upload_location proceed Expiry.parse make_file_source bytes_eqb to_string
    container_for place_upload on_store on_zone ensure_container begun begin_op op_eqb Calls.put
    put_read lookup insert touch insert_in bucket save sign_and_shape storage_zone_name Lookups.run
    ◌+ℤ◌ issue_download_location find lookup_in object_ref_from_location
handed_ok = refl

IsRead-up : IsRead json codec (codes "n") (upload_token issuer ref l p (pos 3600) none) (pos 110)
unfolding issue_upload_location proceed Expiry.parse make_file_source bytes_eqb to_string
    container_for place_upload on_store on_zone ensure_container begun begin_op op_eqb Calls.put
    put_read lookup insert touch insert_in bucket save sign_and_shape storage_zone_name Lookups.run
    ◌+ℤ◌ payload decimal_from apply_self_signed_ttl token_for
IsRead-up = record { bytes = omega arith; back = refl; runs = refl; fits = omega arith }

IsRead-down :
    IsRead json codec
      (codes "m")
      (download_token later ref l p (pos 300) (some (codes "5M")))
      (pos 250)
unfolding issue_upload_location proceed Expiry.parse make_file_source bytes_eqb to_string
    container_for place_upload on_store on_zone ensure_container begun begin_op op_eqb Calls.put
    put_read lookup insert touch insert_in bucket save sign_and_shape storage_zone_name Lookups.run
    ◌+ℤ◌ payload decimal_from apply_self_signed_ttl token_for
IsRead-down = record { bytes = omega arith; back = refl; runs = refl; fits = omega arith }

upload-download_example :
    (sent.0 ≡ ok tt)
    × ((got issued.0).signed_url ≡ url_of (codes "http://h/") up.signed)
    × ((got handed.0).signed_url ≡ url_of (codes "http://h/") down.signed)
    × ((Endpoint.get json codec
          (pos 250)
          down
          ok
          (record { offset = 1; length = 2 })
          handed.1.stores).0
        ≡ part_of (record { offset = 1; length = 2 }) (codes "abc"))
unfolding Expiry.parse digits_from
upload-download_example =
    upload-download json issuer later p u none (some (codes "5M")) ref l (pos 3600) (pos 300)
      (pos 110) (pos 250) (got issued.0) (got handed.0) issued.1 handed.1 issuer.sha256_hex body
      (codes "abc") (record { offset = 1; length = 2 }) known refl refl refl IsRead-up IsRead-down
      handed_ok
