-- ===== src/Tests/Requests.antt =====
-- src/app/usecases/usecases.cpp and src/app/services/kind_validator.cpp: an upload whose lease
-- another instance holds, a list of locations in pages, and kinds.
use fssvrcpp.Errors.{Result, ok, err, invalid_argument, not_found, unavailable}
use fssvrcpp.BlobStore.Calls
use fssvrcpp.BlobStore.Calls.{ensure_container, put_read, get}
use fssvrcpp.BlobStore.Types.{begun, begin_op, op_eqb}
use fssvrcpp.Decimal.{to_string}
use fssvrcpp.Expiry
use fssvrcpp.ObjectKey.{make_file_source, container_for}
use fssvrcpp.Domain.{storage_zone_name, staging, ObjectRef, FileLocation}
use fssvrcpp.Issuer.{LocationResult, sign_and_shape}
use fssvrcpp.Issuer.Issuing.{place_upload, issue_upload_location}
use fssvrcpp.Issuer.Uploads.{whole}
use fssvrcpp.Kind.{KindParts, validate}
use fssvrcpp.Kind.Accepted.{IsKind, kind_of, validate_iff}
use fssvrcpp.Lease.{lease_key, acquire}
use fssvrcpp.Location.{save, find, find_by_file_source, matched}
use fssvrcpp.Location.Indices.{Inv}
use fssvrcpp.Location.Lookups
use fssvrcpp.Location.Lookups.{histories-Inv}
use fssvrcpp.Prelude.{[], none, map, take, ◌↔◌, ◌≡◌, refl, arith}
use fssvrcpp.Prelude.Bytes.{Bytes, codes, bytes_eqb}
use fssvrcpp.Prelude.Dict.{lookup, insert, touch, insert_in, lookup_in, bucket}
use fssvrcpp.Prelude.Int.{pos, negsuc, ◌+ℤ◌}
use fssvrcpp.Tests.Tasks.{ports, caller}
use fssvrcpp.Tests.Transfers.{json}
use fssvrcpp.Tests.Uploads.{texts_extra, Texts, p, u, start, issuer, got}
use fssvrcpp.UseCases.Addresses.{
  FileListRequest, entry_of, query_of, times_int32, get_upload_location,
}
use fssvrcpp.UseCases.Pages.{collected, collected-matched}
use fssvrcpp.UseCases.Ports.{try_acquire, authorize_caller, lease_enabled, lease_ttl_millis}
use fssvrcpp.UseCases.Withdrawal.{get_upload_location-withdrawn}
use fssvrcpp.World.{World, on_store, on_zone, proceed, store_of, object_ref_from_location}

abbrev parts : KindParts
parts = record {
  partition = codes "opendes";
  source = codes "wks";
  entity = codes "dataset--File.Generic";
  version = codes "1.0.0";
}

validate_iff_example :
    (validate (codes "opendes:wks:dataset--File.Generic:1.0.0") ≡ ok parts)
    ↔ (IsKind parts × (codes "opendes:wks:dataset--File.Generic:1.0.0" ≡ kind_of parts))
validate_iff_example = validate_iff (codes "opendes:wks:dataset--File.Generic:1.0.0") parts

-- A version without dots.
dotless :
    validate (codes "p:wks:dataset--File.Generic:12345")
    ≡ ok (record {
      partition = codes "p";
      source = codes "wks";
      entity = codes "dataset--File.Generic";
      version = codes "12345";
    })
unfolding validate bytes_eqb
dotless = refl

other_source : validate (codes "p:osdu:dataset--File.Generic:1.0.0") ≡ err invalid_argument
unfolding validate bytes_eqb
other_source = refl

abbrev request : FileListRequest
request = record {
  user_id = [];
  time_from_epoch_seconds = negsuc 0;
  time_to_epoch_seconds = negsuc 0;
  page_num = pos 0;
  items = pos 2;
}

-- A page so far behind that the machine's product is that of the first page.
wrapped : times_int32 (pos 1073741824) (pos 4) ≡ pos 0
unfolding times_int32
wrapped = refl

abbrev uploaded : World (Unit {0}) Texts
uploaded = (issue_upload_location json issuer p u none none start).1

collected-matched_example :
    collected ports caller request uploaded 3
    ≡ map entry_of (take 6 (matched caller.partition (query_of request) uploaded.locations))
unfolding authorize_caller
collected-matched_example =
    collected-matched ports caller request uploaded 1 3 refl refl refl refl (omega arith)

abbrev src : Bytes
src = codes "/u/100000-1970-01-01-00-01-40-000/f"

-- The lease of the upload is another instance's.
abbrev leased : World (Unit {0}) Texts
leased = record start { leases = (acquire (pos 1) p src (codes "other") (pos 600000) []).1 }

abbrev asked : Result LocationResult × World (Unit {0}) Texts
asked = issue_upload_location json issuer p u none none leased

asked_ok : asked ≡ (ok (got asked.0), asked.1)
unfolding issue_upload_location proceed Expiry.parse make_file_source bytes_eqb to_string
    container_for place_upload on_store on_zone ensure_container begun begin_op op_eqb Calls.put
    put_read lookup insert touch insert_in bucket save sign_and_shape storage_zone_name Lookups.run
    ◌+ℤ◌
asked_ok = refl

new_id : find p (got asked.0).file_id leased.locations ≡ err not_found
unfolding issue_upload_location proceed Expiry.parse make_file_source bytes_eqb to_string
    container_for place_upload on_store on_zone ensure_container begun begin_op op_eqb Calls.put
    put_read lookup insert touch insert_in bucket save sign_and_shape storage_zone_name Lookups.run
    ◌+ℤ◌ find lookup_in
new_id = refl

refused : (try_acquire ports caller (got asked.0).file_source asked.1).0 ≡ err unavailable
unfolding issue_upload_location proceed Expiry.parse make_file_source bytes_eqb to_string
    container_for place_upload on_store on_zone ensure_container begun begin_op op_eqb Calls.put
    put_read lookup insert touch insert_in bucket save sign_and_shape storage_zone_name Lookups.run
    ◌+ℤ◌ try_acquire acquire lease_ttl_millis lease_key
refused = refl

get_upload_location-withdrawn_example :
    ((get_upload_location json ports issuer caller none none leased).0 ≡ err unavailable)
    × (find p
          (codes "f")
          (get_upload_location json ports issuer caller none none leased).1.locations
        ≡ find p (codes "f") leased.locations)
    × (find_by_file_source p
          (codes "/a")
          (get_upload_location json ports issuer caller none none leased).1.locations
        ≡ find_by_file_source p (codes "/a") leased.locations)
    × Inv (get_upload_location json ports issuer caller none none leased).1.locations
    × ((l : FileLocation Texts) × (ref : ObjectRef) × (find p
            (got asked.0).file_id
            asked.1.locations
          ≡ ok l)
        × (object_ref_from_location l ≡ ok ref)
        × ((get ref ok whole (
              store_of staging
                (get_upload_location json ports issuer caller none none leased).1.stores)).0
            ≡ err not_found))
unfolding store_of lease_enabled authorize_caller
get_upload_location-withdrawn_example =
    get_upload_location-withdrawn json ports issuer caller p (codes "f") (codes "/a") none none
      leased asked.1 (got asked.0) unavailable (histories-Inv []) refl refl refl asked_ok new_id
      refused
