-- ===== src/Tests/Stores.antt =====
-- src/infra/blob/memory/memory_blob_store.cpp: a store with two objects in one container.
use fssvrcpp.BlobStore.Calls
use fssvrcpp.BlobStore.Calls.{
  ByteRange, put, get, part_of, stat, stat_of, missing_stat, new_object, max_object_bytes,
  check_put, put_read, kept,
}
use fssvrcpp.BlobStore.Puts.{get-put, is_clear}
use fssvrcpp.BlobStore.Faults.{Call, ensures, puts, gets, run_call, run_call-IsAtomic}
use fssvrcpp.BlobStore.Keys.{run_calls, run_calls-follow, empty_store}
use fssvrcpp.BlobStore.Prefixes.{follow, entries_with}
use fssvrcpp.BlobStore.Types.{
  Op, FaultPlan, Objects, Blobs, PutOptions, ObjectStat, begin_op, begun, bump, op_eqb, op_index,
  is_bad_ref, has_container,
}
use fssvrcpp.Domain.{ObjectRef}
use fssvrcpp.Errors.{Result, ok, is_ok, unavailable}
use fssvrcpp.Prelude.{ℕ, suc, true, false, List, [], ◌∷◌, none, some, length, ◌≡◌, refl, arith}
use fssvrcpp.Prelude.Bytes.{Bytes, codes, bytes_eqb, bytes_ltb}
use fssvrcpp.Prelude.Dict.{bytes_key, lookup, insert, touch, bucket, insert_in, lookup_in}
use fssvrcpp.Prelude.Int.{pos, negsuc}

abbrev digest : Bytes → Bytes
digest content = content

abbrev plan : FaultPlan
plan = record {
  op = Op.put;
  fail_count = pos 0;
  error = unavailable;
  truncate_put_to_bytes = negsuc 0;
  checksum_override = [];
  latency_millis = pos 0;
}

abbrev options : PutOptions
options = record {
  content_type = codes "t";
  expected_checksum = [];
  checksum_algorithm = [];
  expected_size = pos 3;
}

abbrev first : ObjectRef
first = record { container = codes "c"; key = codes "k1"; version_id = none }

abbrev second : ObjectRef
second = record first { key = codes "k2" }

abbrev source : ℕ → Result Bytes
source max_bytes = ok (codes "abc")

abbrev made : Blobs
made = run_calls digest (ensures (codes "c") ∷ []) (empty_store plan)

abbrev calls : List Call
calls =
    ensures (codes "c")
    ∷ puts (pos 7) second source options
    ∷ puts (pos 8) first source options
    ∷ []

abbrev filled : Blobs
filled = run_calls digest calls (empty_store plan)

abbrev filled_objects : Objects
filled_objects =
    (codes "k1", new_object digest (pos 8) options (codes "abc"))
    ∷ (codes "k2", new_object digest (pos 7) options (codes "abc"))
    ∷ []

abbrev part : ByteRange
part = record { offset = 1; length = 0 }

made_clear : is_clear made ≡ true
unfolding run_calls run_call Calls.ensure_container begun begin_op op_eqb op_index bytes_eqb
made_clear = refl

filled_first :
    put digest (pos 8) first source options made
    ≡ (ok tt, (put digest (pos 8) first source options made).1)
unfolding run_calls run_call Calls.ensure_container begun begin_op op_eqb op_index bump is_bad_ref
    has_container put put_read check_put lookup insert touch bucket bytes_eqb
filled_first = refl

get-put_example :
    ((get first ok part (put digest (pos 8) first source options made).1).0 ≡ ok (codes "bc"))
    × ((stat first (put digest (pos 8) first source options made).1).0
        ≡ ok (record {
          exists = true;
          size = pos 3;
          content_type = options.content_type;
          checksum = digest (codes "abc");
          checksum_algorithm = codes "SHA256";
          last_modified_epoch_seconds = pos 8;
        }))
unfolding bytes_eqb
get-put_example =
    get-put digest (pos 8) first first part source options (codes "abc") made
      (put digest (pos 8) first source options made).1 made_clear refl filled_first

filled_clear : is_clear filled ≡ true
unfolding run_calls run_call Calls.ensure_container begun begin_op op_eqb op_index put put_read
    check_put lookup insert insert_in touch bucket bytes_eqb is_bad_ref has_container
filled_clear = refl

first_proper : is_bad_ref first ≡ false
unfolding is_bad_ref
first_proper = refl

abbrev emptied : Blobs
emptied = (Calls.remove first filled).1

abbrev third : ObjectRef
third = record first { key = codes "k3" }

abbrev copied_stat : ObjectStat
copied_stat = stat_of (record (new_object digest (pos 8) options (codes "abc")) {
  last_modified_epoch_seconds = pos 9;
})

abbrev copied : Result ObjectStat × Blobs
copied = Calls.copy (pos 9) first third filled

copied_ok : copied ≡ (ok copied_stat, copied.1)
unfolding run_calls run_call Calls.ensure_container Calls.copy begun begin_op op_eqb op_index put
    put_read check_put kept lookup lookup_in insert touch bucket bytes_eqb bytes_ltb insert_in
    is_bad_ref has_container
copied_ok = refl

filled_container : lookup (codes "c") filled.containers ≡ some filled_objects
unfolding run_calls run_call Calls.ensure_container begun begin_op op_eqb op_index put put_read
    check_put kept lookup insert insert_in touch bucket bytes_eqb bytes_ltb is_bad_ref has_container
filled_container = refl

run_calls-follow_example :
    follow (suc (length filled_objects)) (codes "k") 1 [] filled_objects
    ≡ some (entries_with (codes "k") filled_objects)
run_calls-follow_example =
    run_calls-follow digest calls plan (codes "c") (codes "k") filled_objects 1 filled_container
      (omega arith)

lost : is_ok (run_call digest (gets third part) filled).0 ≡ false
unfolding run_calls run_call Calls.ensure_container get begun begin_op op_eqb op_index put put_read
    check_put kept lookup lookup_in insert insert_in touch bucket bytes_eqb bytes_ltb is_bad_ref
    has_container
lost = refl

run_call-IsAtomic_example :
    (run_call digest (gets third part) filled).1.containers ≡ filled.containers
run_call-IsAtomic_example = run_call-IsAtomic digest (gets third part) filled lost
