-- ===== src/BlobStore/Calls.antt =====
-- The calls of src/infra/blob/memory/memory_blob_store.cpp on single objects. The source of a put
-- is what its `ReadAll` answers for a size limit, and the sink of a get what its `Write` and
-- `Close` make of the bytes; `sha256_hex` is the library's digest and `now` the clock's reading.
use fssvrcpp.Domain.{ObjectRef}
use fssvrcpp.Errors.{Result, ok, err, invalid_argument, not_found, unimplemented, checksum_mismatch}
use fssvrcpp.Prelude.{
  ℕ, ◌-◌, ◌^◌, ◌==◌, Bool, true, false, not, ◌&&◌, ◌||◌, [], ◌∷◌, none, some, if◌then◌else◌, leb,
  ltb, map, length, take, drop, min,
}
use fssvrcpp.Prelude.Bytes.{Bytes, codes, is_empty, bytes_eqb}
use fssvrcpp.Prelude.Dict.{bytes_key, lookup_in, insert_in, remove_in, touch}
use fssvrcpp.Prelude.Int.{ℤ, pos, pos_part, is_neg, eqb_ℤ}
use fssvrcpp.Range.{to_lower}
use fssvrcpp.BlobStore.Types.{
  Op, Object, Blobs, PutOptions, ObjectStat, capabilities, begun, op_eqb, is_bad_ref, has_container,
}

-- `kMaxObjectBytes`
abbrev pub max_object_bytes : ℕ
max_object_bytes = 2 ^ 30

-- `ByteRange` of src/domain/model/types.h.
pub record ByteRange : Type 0 where
  pub offset : ℕ
  pub length : ℕ

abbrev pub is_whole_object : ByteRange → Bool
is_whole_object r = r.offset == 0 && r.length == 0

-- `NormalizeAlgorithm`
unfoldable pub normalize_algorithm : Bytes → Bytes
normalize_algorithm [] = []
normalize_algorithm (c ∷ cs) =
    let rest = normalize_algorithm cs in if c == b'-' || c == b'_' then rest else to_lower c ∷ rest

unfoldable pub ensure_container : Bytes → Blobs → Result (Unit {0}) × Blobs
ensure_container name = begun Op.ensure_container (λ s.
    if is_empty name
    then (err invalid_argument, s)
    else (ok tt, record s { containers = touch name s.containers }))

-- `presign_put` and `presign_get`, which answer alike.
unfoldable pub presign_put : {A : Type 0} → Blobs → Result A × Blobs
presign_put = begun Op.presign_put (λ s. (err unimplemented, s))

unfoldable pub presign_get : {A : Type 0} → Blobs → Result A × Blobs
presign_get = begun Op.presign_get (λ s. (err unimplemented, s))

abbrev pub stat_of : Object → ObjectStat
stat_of o = record {
  exists = true;
  size = pos (length o.content);
  content_type = o.content_type;
  checksum = o.checksum;
  checksum_algorithm = o.checksum_algorithm;
  last_modified_epoch_seconds = o.last_modified_epoch_seconds;
}

abbrev pub missing_stat : ObjectStat
missing_stat = record {
  exists = false;
  size = pos 0;
  content_type = [];
  checksum = [];
  checksum_algorithm = [];
  last_modified_epoch_seconds = pos 0;
}

module _ (sha256_hex : Bytes → Bytes) where
  -- The checks of what was read against what the caller promised.
  unfoldable pub check_put : PutOptions → Bytes → Result (Unit {0})
  check_put options content =
      if not (is_neg options.expected_size)
        && not (eqb_ℤ (pos (length content)) options.expected_size)
      then err invalid_argument
      else if is_empty options.expected_checksum
      then ok tt
      else if is_empty options.checksum_algorithm
      then err invalid_argument
      else if not (bytes_eqb (normalize_algorithm options.checksum_algorithm) (codes "sha256"))
      then err invalid_argument
      else if not
          (bytes_eqb (map to_lower (sha256_hex content)) (map to_lower options.expected_checksum))
      then err checksum_mismatch
      else ok tt

  -- What is kept of the content: less under the fault that cuts it off.
  unfoldable pub kept : Blobs → Bytes → Bytes
  kept s content =
      let cut = s.fault.truncate_put_to_bytes in
      if op_eqb s.fault.op Op.put && (not (is_neg cut) && ltb (pos_part cut) (length content))
      then take (pos_part cut) content
      else content

  abbrev pub new_object : ℤ → PutOptions → Bytes → Object
  new_object now options content = record {
    content = content;
    content_type = options.content_type;
    checksum = sha256_hex content;
    checksum_algorithm = codes "SHA256";
    last_modified_epoch_seconds = now;
  }

  -- `put` with what was read.
  unfoldable pub put_read :
      ℤ → ObjectRef → PutOptions → Result Bytes → Blobs → Result (Unit {0}) × Blobs
  unfolding check_put kept
  put_read now ref options (err e) s = (err e, s)
  put_read now ref options (ok content) s = elim (check_put options content) [
    | err e ↦ (err e, s)
    | ok _ ↦ (
      ok tt,
      record s {
        containers =
            insert_in ref.container ref.key (new_object now options (kept s content)) s.containers;
      },
    )
  ]

  unfoldable pub put :
      ℤ → ObjectRef → (ℕ → Result Bytes) → PutOptions → Blobs → Result (Unit {0}) × Blobs
  unfolding put_read is_bad_ref has_container
  put now ref source options = begun Op.put (λ s.
      if is_bad_ref ref
      then (err invalid_argument, s)
      else if not (has_container ref.container s)
      then (err not_found, s)
      else put_read now ref options (source max_object_bytes) s)

-- The bytes of a range; one that starts at the end or behind it has none.
unfoldable pub part_of : ByteRange → Bytes → Result Bytes
unfolding capabilities
part_of range content =
    let available = length content - range.offset in
    let count = if range.length == 0 then available else min range.length available in
    if is_whole_object range
    then ok content
    else if not capabilities.range_read
    then err unimplemented
    else if leb (length content) range.offset
    then err invalid_argument
    else ok (take count (drop range.offset content))

module _ {W : Type 0} where
  abbrev pub deliver : (Bytes → Result W) → Result Bytes → Result W
  deliver sink (err e) = err e
  deliver sink (ok content) = sink content

  unfoldable pub get : ObjectRef → (Bytes → Result W) → ByteRange → Blobs → Result W × Blobs
  unfolding part_of is_bad_ref
  get ref sink range = begun Op.get (λ s.
      if is_bad_ref ref
      then (err invalid_argument, s)
      else elim (lookup_in ref.container ref.key s.containers) [
        | none ↦ (err not_found, s)
        | some o ↦ (deliver sink (part_of range o.content), s)
      ])

-- What `stat` reports of an object: under a fault, another checksum.
abbrev pub reported : Blobs → Object → ObjectStat
reported s o =
    if op_eqb s.fault.op Op.stat && not (is_empty s.fault.checksum_override)
    then record (stat_of o) { checksum = s.fault.checksum_override }
    else stat_of o

unfoldable pub stat : ObjectRef → Blobs → Result ObjectStat × Blobs
unfolding is_bad_ref
stat ref = begun Op.stat (λ s.
    if is_bad_ref ref
    then (err invalid_argument, s)
    else elim (lookup_in ref.container ref.key s.containers) [
      | none ↦ (ok missing_stat, s)
      | some o ↦ (ok (reported s o), s)
    ])

-- `remove` behind its `BeginOp`.
unfoldable pub remove_begun : ObjectRef → Blobs → Result (Unit {0}) × Blobs
unfolding is_bad_ref has_container
remove_begun ref s =
    if is_bad_ref ref
    then (err invalid_argument, s)
    else if has_container ref.container s
    then (ok tt, record s { containers = remove_in ref.container ref.key s.containers })
    else (ok tt, s)

unfoldable pub remove : ObjectRef → Blobs → Result (Unit {0}) × Blobs
unfolding remove_begun
remove ref = begun Op.remove (remove_begun ref)

abbrev pub copy_of : ℤ → Object → Object
copy_of now o = record o { last_modified_epoch_seconds = now }

unfoldable pub copy : ℤ → ObjectRef → ObjectRef → Blobs → Result ObjectStat × Blobs
unfolding is_bad_ref has_container capabilities
copy now source target = begun Op.copy (λ s.
    if is_bad_ref source || is_bad_ref target
    then (err invalid_argument, s)
    else if not capabilities.server_side_copy
    then (err unimplemented, s)
    else elim (lookup_in source.container source.key s.containers) [
      | none ↦ (err not_found, s)
      | some o ↦ if not (has_container target.container s) then (err not_found, s) else (
        ok (stat_of (copy_of now o)),
        record s {
          containers = insert_in target.container target.key (copy_of now o) s.containers;
        },
      )
    ])
