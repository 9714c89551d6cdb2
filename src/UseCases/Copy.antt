-- ===== src/UseCases/Copy.antt =====
-- src/app/usecases/usecases.cpp: `StoreByteSource`, `CopyBetweenZones` and
-- `ComputeChecksumStreaming`.
use fssvrcpp.BlobStore.Calls.{ByteRange, max_object_bytes, ensure_container, put, get, stat, copy}
use fssvrcpp.BlobStore.Types.{
  Op, Blobs, default_put, ObjectStat, begin_op, is_bad_ref, has_container,
}
use fssvrcpp.Domain.{StorageZone, staging, persistent, ObjectRef}
use fssvrcpp.Errors.{Result, ok, err, is_ok, internal}
use fssvrcpp.Prelude.{
  ℕ, suc, ◌+◌, ◌-◌, ◌==◌, Bool, true, false, not, ◌&&◌, ◌||◌, [], Option, none, some, if◌then◌else◌,
  leb, length, min,
}
use fssvrcpp.Prelude.Bytes.{Bytes}
use fssvrcpp.Prelude.Int.{ℤ, pos, pos_part}
use fssvrcpp.Streams.{ByteSource, read_all}
use fssvrcpp.World.{Stores, shared, separate, store_of, set_store}

abbrev pub whole_object : ByteRange
whole_object = record { offset = 0; length = 0 }

-- `StoreByteSource` of an object of the given size, on the store and the position in the object.
unfoldable pub read_store : ObjectRef → ℕ → ℕ → Blobs × ℕ → Result Bytes × (Blobs × ℕ)
read_store ref size capacity (s, offset) =
    let want = min capacity (size - offset) in
    let r = get ref ok (record { offset = offset; length = want }) s in
    if capacity == 0 || leb size offset then (ok [], (s, offset)) else elim r.0 [
      | err e ↦ (err e, (r.1, offset))
      | ok chunk ↦ (ok chunk, (r.1, offset + length chunk))
    ]

abbrev pub store_source : ObjectRef → ℕ → ByteSource (Blobs × ℕ)
store_source ref size = record { read = read_store ref size; size = λ s. some (pos size) }

abbrev pub unless_dry : {S : Type 0} → S → Option (Result Bytes × S) → Result Bytes × S
unless_dry s none = (err internal, s)
unless_dry s (some r) = r

-- `ReadAll` of the source, with fuel for each byte and the end.
unfoldable pub read_object : ObjectRef → ℕ → Blobs → ℕ → Result Bytes × (Blobs × ℕ)
unfolding read_store read_all
read_object ref size s max_bytes =
    unless_dry (s, 0) (read_all (store_source ref size) (suc size) max_bytes (s, 0))

-- Whether a put gets as far as to read its source.
abbrev pub reaches_source : ObjectRef → Blobs → Bool
reaches_source ref s =
    is_ok (begin_op Op.put s).0 && (not (is_bad_ref ref) && has_container ref.container s)

-- Whether the zones are served by one store.
abbrev pub is_same_store : StorageZone → StorageZone → Stores → Bool
is_same_store a b (shared s) = true
is_same_store staging staging (separate s p) = true
is_same_store staging persistent (separate s p) = false
is_same_store persistent staging (separate s p) = false
is_same_store persistent persistent (separate s p) = true

module _ (sha256_hex : Bytes → Bytes) (now : ℤ) (source target : ObjectRef) where
  -- From one store to another, of the size that the stat gave.
  unfoldable pub stream_between :
      StorageZone → StorageZone → ℕ → Stores → Result ObjectStat × Stores
  unfolding read_object
  stream_between from_zone to_zone size stores =
      let origin = store_of from_zone stores in
      let goal = store_of to_zone stores in
      let p =
        put sha256_hex now target (λ max_bytes. (read_object source size origin max_bytes).0)
          default_put goal in
      let origin' = (read_object source size origin max_object_bytes).1.0 in
      let stores' =
        set_store to_zone p.1
          (if reaches_source target goal then set_store from_zone origin' stores else stores) in
      let t = stat target p.1 in
      elim p.0 [ err e ↦ (err e, stores') | ok _ ↦ (t.0, set_store to_zone t.1 stores') ]

  -- `CopyBetweenZones`
  unfoldable pub copy_between_zones :
      StorageZone → StorageZone → Stores → Result ObjectStat × Stores
  unfolding stream_between
  copy_between_zones from_zone to_zone stores =
      let made = ensure_container target.container (store_of to_zone stores) in
      let stores' = set_store to_zone made.1 stores in
      let c = copy now source target (store_of to_zone stores') in
      let st = stat source (store_of from_zone stores') in
      let stores'' = set_store from_zone st.1 stores' in
      elim made.0 [
        | err e ↦ (err e, stores')
        | ok _ ↦
            if is_same_store from_zone to_zone stores
            then (c.0, set_store to_zone c.1 stores')
            else elim st.0 [
              | err e ↦ (err e, stores'')
              | ok info ↦ stream_between from_zone to_zone (pos_part info.size) stores''
            ]
      ]

-- `ComputeChecksumStreaming`: the digest of the bytes that a get of the whole object delivers.
unfoldable pub compute_checksum :
    (Bytes → Bytes) → ObjectRef → StorageZone → Stores → Result Bytes × Stores
compute_checksum sha256_hex ref zone stores =
    let r = get ref (λ content. ok (sha256_hex content)) whole_object (store_of zone stores) in
    (r.0, set_store zone r.1 stores)
