-- ===== src/Metadata/Records.antt =====
-- The calls of src/infra/metadata/memory/memory_metadata_repository.cpp on records: the reads,
-- `Update`, `Delete`, `Create` and `List`.
use fssvrcpp.Domain.{FileMetadataRecord}
use fssvrcpp.Errors.{Result, ok, err, invalid_argument, not_found}
use fssvrcpp.Prelude.{
  ℕ, Bool, true, false, not, ◌&&◌, ◌||◌, List, [], ◌∷◌, ◌++◌, map, Option, none, some,
  if◌then◌else◌, length, take, drop, sort, get_last?,
}
use fssvrcpp.Prelude.Bytes.{Bytes, bytes_eqb, bytes_ltb, is_empty, starts_with}
use fssvrcpp.Prelude.Dict.{bytes_key, pair_key, remove, lookup_in, insert_in, remove_in, bucket}
use fssvrcpp.Prelude.Int.{ℤ, pos, pos_part, ◌+ℤ◌, ltb_ℤ, leb_ℤ, eqb_ℤ, is_neg, is_nonpos}
use fssvrcpp.Metadata.Types.{
  ready, is_ready, Version, Metadata, MetadataQuery, MetadataPage, is_invalid, active,
}
use fssvrcpp.Metadata.Claiming.{claim_for_write, mark_ready}

abbrev pub has_kind : Option Bytes → Bytes → Bool
has_kind none k = true
has_kind (some wanted) k = bytes_eqb k wanted

abbrev pub has_prefix : Option Bytes → Option Bytes → Bool
has_prefix none name = true
has_prefix (some p) none = false
has_prefix (some p) (some name) = starts_with p name

module _ {R : Type 0} where
  -- What the reads hand out: the latest version, if it is ready.
  abbrev pub visible : Option (Version R) → Result (FileMetadataRecord R)
  visible none = err not_found
  visible (some v) = if is_ready v.state then ok v.content else err not_found

  abbrev pub latest : Option (List (Version R)) → Option (Version R)
  latest none = none
  latest (some chain) = get_last? chain

  unfoldable pub get_by_id : Bytes → Bytes → Metadata R → Result (FileMetadataRecord R)
  get_by_id partition id s = visible (latest (lookup_in partition id s.by_id))

  unfoldable pub get_latest_by_file_source :
      Bytes → Bytes → Metadata R → Result (FileMetadataRecord R)
  unfolding active
  get_latest_by_file_source partition file_source s = visible (active partition file_source s)

  abbrev pub not_latest : Version R → Version R
  not_latest v = record v { is_latest = false }

  abbrev pub next_version : ℤ → FileMetadataRecord R → Version R → Version R
  next_version now r v = record {
    content = record r { version = v.content.version +ℤ pos 1 };
    created_at_epoch_seconds = now;
    is_latest = true;
    state = ready;
  }

  -- `Update` on the latest version, which is ready.
  unfoldable pub update_found :
      ℤ
      → Bytes
      → FileMetadataRecord R
      → List (Version R)
      → Version R
      → Metadata R
      → Result (FileMetadataRecord R) × Metadata R
  update_found now partition r chain v s =
      if is_empty r.file_source || not (bytes_eqb r.file_source v.content.file_source)
      then (err invalid_argument, s)
      else (
        ok (record r { version = v.content.version +ℤ pos 1 }),
        record s {
          by_id =
              insert_in partition r.id (map not_latest chain ++ (next_version now r v ∷ []))
                s.by_id;
        },
      )

  unfoldable pub update :
      ℤ → Bytes → FileMetadataRecord R → Metadata R → Result (FileMetadataRecord R) × Metadata R
  unfolding update_found is_invalid
  update now partition r s =
      if is_invalid partition r
      then (err invalid_argument, s)
      else elim (lookup_in partition r.id s.by_id) [
        | none ↦ (err not_found, s)
        | some chain ↦ elim (get_last? chain) [
          | none ↦ (err not_found, s)
          | some v ↦
              if not (is_ready v.state)
              then (err not_found, s)
              else update_found now partition r chain v s
        ]
      ]

  unfoldable pub delete : Bytes → Bytes → Metadata R → Result (Unit {0}) × Metadata R
  delete partition id s = elim (latest (lookup_in partition id s.by_id)) [
    | none ↦ (err not_found, s)
    | some v ↦ (
      ok tt,
      record {
        by_id = remove_in partition id s.by_id;
        source_index = remove (partition, v.content.file_source) s.source_index;
      },
    )
  ]

  -- `Create`: claim, and mark ready what was claimed.
  unfoldable pub create :
      ℤ → Bytes → FileMetadataRecord R → Metadata R → Result (FileMetadataRecord R) × Metadata R
  create now partition r s =
      let claim = claim_for_write now partition r s in
      if is_invalid partition r then (err invalid_argument, s) else elim claim.0 [
        | err e ↦ (err e, claim.1)
        | ok c ↦
            if not c.claimed
            then (ok c.content, claim.1)
            else mark_ready partition c.content.id c.content.version c.content claim.1
      ]

  -- The filter of `List` on the latest version of a chain.
  abbrev pub matches : MetadataQuery → Version R → Bool
  matches q v =
      v.is_latest
      && (is_ready v.state
          && (has_kind q.kind v.content.kind
              && (has_prefix q.name_prefix v.content.name
                  && ((is_neg q.created_after_epoch_seconds
                        || leb_ℤ q.created_after_epoch_seconds v.created_at_epoch_seconds)
                      && (is_neg q.created_before_epoch_seconds
                          || leb_ℤ v.created_at_epoch_seconds q.created_before_epoch_seconds)))))

  unfoldable pub matched : MetadataQuery → List (Bytes × List (Version R)) → List (Version R)
  matched q [] = []
  matched q ((id, chain) ∷ m) =
      let rest = matched q m in
      elim (get_last? chain) [ none ↦ rest | some v ↦ if matches q v then v ∷ rest else rest ]

  abbrev pub earlier : Version R → Version R → Bool
  earlier a b =
      if not (eqb_ℤ a.created_at_epoch_seconds b.created_at_epoch_seconds)
      then ltb_ℤ a.created_at_epoch_seconds b.created_at_epoch_seconds
      else bytes_ltb a.content.id b.content.id

  unfoldable pub list : Bytes → MetadataQuery → Metadata R → Result (MetadataPage R)
  unfolding matched
  list partition q s =
      let found = sort earlier (matched q (bucket partition s.by_id)) in
      if is_nonpos q.limit
      then err invalid_argument
      else if is_neg q.offset
      then err invalid_argument
      else ok (record {
        records = map (λ v. v.content) (take (pos_part q.limit) (drop (pos_part q.offset) found));
        total = length found;
      })

  unfoldable pub version_count : Bytes → Bytes → Metadata R → ℕ
  version_count partition id s = elim (lookup_in partition id s.by_id) [
    | none ↦ 0
    | some chain ↦ length chain
  ]
