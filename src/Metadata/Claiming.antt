-- ===== src/Metadata/Claiming.antt =====
-- The calls of src/infra/metadata/memory/memory_metadata_repository.cpp on claims: `ClaimForWrite`,
-- `MarkReady`, `ReleaseClaim` and `ReclaimStaleClaiming`.
use fssvrcpp.Domain.{FileMetadataRecord}
use fssvrcpp.Errors.{Result, ok, err, invalid_argument, not_found}
use fssvrcpp.Prelude.{
  ℕ, ◌+◌, true, false, not, ◌&&◌, ◌||◌, List, [], ◌∷◌, Option, none, some, if◌then◌else◌, take, any,
  leb,
}
use fssvrcpp.Prelude.Bytes.{Bytes, bytes_eqb, is_empty}
use fssvrcpp.Prelude.Dict.{
  bytes_key, pair_key, insert, remove, lookup_in, insert_in, remove_in, touch, bucket,
}
use fssvrcpp.Prelude.Int.{ℤ, pos, pos_part, leb_ℤ, eqb_ℤ, is_nonpos}
use fssvrcpp.Metadata.Types.{
  claiming, ready, is_claiming, Version, Metadata, MetadataClaim, is_invalid, active,
}

module _ {R : Type 0} where
  abbrev pub first_version : ℤ → FileMetadataRecord R → Version R
  first_version now r = record {
    content = record r { version = pos 1 };
    created_at_epoch_seconds = now;
    is_latest = true;
    state = claiming;
  }

  -- `ClaimForWrite` where no active record holds the file source.
  unfoldable pub claim_new :
      ℤ → Bytes → FileMetadataRecord R → Metadata R → Result (MetadataClaim R) × Metadata R
  claim_new now partition r s = elim (lookup_in partition r.id s.by_id) [
    | some chain ↦ (err invalid_argument, record s { by_id = touch partition s.by_id })
    | none ↦ (
      ok (record { claimed = true; content = record r { version = pos 1 }; state = claiming }),
      record {
        by_id = insert_in partition r.id (first_version now r ∷ []) s.by_id;
        source_index = insert (partition, r.file_source) r.id s.source_index;
      },
    )
  ]

  unfoldable pub claim_for_write :
      ℤ → Bytes → FileMetadataRecord R → Metadata R → Result (MetadataClaim R) × Metadata R
  unfolding claim_new active is_invalid
  claim_for_write now partition r s =
      if is_invalid partition r || is_empty r.file_source
      then (err invalid_argument, s)
      else elim (active partition r.file_source s) [
        | none ↦ claim_new now partition r s
        | some v ↦ (ok (record { claimed = false; content = v.content; state = v.state }), s)
      ]

  -- The loop of `MarkReady`: the record as stored, and the new chain.
  unfoldable pub mark_in :
      Bytes
      → ℤ
      → FileMetadataRecord R
      → List (Version R)
      → Result (FileMetadataRecord R × List (Version R))
  mark_in id version r [] = err not_found
  mark_in id version r (v ∷ vs) =
      let rest = mark_in id version r vs in
      let final = record r { id = id; version = version } in
      if not (eqb_ℤ v.content.version version)
      then (elim rest [ ok (x, vs') ↦ ok (x, v ∷ vs') | err e ↦ err e ])
      else if not (is_claiming v.state)
      then err not_found
      else if not (bytes_eqb v.content.file_source r.file_source)
      then err invalid_argument
      else ok (final, record v { content = final; state = ready } ∷ vs)

  unfoldable pub mark_ready :
      Bytes
      → Bytes
      → ℤ
      → FileMetadataRecord R
      → Metadata R
      → Result (FileMetadataRecord R) × Metadata R
  unfolding mark_in is_invalid
  mark_ready partition id version r s =
      if is_invalid partition r
      then (err invalid_argument, s)
      else elim (lookup_in partition id s.by_id) [
        | none ↦ (err not_found, s)
        | some chain ↦ elim (mark_in id version r chain) [
          | err e ↦ (err e, s)
          | ok (x, chain') ↦ (ok x, record s { by_id = insert_in partition id chain' s.by_id })
        ]
      ]

  -- The loop of `ReleaseClaim` and of `ReclaimStaleClaiming`: the file source of the claiming
  -- version that goes, and the chain that is left.
  unfoldable pub release_in : ℤ → List (Version R) → Result (Bytes × List (Version R))
  release_in version [] = err not_found
  release_in version (v ∷ vs) =
      let rest = release_in version vs in
      if not (eqb_ℤ v.content.version version)
      then (elim rest [ ok (src, vs') ↦ ok (src, v ∷ vs') | err e ↦ err e ])
      else if not (is_claiming v.state)
      then err not_found
      else ok (v.content.file_source, vs)

  -- A chain that is empty goes, with its entry in the index.
  unfoldable pub store_chain : Bytes → Bytes → Bytes → List (Version R) → Metadata R → Metadata R
  store_chain partition id file_source [] s = record {
    by_id = remove_in partition id s.by_id;
    source_index = remove (partition, file_source) s.source_index;
  }
  store_chain partition id file_source (v ∷ vs) s = record s {
    by_id = insert_in partition id (v ∷ vs) s.by_id;
  }

  unfoldable pub release_found : Bytes → Bytes → ℤ → Metadata R → Result (Unit {0}) × Metadata R
  unfolding release_in store_chain
  release_found partition id version s = elim (lookup_in partition id s.by_id) [
    | none ↦ (err not_found, s)
    | some chain ↦ elim (release_in version chain) [
      | err e ↦ (err e, s)
      | ok (file_source, chain') ↦ (ok tt, store_chain partition id file_source chain' s)
    ]
  ]

  unfoldable pub release_claim : Bytes → Bytes → ℤ → Metadata R → Result (Unit {0}) × Metadata R
  unfolding release_found
  release_claim partition id version s =
      if is_empty partition then (err invalid_argument, s) else release_found partition id version s

  -- The claiming version of a chain that may be reclaimed: old enough, and of an allowed source.
  unfoldable pub stale_version : ℤ → List Bytes → List (Version R) → Option ℤ
  stale_version older_than allowed [] = none
  stale_version older_than allowed (v ∷ vs) =
      let rest = stale_version older_than allowed vs in
      if is_claiming v.state
        && (leb_ℤ v.created_at_epoch_seconds older_than
            && any (λ src. bytes_eqb src v.content.file_source) allowed)
      then some v.content.version
      else rest

  unfoldable pub victims : ℤ → List Bytes → List (Bytes × List (Version R)) → List (Bytes × ℤ)
  unfolding stale_version
  victims older_than allowed [] = []
  victims older_than allowed ((id, chain) ∷ m) =
      let rest = victims older_than allowed m in
      elim (stale_version older_than allowed chain) [
        | none ↦ rest
        | some version ↦ (id, version) ∷ rest
      ]

  -- The second loop: reclaim the victims in turn, and count.
  unfoldable pub reclaim_each : Bytes → ℕ → ℕ → List (Bytes × ℤ) → Metadata R → ℕ × Metadata R
  reclaim_each partition limit reclaimed [] s = (reclaimed, s)
  reclaim_each partition limit reclaimed ((id, version) ∷ vs) s = elim (leb limit reclaimed) [
    | true ↦ (reclaimed, s)
    | false ↦
        let r = release_found partition id version s in
        elim r.0 [
          | ok _ ↦ reclaim_each partition limit (reclaimed + 1) vs r.1
          | err _ ↦ reclaim_each partition limit reclaimed vs r.1
        ]
  ]

  unfoldable pub reclaim_stale_claiming :
      Bytes → ℤ → ℤ → List Bytes → Metadata R → Result ℕ × Metadata R
  unfolding reclaim_each victims
  reclaim_stale_claiming partition older_than limit allowed s =
      let found = take (pos_part limit) (victims older_than allowed (bucket partition s.by_id)) in
      let r = reclaim_each partition (pos_part limit) 0 found s in
      if is_empty partition
      then (err invalid_argument, s)
      else if is_nonpos limit
      then (ok 0, s)
      else elim allowed [ [] ↦ (ok 0, s) | a ∷ as' ↦ (ok r.0, r.1) ]
