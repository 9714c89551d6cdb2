-- ===== src/Metadata/Lifecycle.antt =====
-- From the claim to the record that clients read, and back.
use fssvrcpp.Metadata.ClaimStep.{after_claim, claim_for_write-claimed, after_claim-lookup}
use fssvrcpp.Domain.{FileMetadataRecord}
use fssvrcpp.Errors.{ok, err, not_found}
use fssvrcpp.Metadata.Claiming.{
  first_version, claim_new, claim_for_write, mark_in, mark_ready, release_claim,
}
use fssvrcpp.Metadata.Records.{create, get_by_id, get_latest_by_file_source}
use fssvrcpp.Metadata.Types.{claiming, ready, Version, Metadata, MetadataClaim, is_invalid, active}
use fssvrcpp.Prelude.{
  true, false, ◌||◌, List, [], ◌∷◌, none, some, get_last?, ◌≡◌, refl, arith, inl, inr, Bool-cases,
  Option-cases,
}
use fssvrcpp.Prelude.Bytes.{Bytes, bytes_eqb_iff, is_empty}
use fssvrcpp.Prelude.Dict.{
  bytes_key, pair_key, lookup_in, remove, insert_in, remove_in, lookup_in-insert_in,
  lookup_in-remove_in, lookup-remove,
}
use fssvrcpp.Prelude.Int.{ℤ, pos}

module _ {R : Type 0} where
  -- While a claim is open its record is hidden: the reads by id and by file source give
  -- `not_found`, and any other valid claim of the file source gets no claim but the claiming record,
  -- and changes nothing.
  pub claim_for_write_exclusive :
      (now later : ℤ) (p : Bytes) (r r' : FileMetadataRecord R) (s s' : Metadata R)
      (c : MetadataClaim R)
      → claim_for_write now p r s ≡ (ok c, s')
      → c.claimed ≡ true
      → is_invalid p r' || is_empty r'.file_source ≡ false
      → r'.file_source ≡ r.file_source
      → (get_by_id p r.id s' ≡ err not_found)
        × (get_latest_by_file_source p r.file_source s' ≡ err not_found)
        × (claim_for_write later p r' s'
            ≡ (ok (record { claimed = false; content = c.content; state = claiming }), s'))
  claim_for_write_exclusive now later p r r' s s' c e mine valid same =
      let (claim, after, good, free, inactive) = claim_for_write-claimed now p r s s' c e mine in
      let (chain, entry, held) = after_claim-lookup now p r s in
      rw (after, claim, same)
        (
          unfold get_by_id get_last? in ground (arith, chain),
          unfold get_latest_by_file_source in ground (arith, held),
          unfold claim_for_write in ground (arith, held, valid, same),
        )

  abbrev marked_chain : ℤ → FileMetadataRecord R → FileMetadataRecord R → List (Version R)
  marked_chain now r x = record (first_version now r) { content = x; state = ready } ∷ []

  mark_ready-after_claim :
      (now : ℤ) (p : Bytes) (r final' : FileMetadataRecord R) (s : Metadata R)
      → is_invalid p final' ≡ false
      → final'.file_source ≡ r.file_source
      → let x = record final' { id = r.id; version = pos 1 } in
        let s' = after_claim now p r s in
        mark_ready p r.id (pos 1) final' s'
        ≡ (ok x, record s' { by_id = insert_in p r.id (marked_chain now r x) s'.by_id })
  unfolding mark_ready mark_in
  mark_ready-after_claim now p r final' s valid same = ground (
    arith,
    (after_claim-lookup now p r s).0,
    valid,
    bytes_eqb_iff r.file_source final'.file_source,
  )

  -- `mark_ready` of a claim, by a valid record with the same file source, succeeds; from then on
  -- the reads by id and by file source both give that record, under the claim's id and version.
  pub mark_ready-claim_for_write :
      (now : ℤ) (p : Bytes) (r final' : FileMetadataRecord R) (s s' : Metadata R)
      (c : MetadataClaim R)
      → claim_for_write now p r s ≡ (ok c, s')
      → c.claimed ≡ true
      → is_invalid p final' ≡ false
      → final'.file_source ≡ r.file_source
      → let x = record final' { id = r.id; version = pos 1 } in
        let done = mark_ready p c.content.id c.content.version final' s' in
        (done.0 ≡ ok x)
        × (get_by_id p r.id done.1 ≡ ok x)
        × (get_latest_by_file_source p r.file_source done.1 ≡ ok x)
  mark_ready-claim_for_write now p r final' s s' c e mine valid same =
      let (claim, after, good, free, inactive) = claim_for_write-claimed now p r s s' c e mine in
      let (chain, entry, held) = after_claim-lookup now p r s in
      let x = record final' { id = r.id; version = pos 1 } in
      let law =
        lookup_in-insert_in p p r.id r.id (marked_chain now r x) (after_claim now p r s).by_id in
      let same_id = bytes_eqb_iff r.id r.id in
      let same_partition = bytes_eqb_iff p p in
      rw (claim, after, mark_ready-after_claim now p r final' s valid same)
        (
          refl,
          unfold get_by_id get_last? in ground (arith, law, same_id, same_partition),
          unfold get_latest_by_file_source get_last? in
              ground (arith, law, entry, same_id, same_partition),
        )

  abbrev after_release : ℤ → Bytes → FileMetadataRecord R → Metadata R → Metadata R
  after_release now p r s = record {
    by_id = remove_in p r.id (after_claim now p r s).by_id;
    source_index = remove (p, r.file_source) (after_claim now p r s).source_index;
  }

  release_claim-after_claim :
      (now : ℤ) (p : Bytes) (r : FileMetadataRecord R) (s : Metadata R)
      → is_invalid p r ≡ false
      → release_claim p r.id (pos 1) (after_claim now p r s) ≡ (ok tt, after_release now p r s)
  unfolding release_claim is_invalid
  release_claim-after_claim now p r s good = ground (arith, (after_claim-lookup now p r s).0, good)

  -- Releasing a claim by its id and version succeeds, and gives the file source back: the next
  -- valid claim of it, with an id that was free before, is granted.
  pub release_claim-claim_for_write :
      (now later : ℤ) (p : Bytes) (r r' : FileMetadataRecord R) (s s' : Metadata R)
      (c : MetadataClaim R)
      → claim_for_write now p r s ≡ (ok c, s')
      → c.claimed ≡ true
      → is_invalid p r' || is_empty r'.file_source ≡ false
      → r'.file_source ≡ r.file_source
      → lookup_in p r'.id s.by_id ≡ none
      → let released = release_claim p c.content.id c.content.version s' in
        (released.0 ≡ ok tt)
        × ((claim_for_write later p r' released.1).0
            ≡ ok (record {
              claimed = true;
              content = record r' { version = pos 1 };
              state = claiming;
            }))
  release_claim-claim_for_write now later p r r' s s' c e mine valid same fresh =
      let (claim, after, good, free, inactive) = claim_for_write-claimed now p r s s' c e mine in
      let (chain, entry, held) = after_claim-lookup now p r s in
      let t = after_claim now p r s in
      rw (claim, after, release_claim-after_claim now p r s good)
        (
          refl,
          unfold claim_for_write claim_new active in
              ground (
                arith,
                valid,
                same,
                fresh,
                lookup-remove (p, r.file_source) (p, r.file_source) t.source_index,
                lookup_in-remove_in p p r.id r'.id t.by_id,
                lookup_in-insert_in p p r.id r'.id (first_version now r ∷ []) s.by_id,
                bytes_eqb_iff p p,
                bytes_eqb_iff r.file_source r.file_source,
              ),
        )

  marked-active :
      (now : ℤ) (p : Bytes) (r x : FileMetadataRecord R) (s : Metadata R)
      → let t = after_claim now p r s in
        active p r.file_source
          (record t { by_id = insert_in p r.id (marked_chain now r x) t.by_id })
        ≡ some (record (first_version now r) { content = x; state = ready })
  unfolding active get_last?
  marked-active now p r x s =
      let t = after_claim now p r s in
      ground (
        arith,
        (after_claim-lookup now p r s).1,
        lookup_in-insert_in p p r.id r.id (marked_chain now r x) t.by_id,
        bytes_eqb_iff p p,
        bytes_eqb_iff r.id r.id,
      )

  -- The result of `create` is what the file source leads to from then on.
  create-active :
      (now : ℤ) (p : Bytes) (r x : FileMetadataRecord R) (s s' : Metadata R)
      → create now p r s ≡ (ok x, s')
      → (w : Version R) × (active p r.file_source s' ≡ some w) × (w.content ≡ x)
  create-active now p r x s s' e = elim (Bool-cases (is_invalid p r || is_empty r.file_source)) [
    | inl bad ↦ absurd (unfold create claim_for_write in ground (arith, bad, e))
    | inr good ↦ elim (Option-cases (active p r.file_source s)) [
      | inr (w, a) ↦ (
        w,
        unfold create claim_for_write in ground (arith, good, a, e),
        unfold create claim_for_write in ground (arith, good, a, e),
      )
      | inl a ↦ elim (Option-cases (lookup_in p r.id s.by_id)) [
        | inr (d, t) ↦
            absurd (unfold create claim_for_write claim_new in ground (arith, good, a, t, e))
        | inl t ↦
            let x' = record r { version = pos 1 } in
            let valid : is_invalid p r ≡ false = ground (arith, good) in
            let step = mark_ready-after_claim now p r x' s (unfold is_invalid in valid) refl in
            let t' = after_claim now p r s in
            let t'' = record t' { by_id = insert_in p r.id (marked_chain now r x') t'.by_id } in
            let done : create now p r s ≡ (ok x', t'') =
              unfold create claim_for_write claim_new in ground (arith, good, a, t, step) in
            let results : x' ≡ x = ground (arith, done, e) in
            let states : t'' ≡ s' = ground (arith, done, e) in
            (
              record (first_version now r) { content = x'; state = ready },
              rw states at (marked-active now p r x' s),
              results,
            )
      ]
    ]
  ]

  -- `create` twice with the same file source gives the same record both times, whatever else the
  -- second caller's record holds; the second call changes nothing.
  pub create-create :
      (now later : ℤ) (p : Bytes) (r r' x : FileMetadataRecord R) (s s' : Metadata R)
      → create now p r s ≡ (ok x, s')
      → is_invalid p r' || is_empty r'.file_source ≡ false
      → r'.file_source ≡ r.file_source
      → create later p r' s' ≡ (ok x, s')
  create-create now later p r r' x s s' e valid same =
      let (w, held, content) = create-active now p r x s s' e in
      unfold create claim_for_write in ground (arith, valid, same, held, content)
