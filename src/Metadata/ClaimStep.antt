-- ===== src/Metadata/ClaimStep.antt =====
-- What one claim makes of the repository.
use fssvrcpp.Domain.{FileMetadataRecord}
use fssvrcpp.Errors.{ok}
use fssvrcpp.Metadata.Claiming.{first_version, claim_new, claim_for_write}
use fssvrcpp.Metadata.Types.{claiming, Metadata, MetadataClaim, is_invalid, active}
use fssvrcpp.Prelude.{
  true, false, ◌||◌, [], ◌∷◌, none, some, get_last?, ◌≡◌, arith, inl, inr, Bool-cases, Option-cases,
}
use fssvrcpp.Prelude.Bytes.{Bytes, bytes_eqb_iff, is_empty}
use fssvrcpp.Prelude.Dict.{
  bytes_key, pair_key, lookup, lookup_in, insert, insert_in, lookup-insert, lookup_in-insert_in,
}
use fssvrcpp.Prelude.Int.{ℤ, pos}

module _ {R : Type 0} where
  -- The repository after a claim.
  abbrev pub after_claim : ℤ → Bytes → FileMetadataRecord R → Metadata R → Metadata R
  after_claim now p r s = record {
    by_id = insert_in p r.id (first_version now r ∷ []) s.by_id;
    source_index = insert (p, r.file_source) r.id s.source_index;
  }

  pub claim_for_write-claimed :
      (now : ℤ) (p : Bytes) (r : FileMetadataRecord R) (s s' : Metadata R) (c : MetadataClaim R)
      → claim_for_write now p r s ≡ (ok c, s')
      → c.claimed ≡ true
      → (c ≡ record { claimed = true; content = record r { version = pos 1 }; state = claiming })
        × (s' ≡ after_claim now p r s)
        × (is_invalid p r ≡ false)
        × (lookup_in p r.id s.by_id ≡ none)
        × (active p r.file_source s ≡ none)
  claim_for_write-claimed now p r s s' c e mine =
      elim (Bool-cases (is_invalid p r || is_empty r.file_source)) [
        | inl bad ↦ absurd (unfold claim_for_write in ground (arith, bad))
        | inr good ↦ elim (Option-cases (active p r.file_source s)) [
          | inr (w, a) ↦ absurd (unfold claim_for_write in ground (arith, good, a))
          | inl a ↦ elim (Option-cases (lookup_in p r.id s.by_id)) [
            | inr (d, t) ↦
                absurd (unfold claim_for_write in unfold claim_new in ground (arith, good, a, t))
            | inl t ↦
                unfold claim_for_write in
                unfold claim_new in
                (ground (arith, good, a, t), ground (arith, good, a, t), ground (arith, good), t, a)
          ]
        ]
      ]

  pub after_claim-lookup :
      (now : ℤ) (p : Bytes) (r : FileMetadataRecord R) (s : Metadata R)
      → let s' = after_claim now p r s in
        (lookup_in p r.id s'.by_id ≡ some (first_version now r ∷ []))
        × (lookup (p, r.file_source) s'.source_index ≡ some r.id)
        × (active p r.file_source s' ≡ some (first_version now r))
  unfolding active get_last?
  after_claim-lookup now p r s =
      let chain = lookup_in-insert_in p p r.id r.id (first_version now r ∷ []) s.by_id in
      let entry = lookup-insert (p, r.file_source) (p, r.file_source) r.id s.source_index in
      let same = bytes_eqb_iff p p in
      let same_id = bytes_eqb_iff r.id r.id in
      let same_source = bytes_eqb_iff r.file_source r.file_source in
      (
        ground (arith, chain, same, same_id),
        ground (arith, entry, same, same_source),
        ground (arith, chain, entry, same, same_id, same_source),
      )
