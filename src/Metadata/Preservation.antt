-- ===== src/Metadata/Preservation.antt =====
-- Every call of the metadata repository keeps it consistent.
use fssvrcpp.Domain.{FileMetadataRecord}
use fssvrcpp.Errors.{Result-cases}
use fssvrcpp.Metadata.Chains.{
  IsChain, IsChain-last, mark_in-IsChain, release_in-IsChain, next_version-IsChain,
}
use fssvrcpp.Metadata.Claiming.{
  first_version, claim_new, claim_for_write, mark_in, mark_ready, release_in, release_found,
  release_claim, reclaim_each, reclaim_stale_claiming, victims,
}
use fssvrcpp.Metadata.Indices.{Inv, put-Inv, new-Inv, drop-Inv, touch-Inv}
use fssvrcpp.Metadata.Records.{not_latest, next_version, update, update_found, delete, create}
use fssvrcpp.Metadata.Types.{ready, is_ready, Version, Metadata, is_invalid, active}
use fssvrcpp.Prelude.{
  ℕ, ◌+◌, not, ◌||◌, List, [], ◌∷◌, ◌++◌, map, none, some, get_last?, ◌≡◌, refl, arith, inl, inr,
  Bool-cases, Option-cases, leb, take,
}
use fssvrcpp.Prelude.Bytes.{Bytes, bytes_eqb, bytes_eqb_iff, is_empty}
use fssvrcpp.Prelude.Dict.{bytes_key, pair_key, lookup, lookup_in, bucket}
use fssvrcpp.Prelude.Int.{ℤ, pos_part, is_nonpos}

module _ {R : Type 0} where
  -- Where no active record holds a file source, the index has no entry for it.
  pub active-none :
      (p src : Bytes) (s : Metadata R)
      → Inv s
      → active p src s ≡ none
      → lookup (p, src) s.source_index ≡ none
  unfolding active
  active-none p src s v h = elim (Option-cases (lookup (p, src) s.source_index)) [
    | inl e ↦ e
    | inr (i, e) ↦ elim (Option-cases (lookup_in p i s.by_id)) [
      | inl gone ↦ absurd (ground (arith, v.points p src i e, gone))
      | inr (c, there) ↦
          let (src', chain, x) = v.owns p i c there in
          let (w, last, own, source, flag, state) = IsChain-last i src' 1 c (omega arith) chain in
          absurd (ground (arith, h, e, there, last))
    ]
  ]

  first_version-IsChain :
      (now : ℤ) (r : FileMetadataRecord R) → IsChain r.id r.file_source 1 (first_version now r ∷ [])
  first_version-IsChain now r = ((refl, refl, refl), refl, inr (refl, refl))

  claim_new-Inv :
      (now : ℤ) (p : Bytes) (r : FileMetadataRecord R) (s : Metadata R)
      → Inv s
      → active p r.file_source s ≡ none
      → Inv (claim_new now p r s).1
  claim_new-Inv now p r s v h = elim (Option-cases (lookup_in p r.id s.by_id)) [
    | inl free ↦
        unfold claim_new in
        rw (free, claim_new)
          (new-Inv p r.id r.file_source (first_version now r ∷ []) s v free
            (active-none p r.file_source s v h) (first_version-IsChain now r))
    | inr (c, e) ↦ unfold claim_new in rw (e, claim_new) (touch-Inv p s v)
  ]

  pub claim_for_write-Inv :
      (now : ℤ) (p : Bytes) (r : FileMetadataRecord R) (s : Metadata R)
      → Inv s
      → Inv (claim_for_write now p r s).1
  claim_for_write-Inv now p r s v = elim (Bool-cases (is_invalid p r || is_empty r.file_source)) [
    | inl bad ↦ unfold claim_for_write in rw bad v
    | inr good ↦ elim (Option-cases (active p r.file_source s)) [
      | inl e ↦ unfold claim_for_write in rw (good, e) (claim_new-Inv now p r s v e)
      | inr (w, e) ↦ unfold claim_for_write in rw (good, e) v
    ]
  ]

  pub mark_ready-Inv :
      (p i : Bytes) (version : ℤ) (r : FileMetadataRecord R) (s : Metadata R)
      → Inv s
      → Inv (mark_ready p i version r s).1
  mark_ready-Inv p i version r s v = elim (Bool-cases (is_invalid p r)) [
    | inl bad ↦ unfold mark_ready in rw bad v
    | inr good ↦ elim (Option-cases (lookup_in p i s.by_id)) [
      | inl e ↦ unfold mark_ready in rw (good, e) v
      | inr (c, e) ↦ elim (Result-cases (mark_in i version r c)) [
        | inr (k, m) ↦ unfold mark_ready in rw (good, e, m) v
        | inl ((x, c'), m) ↦
            let (src, chain, at) = v.owns p i c e in
            let (chain', final', same) = mark_in-IsChain i src version r x c c' chain m in
            unfold mark_ready in rw (good, e, m) (put-Inv p i src c c' s v e at chain')
      ]
    ]
  ]

  pub release_found-Inv :
      (p i : Bytes) (version : ℤ) (s : Metadata R) → Inv s → Inv (release_found p i version s).1
  release_found-Inv p i version s v = elim (Option-cases (lookup_in p i s.by_id)) [
    | inl e ↦ unfold release_found in rw (e, release_found) v
    | inr (c, e) ↦ elim (Result-cases (release_in version c)) [
      | inr (k, m) ↦ unfold release_found in rw (e, release_found, m) v
      | inl ((source, c'), m) ↦
          let (src, chain, at) = v.owns p i c e in
          let (same, gone) = release_in-IsChain i src source version c c' chain m in
          unfold release_found in rw (e, release_found, m, same, gone) (drop-Inv p i src c s v e at)
    ]
  ]

  pub release_claim-Inv :
      (p i : Bytes) (version : ℤ) (s : Metadata R) → Inv s → Inv (release_claim p i version s).1
  release_claim-Inv p i version s v = elim (Bool-cases (is_empty p)) [
    | inl bad ↦ unfold release_claim in rw bad v
    | inr good ↦ unfold release_claim in rw good (release_found-Inv p i version s v)
  ]

  reclaim_each-Inv :
      (p : Bytes) (limit reclaimed : ℕ) (vs : List (Bytes × ℤ)) (s : Metadata R)
      → Inv s
      → Inv (reclaim_each p limit reclaimed vs s).1
  unfolding reclaim_each
  reclaim_each-Inv p limit reclaimed [] s v = v
  reclaim_each-Inv p limit reclaimed ((i, version) ∷ vs) s v =
      let released = release_found-Inv p i version s v in
      let r = release_found p i version s in
      elim (Bool-cases (leb limit reclaimed)) [
        | inl full ↦ rw (full, reclaim_each) v
        | inr more ↦ elim (Result-cases r.0) [
          | inl (u, e) ↦
              let next = reclaim_each-Inv p limit (reclaimed + 1) vs r.1 released in
              rw (more, reclaim_each, e) next
          | inr (k, e) ↦
              let next = reclaim_each-Inv p limit reclaimed vs r.1 released in
              rw (more, reclaim_each, e) next
        ]
      ]

  pub reclaim_stale_claiming-Inv :
      (p : Bytes) (older_than limit : ℤ) (allowed : List Bytes) (s : Metadata R)
      → Inv s
      → Inv (reclaim_stale_claiming p older_than limit allowed s).1
  reclaim_stale_claiming-Inv p older_than limit allowed s v =
      let n = pos_part limit in
      let found = take n (victims older_than allowed (bucket p s.by_id)) in
      let each = reclaim_each-Inv p n 0 found s v in
      elim (Bool-cases (is_empty p)) [
        | inl bad ↦ unfold reclaim_stale_claiming in rw bad v
        | inr good ↦ elim (Bool-cases (is_nonpos limit)) [
          | inl none_wanted ↦ unfold reclaim_stale_claiming in rw (good, none_wanted) v
          | inr some_wanted ↦
              elim allowed
                  as (λ a.
                    Inv (reclaim_each p n 0 (take n (victims older_than a (bucket p s.by_id))) s).1
                    → Inv (reclaim_stale_claiming p older_than limit a s).1) [
                      | [] ↦ λ k. unfold reclaim_stale_claiming in rw (good, some_wanted) v
                      | a ∷ as' ↦ λ k. unfold reclaim_stale_claiming in rw (good, some_wanted) k
                    ]
                each
        ]
      ]

  update_found-Inv :
      (now : ℤ) (p : Bytes) (r : FileMetadataRecord R) (c : List (Version R)) (w : Version R)
      (s : Metadata R)
      → Inv s
      → lookup_in p r.id s.by_id ≡ some c
      → get_last? c ≡ some w
      → w.state ≡ ready
      → Inv (update_found now p r c w s).1
  update_found-Inv now p r c w s v e last up =
      elim (Bool-cases
        (is_empty r.file_source || not (bytes_eqb r.file_source w.content.file_source))) [
          | inl bad ↦ unfold update_found in rw bad v
          | inr good ↦
              let (src, chain, at) = v.owns p r.id c e in
              let (w', last', own, source, flag, state) =
                IsChain-last r.id src 1 c (omega arith) chain in
              let same : r.file_source ≡ src = ground (
                arith,
                good,
                last,
                last',
                source,
                bytes_eqb_iff r.file_source w.content.file_source,
              ) in
              unfold update_found in
              rw good (
                put-Inv p r.id src c (map not_latest c ++ (next_version now r w ∷ [])) s v e at
                  (next_version-IsChain r.id src 1 now r w c (omega arith) chain last up refl same))
        ]

  pub update-Inv :
      (now : ℤ) (p : Bytes) (r : FileMetadataRecord R) (s : Metadata R)
      → Inv s
      → Inv (update now p r s).1
  update-Inv now p r s v = elim (Bool-cases (is_invalid p r)) [
    | inl bad ↦ unfold update in rw bad v
    | inr good ↦ elim (Option-cases (lookup_in p r.id s.by_id)) [
      | inl e ↦ unfold update in rw (good, e) v
      | inr (c, e) ↦ elim (Option-cases (get_last? c)) [
        | inl l ↦ unfold update in rw (good, e, l) v
        | inr (w, l) ↦ elim (Bool-cases (is_ready w.state)) [
          | inl up ↦
              let state : w.state ≡ ready = ground arith in
              unfold update in rw (good, e, l, up) (update_found-Inv now p r c w s v e l state)
          | inr down ↦ unfold update in rw (good, e, l, down) v
        ]
      ]
    ]
  ]

  pub delete-Inv : (p i : Bytes) (s : Metadata R) → Inv s → Inv (delete p i s).1
  delete-Inv p i s v = elim (Option-cases (lookup_in p i s.by_id)) [
    | inl e ↦ unfold delete in rw (e, delete) v
    | inr (c, e) ↦
        let (src, chain, at) = v.owns p i c e in
        let (w, last, own, source, flag, state) = IsChain-last i src 1 c (omega arith) chain in
        unfold delete in rw (e, delete, last, source) (drop-Inv p i src c s v e at)
  ]

  pub create-Inv :
      (now : ℤ) (p : Bytes) (r : FileMetadataRecord R) (s : Metadata R)
      → Inv s
      → Inv (create now p r s).1
  create-Inv now p r s v =
      let claim = claim_for_write now p r s in
      let kept = claim_for_write-Inv now p r s v in
      elim (Bool-cases (is_invalid p r)) [
        | inl bad ↦ unfold create in rw bad v
        | inr good ↦ elim (Result-cases claim.0) [
          | inr (k, e) ↦ unfold create in rw (good, e) kept
          | inl (c, e) ↦ elim (Bool-cases c.claimed) [
            | inl mine ↦
                unfold create in
                rw (good, e, mine)
                  (mark_ready-Inv p c.content.id c.content.version c.content claim.1 kept)
            | inr other ↦ unfold create in rw (good, e, other) kept
          ]
        ]
      ]
