-- ===== src/Metadata/Visibility.antt =====
-- Giving up claims, one's own or those of crashed writers, never touches what clients read.
use fssvrcpp.Metadata.Preservation.{release_found-Inv}
use fssvrcpp.Errors.{Result-cases}
use fssvrcpp.Metadata.Chains.{release_in-visible, release_in-IsChain}
use fssvrcpp.Metadata.Claiming.{
  release_in, release_found, release_claim, reclaim_each, reclaim_stale_claiming, victims,
}
use fssvrcpp.Metadata.Indices.{Inv}
use fssvrcpp.Metadata.Records.{get_by_id}
use fssvrcpp.Metadata.Types.{Metadata}
use fssvrcpp.Prelude.{
  ℕ, ◌+◌, ◌≤◌, List, [], ◌∷◌, ◌≡◌, refl, ◌∙◌, arith, inl, inr, Bool-cases, Option-cases, leb, take,
}
use fssvrcpp.Prelude.Bytes.{Bytes, bytes_eqb_iff, is_empty}
use fssvrcpp.Prelude.Dict.{bytes_key, pair_key, lookup_in, bucket, lookup_in-remove_in}
use fssvrcpp.Prelude.Int.{ℤ, pos_part, is_nonpos}

module _ {R : Type 0} where
  get_by_id-release_found :
      (p i p' i' : Bytes) (version : ℤ) (s : Metadata R)
      → Inv s
      → get_by_id p' i' (release_found p i version s).1 ≡ get_by_id p' i' s
  get_by_id-release_found p i p' i' version s v = elim (Option-cases (lookup_in p i s.by_id)) [
    | inl e ↦ unfold release_found in rw (e, release_found)
    | inr (c, e) ↦ elim (Result-cases (release_in version c)) [
      | inr (k, m) ↦ unfold release_found in rw (e, release_found, m)
      | inl ((source, c'), m) ↦
          let (src, chain, at) = v.owns p i c e in
          let (same, gone) = release_in-IsChain i src source version c c' chain m in
          let hidden = release_in-visible i src source version c c' chain m in
          unfold release_found in
          rw (e, release_found, m, gone)
            (unfold get_by_id in
              ground (
                arith,
                e,
                hidden,
                lookup_in-remove_in p p' i i' s.by_id,
                bytes_eqb_iff p' p,
                bytes_eqb_iff i' i,
              ))
    ]
  ]

  -- Releasing a claim changes no read by id.
  pub get_by_id-release_claim :
      (p i p' i' : Bytes) (version : ℤ) (s : Metadata R)
      → Inv s
      → get_by_id p' i' (release_claim p i version s).1 ≡ get_by_id p' i' s
  get_by_id-release_claim p i p' i' version s v = elim (Bool-cases (is_empty p)) [
    | inl bad ↦ unfold release_claim in rw bad
    | inr good ↦ unfold release_claim in rw good (get_by_id-release_found p i p' i' version s v)
  ]

  get_by_id-reclaim_each :
      (p p' i' : Bytes) (limit reclaimed : ℕ) (vs : List (Bytes × ℤ)) (s : Metadata R)
      → Inv s
      → (get_by_id p' i' (reclaim_each p limit reclaimed vs s).1 ≡ get_by_id p' i' s)
        × (reclaimed ≤ limit → (reclaim_each p limit reclaimed vs s).0 ≤ limit)
  unfolding reclaim_each
  get_by_id-reclaim_each p p' i' limit reclaimed [] s v = (refl, λ h. h)
  get_by_id-reclaim_each p p' i' limit reclaimed ((i, version) ∷ vs) s v =
      let released = release_found-Inv p i version s v in
      let same = get_by_id-release_found p i p' i' version s v in
      let r = release_found p i version s in
      elim (Bool-cases (leb limit reclaimed)) [
        | inl full ↦ rw (full, reclaim_each) (refl, λ h. h)
        | inr more ↦ elim (Result-cases r.0) [
          | inl (u, e) ↦
              let (next, count) =
                get_by_id-reclaim_each p p' i' limit (reclaimed + 1) vs r.1 released in
              rw (more, reclaim_each, e) (next ∙ same, λ h. count (ground arith))
          | inr (k, e) ↦
              let (next, count) = get_by_id-reclaim_each p p' i' limit reclaimed vs r.1 released in
              rw (more, reclaim_each, e) (next ∙ same, λ h. count h)
        ]
      ]

  -- Reclaiming stale claims changes no read by id, in any partition.
  pub get_by_id-reclaim_stale_claiming :
      (p p' i' : Bytes) (older_than limit : ℤ) (allowed : List Bytes) (s : Metadata R)
      → Inv s
      → get_by_id p' i' (reclaim_stale_claiming p older_than limit allowed s).1 ≡ get_by_id p' i' s
  get_by_id-reclaim_stale_claiming p p' i' older_than limit allowed s v =
      let n = pos_part limit in
      let each = λ (a : List Bytes).
        (get_by_id-reclaim_each p p' i' n 0 (take n (victims older_than a (bucket p s.by_id))) s
          v).0 in
      elim (Bool-cases (is_empty p)) [
        | inl bad ↦ unfold reclaim_stale_claiming in rw bad
        | inr good ↦ elim (Bool-cases (is_nonpos limit)) [
          | inl none_wanted ↦ unfold reclaim_stale_claiming in rw (good, none_wanted)
          | inr some_wanted ↦
              elim allowed
                as (λ a.
                  get_by_id p' i' (reclaim_stale_claiming p older_than limit a s).1
                  ≡ get_by_id p' i' s) [
                    | [] ↦ unfold reclaim_stale_claiming in rw (good, some_wanted)
                    | a ∷ as' ↦
                        unfold reclaim_stale_claiming in rw (good, some_wanted) (each (a ∷ as'))
                  ]
        ]
      ]
