-- ===== src/Metadata/Histories.antt =====
-- Any history of calls on one metadata repository.
use fssvrcpp.Metadata.Preservation.{
  claim_for_write-Inv, mark_ready-Inv, release_claim-Inv, reclaim_stale_claiming-Inv, update-Inv,
  delete-Inv, create-Inv,
}
use fssvrcpp.Domain.{FileMetadataRecord}
use fssvrcpp.Metadata.Claiming.{claim_for_write, mark_ready, release_claim, reclaim_stale_claiming}
use fssvrcpp.Metadata.Indices.{Inv}
use fssvrcpp.Metadata.Records.{update, delete, create}
use fssvrcpp.Metadata.Types.{Metadata}
use fssvrcpp.Prelude.{List, [], ◌∷◌, arith}
use fssvrcpp.Prelude.Bytes.{Bytes}
use fssvrcpp.Prelude.Dict.{bytes_key, pair_key, lookup, lookup_in, bucket}
use fssvrcpp.Prelude.Int.{ℤ}

pub data Call (R : Type 0) : Type 0 where
  creates : ℤ → Bytes → FileMetadataRecord R → Call R
  claims : ℤ → Bytes → FileMetadataRecord R → Call R
  marks : Bytes → Bytes → ℤ → FileMetadataRecord R → Call R
  releases : Bytes → Bytes → ℤ → Call R
  reclaims : Bytes → ℤ → ℤ → List Bytes → Call R
  updates : ℤ → Bytes → FileMetadataRecord R → Call R
  deletes : Bytes → Bytes → Call R

module _ {R : Type 0} where
  pub step : Call R → Metadata R → Metadata R
  step (creates now p r) s = (create now p r s).1
  step (claims now p r) s = (claim_for_write now p r s).1
  step (marks p i version r) s = (mark_ready p i version r s).1
  step (releases p i version) s = (release_claim p i version s).1
  step (reclaims p older_than limit allowed) s =
      (reclaim_stale_claiming p older_than limit allowed s).1
  step (updates now p r) s = (update now p r s).1
  step (deletes p i) s = (delete p i s).1

  step-Inv : (c : Call R) (s : Metadata R) → Inv s → Inv (step c s)
  unfolding step
  step-Inv (creates now p r) s v = create-Inv now p r s v
  step-Inv (claims now p r) s v = claim_for_write-Inv now p r s v
  step-Inv (marks p i version r) s v = mark_ready-Inv p i version r s v
  step-Inv (releases p i version) s v = release_claim-Inv p i version s v
  step-Inv (reclaims p older_than limit allowed) s v =
      reclaim_stale_claiming-Inv p older_than limit allowed s v
  step-Inv (updates now p r) s v = update-Inv now p r s v
  step-Inv (deletes p i) s v = delete-Inv p i s v

  pub run : List (Call R) → Metadata R → Metadata R
  run [] s = s
  run (c ∷ cs) s = run cs (step c s)

  run-Inv : (cs : List (Call R)) (s : Metadata R) → Inv s → Inv (run cs s)
  unfolding run
  run-Inv [] s v = v
  run-Inv (c ∷ cs) s v = run-Inv cs (step c s) (step-Inv c s v)

  abbrev pub empty : Metadata R
  empty = record { by_id = []; source_index = [] }

  pub empty-Inv : Inv empty
  empty-Inv = record {
    owns = λ p i c h. unfold lookup_in lookup bucket in absurd (ground arith);
    points = λ p src i h. unfold lookup in cc;
  }

  -- From an empty repository, whatever is called: every id has a chain of versions that count up
  -- from 1, all of that id and of one file source, the last alone flagged as the latest, and all
  -- ready but that version 1 may be claiming while it stands alone; the file source leads back to
  -- the id, and every entry of the index leads to a chain with that file source.
  pub run-empty-Inv : (cs : List (Call R)) → Inv (run cs empty)
  run-empty-Inv cs = run-Inv cs empty empty-Inv
