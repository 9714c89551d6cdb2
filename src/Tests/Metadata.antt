-- ===== src/Tests/Metadata.antt =====
-- src/infra/metadata/memory/memory_metadata_repository.cpp: one record, claimed by two writers.
use fssvrcpp.Domain.{FileMetadataRecord}
use fssvrcpp.Errors.{ok, err, not_found}
use fssvrcpp.Metadata.Claiming.{claim_for_write, mark_ready, release_claim}
use fssvrcpp.Metadata.Histories.{creates, claims, updates, run, empty, empty-Inv, run-empty-Inv}
use fssvrcpp.Metadata.Indices.{Inv}
use fssvrcpp.Metadata.Preservation.{claim_for_write-Inv}
use fssvrcpp.Metadata.Lifecycle.{
  claim_for_write_exclusive, mark_ready-claim_for_write, release_claim-claim_for_write,
  create-create,
}
use fssvrcpp.Metadata.Records.{create, get_by_id, get_latest_by_file_source}
use fssvrcpp.Metadata.Types.{claiming, Metadata, MetadataClaim, is_invalid, active}
use fssvrcpp.Prelude.{◌||◌, true, false, [], ◌∷◌, none, ◌≡◌, refl, break_at}
use fssvrcpp.Prelude.Bytes.{Bytes, codes, bytes_eqb, is_empty}
use fssvrcpp.Prelude.Dict.{bytes_key, pair_key, lookup, lookup_in, bucket, insert, insert_in}
use fssvrcpp.Prelude.Int.{pos}

abbrev p : Bytes
p = codes "p"

abbrev first : FileMetadataRecord (Unit {0})
first = record {
  id = codes "p:1";
  kind = codes "k";
  version = pos 0;
  name = none;
  file_source = codes "/a";
  rest = tt;
}

-- Another writer's record of the same file source.
abbrev second : FileMetadataRecord (Unit {0})
second = record first { id = codes "p:2"; kind = codes "l" }

abbrev first_claim : MetadataClaim (Unit {0})
first_claim = record {
  claimed = true;
  content = record first { version = pos 1 };
  state = claiming;
}

abbrev claimed_state : Metadata (Unit {0})
claimed_state = (claim_for_write (pos 10) p first empty).1

claimed_first : claim_for_write (pos 10) p first empty ≡ (ok first_claim, claimed_state)
unfolding claim_for_write is_invalid break_at active lookup_in lookup bucket bytes_eqb
claimed_first = refl

second_valid : is_invalid p second || is_empty second.file_source ≡ false
unfolding is_invalid break_at bytes_eqb
second_valid = refl

final_valid : is_invalid p second ≡ false
unfolding is_invalid break_at bytes_eqb
final_valid = refl

run-empty-Inv_example :
    Inv
      (run (creates (pos 1) p first ∷ updates (pos 2) p first ∷ claims (pos 3) p second ∷ []) empty)
run-empty-Inv_example =
    run-empty-Inv (creates (pos 1) p first ∷ updates (pos 2) p first ∷ claims (pos 3) p second ∷ [])

claim_for_write_exclusive_example :
    (get_by_id p (codes "p:1") claimed_state ≡ err not_found)
    × (get_latest_by_file_source p (codes "/a") claimed_state ≡ err not_found)
    × (claim_for_write (pos 20) p second claimed_state ≡ (
      ok (record { claimed = false; content = first_claim.content; state = claiming }),
      claimed_state,
    ))
claim_for_write_exclusive_example =
    claim_for_write_exclusive (pos 10) (pos 20) p first second empty claimed_state first_claim
      claimed_first refl second_valid refl

mark_ready-claim_for_write_example :
    let x = record second { id = codes "p:1"; version = pos 1 } in
    let done = mark_ready p (codes "p:1") (pos 1) second claimed_state in
    (done.0 ≡ ok x)
    × (get_by_id p (codes "p:1") done.1 ≡ ok x)
    × (get_latest_by_file_source p (codes "/a") done.1 ≡ ok x)
mark_ready-claim_for_write_example =
    mark_ready-claim_for_write (pos 10) p first second empty claimed_state first_claim claimed_first
      refl final_valid refl

second_fresh : lookup_in p (codes "p:2") (empty {R = Unit {0}}).by_id ≡ none
unfolding lookup_in bucket lookup
second_fresh = refl

release_claim-claim_for_write_example :
    let released = release_claim p (codes "p:1") (pos 1) claimed_state in
    (released.0 ≡ ok tt)
    × ((claim_for_write (pos 20) p second released.1).0
        ≡ ok (record {
          claimed = true;
          content = record second { version = pos 1 };
          state = claiming;
        }))
release_claim-claim_for_write_example =
    release_claim-claim_for_write (pos 10) (pos 20) p first second empty claimed_state first_claim
      claimed_first refl second_valid refl second_fresh

abbrev created_first : FileMetadataRecord (Unit {0})
created_first = record first { version = pos 1 }

created : create (pos 10) p first empty ≡ (ok created_first, (create (pos 10) p first empty).1)
unfolding create claim_for_write mark_ready is_invalid break_at active lookup_in lookup bucket
    insert_in insert bytes_eqb
created = refl

create-create_example :
    create (pos 20) p second (create (pos 10) p first empty).1
    ≡ (ok created_first, (create (pos 10) p first empty).1)
create-create_example =
    create-create (pos 10) (pos 20) p first second created_first empty
      (create (pos 10) p first empty).1 created second_valid refl

claimed_state-Inv : Inv claimed_state
claimed_state-Inv = claim_for_write-Inv (pos 10) p first empty empty-Inv
