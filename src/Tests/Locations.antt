-- ===== src/Tests/Locations.antt =====
-- src/infra/location/memory/memory_location_repository.cpp: two records of one partition.
use fssvrcpp.Domain.{FileLocation, posix, staging}
use fssvrcpp.Errors.{ok, err, is_ok, not_found, invalid_argument, location_already_exists}
use fssvrcpp.Location.{Locations, find, find_by_file_source, save, delete}
use fssvrcpp.Location.Indices.{Inv}
use fssvrcpp.Location.Changes.{has_source, is_other, find-save, find-delete}
use fssvrcpp.Location.Lookups.{
  Call, saves, signs, deletes, run, empty, histories-Inv, find_by_file_source-find,
}
use fssvrcpp.Prelude.{◌||◌, ◌&&◌, ◌↔◌, if◌then◌else◌, List, [], ◌∷◌, ◌≡◌}
use fssvrcpp.Prelude.Bytes.{Bytes, codes, bytes_eqb, is_empty}
use fssvrcpp.Prelude.Dict.{bytes_key, pair_key}
use fssvrcpp.Prelude.Int.{pos}

abbrev p : Bytes
p = codes "p"

abbrev first : FileLocation (Unit {0})
first = record {
  file_id = codes "f1";
  driver = posix;
  zone = staging;
  file_source = codes "/a";
  user_id = codes "u";
  signed_url = [];
  created_at_epoch_seconds = pos 1;
  updated_at_epoch_seconds = pos 1;
  extra = tt;
}

abbrev second : FileLocation (Unit {0})
second = record first { file_id = codes "f2" }

abbrev calls : List (Call (Unit {0}))
calls = saves p first ∷ saves p second ∷ []

histories-Inv_example : Inv (
    run
      (saves p first
        ∷ signs p (codes "f1") (codes "u") (pos 2)
        ∷ saves p second
        ∷ deletes p (codes "f1")
        ∷ [])
      empty)
histories-Inv_example = histories-Inv (
    saves p first
    ∷ signs p (codes "f1") (codes "u") (pos 2)
    ∷ saves p second
    ∷ deletes p (codes "f1")
    ∷ [])

-- A repository with the first record.
abbrev one : Locations (Unit {0})
one = run (saves p first ∷ []) empty

one-Inv : Inv one
one-Inv = histories-Inv (saves p first ∷ [])

find_by_file_source-find_example :
    (find_by_file_source p (codes "/a") one ≡ ok first)
    ↔ ((find p (codes "f1") one ≡ ok first) × (codes "/a" ≡ codes "/a"))
find_by_file_source-find_example = find_by_file_source-find p (codes "/a") one first one-Inv

find-save_example :
    ((save p second one).0 ≡ (
      if is_empty p || (is_empty second.file_id || is_empty second.file_source)
      then err invalid_argument
      else if is_other second.file_id (find_by_file_source p second.file_source one)
      then err location_already_exists
      else ok tt))
    × (find p (codes "f2") (save p second one).1 ≡ (
        if is_ok (save p second one).0 && (bytes_eqb p p && bytes_eqb (codes "f2") second.file_id)
        then ok second
        else find p (codes "f2") one))
    × (find_by_file_source p (codes "/a") (save p second one).1 ≡ (
        if is_ok (save p second one).0
          && (bytes_eqb p p && bytes_eqb (codes "/a") second.file_source)
        then ok second
        else if is_ok (save p second one).0
            && (bytes_eqb p p && has_source (codes "/a") (find p second.file_id one))
        then err not_found
        else find_by_file_source p (codes "/a") one))
find-save_example = find-save p p (codes "f2") (codes "/a") second one one-Inv

find-delete_example :
    ((delete p (codes "f1") one).0
      ≡ (if is_ok (find p (codes "f1") one) then ok tt else err not_found))
    × (find p (codes "f2") (delete p (codes "f1") one).1 ≡ (
        if bytes_eqb p p && bytes_eqb (codes "f2") (codes "f1")
        then err not_found
        else find p (codes "f2") one))
    × (find_by_file_source p (codes "/a") (delete p (codes "f1") one).1 ≡ (
        if bytes_eqb p p && has_source (codes "/a") (find p (codes "f1") one)
        then err not_found
        else find_by_file_source p (codes "/a") one))
find-delete_example = find-delete p (codes "f1") p (codes "f2") (codes "/a") one one-Inv
