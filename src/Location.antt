-- ===== src/Location.antt =====
-- src/infra/location/memory/memory_location_repository.cpp: `InMemoryLocationRepository`. A call
-- takes the two indices and returns its result with the new ones; the mutex makes it one step.
pub mod Indices
pub mod Lookups
pub mod Changes
use fssvrcpp.Domain.{FileLocation, LocationQuery}
use fssvrcpp.Errors.{Result, ok, err, invalid_argument, not_found, location_already_exists}
use fssvrcpp.Prelude.{
  ℕ, Bool, true, false, not, ◌&&◌, ◌||◌, List, [], ◌∷◌, Option, none, some, if◌then◌else◌, length,
  take, drop, sort,
}
use fssvrcpp.Prelude.Bytes.{Bytes, bytes_eqb, bytes_ltb, is_empty}
use fssvrcpp.Prelude.Dict.{
  bytes_key, pair_key, lookup, insert, remove, lookup_in, insert_in, remove_in, touch, bucket,
  values_where,
}
use fssvrcpp.Prelude.Int.{ℤ, pos, pos_part, ltb_ℤ, leb_ℤ, eqb_ℤ, is_neg, is_nonpos}

pub record Locations (J : Type 0) : Type 0 where
  pub by_id : List (Bytes × List (Bytes × FileLocation J))
  pub source_index : List ((Bytes × Bytes) × Bytes)

pub record LocationPage (J : Type 0) : Type 0 where
  pub records : List (FileLocation J)
  pub total : ℕ

-- Whether the index gives the file source to another file id.
abbrev pub is_taken : Bytes → Option Bytes → Bool
is_taken file_id none = false
is_taken file_id (some owner) = not (bytes_eqb owner file_id)

module _ {J : Type 0} where
  unfoldable pub find : Bytes → Bytes → Locations J → Result (FileLocation J)
  find partition file_id s = elim (lookup_in partition file_id s.by_id) [
    | none ↦ err not_found
    | some l ↦ ok l
  ]

  -- The index without the file source that the record at this id had, if that changes.
  abbrev pub release_source :
      Bytes
      → Bytes
      → Option (FileLocation J)
      → List ((Bytes × Bytes) × Bytes)
      → List ((Bytes × Bytes) × Bytes)
  release_source partition file_source none index = index
  release_source partition file_source (some old) index =
      if not (bytes_eqb old.file_source file_source)
      then remove (partition, old.file_source) index
      else index

  -- `Save` behind its three checks of the arguments.
  unfoldable pub save_checked :
      Bytes → FileLocation J → Locations J → Result (Unit {0}) × Locations J
  save_checked partition l s =
      if is_taken l.file_id (lookup (partition, l.file_source) s.source_index)
      then (err location_already_exists, record s { by_id = touch partition s.by_id })
      else (
        ok tt,
        record {
          by_id = insert_in partition l.file_id l s.by_id;
          source_index =
              insert (partition, l.file_source) l.file_id
                (release_source partition l.file_source (lookup_in partition l.file_id s.by_id)
                  s.source_index);
        },
      )

  unfoldable pub save : Bytes → FileLocation J → Locations J → Result (Unit {0}) × Locations J
  unfolding save_checked
  save partition l s =
      if is_empty partition || (is_empty l.file_id || is_empty l.file_source)
      then (err invalid_argument, s)
      else save_checked partition l s

  unfoldable pub update_signed_url :
      Bytes → Bytes → Bytes → ℤ → Locations J → Result (Unit {0}) × Locations J
  update_signed_url partition file_id url now s = elim (lookup_in partition file_id s.by_id) [
    | none ↦ (err not_found, s)
    | some l ↦ (
      ok tt,
      record s {
        by_id =
            insert_in partition file_id
              (record l { signed_url = url; updated_at_epoch_seconds = now }) s.by_id;
      },
    )
  ]

  unfoldable pub delete : Bytes → Bytes → Locations J → Result (Unit {0}) × Locations J
  delete partition file_id s = elim (lookup_in partition file_id s.by_id) [
    | none ↦ (err not_found, s)
    | some l ↦ (
      ok tt,
      record {
        by_id = remove_in partition file_id s.by_id;
        source_index = remove (partition, l.file_source) s.source_index;
      },
    )
  ]

  unfoldable pub find_by_file_source : Bytes → Bytes → Locations J → Result (FileLocation J)
  unfolding find
  find_by_file_source partition file_source s =
      elim (lookup (partition, file_source) s.source_index) [
        | none ↦ err not_found
        | some file_id ↦ find partition file_id s
      ]

  -- The filter of `List`; -1 is no bound, and no user id is no filter.
  abbrev pub matches : LocationQuery → FileLocation J → Bool
  matches q l =
      (is_empty q.user_id || bytes_eqb l.user_id q.user_id)
      && ((is_neg q.created_after_epoch_seconds
            || leb_ℤ q.created_after_epoch_seconds l.created_at_epoch_seconds)
          && (is_neg q.created_before_epoch_seconds
              || leb_ℤ l.created_at_epoch_seconds q.created_before_epoch_seconds))

  -- The comparison that `List` sorts by.
  abbrev pub earlier : FileLocation J → FileLocation J → Bool
  earlier a b =
      if not (eqb_ℤ a.created_at_epoch_seconds b.created_at_epoch_seconds)
      then ltb_ℤ a.created_at_epoch_seconds b.created_at_epoch_seconds
      else bytes_ltb a.file_id b.file_id

  unfoldable pub matched : Bytes → LocationQuery → Locations J → List (FileLocation J)
  matched partition q s =
      sort earlier (values_where (λ _ l. matches q l) (bucket partition s.by_id))

  unfoldable pub list : Bytes → LocationQuery → Locations J → Result (LocationPage J)
  unfolding matched
  list partition q s =
      let found = matched partition q s in
      if is_nonpos q.limit
      then err invalid_argument
      else if is_neg q.offset
      then err invalid_argument
      else ok (record {
        records = take (pos_part q.limit) (drop (pos_part q.offset) found);
        total = length found;
      })

  -- `size`
  unfoldable pub size : Bytes → Locations J → ℕ
  size partition s = length (bucket partition s.by_id)
