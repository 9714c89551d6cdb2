-- ===== src/BlobStore/Listing.antt =====
-- The calls of src/infra/blob/memory/memory_blob_store.cpp that walk through a container: `list`,
-- `remove_temp_files` and `object_count`.
use fssvrcpp.Errors.{Result, ok, err, invalid_argument, not_found}
use fssvrcpp.Prelude.{
  ℕ, zero, suc, ◌+◌, Bool, true, false, not, List, [], ◌∷◌, ◌++◌, none, some, if◌then◌else◌, length,
  get_last?,
}
use fssvrcpp.Prelude.Bytes.{Bytes, codes, is_empty, bytes_ltb, starts_with}
use fssvrcpp.Prelude.Dict.{bytes_key, lookup, insert}
use fssvrcpp.Prelude.Int.{ℤ, pos, pos_part, ltb_ℤ, is_nonpos}
use fssvrcpp.BlobStore.Types.{Op, Object, Objects, Blobs, begun}

pub record ListEntry : Type 0 where
  pub key : Bytes
  pub size : ℤ
  pub last_modified_epoch_seconds : ℤ

pub record ListPage : Type 0 where
  pub entries : List ListEntry
  pub continuation_token : Bytes
  pub truncated : Bool

pub record TempSweepResult : Type 0 where
  pub removed : ℕ
  pub skipped_too_young : ℕ
  pub skipped_unknown_mtime : ℕ

abbrev pub entry_of : Bytes → Object → ListEntry
entry_of key o = record {
  key = key;
  size = pos (length o.content);
  last_modified_epoch_seconds = o.last_modified_epoch_seconds;
}

-- The iterators: `lower_bound`, the keys not below, and `upper_bound`, the keys above.
unfoldable pub lower_bound : Bytes → Objects → Objects
lower_bound k [] = []
lower_bound k ((j, o) ∷ m) = if bytes_ltb j k then lower_bound k m else (j, o) ∷ m

unfoldable pub upper_bound : Bytes → Objects → Objects
upper_bound k [] = []
upper_bound k ((j, o) ∷ m) = if bytes_ltb k j then (j, o) ∷ m else upper_bound k m

abbrev pub last_key : List ListEntry → Bytes
last_key entries = elim (get_last? entries) [ none ↦ [] | some e ↦ e.key ]

-- The loop: how many more entries the page takes, and the entries so far.
unfoldable pub page_from : Bytes → ℕ → List ListEntry → Objects → ListPage
page_from prefix room entries [] = record {
  entries = entries;
  continuation_token = [];
  truncated = false;
}
page_from prefix zero entries ((key, o) ∷ m) =
    if not (starts_with prefix key)
    then record { entries = entries; continuation_token = []; truncated = false }
    else record { entries = entries; continuation_token = last_key entries; truncated = true }
page_from prefix (suc room) entries ((key, o) ∷ m) =
    let rest = page_from prefix room (entries ++ (entry_of key o ∷ [])) m in
    if not (starts_with prefix key)
    then record { entries = entries; continuation_token = []; truncated = false }
    else rest

-- Where a listing starts.
abbrev pub start_at : Bytes → Bytes → Objects → Objects
start_at prefix token objects =
    if is_empty token then lower_bound prefix objects else upper_bound token objects

unfoldable pub list : Bytes → Bytes → Bytes → ℤ → Blobs → Result ListPage × Blobs
unfolding page_from lower_bound upper_bound
list container prefix token limit = begun Op.list (λ s.
    if is_nonpos limit then (err invalid_argument, s) else elim (lookup container s.containers) [
      | none ↦ (err not_found, s)
      | some objects ↦
          (ok (page_from prefix (pos_part limit) [] (start_at prefix token objects)), s)
    ])

-- `key.find(".tmp.") != npos`
unfoldable pub is_temp_key : Bytes → Bool
is_temp_key [] = false
is_temp_key (c ∷ cs) =
    let rest = is_temp_key cs in if starts_with (codes ".tmp.") (c ∷ cs) then true else rest

-- The loop of `remove_temp_files`: the counts, and the objects that stay.
unfoldable pub sweep : ℤ → Bool → Objects → TempSweepResult × Objects
unfolding is_temp_key
sweep older_than dry_run [] =
    (record { removed = 0; skipped_too_young = 0; skipped_unknown_mtime = 0 }, [])
sweep older_than dry_run ((key, o) ∷ m) =
    let rest = sweep older_than dry_run m in
    if not (is_temp_key key)
    then (rest.0, (key, o) ∷ rest.1)
    else if ltb_ℤ older_than o.last_modified_epoch_seconds
    then (record rest.0 { skipped_too_young = suc rest.0.skipped_too_young }, (key, o) ∷ rest.1)
    else if dry_run
    then (record rest.0 { removed = suc rest.0.removed }, (key, o) ∷ rest.1)
    else (record rest.0 { removed = suc rest.0.removed }, rest.1)

unfoldable pub remove_temp_files : Bytes → ℤ → Bool → Blobs → Result TempSweepResult × Blobs
unfolding sweep
remove_temp_files container older_than dry_run = begun Op.list (λ s.
    elim (lookup container s.containers) [
      | none ↦ (ok (record { removed = 0; skipped_too_young = 0; skipped_unknown_mtime = 0 }), s)
      | some objects ↦
          let r = sweep older_than dry_run objects in
          (ok r.0, record s { containers = insert container r.1 s.containers })
    ])

-- `object_count`
unfoldable pub count_objects : List (Bytes × Objects) → ℕ
count_objects [] = 0
count_objects ((name, objects) ∷ m) = length objects + count_objects m

unfoldable pub object_count : Blobs → ℕ
unfolding count_objects
object_count s = count_objects s.containers
