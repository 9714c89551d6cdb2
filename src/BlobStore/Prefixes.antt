-- ===== src/BlobStore/Prefixes.antt =====
-- src/infra/blob/memory/memory_blob_store.cpp: the listing of a prefix, and the iterators that find
-- where its keys start and end.
use fssvrcpp.Prelude.{
  ℕ, zero, suc, true, false, List, [], ◌∷◌, ◌++◌, Option, none, some, if◌then◌else◌, get_last?, ◌≡◌,
  refl, arith,
}
use fssvrcpp.Prelude.Bytes.{Bytes, bytes_ltb, is_empty, starts_with}
use fssvrcpp.Prelude.Dict.{bytes_key, Above}
use fssvrcpp.BlobStore.Types.{Object, Objects}
use fssvrcpp.BlobStore.Listing.{
  ListEntry, entry_of, lower_bound, upper_bound, last_key, page_from, start_at,
}

-- The abstract listing: the entries of the keys with the prefix, in key order.
unfoldable pub entries_with : Bytes → Objects → List ListEntry
entries_with prefix [] = []
entries_with prefix ((key, o) ∷ m) =
    let rest = entries_with prefix m in
    if starts_with prefix key then entry_of key o ∷ rest else rest

-- The entries of all the pages, the token of each page handed to the next call; none if the fuel
-- runs out.
unfoldable pub follow : ℕ → Bytes → ℕ → Bytes → Objects → Option (List ListEntry)
unfolding page_from lower_bound upper_bound
follow zero prefix limit token objects = none
follow (suc fuel) prefix limit token objects =
    let page = page_from prefix limit [] (start_at prefix token objects) in
    elim (is_empty page.continuation_token) [
      | true ↦ some page.entries
      | false ↦ elim (follow fuel prefix limit page.continuation_token objects) [
        | none ↦ none
        | some rest ↦ some (page.entries ++ rest)
      ]
    ]

-- A text that starts with the prefix is not below it, and behind a key that is neither below the
-- prefix nor starts with it, no key starts with it.
pub starts_with-lower : (p k : Bytes) → starts_with p k ≡ true → bytes_ltb k p ≡ false
unfolding starts_with bytes_ltb
starts_with-lower [] [] h = refl
starts_with-lower [] (c ∷ cs) h = refl
starts_with-lower (p ∷ ps) [] h = cc
starts_with-lower (p ∷ ps) (c ∷ cs) h = ground (arith, starts_with-lower ps cs)

starts_with-convex :
    (p j k : Bytes)
    → starts_with p j ≡ false
    → bytes_ltb j p ≡ false
    → bytes_ltb j k ≡ true
    → starts_with p k ≡ false
unfolding starts_with bytes_ltb
starts_with-convex [] j k h l m = cc
starts_with-convex (p ∷ ps) [] k h l m = cc
starts_with-convex (p ∷ ps) (j ∷ js) [] h l m = cc
starts_with-convex (p ∷ ps) (j ∷ js) (k ∷ ks) h l m = ground (arith, starts_with-convex ps js ks)

-- Keys that a listing of the prefix can still meet: proper ones that are not below it.
abbrev pub IsReach : Bytes → Objects → Type 0
IsReach prefix [] = Unit
IsReach prefix ((key, o) ∷ m) =
    (is_empty key ≡ false) × (bytes_ltb key prefix ≡ false) × IsReach prefix m

pub entries_with-Above :
    (p j : Bytes) (m : Objects)
    → starts_with p j ≡ false
    → bytes_ltb j p ≡ false
    → Above j m
    → entries_with p m ≡ []
unfolding entries_with
entries_with-Above p j [] h l a = refl
entries_with-Above p j ((k, o) ∷ m) h l a =
    rw (entries_with, starts_with-convex p j k h l a.0) (entries_with-Above p j m h l a.1)

pub upper_bound-Above : (k : Bytes) (m : Objects) → Above k m → upper_bound k m ≡ m
unfolding upper_bound
upper_bound-Above k [] a = refl
upper_bound-Above k ((j, o) ∷ m) a = rw (upper_bound, a.0) refl

pub upper_bound-skip :
    (k j : Bytes) (o : Object) (m : Objects)
    → bytes_ltb k j ≡ false
    → upper_bound k ((j, o) ∷ m) ≡ upper_bound k m
unfolding upper_bound
upper_bound-skip k j o m h = rw (upper_bound, h) refl

pub get_last?-append : (es : List ListEntry) (e : ListEntry) → last_key (es ++ (e ∷ [])) ≡ e.key
unfolding get_last?
get_last?-append [] e = refl
get_last?-append (x ∷ []) e = refl
get_last?-append (x ∷ y ∷ ys) e = get_last?-append (y ∷ ys) e
