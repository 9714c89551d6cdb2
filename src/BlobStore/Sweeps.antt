-- ===== src/BlobStore/Sweeps.antt =====
-- src/infra/blob/memory/memory_blob_store.cpp: what `remove_temp_files` takes away, and that its
-- dry run only counts.
use fssvrcpp.Prelude.{
  ◌+◌, Bool, true, false, not, ◌&&◌, [], ◌∷◌, Option, none, some, if◌then◌else◌, length, ◌≡◌, refl,
  arith,
}
use fssvrcpp.Prelude.Bytes.{Bytes, bytes_eqb_iff, bytes_ltb_irrefl}
use fssvrcpp.Prelude.Dict.{bytes_key, lookup, Above, IsSorted}
use fssvrcpp.Prelude.Int.{ℤ, ltb_ℤ}
use fssvrcpp.BlobStore.Types.{Object, Objects}
use fssvrcpp.BlobStore.Listing.{sweep, is_temp_key}

-- A temporary file that is old enough to go.
abbrev pub is_leftover : ℤ → Bytes → Object → Bool
is_leftover older_than key o =
    is_temp_key key && not (ltb_ℤ older_than o.last_modified_epoch_seconds)

abbrev pub unless_leftover : ℤ → Bool → Bytes → Option Object → Option Object
unless_leftover older_than dry_run key none = none
unless_leftover older_than dry_run key (some o) =
    if not dry_run && is_leftover older_than key o then none else some o

lookup-Above : (k : Bytes) (m : Objects) → Above k m → lookup k m ≡ none
unfolding lookup
lookup-Above k [] a = refl
lookup-Above k ((j, w) ∷ m) a =
    ground (arith, bytes_eqb_iff k j, bytes_ltb_irrefl k, lookup-Above k m a.1)

lookup-sweep :
    (older_than : ℤ) (dry_run : Bool) (k : Bytes) (m : Objects)
    → IsSorted m
    → lookup k (sweep older_than dry_run m).1 ≡ unless_leftover older_than dry_run k (lookup k m)
unfolding lookup sweep
lookup-sweep older_than dry_run k [] s = refl
lookup-sweep older_than dry_run k ((j, o) ∷ m) s =
    ground (arith, bytes_eqb_iff k j, lookup-Above j m s.0, lookup-sweep older_than dry_run k m s.1)

sweep-removed :
    (older_than : ℤ) (m : Objects) → (sweep older_than false m).0 ≡ (sweep older_than true m).0
unfolding sweep
sweep-removed older_than [] = refl
sweep-removed older_than ((j, o) ∷ m) = ground (arith, sweep-removed older_than m)

length-sweep :
    (older_than : ℤ) (m : Objects)
    → length (sweep older_than false m).1 + (sweep older_than false m).0.removed ≡ length m
unfolding sweep
length-sweep older_than [] = omega arith
length-sweep older_than ((j, o) ∷ m) = ground (arith, length-sweep older_than m)

-- The sweep of a container takes away exactly the temporary files that are no younger than the
-- limit, and in a dry run nothing: every other object stays as it is. The dry run counts what the
-- sweep removes and protects, and the count removed is the number of objects that are gone.
pub sweep_lem :
    (older_than : ℤ) (dry_run : Bool) (k : Bytes) (m : Objects)
    → IsSorted m
    → (lookup k (sweep older_than dry_run m).1 ≡ unless_leftover older_than dry_run k (lookup k m))
      × ((sweep older_than false m).0 ≡ (sweep older_than true m).0)
      × (length (sweep older_than false m).1 + (sweep older_than false m).0.removed ≡ length m)
sweep_lem older_than dry_run k m s =
    (lookup-sweep older_than dry_run k m s, sweep-removed older_than m, length-sweep older_than m)
