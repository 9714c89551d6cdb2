-- ===== src/World.antt =====
-- What the tasks and the use cases of src/app work on: the repositories of locations, metadata and
-- leases, and the stores of objects, all in memory. Both zones of a partition may be served by one
-- store. The calls of the stores run against the state of the zone they are made for.
use fssvrcpp.BlobStore.Types.{Blobs}
use fssvrcpp.Domain.{StorageZone, staging, persistent, ObjectRef, FileLocation}
use fssvrcpp.Errors.{Result, ok, err, internal}
use fssvrcpp.Lease.{Leases}
use fssvrcpp.Location.{Locations}
use fssvrcpp.Metadata.Types.{Metadata}
use fssvrcpp.Prelude.{Option, none, some, ◌≡◌, refl}
use fssvrcpp.Prelude.Bytes.{Bytes}

pub data Stores : Type 0 where
  shared : Blobs → Stores
  separate : Blobs → Blobs → Stores

unfoldable pub store_of : StorageZone → Stores → Blobs
store_of zone (shared s) = s
store_of staging (separate s p) = s
store_of persistent (separate s p) = p

unfoldable pub set_store : StorageZone → Blobs → Stores → Stores
set_store zone t (shared s) = shared t
set_store staging t (separate s p) = separate t p
set_store persistent t (separate s p) = separate s t

pub record World (R J : Type 0) : Type 0 where
  pub metadata : Metadata R
  pub locations : Locations J
  pub leases : Leases
  pub stores : Stores

-- What the service reads and writes of a location's JSON `extra`: the texts of its members
-- `container` and `object_key`, where it is an object that has both, and that of `driver_name`,
-- where it has one; `no_members` is the object without members. Members of another type, which
-- throw in the code, are not covered: the service writes texts alone.
pub record Extra (J : Type 0) : Type 0 where
  pub physical : J → Option (Bytes × Bytes)
  pub set_physical : Bytes → Bytes → J → J
  pub physical-set :
      (container key : Bytes) (j : J)
      → physical (set_physical container key j) ≡ some (container, key)
  pub no_members : J
  pub driver_name : J → Option Bytes
  pub set_driver_name : Bytes → J → J
  pub driver_name-set : (name : Bytes) (j : J) → driver_name (set_driver_name name j) ≡ some name
  pub physical-set_driver_name :
      (name : Bytes) (j : J) → physical (set_driver_name name j) ≡ physical j

module _ {J : Type 0} ⦃x : Extra J⦄ where
  -- `ObjectRefFromLocation` of src/app/usecases/usecases.cpp.
  unfoldable pub object_ref_from_location : FileLocation J → Result ObjectRef
  object_ref_from_location l = elim (x.physical l.extra) [
    | none ↦ err internal
    | some (container, key) ↦ ok (record { container = container; key = key; version_id = none })
  ]

-- A call of the store of a zone.
unfoldable pub on_zone :
    {A : Type 0} → StorageZone → (Blobs → Result A × Blobs) → Stores → Result A × Stores
unfolding store_of set_store
on_zone zone call s = let r = call (store_of zone s) in (r.0, set_store zone r.1 s)

unfoldable pub on_store :
    {A R J : Type 0} → StorageZone → (Blobs → Result A × Blobs) → World R J → Result A × World R J
unfolding on_zone
on_store zone call w = let r = on_zone zone call w.stores in (r.0, record w { stores = r.1 })

-- `FSS_TRY` of a call on a state: an error ends the function, with the state that the call left.
unfoldable pub proceed : {A B S : Type 0} → Result A × S → (A → S → Result B × S) → Result B × S
proceed r next = elim r.0 [ ok a ↦ next a r.1 | err e ↦ (err e, r.1) ]

pub proceed-ok :
    {A B S : Type 0} (r : Result A × S) (next : A → S → Result B × S) {b : B} {s : S}
    → proceed r next ≡ (ok b, s)
    → (a : A) × (r.0 ≡ ok a) × (next a r.1 ≡ (ok b, s))
unfolding proceed
proceed-ok (ok a, s) next h = (a, refl, h)
proceed-ok (err e, s) next h = cc

pub store_of-set_store :
    (zone : StorageZone) (t : Blobs) (s : Stores) → store_of zone (set_store zone t s) ≡ t
unfolding store_of set_store
store_of-set_store zone t (shared s) = refl
store_of-set_store staging t (separate s p) = refl
store_of-set_store persistent t (separate s p) = refl

-- The result of the call, its store afterwards, and what else is as it was.
pub on_store_lem :
    {A R J : Type 0} (zone : StorageZone) (call : Blobs → Result A × Blobs) (w : World R J)
    → ((on_store zone call w).0 ≡ (call (store_of zone w.stores)).0)
      × (store_of zone (on_store zone call w).1.stores ≡ (call (store_of zone w.stores)).1)
      × ((on_store zone call w).1.locations ≡ w.locations)
unfolding on_store
on_store_lem zone call w =
    (refl, store_of-set_store zone (call (store_of zone w.stores)).1 w.stores, refl)
