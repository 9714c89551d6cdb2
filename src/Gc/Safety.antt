-- ===== src/Gc/Safety.antt =====
-- src/app/tasks/gc_task.cpp: what the collection by leases leaves alone.
use fssvrcpp.BlobStore.Calls.{remove_begun, remove}
use fssvrcpp.BlobStore.Contents.{remove_begun-clear}
use fssvrcpp.BlobStore.Faults.{begin_op-containers}
use fssvrcpp.BlobStore.Types.{Op, Object, Blobs, begin_op, begun, is_bad_ref}
use fssvrcpp.Domain.{StorageZone, staging, persistent, ObjectRef, FileLocation}
use fssvrcpp.Errors.{Result, ok, err, is_ok, Result-cases}
use fssvrcpp.Lease.{Lease}
use fssvrcpp.Location.{Locations, find, find_by_file_source, delete}
use fssvrcpp.Prelude.{
  Bool, true, false, ◌&&◌, List, [], ◌∷◌, Option, none, some, if◌then◌else◌, ◌≡◌, refl, ap, ◌∙◌,
  ◌⊎◌, inl, inr, arith, Bool-cases, Option-cases,
}
use fssvrcpp.Prelude.Bytes.{Bytes, bytes_eqb, bytes_eqb_iff, is_empty}
use fssvrcpp.Prelude.Dict.{bytes_key, pair_key, lookup, lookup_in, lookup_in-remove_in}
use fssvrcpp.World.{
  Stores, shared, separate, World, Extra, store_of, set_store, object_ref_from_location,
}
use fssvrcpp.Gc.Tasks.{
  GcOptions, Progress, lease_key_of, ok_or, has_metadata_record, delete_candidate, resolve,
  collect_resolved, collect_leases,
}

-- What the store of a zone has at a key.
abbrev pub held : {R J : Type 0} → StorageZone → Bytes → Bytes → World R J → Option Object
held zone c k w = lookup_in c k (store_of zone w.stores).containers

abbrev pub is_at : Bytes → Bytes → ObjectRef → Bool
is_at c k ref = bytes_eqb c ref.container && bytes_eqb k ref.key

remove_begun-frame :
    (ref : ObjectRef) (s : Blobs) (c k : Bytes)
    → is_at c k ref ≡ false
    → lookup_in c k (remove_begun ref s).1.containers ≡ lookup_in c k s.containers
unfolding remove_begun
remove_begun-frame ref s c k h = elim (Bool-cases (is_bad_ref ref)) [
  | inl bad ↦ rw (remove_begun, bad) refl
  | inr good ↦ (remove_begun-clear ref s good c k).2 ∙ rw h refl
]

-- A removal at another place, whatever becomes of it, leaves an object as it is.
remove-frame :
    (ref : ObjectRef) (s : Blobs) (c k : Bytes)
    → is_at c k ref ≡ false
    → lookup_in c k (remove ref s).1.containers ≡ lookup_in c k s.containers
unfolding remove begun
remove-frame ref s c k h =
    let before = ap (λ m. lookup_in c k m) (begin_op-containers Op.remove s) in
    elim (Result-cases (begin_op Op.remove s).0) [
      | inl (u, e) ↦
          rw (remove, begun, e) (remove_begun-frame ref (begin_op Op.remove s).1 c k h ∙ before)
      | inr (e, q) ↦ rw (remove, begun, q) before
    ]

pub set_store-lookup :
    (zone zone' : StorageZone) (t : Blobs) (stores : Stores) (c k : Bytes)
    → lookup_in c k t.containers ≡ lookup_in c k (store_of zone stores).containers
    → lookup_in c k (store_of zone' (set_store zone t stores)).containers
      ≡ lookup_in c k (store_of zone' stores).containers
unfolding store_of set_store
set_store-lookup zone zone' t (shared s) c k h = h
set_store-lookup staging staging t (separate s p) c k h = h
set_store-lookup staging persistent t (separate s p) c k h = refl
set_store-lookup persistent staging t (separate s p) c k h = refl
set_store-lookup persistent persistent t (separate s p) c k h = h

set_store-remove :
    (zone : StorageZone) (ref : ObjectRef) (stores : Stores) (c k : Bytes)
    → is_at c k ref ≡ false
    → (z : StorageZone)
    → lookup_in c k
        (store_of z (set_store zone (remove ref (store_of zone stores)).1 stores)).containers
      ≡ lookup_in c k (store_of z stores).containers
set_store-remove zone ref stores c k h z =
    set_store-lookup zone z (remove ref (store_of zone stores)).1 stores c k
      (remove-frame ref (store_of zone stores) c k h)

ok_or-cases :
    {A : Type 0} (r : Result A) (other : Option A) (a : A)
    → ok_or r other ≡ some a
    → (r ≡ ok a) ⊎ (other ≡ some a)
ok_or-cases (ok b) other a h = inl (let q : b ≡ a = cc in rw q refl)
ok_or-cases (err e) other a h = inr h

module _ {J : Type 0} where
  find_by_file_source-some :
      (p src : Bytes) (s : Locations J) (l : FileLocation J)
      → find_by_file_source p src s ≡ ok l
      → (f : Bytes) × (find p f s ≡ ok l)
  unfolding find_by_file_source
  find_by_file_source-some p src s l h = elim (Option-cases (lookup (p, src) s.source_index)) [
    | inl e ↦ absurd (let h' = rw (find_by_file_source, e) at h in cc)
    | inr (f, e) ↦ (f, let h' = rw (find_by_file_source, e) at h in h')
  ]

  find-delete-before :
      (p f p' f' : Bytes) (l : FileLocation J) (s : Locations J)
      → find p f (delete p' f' s).1 ≡ ok l
      → find p f s ≡ ok l
  unfolding find delete
  find-delete-before p f p' f' l s h = ground (arith, lookup_in-remove_in p' p f' f s.by_id)

module _ {R J : Type 0} where
  -- From one world to a later one: the object is where it was, locations have only gone, and the
  -- records are the same.
  abbrev IsKept : Bytes → Bytes → World R J → World R J → Type 0
  IsKept c k w w' =
      ((zone : StorageZone) → held zone c k w' ≡ held zone c k w)
      × ((p f : Bytes) (l : FileLocation J)
          → find p f w'.locations ≡ ok l
          → find p f w.locations ≡ ok l)
      × (w'.metadata ≡ w.metadata)

  IsKept-refl : (c k : Bytes) (w : World R J) → IsKept c k w w
  IsKept-refl c k w = ((λ zone. refl), (λ p f l h. h), refl)

  IsKept-trans :
      (c k : Bytes) (u v w : World R J) → IsKept c k u v → IsKept c k v w → IsKept c k u w
  IsKept-trans c k u v w a b =
      ((λ zone. b.0 zone ∙ a.0 zone), (λ p f l h. a.1 p f l (b.1 p f l h)), b.2 ∙ a.2)

  pub delete_candidate-IsKept :
      (options : GcOptions) (zone : StorageZone) (ref : ObjectRef) (file_id p c k : Bytes)
      (with_location : Bool) (g : Progress R J)
      → is_at c k ref ≡ false
      → IsKept c k g.1 (delete_candidate options zone ref file_id with_location p g).1
  unfolding delete_candidate
  delete_candidate-IsKept options zone ref file_id p c k with_location (report, w) h =
      let frame = set_store-remove zone ref w.stores c k h in
      elim (Bool-cases options.dry_run) [
        | inl dry ↦ rw (delete_candidate, dry) (IsKept-refl c k w)
        | inr wet ↦ elim (Bool-cases (is_ok (remove ref (store_of zone w.stores)).0)) [
          | inr failed ↦ rw (delete_candidate, wet, failed) (frame, (λ p f l e. e), refl)
          | inl removed ↦ elim (Bool-cases with_location) [
            | inl both ↦
                rw (delete_candidate, wet, removed, both)
                  (frame, (λ p' f l e. find-delete-before p' f p file_id l w.locations e), refl)
            | inr one ↦ rw (delete_candidate, wet, removed, one) (frame, (λ p f l e. e), refl)
          ]
        ]
      ]

  by_source-find :
      (p : Bytes) (l : Lease) (w : World R J) (loc : FileLocation J)
      → (if is_empty (lease_key_of l)
          then none
          else ok_or (find_by_file_source p (lease_key_of l) w.locations) none)
        ≡ some loc
      → (f : Bytes) × (find p f w.locations ≡ ok loc)
  by_source-find p l w loc h = elim (Bool-cases (is_empty (lease_key_of l))) [
    | inl e ↦ absurd (let h' = rw e at h in cc)
    | inr e ↦
        let h' = rw e at h in
        elim (ok_or-cases (find_by_file_source p (lease_key_of l) w.locations) none loc h') [
          | inl q ↦ find_by_file_source-some p (lease_key_of l) w.locations loc q
          | inr q ↦ absurd cc
        ]
  ]

  -- A lease leads to a location of the repository or to none.
  resolve-find :
      (p : Bytes) (l : Lease) (w : World R J) (loc : FileLocation J)
      → resolve p l w ≡ some loc
      → (f : Bytes) × (find p f w.locations ≡ ok loc)
  unfolding resolve
  resolve-find p l w loc h = elim (Bool-cases (is_empty l.file_id)) [
    | inl e ↦ by_source-find p l w loc (rw (resolve, e) at h)
    | inr e ↦ elim (ok_or-cases (find p l.file_id w.locations) _ loc (rw (resolve, e) at h)) [
      | inl q ↦ (l.file_id, q)
      | inr q ↦ by_source-find p l w loc q
    ]
  ]

module _ {R J : Type 0} ⦃x : Extra J⦄ where
  -- Every location of the partition that has its object at `c` and `k` has a ready record.
  abbrev pub IsRecorded : Bytes → Bytes → Bytes → World R J → Type 0
  IsRecorded p c k w =
      (f : Bytes) (l : FileLocation J)
      → find p f w.locations ≡ ok l
      → x.physical l.extra ≡ some (c, k)
      → has_metadata_record p l.file_source w ≡ true

  collect_resolved-IsKept :
      (options : GcOptions) (p c k : Bytes) (o : Option (FileLocation J)) (g : Progress R J)
      → IsRecorded p c k g.1
      → ((l : FileLocation J) → o ≡ some l → (f : Bytes) × (find p f g.1.locations ≡ ok l))
      → IsKept c k g.1 (collect_resolved options p o g).1
  unfolding collect_resolved object_ref_from_location
  collect_resolved-IsKept options p c k none (report, w) r from = IsKept-refl c k w
  collect_resolved-IsKept options p c k (some l) (report, w) r from =
      elim (Bool-cases (has_metadata_record p l.file_source w)) [
        | inl kept ↦ rw (collect_resolved, kept) (IsKept-refl c k w)
        | inr loose ↦ elim (Option-cases (x.physical l.extra)) [
          | inl e ↦ rw (collect_resolved, loose, object_ref_from_location, e) (IsKept-refl c k w)
          | inr ((c', k'), e) ↦ elim (Bool-cases (bytes_eqb c c' && bytes_eqb k k')) [
            | inl same ↦
                let at : x.physical l.extra ≡ some (c, k) =
                  ground (arith, e, same, bytes_eqb_iff c c', bytes_eqb_iff k k') in
                let f = from l refl in let yes = r f.0 l f.1 at in absurd cc
            | inr other ↦
                rw (collect_resolved, loose, object_ref_from_location, e)
                  (delete_candidate-IsKept options l.zone _ l.file_id p c k true (report, w) other)
          ]
        ]
      ]

  IsRecorded-IsKept :
      (p c k : Bytes) (w w' : World R J)
      → IsKept c k w w'
      → IsRecorded p c k w
      → IsRecorded p c k w'
  unfolding has_metadata_record
  IsRecorded-IsKept p c k w w' kept r f l h e = rw kept.2 (r f l (kept.1 p f l h) e)

  -- The loop over the leases that were claimed, where all locations of the partition at a place have
  -- a ready record when it starts: it leaves what the stores of both zones have at that place as it
  -- is, whichever leases it is given and whatever calls fail.
  pub collect_leases-held :
      (options : GcOptions) (p c k : Bytes) (ls : List Lease) (zone : StorageZone)
      (g : Progress R J)
      → IsRecorded p c k g.1
      → held zone c k (collect_leases options p ls g).1 ≡ held zone c k g.1
  unfolding collect_leases
  collect_leases-held options p c k [] zone g r = refl
  collect_leases-held options p c k (l ∷ ls) zone g r =
      let step =
        collect_resolved-IsKept options p c k (resolve p l g.1) g r
          (λ loc h. resolve-find p l g.1 loc h) in
      collect_leases-held options p c k ls zone (collect_resolved options p (resolve p l g.1) g)
        (IsRecorded-IsKept p c k g.1 (collect_resolved options p (resolve p l g.1) g).1 step r)
      ∙ step.0 zone
