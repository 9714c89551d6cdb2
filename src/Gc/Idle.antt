-- ===== src/Gc/Idle.antt =====
-- src/app/tasks/gc_task.cpp: the steps of the scans in a dry run.
use fssvrcpp.BlobStore.Faults.{begin_op-containers}
use fssvrcpp.BlobStore.Listing.{ListEntry, list, sweep, remove_temp_files, is_temp_key}
use fssvrcpp.BlobStore.Types.{Op, Objects, Blobs, begin_op, begun}
use fssvrcpp.Domain.{StorageZone, staging, persistent, ObjectRef}
use fssvrcpp.Errors.{Result, ok, err, Result-cases}
use fssvrcpp.Gc.Safety.{held, set_store-lookup}
use fssvrcpp.Prelude.{
  ℕ, zero, suc, Bool, true, false, List, [], ◌∷◌, some, ◌≡◌, refl, ap, ◌∙◌, inl, inr, arith,
  Bool-cases, Option-cases,
}
use fssvrcpp.Prelude.Bytes.{Bytes, bytes_eqb_iff, is_empty}
use fssvrcpp.Prelude.Dict.{bytes_key, lookup, lookup_in, insert, bucket, lookup-insert}
use fssvrcpp.Prelude.Int.{ℤ, pos, ltb_ℤ, is_nonpos}
use fssvrcpp.World.{World, store_of, set_store}
use fssvrcpp.Gc.Tasks.{GcOptions, Progress, has_metadata_record, delete_candidate}
use fssvrcpp.Gc.Scans.{
  Refs, ref_key, visit, walk_pages, visit_temp, visit_staging, visit_orphan, sweep_zone,
}

list-containers :
    (container prefix token : Bytes) (limit : ℤ) (s : Blobs)
    → (list container prefix token limit s).1.containers ≡ s.containers
unfolding list begun
list-containers container prefix token limit s =
    let before = begin_op-containers Op.list s in
    elim (Result-cases (begin_op Op.list s).0) [
      | inr (e, q) ↦ rw (list, begun, q) before
      | inl (u, e) ↦ elim (Bool-cases (is_nonpos limit)) [
        | inl bad ↦ rw (list, begun, e, bad) before
        | inr good ↦ elim (Option-cases (lookup container (begin_op Op.list s).1.containers)) [
          | inl n ↦ rw (list, begun, e, good, n) before
          | inr (m, n) ↦ rw (list, begun, e, good, n) before
        ]
      ]
    ]

sweep-dry : (older_than : ℤ) (m : Objects) → (sweep older_than true m).1 ≡ m
unfolding sweep
sweep-dry older_than [] = refl
sweep-dry older_than ((k, o) ∷ m) = ground (arith, sweep-dry older_than m)

insert-same :
    (d : Bytes) (objects : Objects) (m : List (Bytes × Objects)) (c k : Bytes)
    → lookup d m ≡ some objects
    → lookup_in c k (insert d objects m) ≡ lookup_in c k m
unfolding lookup_in bucket
insert-same d objects m c k h = ground (arith, h, lookup-insert d c objects m, bytes_eqb_iff c d)

remove_temp_files-dry :
    (container : Bytes) (older_than : ℤ) (s : Blobs) (c k : Bytes)
    → lookup_in c k (remove_temp_files container older_than true s).1.containers
      ≡ lookup_in c k s.containers
unfolding remove_temp_files begun
remove_temp_files-dry container older_than s c k =
    let before = ap (λ m. lookup_in c k m) (begin_op-containers Op.list s) in
    elim (Result-cases (begin_op Op.list s).0) [
      | inr (e, q) ↦ rw (remove_temp_files, begun, q) before
      | inl (u, e) ↦ elim (Option-cases (lookup container (begin_op Op.list s).1.containers)) [
        | inl n ↦ rw (remove_temp_files, begun, e, n) before
        | inr (m, n) ↦
            rw (remove_temp_files, begun, e, n, sweep-dry older_than m)
              (insert-same container m (begin_op Op.list s).1.containers c k n ∙ before)
      ]
    ]

module _ {R J : Type 0} where
  -- The stores of both zones and the locations are the same.
  abbrev pub IsSame : World R J → World R J → Type 0
  IsSame w w' =
      ((zone : StorageZone) (c k : Bytes) → held zone c k w' ≡ held zone c k w)
      × (w'.locations ≡ w.locations)

  pub IsSame-refl : (w : World R J) → IsSame w w
  IsSame-refl w = ((λ zone c k. refl), refl)

  pub IsSame-trans : (u v w : World R J) → IsSame u v → IsSame v w → IsSame u w
  IsSame-trans u v w a b = ((λ zone c k. b.0 zone c k ∙ a.0 zone c k), b.1 ∙ a.1)

  abbrev IsIdle : (Progress R J → Progress R J) → Type 0
  IsIdle step = (g : Progress R J) → IsSame g.1 (step g).1

  pub delete_candidate-IsIdle :
      (options : GcOptions) (zone : StorageZone) (ref : ObjectRef) (f : Bytes) (b : Bool)
      (p : Bytes)
      → options.dry_run ≡ true
      → IsIdle (delete_candidate options zone ref f b p)
  unfolding delete_candidate
  delete_candidate-IsIdle options zone ref f b p dry (report, w) =
      rw (delete_candidate, dry) (IsSame-refl w)

  visit-IsIdle :
      (step : ListEntry → Progress R J → Progress R J) (es : List ListEntry)
      → ((e : ListEntry) → IsIdle (step e))
      → IsIdle (visit step es)
  unfolding visit
  visit-IsIdle step [] h g = IsSame-refl g.1
  visit-IsIdle step (e ∷ es) h g =
      IsSame-trans g.1 (step e g).1 (visit step es (step e g)).1 (h e g)
        (visit-IsIdle step es h (step e g))

  -- The world after a listing.
  abbrev pub listed : StorageZone → Bytes → Bytes → World R J → World R J
  listed zone container token w = record w {
    stores = set_store zone (list container [] token (pos 500) (store_of zone w.stores)).1 w.stores;
  }

  pub listed-IsSame :
      (zone : StorageZone) (container token : Bytes) (w : World R J)
      → IsSame w (listed zone container token w)
  listed-IsSame zone container token w =
      let t = list container [] token (pos 500) (store_of zone w.stores) in
      let same = list-containers container [] token (pos 500) (store_of zone w.stores) in
      ((λ z c k. set_store-lookup zone z t.1 w.stores c k (ap (λ m. lookup_in c k m) same)), refl)

  pub walk_pages-IsIdle :
      (fuel : ℕ) (zone : StorageZone) (container : Bytes)
      (step : ListEntry → Progress R J → Progress R J) (token : Bytes)
      → ((e : ListEntry) → IsIdle (step e))
      → IsIdle (walk_pages fuel zone container step token)
  unfolding walk_pages
  walk_pages-IsIdle zero zone container step token h g = IsSame-refl g.1
  walk_pages-IsIdle (suc fuel) zone container step token h (report, w) =
      let before = listed-IsSame zone container token w in
      elim (Result-cases (list container [] token (pos 500) (store_of zone w.stores)).0) [
        | inr (e, q) ↦ rw (walk_pages, q) before
        | inl (page, e) ↦
            let seen = visit step page.entries (report, listed zone container token w) in
            let idle =
              IsSame-trans w (listed zone container token w) seen.1 before
                (visit-IsIdle step page.entries h (report, listed zone container token w)) in
            elim (Bool-cases (is_empty page.continuation_token)) [
              | inl last ↦ rw (walk_pages, e, last) idle
              | inr more ↦
                  rw (walk_pages, e, more)
                    (IsSame-trans w seen.1
                      (walk_pages fuel zone container step page.continuation_token seen).1 idle
                      (walk_pages-IsIdle fuel zone container step page.continuation_token h seen))
            ]
      ]

  visit_temp-IsIdle :
      (options : GcOptions) (zone : StorageZone) (p : Bytes) (cutoff : ℤ) (container : Bytes)
      (e : ListEntry)
      → options.dry_run ≡ true
      → IsIdle (visit_temp options zone p cutoff container e)
  unfolding visit_temp
  visit_temp-IsIdle options zone p cutoff container e dry (report, w) =
      elim (Bool-cases (ltb_ℤ cutoff e.last_modified_epoch_seconds)) [
        | inl young ↦ rw (visit_temp, young) (IsSame-refl w)
        | inr old ↦
            rw (visit_temp, old) (delete_candidate-IsIdle options zone _ e.key false p dry _)
      ]

  pub visit_orphan-IsIdle :
      (options : GcOptions) (p : Bytes) (cutoff : ℤ) (container : Bytes) (refs : Refs)
      (e : ListEntry)
      → options.dry_run ≡ true
      → IsIdle (visit_orphan options p cutoff container refs e)
  unfolding visit_orphan
  visit_orphan-IsIdle options p cutoff container refs e dry g =
      elim (Bool-cases (is_temp_key e.key)) [
        | inl temp ↦
            rw (visit_orphan, temp)
              (visit_temp-IsIdle options persistent p cutoff container e dry g)
        | inr other ↦ elim (Option-cases (lookup (ref_key container e.key) refs)) [
          | inr (r, found) ↦ rw (visit_orphan, other, found) (IsSame-refl g.1)
          | inl none_there ↦ elim (Bool-cases (ltb_ℤ cutoff e.last_modified_epoch_seconds)) [
            | inl young ↦ rw (visit_orphan, other, none_there, young) (IsSame-refl g.1)
            | inr old ↦
                rw (visit_orphan, other, none_there, old)
                  (delete_candidate-IsIdle options persistent _ e.key false p dry g)
          ]
        ]
      ]

  pub visit_staging-IsIdle :
      (options : GcOptions) (p : Bytes) (cutoff : ℤ) (container : Bytes) (refs : Refs)
      (e : ListEntry)
      → options.dry_run ≡ true
      → IsIdle (visit_staging options p cutoff container refs e)
  unfolding visit_staging
  visit_staging-IsIdle options p cutoff container refs e dry g =
      elim (Bool-cases (is_temp_key e.key)) [
        | inl temp ↦
            rw (visit_staging, temp) (visit_temp-IsIdle options staging p cutoff container e dry g)
        | inr other ↦ elim (Bool-cases (ltb_ℤ cutoff e.last_modified_epoch_seconds)) [
          | inl young ↦ rw (visit_staging, other, young) (IsSame-refl g.1)
          | inr old ↦ elim (Option-cases (lookup (ref_key container e.key) refs)) [
            | inl loose ↦
                rw (visit_staging, other, old, loose)
                  (delete_candidate-IsIdle options staging _ e.key false p dry g)
            | inr ((f, src), found) ↦ elim (Bool-cases (has_metadata_record p src g.1)) [
              | inl kept ↦ rw (visit_staging, other, old, found, kept) (IsSame-refl g.1)
              | inr gone ↦
                  rw (visit_staging, other, old, found, gone)
                    (delete_candidate-IsIdle options staging _ f true p dry g)
            ]
          ]
        ]
      ]

  swept-held :
      (dry_run : Bool) (zone : StorageZone) (container : Bytes) (cutoff : ℤ) (w : World R J)
      → dry_run ≡ true
      → (z : StorageZone) (c k : Bytes)
      → lookup_in c k
          (store_of z (
            set_store zone
              (remove_temp_files container cutoff dry_run (store_of zone w.stores)).1
              w.stores)).containers
        ≡ held z c k w
  swept-held dry_run zone container cutoff w dry z c k = rw dry (
      set_store-lookup zone z (remove_temp_files container cutoff true (store_of zone w.stores)).1
        w.stores c k (remove_temp_files-dry container cutoff (store_of zone w.stores) c k))

  pub sweep_zone-IsIdle :
      (options : GcOptions) (cutoff : ℤ) (zone : StorageZone) (named : Result Bytes)
      → options.dry_run ≡ true
      → IsIdle (sweep_zone options cutoff zone named)
  unfolding sweep_zone
  sweep_zone-IsIdle options cutoff zone (err e) dry (report, w) = IsSame-refl w
  sweep_zone-IsIdle options cutoff zone (ok container) dry (report, w) =
      let t = remove_temp_files container cutoff options.dry_run (store_of zone w.stores) in
      let same = swept-held options.dry_run zone container cutoff w dry in
      elim (Result-cases t.0) [
        | inr (e, q) ↦ rw (sweep_zone, q) (same, refl)
        | inl (r, e) ↦ rw (sweep_zone, e) (same, refl)
      ]
