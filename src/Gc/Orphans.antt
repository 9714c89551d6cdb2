-- ===== src/Gc/Orphans.antt =====
-- src/app/tasks/gc_task.cpp: the collection of objects without a location leaves every object alone
-- that a location refers to.
use fssvrcpp.BlobStore.Listing.{ListEntry, list, is_temp_key}
use fssvrcpp.Domain.{StorageZone, persistent, FileLocation}
use fssvrcpp.Errors.{Result, ok, err, Result-cases}
use fssvrcpp.Gc.Idle.{listed, listed-IsSame}
use fssvrcpp.Gc.References.{all_of, found_ref, added_ref, referenced_refs-all}
use fssvrcpp.Gc.Safety.{held, is_at, delete_candidate-IsKept}
use fssvrcpp.Gc.Scans.{
  Refs, ref_key, add_refs, ref_at, cutoff_of, visit, walk_pages, visit_temp, visit_orphan,
  collect_orphan_objects,
}
use fssvrcpp.Gc.Tasks.{GcOptions, GcReport, Progress, delete_candidate}
use fssvrcpp.Location.{find}
use fssvrcpp.Prelude.{
  ℕ, zero, suc, true, false, ◌&&◌, List, [], ◌∷◌, none, some, has_value, ◌≡◌, refl, ◌∙◌, inl, inr,
  arith, Bool-cases, Option-cases,
}
use fssvrcpp.Prelude.Bytes.{Bytes, bytes_eqb, bytes_eqb_iff, is_empty}
use fssvrcpp.Prelude.Dict.{bytes_key, lookup}
use fssvrcpp.Prelude.Int.{ℤ, pos, ltb_ℤ}
use fssvrcpp.World.{World, Extra, store_of}

other_key :
    (c k container key : Bytes)
    → is_temp_key k ≡ false
    → is_temp_key key ≡ true
    → is_at c k (ref_at container key) ≡ false
other_key c k container key h i = elim (Bool-cases (bytes_eqb k key)) [
  | inl e ↦ absurd (let q = (bytes_eqb_iff k key).0 e in let h' = rw q at h in cc)
  | inr e ↦ ground (arith, e)
]

other_ref :
    (c k container key : Bytes) (refs : Refs)
    → has_value (lookup (ref_key c k) refs) ≡ true
    → lookup (ref_key container key) refs ≡ none
    → is_at c k (ref_at container key) ≡ false
other_ref c k container key refs h i =
    elim (Bool-cases (bytes_eqb c container && bytes_eqb k key)) [
      | inr e ↦ e
      | inl e ↦
          let a : c ≡ container = ground (arith, e, bytes_eqb_iff c container) in
          let b : k ≡ key = ground (arith, e, bytes_eqb_iff k key) in
          absurd (let h' = rw (a, b, i) at h in cc)
    ]

module _ {R J : Type 0} where
  -- A step that leaves what is held at a place as it is.
  abbrev IsSteady : Bytes → Bytes → (Progress R J → Progress R J) → Type 0
  IsSteady c k step =
      (g : Progress R J) (zone : StorageZone) → held zone c k (step g).1 ≡ held zone c k g.1

  visit-IsSteady :
      (c k : Bytes) (step : ListEntry → Progress R J → Progress R J) (es : List ListEntry)
      → ((e : ListEntry) → IsSteady c k (step e))
      → IsSteady c k (visit step es)
  unfolding visit
  visit-IsSteady c k step [] h g zone = refl
  visit-IsSteady c k step (e ∷ es) h g zone =
      visit-IsSteady c k step es h (step e g) zone ∙ h e g zone

  walk_pages-IsSteady :
      (c k : Bytes) (fuel : ℕ) (at : StorageZone) (container : Bytes)
      (step : ListEntry → Progress R J → Progress R J) (token : Bytes)
      → ((e : ListEntry) → IsSteady c k (step e))
      → IsSteady c k (walk_pages fuel at container step token)
  unfolding walk_pages
  walk_pages-IsSteady c k zero at container step token h g zone = refl
  walk_pages-IsSteady c k (suc fuel) at container step token h (report, w) zone =
      let before = (listed-IsSame at container token w).0 zone c k in
      elim (Result-cases (list container [] token (pos 500) (store_of at w.stores)).0) [
        | inr (e, q) ↦ rw (walk_pages, q) before
        | inl (page, e) ↦
            let start : Progress R J = (report, listed at container token w) in
            let seen = visit-IsSteady c k step page.entries h start zone ∙ before in
            elim (Bool-cases (is_empty page.continuation_token)) [
              | inl last ↦ rw (walk_pages, e, last) seen
              | inr more ↦
                  rw (walk_pages, e, more)
                    (walk_pages-IsSteady c k fuel at container step page.continuation_token h
                        (visit step page.entries start) zone
                      ∙ seen)
            ]
      ]

  delete_other :
      (options : GcOptions) (at : StorageZone) (container key p c k : Bytes) (g : Progress R J)
      (zone : StorageZone)
      → is_at c k (ref_at container key) ≡ false
      → held zone c k (delete_candidate options at (ref_at container key) key false p g).1
        ≡ held zone c k g.1
  delete_other options at container key p c k g zone h =
      (delete_candidate-IsKept options at (ref_at container key) key p c k false g h).0 zone

  visit_orphan-IsSteady :
      (options : GcOptions) (p : Bytes) (cutoff : ℤ) (container c k : Bytes) (refs : Refs)
      (e : ListEntry)
      → is_temp_key k ≡ false
      → has_value (lookup (ref_key c k) refs) ≡ true
      → IsSteady c k (visit_orphan options p cutoff container refs e)
  unfolding visit_orphan visit_temp
  visit_orphan-IsSteady options p cutoff container c k refs e proper there (report, w) zone =
      elim (Bool-cases (is_temp_key e.key)) [
        | inl temp ↦ elim (Bool-cases (ltb_ℤ cutoff e.last_modified_epoch_seconds)) [
          | inl young ↦ rw (visit_orphan, temp, visit_temp, young) refl
          | inr old ↦
              rw (visit_orphan, temp, visit_temp, old)
                (delete_other options persistent container e.key p c k
                  (record report { tmp_removed = suc report.tmp_removed }, w) zone
                  (other_key c k container e.key proper temp))
        ]
        | inr plain ↦ elim (Option-cases (lookup (ref_key container e.key) refs)) [
          | inr (r, found) ↦ rw (visit_orphan, plain, found) refl
          | inl loose ↦ elim (Bool-cases (ltb_ℤ cutoff e.last_modified_epoch_seconds)) [
            | inl young ↦ rw (visit_orphan, plain, loose, young) refl
            | inr old ↦
                rw (visit_orphan, plain, loose, old)
                  (delete_other options persistent container e.key p c k (report, w) zone
                    (other_ref c k container e.key refs there loose))
          ]
        ]
      ]

module _ {R J : Type 0} ⦃x : Extra J⦄ where
  -- The collection of orphans leaves what the stores of both zones have at a place that a location of
  -- the partition refers to, under a key that is not that of a temporary file, whatever fails and
  -- however far its walk gets.
  pub collect_orphan_objects-held :
      (fuel : ℕ) (options : GcOptions) (p : Bytes) (named : Result Bytes) (now : ℤ)
      (report : GcReport) (w : World R J) (f c k : Bytes) (l : FileLocation J) (zone : StorageZone)
      → find p f w.locations ≡ ok l
      → x.physical l.extra ≡ some (c, k)
      → is_temp_key k ≡ false
      → held zone c k (collect_orphan_objects fuel options p named now (report, w)).1
        ≡ held zone c k w
  unfolding collect_orphan_objects
  collect_orphan_objects-held fuel options p (err e) now report w f c k l zone h at proper = refl
  collect_orphan_objects-held fuel options p (ok container) now report w f c k l zone h at proper =
      let refs = add_refs (all_of p w.locations) [] in
      let there = added_ref c k (all_of p w.locations) [] (found_ref p f c k w.locations l h at) in
      let cutoff = cutoff_of now options.orphan_grace_hours in
      rw (collect_orphan_objects, referenced_refs-all p w.locations)
        (walk_pages-IsSteady c k fuel persistent container
          (visit_orphan options p cutoff container refs) []
          (λ e. visit_orphan-IsSteady options p cutoff container c k refs e proper there)
          (report, w) zone)
