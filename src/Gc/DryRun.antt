-- ===== src/Gc/DryRun.antt =====
-- src/app/tasks/gc_task.cpp: a dry run.
use fssvrcpp.Domain.{StorageZone, staging, persistent, FileLocation}
use fssvrcpp.Errors.{Result, ok, err, Result-cases}
use fssvrcpp.Gc.Safety.{held}
use fssvrcpp.Lease.{Lease, claim_expired}
use fssvrcpp.Metadata.Claiming.{reclaim_stale_claiming}
use fssvrcpp.ObjectKey.{PartitionConfig, container_for_registered}
use fssvrcpp.Prelude.{
  arith, ◌||◌, Bool, ℕ, true, not, List, [], ◌∷◌, Option, none, some, if◌then◌else◌, map, length,
  ◌≡◌, inl, inr, Bool-cases,
}
use fssvrcpp.Prelude.Bytes.{Bytes, is_empty}
use fssvrcpp.Prelude.Dict.{bytes_key}
use fssvrcpp.Prelude.Int.{ℤ, is_nonpos, ◌-ℤ◌}
use fssvrcpp.World.{World, Extra, object_ref_from_location}
use fssvrcpp.Gc.Tasks.{
  GcOptions, Progress, lease_key_of, has_metadata_record, resolve, collect_resolved, collect_leases,
  reclaim_claims, collect_expired_leases,
}
use fssvrcpp.Gc.Scans.{
  referenced_refs, visit_staging, visit_orphan, sweep_zone, collect_expired_staging,
  collect_orphan_objects, run_parts, run, new_report, cutoff_of,
}
use fssvrcpp.Gc.Idle.{
  IsSame, IsSame-refl, IsSame-trans, delete_candidate-IsIdle, walk_pages-IsIdle,
  visit_orphan-IsIdle, visit_staging-IsIdle, sweep_zone-IsIdle,
}

module _ {R J : Type 0} ⦃x : Extra J⦄ where
  collect_resolved-IsIdle :
      (options : GcOptions) (p : Bytes) (o : Option (FileLocation J)) (g : Progress R J)
      → options.dry_run ≡ true
      → IsSame g.1 (collect_resolved options p o g).1
  unfolding collect_resolved
  collect_resolved-IsIdle options p none (report, w) dry = IsSame-refl w
  collect_resolved-IsIdle options p (some l) (report, w) dry =
      elim (Bool-cases (has_metadata_record p l.file_source w)) [
        | inl kept ↦ rw (collect_resolved, kept) (IsSame-refl w)
        | inr loose ↦ elim (Result-cases (object_ref_from_location l)) [
          | inr (e, q) ↦ rw (collect_resolved, loose, q) (IsSame-refl w)
          | inl (ref, e) ↦
              rw (collect_resolved, loose, e)
                (delete_candidate-IsIdle options l.zone ref l.file_id true p dry (report, w))
        ]
      ]

  collect_leases-IsIdle :
      (options : GcOptions) (p : Bytes) (ls : List Lease) (g : Progress R J)
      → options.dry_run ≡ true
      → IsSame g.1 (collect_leases options p ls g).1
  unfolding collect_leases
  collect_leases-IsIdle options p [] g dry = IsSame-refl g.1
  collect_leases-IsIdle options p (l ∷ ls) g dry =
      let g' = collect_resolved options p (resolve p l g.1) g in
      IsSame-trans g.1 g'.1 (collect_leases options p ls g').1
        (collect_resolved-IsIdle options p (resolve p l g.1) g dry)
        (collect_leases-IsIdle options p ls g' dry)

  reclaim_claims-IsIdle :
      (options : GcOptions) (p : Bytes) (now : ℤ) (ls : List Lease) (g : Progress R J)
      → IsSame g.1 (reclaim_claims options p now ls g).1
  unfolding reclaim_claims
  reclaim_claims-IsIdle options p now [] g = IsSame-refl g.1
  reclaim_claims-IsIdle options p now (l ∷ ls) (report, w) =
      elim (Result-cases
        (reclaim_stale_claiming p (now -ℤ options.lease_ttl_seconds) options.claim_limit
          (map lease_key_of (l ∷ ls)) w.metadata).0) [
            | inl (n, e) ↦ rw (reclaim_claims, e) (IsSame-refl w)
            | inr (e, q) ↦ rw (reclaim_claims, q) (IsSame-refl w)
          ]

  collect_expired_leases-IsIdle :
      (options : GcOptions) (p instance_id : Bytes) (now_millis now : ℤ) (g : Progress R J)
      → options.dry_run ≡ true
      → IsSame g.1 (collect_expired_leases options p instance_id now_millis now g).1
  unfolding collect_expired_leases
  collect_expired_leases-IsIdle options p instance_id now_millis now (report, w) dry =
      elim (Result-cases (claim_expired now_millis p options.claim_limit instance_id w.leases).0) [
        | inr (e, q) ↦ rw (collect_expired_leases, q) (IsSame-refl w)
        | inl (ls, e) ↦
            let start = record w {
              leases = (claim_expired now_millis p options.claim_limit instance_id w.leases).1;
            } in
            let g' =
              reclaim_claims options p now ls
                (record report { expired_leases_claimed = length ls }, start) in
            rw (collect_expired_leases, e)
              (IsSame-trans w g'.1 (collect_leases options p ls g').1
                (reclaim_claims-IsIdle options p now ls
                  (record report { expired_leases_claimed = length ls }, start))
                (collect_leases-IsIdle options p ls g' dry))
      ]

  collect_expired_staging-IsIdle :
      (fuel : ℕ) (options : GcOptions) (p : Bytes) (named : Result Bytes) (now : ℤ)
      (g : Progress R J)
      → options.dry_run ≡ true
      → IsSame g.1 (collect_expired_staging fuel options p named now g).1
  unfolding collect_expired_staging
  collect_expired_staging-IsIdle fuel options p (err e) now (report, w) dry = IsSame-refl w
  collect_expired_staging-IsIdle fuel options p (ok container) now (report, w) dry =
      elim (Result-cases (referenced_refs p w.locations)) [
        | inr (e, q) ↦ rw (collect_expired_staging, q) (IsSame-refl w)
        | inl (refs, e) ↦
            let cutoff = cutoff_of now options.staging_ttl_hours in
            rw (collect_expired_staging, e)
              (walk_pages-IsIdle fuel staging container
                (visit_staging options p cutoff container refs) []
                (λ entry. visit_staging-IsIdle options p cutoff container refs entry dry)
                (report, w))
      ]

  collect_orphan_objects-IsIdle :
      (fuel : ℕ) (options : GcOptions) (p : Bytes) (named : Result Bytes) (now : ℤ)
      (g : Progress R J)
      → options.dry_run ≡ true
      → IsSame g.1 (collect_orphan_objects fuel options p named now g).1
  unfolding collect_orphan_objects
  collect_orphan_objects-IsIdle fuel options p (err e) now (report, w) dry = IsSame-refl w
  collect_orphan_objects-IsIdle fuel options p (ok container) now (report, w) dry =
      elim (Result-cases (referenced_refs p w.locations)) [
        | inr (e, q) ↦ rw (collect_orphan_objects, q) (IsSame-refl w)
        | inl (refs, e) ↦
            let cutoff = cutoff_of now options.orphan_grace_hours in
            rw (collect_orphan_objects, e)
              (walk_pages-IsIdle fuel persistent container
                (visit_orphan options p cutoff container refs) []
                (λ entry. visit_orphan-IsIdle options p cutoff container refs entry dry)
                (report, w))
      ]

  -- The scan of the staging zone, where it is switched on.
  scanned-IsIdle :
      (options : GcOptions) (a b w : Progress R J)
      → IsSame w.1 a.1
      → IsSame a.1 b.1
      → IsSame w.1 (if not options.require_lease_expiry then b else a).1
  scanned-IsIdle options a b w h k = elim (Bool-cases options.require_lease_expiry) [
    | inl on ↦ rw on h
    | inr off ↦ rw off (IsSame-trans w.1 a.1 b.1 h k)
  ]

  run_parts-IsIdle :
      (fuel : ℕ) (options : GcOptions) (p instance_id : Bytes) (named : StorageZone → Result Bytes)
      (now_millis now : ℤ) (g : Progress R J)
      → options.dry_run ≡ true
      → IsSame g.1 (run_parts fuel options p instance_id named now_millis now g).1
  unfolding run_parts
  run_parts-IsIdle fuel options p instance_id named now_millis now g dry =
      let a = collect_expired_leases options p instance_id now_millis now g in
      let b = collect_expired_staging fuel options p (named staging) now a in
      let s = if not options.require_lease_expiry then b else a in
      let c = collect_orphan_objects fuel options p (named persistent) now s in
      let cutoff = cutoff_of now options.staging_ttl_hours in
      let d = sweep_zone options cutoff staging (named staging) c in
      let first =
        scanned-IsIdle options a b g
          (collect_expired_leases-IsIdle options p instance_id now_millis now g dry)
          (collect_expired_staging-IsIdle fuel options p (named staging) now a dry) in
      let second =
        IsSame-trans g.1 s.1 c.1 first
          (collect_orphan_objects-IsIdle fuel options p (named persistent) now s dry) in
      let third =
        IsSame-trans g.1 c.1 d.1 second
          (sweep_zone-IsIdle options cutoff staging (named staging) dry c) in
      IsSame-trans g.1 d.1 (sweep_zone options cutoff persistent (named persistent) d).1 third
        (sweep_zone-IsIdle options cutoff persistent (named persistent) dry d)

  run-IsSame :
      (fuel : ℕ) (busy : Bool) (options : GcOptions) (p instance_id : Bytes)
      (registered : Bytes → Result PartitionConfig) (now_millis now : ℤ) (w : World R J)
      → options.dry_run ≡ true
      → IsSame w (run fuel busy options p instance_id registered now_millis now w).1
  unfolding run
  run-IsSame fuel busy options p instance_id registered now_millis now w dry =
      elim (Bool-cases (busy || (is_empty p || is_nonpos options.claim_limit))) [
        | inl refused ↦
            let same : (run fuel busy options p instance_id registered now_millis now w).1 ≡ w =
              ground (arith, refused) in
            rw same (IsSame-refl w)
        | inr ready ↦
            let parts =
              run_parts fuel options p instance_id (container_for_registered (registered p) p)
                now_millis now (new_report options, w) in
            let done : (run fuel busy options p instance_id registered now_millis now w).1
                ≡ parts.1 =
              ground (arith, ready) in
            rw done (
              run_parts-IsIdle fuel options p instance_id
                (container_for_registered (registered p) p) now_millis now (new_report options, w)
                dry)
      ]

  -- A dry run, whatever its other options, the state of the repositories and the faults of the
  -- stores are, and however far its walks get, leaves every object of both zones and all locations as
  -- they are.
  pub run-dry :
      (fuel : ℕ) (busy : Bool) (options : GcOptions) (p instance_id : Bytes)
      (registered : Bytes → Result PartitionConfig) (now_millis now : ℤ) (w : World R J)
      (zone : StorageZone) (c k : Bytes)
      → options.dry_run ≡ true
      → let w' = (run fuel busy options p instance_id registered now_millis now w).1 in
        (held zone c k w' ≡ held zone c k w) × (w'.locations ≡ w.locations)
  run-dry fuel busy options p instance_id registered now_millis now w zone c k dry =
      let h = run-IsSame fuel busy options p instance_id registered now_millis now w dry in
      (h.0 zone c k, h.1)
