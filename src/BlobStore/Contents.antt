-- ===== src/BlobStore/Contents.antt =====
-- src/infra/blob/memory/memory_blob_store.cpp: what the reads give after a copy or a removal, in a
-- store for which no fault is planned.
use fssvrcpp.Domain.{ObjectRef}
use fssvrcpp.Errors.{ok, err, not_found}
use fssvrcpp.Prelude.{
  true, false, ◌&&◌, ◌||◌, List, none, some, if◌then◌else◌, ◌≡◌, refl, sym, ◌∙◌, arith, inl, inr,
  Bool-cases, Option-cases,
}
use fssvrcpp.Prelude.Bytes.{Bytes, bytes_eqb, bytes_eqb_iff}
use fssvrcpp.Prelude.Dict.{
  bytes_key, lookup, lookup_in, lookup_in-insert_in, lookup_in-remove_in, bucket,
}
use fssvrcpp.Prelude.Int.{ℤ}
use fssvrcpp.BlobStore.Types.{
  Op, Object, Objects, Blobs, ObjectStat, begin_op, is_bad_ref, has_container,
}
use fssvrcpp.BlobStore.Calls.{
  ByteRange, get, stat, stat_of, missing_stat, remove_begun, remove, copy, copy_of,
}
use fssvrcpp.BlobStore.Puts.{is_clear, begin_op-clear, begun-clear, get-read_at, stat-stat_at}

-- The effect of a copy on the lookups.
copy-clear :
    (now : ℤ) (source target : ObjectRef) (t : ObjectStat) (s s' : Blobs)
    → is_clear s ≡ true
    → copy now source target s ≡ (ok t, s')
    → (c k : Bytes)
    → let from = lookup_in source.container source.key s.containers in
      (is_clear s' ≡ true)
      × (is_bad_ref source ≡ false)
      × (is_bad_ref target ≡ false)
      × ((o : Object) × (from ≡ some o)
          × (t ≡ stat_of (copy_of now o))
          × (lookup_in c k s'.containers ≡ (
              if bytes_eqb c target.container && bytes_eqb k target.key
              then some (copy_of now o)
              else lookup_in c k s.containers)))
unfolding copy
copy-clear now source target t s s' h e c k =
    let b = begin_op-clear Op.copy s h in
    let e' = sym (begun-clear Op.copy _ s h) ∙ e in
    elim (Bool-cases (is_bad_ref source || is_bad_ref target)) [
      | inl bad ↦ absurd (let f = rw bad at e' in cc)
      | inr good ↦
          let f = rw good at e' in
          elim (Option-cases (lookup_in source.container source.key s.containers)) [
            | inl none_there ↦ absurd (let g = rw (b.1, none_there) at f in cc)
            | inr (o, there) ↦
                let g = rw (b.1, there) at f in
                elim (Bool-cases (has_container target.container (begin_op Op.copy s).1)) [
                  | inr missing ↦ absurd (let i = rw missing at g in cc)
                  | inl ready ↦
                      let i = rw ready at g in
                      (
                        ground (arith, i, h, b),
                        ground (arith, good),
                        ground (arith, good),
                        (
                          o,
                          there,
                          ground (arith, i),
                          ground (
                            arith,
                            i,
                            b,
                            lookup_in-insert_in target.container c target.key k (copy_of now o)
                                s.containers,
                          ),
                        ),
                      )
                ]
          ]
    ]

-- In a store without planned faults, after a copy that succeeds: the target reads, in any range,
-- what the source read before, the answer is the stat of the target, and every other reference
-- reads as before.
pub get-copy :
    (now : ℤ) (source target ref : ObjectRef) (range : ByteRange) (t : ObjectStat) (s s' : Blobs)
    → is_clear s ≡ true
    → copy now source target s ≡ (ok t, s')
    → let same = bytes_eqb ref.container target.container && bytes_eqb ref.key target.key in
      ((get ref ok range s').0
        ≡ (if same then (get source ok range s).0 else (get ref ok range s).0))
      × ((stat ref s').0 ≡ (if same then ok t else (stat ref s).0))
unfolding is_bad_ref
get-copy now source target ref range t s s' h e =
    let q = copy-clear now source target t s s' h e ref.container ref.key in
    let g = get-read_at ref range s h in
    let gs = get-read_at source range s h in
    let g' = get-read_at ref range s' q.0 in
    let u = stat-stat_at ref s h in
    let u' = stat-stat_at ref s' q.0 in
    let c = bytes_eqb_iff ref.container target.container in
    let k = bytes_eqb_iff ref.key target.key in
    rw (g, gs, g', u, u') (ground (arith, q, c, k), ground (arith, q, c, k))

lookup_in-missing :
    (c k : Bytes) (m : List (Bytes × Objects)) → lookup c m ≡ none → lookup_in c k m ≡ none
unfolding lookup_in bucket lookup
lookup_in-missing c k m h = rw (bucket, h) refl

-- The effect of a removal, which succeeds on every proper reference, be there an object or not.
pub remove_begun-clear :
    (ref : ObjectRef) (s : Blobs)
    → is_bad_ref ref ≡ false
    → (c k : Bytes)
    → ((remove_begun ref s).0 ≡ ok tt)
      × ((remove_begun ref s).1.fault ≡ s.fault)
      × (lookup_in c k (remove_begun ref s).1.containers ≡ (
          if bytes_eqb c ref.container && bytes_eqb k ref.key
          then none
          else lookup_in c k s.containers))
unfolding remove_begun has_container
remove_begun-clear ref s good c k =
    let r = lookup_in-remove_in ref.container c ref.key k s.containers in
    let i = bytes_eqb_iff c ref.container in
    elim (Option-cases (lookup ref.container s.containers)) [
      | inl gone ↦
          let n = lookup_in-missing ref.container k s.containers gone in
          rw (remove_begun, good, has_container, gone) (refl, refl, ground (arith, n, i))
      | inr (m, there) ↦ rw (remove_begun, good, has_container, there) (refl, refl, r)
    ]

remove-clear :
    (ref : ObjectRef) (s : Blobs)
    → is_clear s ≡ true
    → is_bad_ref ref ≡ false
    → (c k : Bytes)
    → ((remove ref s).0 ≡ ok tt)
      × (is_clear (remove ref s).1 ≡ true)
      × (lookup_in c k (remove ref s).1.containers ≡ (
          if bytes_eqb c ref.container && bytes_eqb k ref.key
          then none
          else lookup_in c k s.containers))
unfolding remove
remove-clear ref s h good c k =
    let b = begin_op-clear Op.remove s h in
    let q = remove_begun-clear ref (begin_op Op.remove s).1 good c k in
    rw (begun-clear Op.remove (remove_begun ref) s h) (q.0, rw (q.1, b.2) h, q.2 ∙ rw b.1 refl)

-- In a store without planned faults, a removal at a proper reference succeeds, and leaves nothing
-- there: a get answers `not_found`, a stat that nothing exists, a second removal succeeds as well;
-- every other reference reads as before.
pub get-remove :
    (ref ref' : ObjectRef) (range : ByteRange) (s : Blobs)
    → is_clear s ≡ true
    → is_bad_ref ref ≡ false
    → let s' = (remove ref s).1 in
      let same = bytes_eqb ref'.container ref.container && bytes_eqb ref'.key ref.key in
      ((remove ref s).0 ≡ ok tt)
      × ((remove ref s').0 ≡ ok tt)
      × ((get ref' ok range s').0 ≡ (if same then err not_found else (get ref' ok range s).0))
      × ((stat ref' s').0 ≡ (if same then ok missing_stat else (stat ref' s).0))
unfolding is_bad_ref
get-remove ref ref' range s h good =
    let q = remove-clear ref s h good ref'.container ref'.key in
    let again = remove-clear ref (remove ref s).1 q.1 good ref'.container ref'.key in
    let g = get-read_at ref' range s h in
    let g' = get-read_at ref' range (remove ref s).1 q.1 in
    let u = stat-stat_at ref' s h in
    let u' = stat-stat_at ref' (remove ref s).1 q.1 in
    let c = bytes_eqb_iff ref'.container ref.container in
    let k = bytes_eqb_iff ref'.key ref.key in
    (
      q.0,
      again.0,
      rw (g, g') (ground (arith, q, c, k, good)),
      rw (u, u') (ground (arith, q, c, k, good)),
    )
