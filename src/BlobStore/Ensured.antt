-- ===== src/BlobStore/Ensured.antt =====
-- src/infra/blob/memory/memory_blob_store.cpp: a put behind the call that makes its container.
use fssvrcpp.BlobStore.Calls
use fssvrcpp.BlobStore.Calls.{
  ByteRange, ensure_container, check_put, put_read, part_of, max_object_bytes,
}
use fssvrcpp.BlobStore.Puts.{
  is_clear, begin_op-clear, begun-clear, get-put, part_of-slice, put-clear, read_at, get-read_at,
}
use fssvrcpp.BlobStore.Types.{Objects, default_put, Op, Blobs, begin_op, is_bad_ref, has_container}
use fssvrcpp.Domain.{ObjectRef}
use fssvrcpp.Errors.{Result, ok}
use fssvrcpp.Prelude.{
  ℕ, List, has_value, true, false, ◌&&◌, if◌then◌else◌, ◌≡◌, refl, sym, ◌∙◌, ap, arith, inl, inr,
  Bool-cases,
}
use fssvrcpp.Prelude.Bytes.{Bytes, is_empty, bytes_eqb, bytes_eqb_refl}
use fssvrcpp.Prelude.Dict.{bytes_key, lookup, touch, lookup_in-touch, lookup-insert, bucket}
use fssvrcpp.Prelude.Int.{ℤ}

-- The container is there, and every object is as it was.
pub ensure_container-clear :
    (name : Bytes) (s : Blobs)
    → is_clear s ≡ true
    → is_empty name ≡ false
    → let b = (begin_op Op.ensure_container s).1 in
      ensure_container name s ≡ (ok tt, record b { containers = touch name b.containers })
unfolding ensure_container
ensure_container-clear name s h filled = begun-clear Op.ensure_container _ s h ∙ rw filled refl

ensure_container-filled :
    (name : Bytes) (s : Blobs) (u : Unit {0})
    → is_clear s ≡ true
    → (ensure_container name s).0 ≡ ok u
    → is_empty name ≡ false
unfolding ensure_container
ensure_container-filled name s u h e = elim (Bool-cases (is_empty name)) [
  | inr filled ↦ filled
  | inl bare ↦ absurd (
      let e' = ap (λ q. q.0) (sym (begun-clear Op.ensure_container _ s h)) ∙ e in
      let e'' = rw bare at e' in cc)
]

has_container-touch :
    (name : Bytes) (m : List (Bytes × Objects)) → has_value (lookup name (touch name m)) ≡ true
unfolding touch lookup
has_container-touch name m =
    ground (arith, bytes_eqb_refl name, lookup-insert name name (bucket name m) m)

read_at-touch :
    (ref : ObjectRef) (range : ByteRange) (name : Bytes) (m : List (Bytes × Objects))
    → read_at ref range (touch name m) ≡ read_at ref range m
read_at-touch ref range name m = rw (lookup_in-touch name ref.container ref.key m) refl

module _ (sha256_hex : Bytes → Bytes) (now : ℤ) (ref : ObjectRef) (body : ℕ → Result Bytes)
    (content : Bytes) where
  put-ok :
      (s : Blobs)
      → is_clear s ≡ true
      → is_bad_ref ref ≡ false
      → has_container ref.container s ≡ true
      → body max_object_bytes ≡ ok content
      → (Calls.put sha256_hex now ref body default_put s).0 ≡ ok tt
  unfolding Calls.put put_read check_put has_container
  put-ok s h good there r =
      let b = begin_op-clear Op.put s h in
      let there' : has_container ref.container (begin_op Op.put s).1 ≡ true =
        ground (arith, b, there) in
      ap (λ q. q.0) (begun-clear Op.put _ s h) ∙ rw (good, there', r) refl

  -- After `ensure_container` of its container, a put of the whole source succeeds, and what the
  -- references read then.
  pub put-ensured :
      (ref' : ObjectRef) (range : ByteRange) (s : Blobs)
      → is_clear s ≡ true
      → is_bad_ref ref ≡ false
      → body max_object_bytes ≡ ok content
      → let e = ensure_container ref.container s in
        let r = Calls.put sha256_hex now ref body default_put e.1 in
        let same = bytes_eqb ref'.container ref.container && bytes_eqb ref'.key ref.key in
        (e.0 ≡ ok tt)
        × (r.0 ≡ ok tt)
        × (is_clear r.1 ≡ true)
        × ((Calls.get ref' ok range r.1).0
            ≡ (if same then part_of range content else (Calls.get ref' ok range s).0))
  unfolding has_container is_bad_ref
  put-ensured ref' range s h good r =
      let b = begin_op-clear Op.ensure_container s h in
      let filled : is_empty ref.container ≡ false = ground (arith, good) in
      let e = ensure_container-clear ref.container s h filled in
      let s1 : Blobs = (ensure_container ref.container s).1 in
      let at : s1.containers ≡ touch ref.container s.containers = rw (e, b.1) refl in
      let clear : is_clear s1 ≡ true = rw (e, b.2) h in
      let there : has_container ref.container s1 ≡ true =
        ground (arith, at, has_container-touch ref.container s.containers) in
      let same_read : (Calls.get ref' ok range s1).0 ≡ (Calls.get ref' ok range s).0 =
        get-read_at ref' range s1 clear
        ∙ (ap (read_at ref' range) at
            ∙ (read_at-touch ref' range ref.container s.containers
                ∙ sym (get-read_at ref' range s h))) in
      let done = put-ok s1 clear good there r in
      let s2 : Blobs = (Calls.put sha256_hex now ref body default_put s1).1 in
      let kept =
        put-clear sha256_hex now ref body default_put content s1 s2 clear r (λ i. (done i, s2))
          ref.container ref.key in
      let q =
        get-put sha256_hex now ref ref' range body default_put content s1
          (Calls.put sha256_hex now ref body default_put s1).1 clear r
          (λ i. (done i, (Calls.put sha256_hex now ref body default_put s1).1)) in
      (rw e refl, done, kept.0, rw (part_of-slice range content) (ground (arith, q.0, same_read)))

  -- A put that succeeded behind its `ensure_container` had a proper reference.
  pub put-ensured-good :
      (s : Blobs) (u v : Unit {0})
      → is_clear s ≡ true
      → body max_object_bytes ≡ ok content
      → (ensure_container ref.container s).0 ≡ ok u
      → (Calls.put sha256_hex now ref body default_put (ensure_container ref.container s).1).0
        ≡ ok v
      → is_bad_ref ref ≡ false
  put-ensured-good s u v h r ensured done =
      let s1 : Blobs = (ensure_container ref.container s).1 in
      let filled = ensure_container-filled ref.container s u h ensured in
      let e = ensure_container-clear ref.container s h filled in
      let clear : is_clear s1 ≡ true = rw (e, (begin_op-clear Op.ensure_container s h).2) h in
      let s2 : Blobs = (Calls.put sha256_hex now ref body default_put s1).1 in
      (put-clear sha256_hex now ref body default_put content s1 s2 clear r (λ i. (done i, s2))
        ref.container ref.key).1
