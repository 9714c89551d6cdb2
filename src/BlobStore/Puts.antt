-- ===== src/BlobStore/Puts.antt =====
-- src/infra/blob/memory/memory_blob_store.cpp: what the reads give after a put, in a store for which
-- no fault is planned.
use fssvrcpp.Domain.{ObjectRef}
use fssvrcpp.Errors.{Result, ok, err, invalid_argument, not_found, Result-cases}
use fssvrcpp.Prelude.{
  ℕ, ◌-◌, ◌==◌, min, leb, length, take, drop, length-drop, take_whole, Bool, true, false, ◌&&◌,
  List, none, some, if◌then◌else◌, ◌≡◌, refl, sym, ◌∙◌, ap, arith, inl, inr, Bool-cases,
}
use fssvrcpp.Prelude.Bytes.{Bytes, codes, bytes_eqb, bytes_eqb_iff, is_empty}
use fssvrcpp.Prelude.Dict.{bytes_key, lookup_in, lookup_in-insert_in}
use fssvrcpp.Prelude.Int.{ℤ, pos, is_neg, is_nonpos}
use fssvrcpp.BlobStore.Types.{
  Op, Objects, Blobs, PutOptions, ObjectStat, begin_op, begun, is_bad_ref, has_container,
}
use fssvrcpp.BlobStore.Calls.{
  ByteRange, check_put, kept, new_object, put_read, put, get, deliver, part_of, stat, stat_of,
  missing_stat, max_object_bytes,
}

-- The part of a text that a range asks for: all of it, or what stands behind an offset within it, up
-- to a length, where 0 is no bound.
abbrev pub slice : ByteRange → Bytes → Result Bytes
slice range content =
    if range.offset == 0 && range.length == 0
    then ok content
    else if leb (length content) range.offset
    then err invalid_argument
    else if range.length == 0
    then ok (drop range.offset content)
    else ok (take range.length (drop range.offset content))

pub part_of-slice :
    (range : ByteRange) (content : Bytes) → part_of range content ≡ slice range content
unfolding part_of
part_of-slice range content =
    let rest = drop range.offset content in
    let left : ℕ = length content - range.offset in
    let size : length rest ≡ left = length-drop range.offset content in
    let all : take left rest ≡ rest = take_whole left rest (omega (arith, size)) in
    elim (Bool-cases (leb range.length left)) [
      | inl short ↦
          let bound : min range.length left ≡ range.length = ground (arith, short) in
          rw (part_of, bound) (ground (arith, all))
      | inr long ↦
          let bound : min range.length left ≡ left = ground (arith, long) in
          let wide : take range.length rest ≡ rest =
            take_whole range.length rest (ground (arith, size, long)) in
          rw (part_of, bound) (ground (arith, all, wide))
    ]

-- As in a plan by default: no call fails, no put is cut off, no checksum is replaced.
abbrev pub is_clear : Blobs → Bool
is_clear s =
    is_nonpos s.fault.fail_count
    && (is_neg s.fault.truncate_put_to_bytes && is_empty s.fault.checksum_override)

pub begin_op-clear :
    (op : Op) (s : Blobs)
    → is_clear s ≡ true
    → ((begin_op op s).0 ≡ ok tt)
      × ((begin_op op s).1.containers ≡ s.containers)
      × ((begin_op op s).1.fault ≡ s.fault)
unfolding begin_op
begin_op-clear op s h = (ground arith, ground arith, ground arith)

pub begun-clear :
    {A : Type 0} (op : Op) (body : Blobs → Result A × Blobs) (s : Blobs)
    → is_clear s ≡ true
    → begun op body s ≡ body (begin_op op s).1
unfolding begun
begun-clear op body s h = rw (begun, (begin_op-clear op s h).0) refl

-- What the reads answer, from the containers alone.
abbrev pub read_at : ObjectRef → ByteRange → List (Bytes × Objects) → Result Bytes
read_at ref range m =
    if is_bad_ref ref then err invalid_argument else elim (lookup_in ref.container ref.key m) [
      | none ↦ err not_found
      | some o ↦ deliver ok (part_of range o.content)
    ]

abbrev pub stat_at : ObjectRef → List (Bytes × Objects) → Result ObjectStat
stat_at ref m =
    if is_bad_ref ref then err invalid_argument else elim (lookup_in ref.container ref.key m) [
      | none ↦ ok missing_stat
      | some o ↦ ok (stat_of o)
    ]

deliver-ok : (r : Result Bytes) → deliver ok r ≡ r
deliver-ok (ok content) = refl
deliver-ok (err e) = refl

pub get-read_at :
    (ref : ObjectRef) (range : ByteRange) (s : Blobs)
    → is_clear s ≡ true
    → (get ref ok range s).0 ≡ read_at ref range s.containers
unfolding get
get-read_at ref range s h =
    let same = (begin_op-clear Op.get s h).1 in
    ap (λ r. r.0) (begun-clear Op.get _ s h) ∙ ground (arith, same)

pub stat-stat_at :
    (ref : ObjectRef) (s : Blobs) → is_clear s ≡ true → (stat ref s).0 ≡ stat_at ref s.containers
unfolding stat
stat-stat_at ref s h =
    let c = begin_op-clear Op.stat s h in
    ap (λ r. r.0) (begun-clear Op.stat _ s h) ∙ ground (arith, c)

module _ (sha256_hex : Bytes → Bytes) where
  -- The effect of a put on the lookups.
  put_read-clear :
      (now : ℤ) (ref : ObjectRef) (options : PutOptions) (content : Bytes) (s s' : Blobs)
      → is_clear s ≡ true
      → put_read sha256_hex now ref options (ok content) s ≡ (ok tt, s')
      → (c k : Bytes)
      → (is_clear s' ≡ true)
        × (lookup_in c k s'.containers ≡ (
            if bytes_eqb c ref.container && bytes_eqb k ref.key
            then some (new_object sha256_hex now options content)
            else lookup_in c k s.containers))
  unfolding put_read kept
  put_read-clear now ref options content s s' h e c k =
      elim (Result-cases (check_put sha256_hex options content)) [
        | inl (u, q) ↦
            let e' = rw (put_read, q) at e in
            ground (
              arith,
              e',
              lookup_in-insert_in ref.container c ref.key k
                  (new_object sha256_hex now options content) s.containers,
            )
        | inr (x, q) ↦ absurd (let e' = rw (put_read, q) at e in cc)
      ]

  pub put-clear :
      (now : ℤ) (ref : ObjectRef) (source : ℕ → Result Bytes) (options : PutOptions)
      (content : Bytes) (s s' : Blobs)
      → is_clear s ≡ true
      → source max_object_bytes ≡ ok content
      → put sha256_hex now ref source options s ≡ (ok tt, s')
      → (c k : Bytes)
      → (is_clear s' ≡ true)
        × (is_bad_ref ref ≡ false)
        × (lookup_in c k s'.containers ≡ (
            if bytes_eqb c ref.container && bytes_eqb k ref.key
            then some (new_object sha256_hex now options content)
            else lookup_in c k s.containers))
  unfolding put
  put-clear now ref source options content s s' h r e c k =
      let b = begin_op-clear Op.put s h in
      let e' = sym (begun-clear Op.put _ s h) ∙ e in
      elim (Bool-cases (is_bad_ref ref)) [
        | inl bad ↦ absurd (let f = rw bad at e' in cc)
        | inr good ↦ elim (Bool-cases (has_container ref.container (begin_op Op.put s).1)) [
          | inr missing ↦ absurd (let f = rw (good, missing) at e' in cc)
          | inl there ↦
              let f = rw (good, there, r) at e' in
              let q =
                put_read-clear now ref options content (begin_op Op.put s).1 s' (rw b.2 h) f c k in
              (q.0, good, rw (sym b.1) q.1)
        ]
      ]

  -- In a store without planned faults, after a put that succeeds: its reference reads back what the
  -- source held, whole or the part of it that a range asks for, and has a stat with the content's
  -- size and digest, the content type and the time; every other reference reads as before.
  pub get-put :
      (now : ℤ) (ref ref' : ObjectRef) (range : ByteRange) (source : ℕ → Result Bytes)
      (options : PutOptions) (content : Bytes) (s s' : Blobs)
      → is_clear s ≡ true
      → source max_object_bytes ≡ ok content
      → put sha256_hex now ref source options s ≡ (ok tt, s')
      → let same = bytes_eqb ref'.container ref.container && bytes_eqb ref'.key ref.key in
        ((get ref' ok range s').0 ≡ (if same then slice range content else (get ref' ok range s).0))
        × ((stat ref' s').0 ≡ (
            if same
            then ok (record {
              exists = true;
              size = pos (length content);
              content_type = options.content_type;
              checksum = sha256_hex content;
              checksum_algorithm = codes "SHA256";
              last_modified_epoch_seconds = now;
            })
            else (stat ref' s).0))
  unfolding is_bad_ref
  get-put now ref ref' range source options content s s' h r e =
      let q = put-clear now ref source options content s s' h r e ref'.container ref'.key in
      let g = get-read_at ref' range s h in
      let g' = get-read_at ref' range s' q.0 in
      let t = stat-stat_at ref' s h in
      let t' = stat-stat_at ref' s' q.0 in
      let c = bytes_eqb_iff ref'.container ref.container in
      let k = bytes_eqb_iff ref'.key ref.key in
      rw (g, g', t, t', ← part_of-slice range content)
        (ground (arith, q, c, k, deliver-ok (part_of range content)), ground (arith, q, c, k))
