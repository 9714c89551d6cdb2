-- ===== src/BlobStore/Faults.antt =====
-- src/infra/blob/memory/memory_blob_store.cpp: calls that fail, by a fault that is planned or by
-- their own checks.
use fssvrcpp.Domain.{ObjectRef}
use fssvrcpp.Errors.{Result, ok, err, is_ok, Result-cases}
use fssvrcpp.Prelude.{ℕ, Bool, false, not, ◌||◌, ◌≡◌, refl, ◌∙◌, arith, inl, inr}
use fssvrcpp.Prelude.Bytes.{Bytes}
use fssvrcpp.Prelude.Dict.{bytes_key}
use fssvrcpp.Prelude.Int.{ℤ, is_nonpos}
use fssvrcpp.BlobStore.Types.{Op, Blobs, PutOptions, begin_op, begun, op_eqb}
use fssvrcpp.BlobStore.Calls.{
  ByteRange, ensure_container, check_put, put_read, put, get, stat, remove, copy,
}
use fssvrcpp.BlobStore.Listing.{list, remove_temp_files}

-- A call of the store.
pub data Call : Type 0 where
  ensures : Bytes → Call
  puts : ℤ → ObjectRef → (ℕ → Result Bytes) → PutOptions → Call
  gets : ObjectRef → ByteRange → Call
  stats : ObjectRef → Call
  removes : ObjectRef → Call
  copies : ℤ → ObjectRef → ObjectRef → Call
  lists : Bytes → Bytes → Bytes → ℤ → Call
  sweeps : Bytes → ℤ → Bool → Call

-- No fault is planned for the operation.
abbrev pub is_quiet : Op → Blobs → Bool
is_quiet op s = not (op_eqb s.fault.op op) || is_nonpos s.fault.fail_count

pub begin_op-containers : (op : Op) (s : Blobs) → (begin_op op s).1.containers ≡ s.containers
unfolding begin_op
begin_op-containers op s = ground arith

abbrev pub void {ℓ} : {A : Type ℓ} → Result A → Result (Unit {0})
void (ok a) = ok tt
void (err e) = err e

module _ (sha256_hex : Bytes → Bytes) where
  unfoldable pub run_call : Call → Blobs → Result (Unit {0}) × Blobs
  run_call (ensures name) s = ensure_container name s
  run_call (puts now ref source options) s = put sha256_hex now ref source options s
  run_call (gets ref range) s = let r = get ref ok range s in (void r.0, r.1)
  run_call (stats ref) s = let r = stat ref s in (void r.0, r.1)
  run_call (removes ref) s = remove ref s
  run_call (copies now source target) s = let r = copy now source target s in (void r.0, r.1)
  run_call (lists container prefix token limit) s =
      let r = list container prefix token limit s in (void r.0, r.1)
  run_call (sweeps container older_than dry_run) s =
      let r = remove_temp_files container older_than dry_run s in (void r.0, r.1)

-- A body that changes no object if it fails.
abbrev pub IsAtomic : {A : Type 0} → (Blobs → Result A × Blobs) → Type 0
IsAtomic body = (s : Blobs) → is_ok (body s).0 ≡ false → (body s).1.containers ≡ s.containers

begun-IsAtomic :
    {A : Type 0} (op : Op) (body : Blobs → Result A × Blobs)
    → IsAtomic body
    → IsAtomic (begun op body)
unfolding begun
begun-IsAtomic op body h s f = elim (Result-cases (begin_op op s).0) [
  | inl (u, e) ↦
      let f' = rw (begun, e) at f in
      rw (begun, e) (h (begin_op op s).1 f' ∙ begin_op-containers op s)
  | inr (e, q) ↦ rw (begun, q) (begin_op-containers op s)
]

void-ok : {A : Type 0} (r : Result A) → is_ok (void r) ≡ false → is_ok r ≡ false
void-ok (ok a) h = h
void-ok (err e) h = refl

module _ (sha256_hex : Bytes → Bytes) where
  put_read-IsAtomic :
      (now : ℤ) (ref : ObjectRef) (options : PutOptions) (content : Result Bytes)
      → IsAtomic (put_read sha256_hex now ref options content)
  unfolding put_read
  put_read-IsAtomic now ref options (err e) s h = refl
  put_read-IsAtomic now ref options (ok content) s h =
      elim (Result-cases (check_put sha256_hex options content)) [
        | inl (u, e) ↦ absurd (let h' = rw (put_read, e) at h in cc)
        | inr (e, q) ↦ rw (put_read, q) refl
      ]

  put-IsAtomic :
      (now : ℤ) (ref : ObjectRef) (source : ℕ → Result Bytes) (options : PutOptions)
      → IsAtomic (put sha256_hex now ref source options)
  unfolding put
  put-IsAtomic now ref source options =
      begun-IsAtomic Op.put _
        (λ s h. ground (arith, put_read-IsAtomic now ref options (source _) s))

  ensure-IsAtomic : (name : Bytes) → IsAtomic (ensure_container name)
  unfolding ensure_container
  ensure-IsAtomic name = begun-IsAtomic Op.ensure_container _ (λ s h. ground arith)

  get-IsAtomic : (ref : ObjectRef) (range : ByteRange) → IsAtomic (get ref ok range)
  unfolding get
  get-IsAtomic ref range = begun-IsAtomic Op.get _ (λ s h. ground arith)

  stat-IsAtomic : (ref : ObjectRef) → IsAtomic (stat ref)
  unfolding stat
  stat-IsAtomic ref = begun-IsAtomic Op.stat _ (λ s h. ground arith)

  remove-IsAtomic : (ref : ObjectRef) → IsAtomic (remove ref)
  unfolding remove
  remove-IsAtomic ref = begun-IsAtomic Op.remove _ (λ s h. ground arith)

  copy-IsAtomic : (now : ℤ) (source target : ObjectRef) → IsAtomic (copy now source target)
  unfolding copy
  copy-IsAtomic now source target = begun-IsAtomic Op.copy _ (λ s h. ground arith)

  list-IsAtomic :
      (container prefix token : Bytes) (limit : ℤ) → IsAtomic (list container prefix token limit)
  unfolding list
  list-IsAtomic container prefix token limit = begun-IsAtomic Op.list _ (λ s h. ground arith)

  sweep-IsAtomic :
      (container : Bytes) (older_than : ℤ) (dry_run : Bool)
      → IsAtomic (remove_temp_files container older_than dry_run)
  unfolding remove_temp_files
  sweep-IsAtomic container older_than dry_run = begun-IsAtomic Op.list _ (λ s h. ground arith)

  -- Whatever call of the store fails, by its own checks or by a fault that is planned, every
  -- container holds the objects that it held before.
  pub run_call-IsAtomic :
      (c : Call) (s : Blobs)
      → is_ok (run_call sha256_hex c s).0 ≡ false
      → (run_call sha256_hex c s).1.containers ≡ s.containers
  unfolding run_call
  run_call-IsAtomic (ensures name) s h = ensure-IsAtomic name s h
  run_call-IsAtomic (puts now ref source options) s h = put-IsAtomic now ref source options s h
  run_call-IsAtomic (gets ref range) s h = get-IsAtomic ref range s (void-ok _ h)
  run_call-IsAtomic (stats ref) s h = stat-IsAtomic ref s (void-ok _ h)
  run_call-IsAtomic (removes ref) s h = remove-IsAtomic ref s h
  run_call-IsAtomic (copies now source target) s h = copy-IsAtomic now source target s (void-ok _ h)
  run_call-IsAtomic (lists container prefix token limit) s h =
      list-IsAtomic container prefix token limit s (void-ok _ h)
  run_call-IsAtomic (sweeps container older_than dry_run) s h =
      sweep-IsAtomic container older_than dry_run s (void-ok _ h)
