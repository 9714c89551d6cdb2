-- ===== src/BlobStore/Keeping.antt =====
-- src/infra/blob/memory/memory_blob_store.cpp: each call keeps the keys of every container in order.
use fssvrcpp.Domain.{ObjectRef}
use fssvrcpp.Errors.{Result, ok, err, Result-cases}
use fssvrcpp.Prelude.{
  ℕ, Bool, false, ◌||◌, List, [], ◌∷◌, some, ◌≡◌, sym, arith, inl, inr, Bool-cases, Option-cases,
}
use fssvrcpp.Prelude.Bytes.{Bytes, bytes_eqb, is_empty}
use fssvrcpp.Prelude.Dict.{
  bytes_key, lookup, insert, remove, insert_in, remove_in, touch, bucket, lookup-insert, lookup_in,
  Above, IsSorted, insert-IsSorted, remove-IsSorted,
}
use fssvrcpp.Prelude.Int.{ℤ, is_nonpos}
use fssvrcpp.BlobStore.Types.{
  Op, Object, Objects, Blobs, PutOptions, begin_op, begun, is_bad_ref, has_container,
}
use fssvrcpp.BlobStore.Calls.{
  ByteRange, ensure_container, check_put, put_read, put, get, stat, remove_begun, copy,
}
use fssvrcpp.BlobStore.Listing.{list, sweep, remove_temp_files}
use fssvrcpp.BlobStore.Faults.{begin_op-containers}
use fssvrcpp.BlobStore.Pages.{IsProper}

abbrev pub IsListable : Objects → Type 0
IsListable m = IsSorted m × IsProper m

-- Every container is one that listings walk through in order.
abbrev pub IsOrdered : List (Bytes × Objects) → Type 0
IsOrdered m = (c : Bytes) (objects : Objects) → lookup c m ≡ some objects → IsListable objects

insert-IsProper :
    (k : Bytes) (o : Object) (m : Objects)
    → is_empty k ≡ false
    → IsProper m
    → IsProper (insert k o m)
unfolding insert
insert-IsProper k o [] h n = (h, tt)
insert-IsProper k o ((j, w) ∷ m) h n = ground (arith, insert-IsProper k o m h)

remove-IsProper : (k : Bytes) (m : Objects) → IsProper m → IsProper (remove k m)
unfolding remove
remove-IsProper k [] n = tt
remove-IsProper k ((j, w) ∷ m) n = ground (arith, remove-IsProper k m n.1)

sweep-Above :
    (b : Bytes) (older_than : ℤ) (dry_run : Bool) (m : Objects)
    → Above b m
    → Above b (sweep older_than dry_run m).1
unfolding sweep
sweep-Above b older_than dry_run [] a = tt
sweep-Above b older_than dry_run ((k, o) ∷ m) a =
    ground (arith, sweep-Above b older_than dry_run m a.1)

sweep-IsListable :
    (older_than : ℤ) (dry_run : Bool) (m : Objects)
    → IsListable m
    → IsListable (sweep older_than dry_run m).1
unfolding sweep
sweep-IsListable older_than dry_run [] h = (tt, tt)
sweep-IsListable older_than dry_run ((k, o) ∷ m) h = ground (
  arith,
  sweep-Above k older_than dry_run m h.0.0,
  sweep-IsListable older_than dry_run m (h.0.1, h.1.1),
)

bucket-IsListable : (c : Bytes) (m : List (Bytes × Objects)) → IsOrdered m → IsListable (bucket c m)
unfolding bucket
bucket-IsListable c m h = elim (Option-cases (lookup c m)) [
  | inl e ↦ rw (bucket, e) (tt, tt)
  | inr (objects, e) ↦ rw (bucket, e) (h c objects e)
]

insert-IsOrdered :
    (c : Bytes) (objects : Objects) (m : List (Bytes × Objects))
    → IsOrdered m
    → IsListable objects
    → IsOrdered (insert c objects m)
insert-IsOrdered c objects m h g d found e = elim (Bool-cases (bytes_eqb d c)) [
  | inl same ↦
      let e' = rw (lookup-insert c d objects m, same) at e in
      let q : objects ≡ found = cc in rw (sym q) g
  | inr other ↦ let e' = rw (lookup-insert c d objects m, other) at e in h d found e'
]

-- A body that keeps the containers in order.
abbrev pub IsKeeping : {A : Type 0} → (Blobs → Result A × Blobs) → Type 0
IsKeeping body = (s : Blobs) → IsOrdered s.containers → IsOrdered (body s).1.containers

pub begun-IsKeeping :
    {A : Type 0} (op : Op) (body : Blobs → Result A × Blobs)
    → IsKeeping body
    → IsKeeping (begun op body)
unfolding begun
begun-IsKeeping op body h s o =
    let o' : IsOrdered (begin_op op s).1.containers = rw (begin_op-containers op s) o in
    elim (Result-cases (begin_op op s).0) [
      | inl (u, e) ↦ rw (begun, e) (h (begin_op op s).1 o')
      | inr (e, q) ↦ rw (begun, q) o'
    ]

insert_in-IsOrdered :
    (c k : Bytes) (o : Object) (m : List (Bytes × Objects))
    → is_empty k ≡ false
    → IsOrdered m
    → IsOrdered (insert_in c k o m)
unfolding insert_in
insert_in-IsOrdered c k o m e h =
    let b = bucket-IsListable c m h in
    insert-IsOrdered c (insert k o (bucket c m)) m h
      (insert-IsSorted k o (bucket c m) b.0, insert-IsProper k o (bucket c m) e b.1)

pub ensure-IsKeeping : (name : Bytes) → IsKeeping (ensure_container name)
unfolding ensure_container touch
ensure-IsKeeping name = begun-IsKeeping Op.ensure_container _ (λ s h.
    elim (Bool-cases (is_empty name)) [
      | inl e ↦ rw e h
      | inr e ↦ rw e (
          insert-IsOrdered name (bucket name s.containers) s.containers h
            (bucket-IsListable name s.containers h))
    ])

key-of : (ref : ObjectRef) → is_bad_ref ref ≡ false → is_empty ref.key ≡ false
unfolding is_bad_ref
key-of ref h = ground (arith, h)

module _ (sha256_hex : Bytes → Bytes) where
  put_read-IsKeeping :
      (now : ℤ) (ref : ObjectRef) (options : PutOptions) (content : Result Bytes)
      → is_empty ref.key ≡ false
      → IsKeeping (put_read sha256_hex now ref options content)
  unfolding put_read
  put_read-IsKeeping now ref options (err e) k s h = h
  put_read-IsKeeping now ref options (ok content) k s h =
      elim (Result-cases (check_put sha256_hex options content)) [
        | inl (u, e) ↦
            rw (put_read, e) (insert_in-IsOrdered ref.container ref.key _ s.containers k h)
        | inr (e, q) ↦ rw (put_read, q) h
      ]

  pub put-IsKeeping :
      (now : ℤ) (ref : ObjectRef) (source : ℕ → Result Bytes) (options : PutOptions)
      → IsKeeping (put sha256_hex now ref source options)
  unfolding put
  put-IsKeeping now ref source options = begun-IsKeeping Op.put _ (λ s h.
      elim (Bool-cases (is_bad_ref ref)) [
        | inl e ↦ rw e h
        | inr e ↦ elim (Bool-cases (has_container ref.container s)) [
          | inl there ↦
              rw (e, there) (put_read-IsKeeping now ref options (source _) (key-of ref e) s h)
          | inr gone ↦ rw (e, gone) h
        ]
      ])

pub get-IsKeeping : (ref : ObjectRef) (range : ByteRange) → IsKeeping (get ref ok range)
unfolding get
get-IsKeeping ref range = begun-IsKeeping Op.get _ (λ s h. elim (Bool-cases (is_bad_ref ref)) [
  | inl e ↦ rw e h
  | inr e ↦ elim (Option-cases (lookup_in ref.container ref.key s.containers)) [
    | inl n ↦ rw (e, n) h
    | inr (o, n) ↦ rw (e, n) h
  ]
])

pub stat-IsKeeping : (ref : ObjectRef) → IsKeeping (stat ref)
unfolding stat
stat-IsKeeping ref = begun-IsKeeping Op.stat _ (λ s h. elim (Bool-cases (is_bad_ref ref)) [
  | inl e ↦ rw e h
  | inr e ↦ elim (Option-cases (lookup_in ref.container ref.key s.containers)) [
    | inl n ↦ rw (e, n) h
    | inr (o, n) ↦ rw (e, n) h
  ]
])

pub remove_begun-IsKeeping : (ref : ObjectRef) → IsKeeping (remove_begun ref)
unfolding remove_begun remove_in
remove_begun-IsKeeping ref s h = elim (Bool-cases (is_bad_ref ref)) [
  | inl e ↦ rw (remove_begun, e) h
  | inr e ↦ elim (Bool-cases (has_container ref.container s)) [
    | inl there ↦
        let b = bucket-IsListable ref.container s.containers h in
        rw (remove_begun, e, there)
          (insert-IsOrdered ref.container (remove ref.key (bucket ref.container s.containers))
            s.containers h (remove-IsSorted ref.key _ b.0, remove-IsProper ref.key _ b.1))
    | inr gone ↦ rw (remove_begun, e, gone) h
  ]
]

pub copy-IsKeeping : (now : ℤ) (source target : ObjectRef) → IsKeeping (copy now source target)
unfolding copy
copy-IsKeeping now source target = begun-IsKeeping Op.copy _ (λ s h.
    elim (Bool-cases (is_bad_ref source || is_bad_ref target)) [
      | inl e ↦ rw e h
      | inr e ↦ elim (Option-cases (lookup_in source.container source.key s.containers)) [
        | inl n ↦ rw (e, n) h
        | inr (o, n) ↦ elim (Bool-cases (has_container target.container s)) [
          | inl there ↦
              rw (e, n, there)
                (insert_in-IsOrdered target.container target.key _ s.containers
                  (key-of target (ground (arith, e))) h)
          | inr gone ↦ rw (e, n, gone) h
        ]
      ]
    ])

pub list-IsKeeping :
    (container prefix token : Bytes) (limit : ℤ) → IsKeeping (list container prefix token limit)
unfolding list
list-IsKeeping container prefix token limit = begun-IsKeeping Op.list _ (λ s h.
    elim (Bool-cases (is_nonpos limit)) [
      | inl e ↦ rw e h
      | inr e ↦ elim (Option-cases (lookup container s.containers)) [
        | inl n ↦ rw (e, n) h
        | inr (o, n) ↦ rw (e, n) h
      ]
    ])

pub sweep-IsKeeping :
    (container : Bytes) (older_than : ℤ) (dry_run : Bool)
    → IsKeeping (remove_temp_files container older_than dry_run)
unfolding remove_temp_files
sweep-IsKeeping container older_than dry_run = begun-IsKeeping Op.list _ (λ s h.
    elim (Option-cases (lookup container s.containers)) [
      | inl n ↦ rw n h
      | inr (objects, n) ↦ rw n (
          insert-IsOrdered container (sweep older_than dry_run objects).1 s.containers h
            (sweep-IsListable older_than dry_run objects (h container objects n)))
    ])
