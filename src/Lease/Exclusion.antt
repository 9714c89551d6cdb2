-- ===== src/Lease/Exclusion.antt =====
-- A lease that runs belongs to one owner.
use fssvrcpp.Errors.{ok, err, is_ok, ErrorKind, not_found, permission_denied, unavailable}
use fssvrcpp.Lease.{Lease, Leases, lease_key, acquire, renew, release}
use fssvrcpp.Prelude.{true, [], none, some, ◌≡◌, ◌≢◌, arith, ◌⊎◌, inl, inr}
use fssvrcpp.Prelude.Bytes.{Bytes, bytes_eqb_iff}
use fssvrcpp.Prelude.Dict.{bytes_key, lookup, lookup-insert, lookup-remove}
use fssvrcpp.Prelude.Int.{ℤ, ◌+ℤ◌, ◌<ℤ◌}

-- After `acquire` has granted a lease, every other `acquire` of the same key, by any owner, fails
-- with `unavailable` and changes nothing, as long as the lease runs. The lease granted names the
-- caller as its owner.
pub acquire-acquire :
    (now later ttl ttl' : ℤ) (partition file_id owner owner' : Bytes) (leases : Leases) {l : Lease}
    → (acquire now partition file_id owner ttl leases).0 ≡ ok l
    → later <ℤ now +ℤ ttl
    → let leases' = (acquire now partition file_id owner ttl leases).1 in
      (acquire later partition file_id owner' ttl' leases' ≡ (err unavailable, leases'))
      × (l.owner_instance_id ≡ owner)
      × (lookup (lease_key partition file_id) leases' ≡ some l)
unfolding acquire
acquire-acquire now later ttl ttl' partition file_id owner owner' leases h runs = ground (
  arith,
  lookup-insert (lease_key partition file_id) (lease_key partition file_id)
      (record {
        file_id = file_id;
        owner_instance_id = owner;
        file_source = [];
        expires_at_epoch_millis = now +ℤ ttl;
      })
      leases,
  bytes_eqb_iff (lease_key partition file_id) (lease_key partition file_id),
)

-- `renew` and `release` of a key that has no lease give `not_found`; of a lease of another owner,
-- `permission_denied`; both leave the map as it was.
renew-release_refused :
    (now ttl : ℤ) (partition file_id owner : Bytes) (leases : Leases) (e : ErrorKind)
    → ((lookup (lease_key partition file_id) leases ≡ none) × (e ≡ not_found))
      ⊎ ((l : Lease) × (lookup (lease_key partition file_id) leases ≡ some l)
          × (l.owner_instance_id ≢ owner)
          × (e ≡ permission_denied))
    → (renew now partition file_id owner ttl leases ≡ (err e, leases))
      × (release partition file_id owner leases ≡ (err e, leases))
unfolding renew release
renew-release_refused now ttl partition file_id owner leases e (inl h) = ground arith
renew-release_refused now ttl partition file_id owner leases e (inr (l, h, other, k)) =
    ground (arith, bytes_eqb_iff l.owner_instance_id owner)

-- The owner's renewal succeeds and holds the lease for another term: until then every `acquire` of
-- the key, by any instance, fails with `unavailable`.
pub acquire-renew :
    (now later ttl ttl' : ℤ) (partition file_id owner owner' : Bytes) (leases : Leases) (l : Lease)
    → lookup (lease_key partition file_id) leases ≡ some l
    → l.owner_instance_id ≡ owner
    → later <ℤ now +ℤ ttl
    → let renewed = renew now partition file_id owner ttl leases in
      (renewed.0 ≡ ok tt)
      × (acquire later partition file_id owner' ttl' renewed.1 ≡ (err unavailable, renewed.1))
unfolding renew acquire
acquire-renew now later ttl ttl' partition file_id owner owner' leases l h own runs =
    let key = lease_key partition file_id in
    ground (
      arith,
      bytes_eqb_iff key key,
      bytes_eqb_iff l.owner_instance_id owner,
      lookup-insert key key (record l { expires_at_epoch_millis = now +ℤ ttl }) leases,
    )

-- The owner's release succeeds and frees the lease: the next `acquire` of the key is granted, to
-- any instance and at any time.
pub acquire-release :
    (later ttl : ℤ) (partition file_id owner owner' : Bytes) (leases : Leases) (l : Lease)
    → lookup (lease_key partition file_id) leases ≡ some l
    → l.owner_instance_id ≡ owner
    → let released = release partition file_id owner leases in
      (released.0 ≡ ok tt)
      × (is_ok (acquire later partition file_id owner' ttl released.1).0 ≡ true)
unfolding release acquire
acquire-release later ttl partition file_id owner owner' leases l h own =
    let key = lease_key partition file_id in
    ground (
      arith,
      bytes_eqb_iff key key,
      bytes_eqb_iff l.owner_instance_id owner,
      lookup-remove key key leases,
    )
