-- ===== src/Lease.antt =====
-- src/infra/location/memory/memory_lease_repository.cpp: `InMemoryLeaseRepository`, with the
-- `Lease` of src/domain/ports/ports.h. Each call takes the clock's reading and the map, and returns
-- its result with the new map; the mutex makes a call one step. Times are integers of milliseconds,
-- taken without overflow.
pub mod Exclusion
pub mod ClaimLoop
pub mod Claims
pub mod Histories
use fssvrcpp.Errors.{Result, ok, err, not_found, permission_denied, unavailable}
use fssvrcpp.Prelude.{
  ℕ, ◌+◌, Bool, true, false, not, ◌&&◌, List, [], ◌∷◌, ◌++◌, Option, none, some, if◌then◌else◌, leb,
  length,
}
use fssvrcpp.Prelude.Bytes.{Bytes, bytes_eqb, starts_with}
use fssvrcpp.Prelude.Dict.{bytes_key, lookup, insert, remove, keys_where}
use fssvrcpp.Prelude.Int.{ℤ, pos, pos_part, ◌+ℤ◌, ltb_ℤ, leb_ℤ, is_nonpos}

pub record Lease : Type 0 where
  pub file_id : Bytes
  pub owner_instance_id : Bytes
  pub file_source : Bytes
  pub expires_at_epoch_millis : ℤ

abbrev pub Leases : Type 0
Leases = List (Bytes × Lease)

abbrev pub unit_separator : ℕ
unit_separator = 0x1f

-- `Key`
unfoldable pub lease_key : Bytes → Bytes → Bytes
lease_key partition file_id = partition ++ (unit_separator ∷ file_id)

-- Whether the entry stands in the way of a new lease.
abbrev pub is_held : ℤ → Option Lease → Bool
is_held now none = false
is_held now (some l) = ltb_ℤ now l.expires_at_epoch_millis

unfoldable pub acquire : ℤ → Bytes → Bytes → Bytes → ℤ → Leases → Result Lease × Leases
acquire now partition file_id owner ttl_millis leases =
    let key = lease_key partition file_id in
    let lease : Lease = record {
      file_id = file_id;
      owner_instance_id = owner;
      file_source = [];
      expires_at_epoch_millis = now +ℤ ttl_millis;
    } in
    if is_held now (lookup key leases)
    then (err unavailable, leases)
    else (ok lease, insert key lease leases)

-- What `Renew` and `Release` do with the lease that they find.
abbrev renew_found : ℤ → Bytes → Bytes → ℤ → Leases → Lease → Result (Unit {0}) × Leases
renew_found now key owner ttl_millis leases l =
    if not (bytes_eqb l.owner_instance_id owner)
    then (err permission_denied, leases)
    else (ok tt, insert key (record l { expires_at_epoch_millis = now +ℤ ttl_millis }) leases)

unfoldable pub renew : ℤ → Bytes → Bytes → Bytes → ℤ → Leases → Result (Unit {0}) × Leases
renew now partition file_id owner ttl_millis leases =
    let key = lease_key partition file_id in
    elim (lookup key leases) [
      | none ↦ (err not_found, leases)
      | some l ↦ renew_found now key owner ttl_millis leases l
    ]

abbrev release_found : Bytes → Bytes → Leases → Lease → Result (Unit {0}) × Leases
release_found key owner leases l =
    if not (bytes_eqb l.owner_instance_id owner)
    then (err permission_denied, leases)
    else (ok tt, remove key leases)

unfoldable pub release : Bytes → Bytes → Bytes → Leases → Result (Unit {0}) × Leases
release partition file_id owner leases =
    let key = lease_key partition file_id in
    elim (lookup key leases) [
      | none ↦ (err not_found, leases)
      | some l ↦ release_found key owner leases l
    ]

-- The test of the first loop of `ClaimExpired`: a lease of the partition that has run out.
abbrev pub is_expired : Bytes → ℤ → Bytes → Lease → Bool
is_expired partition now key l =
    starts_with (partition ++ (unit_separator ∷ [])) key
    && not (ltb_ℤ now l.expires_at_epoch_millis)

unfoldable pub expired_keys : Bytes → ℤ → Leases → List Bytes
expired_keys partition now leases = keys_where (is_expired partition now) leases

-- The lease as its claimant holds it: the next round is a minute away.
abbrev pub claimed_lease : Bytes → ℤ → Lease → Lease
claimed_lease claimant now l = record l {
  owner_instance_id = claimant;
  expires_at_epoch_millis = now +ℤ pos 60000;
}

-- The second loop: the keys left, the size of the limit, the leases claimed so far. A key without
-- an entry, which the first loop does not collect, is passed over.
unfoldable pub claim_keys : Bytes → ℤ → ℕ → List Bytes → List Lease → Leases → List Lease × Leases
claim_keys claimant now limit [] claimed leases = (claimed, leases)
claim_keys claimant now limit (key ∷ keys) claimed leases = elim (leb limit (length claimed)) [
  | true ↦ (claimed, leases)
  | false ↦ elim (lookup key leases) [
    | none ↦ claim_keys claimant now limit keys claimed leases
    | some l ↦
        claim_keys claimant now limit keys (claimed ++ (claimed_lease claimant now l ∷ []))
          (insert key (claimed_lease claimant now l) leases)
  ]
]

unfoldable pub claim_expired : ℤ → Bytes → ℤ → Bytes → Leases → Result (List Lease) × Leases
unfolding claim_keys expired_keys
claim_expired now partition limit claimant leases =
    let r =
      claim_keys claimant now (pos_part limit) (expired_keys partition now leases) [] leases in
    if is_nonpos limit then (ok [], leases) else (ok r.0, r.1)

-- `size`
unfoldable pub size : Bytes → Leases → ℕ
size partition leases =
    length (keys_where (λ key _. starts_with (partition ++ (unit_separator ∷ [])) key) leases)
