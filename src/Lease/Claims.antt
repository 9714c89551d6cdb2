-- ===== src/Lease/Claims.antt =====
-- `ClaimExpired`: who claims what.
use fssvrcpp.Errors.{ok}
use fssvrcpp.Lease.ClaimLoop.{
  claimed_keys, claims_of, claimed_at, claim_keys-lookup, claim_keys-claims_of, claim_keys-IsSorted,
  expired_keys-Present,
}
use fssvrcpp.Lease.{
  Lease, Leases, unit_separator, is_expired, expired_keys, claim_keys, claim_expired,
}
use fssvrcpp.Prelude.{
  List, ◌∷◌, ◌++◌, ◌&&◌, take, ◌≤◌, ◌-◌, true, false, [], Option, none, some, if◌then◌else◌, length,
  length-take-le, ◌≡◌, refl, ap, ◌∙◌, arith,
}
use fssvrcpp.Prelude.Bytes.{Bytes, starts_with}
use fssvrcpp.Prelude.Dict.{bytes_key, lookup, elem, keys_where, elem-keys_where, IsSorted, holds_at}
use fssvrcpp.Prelude.Int.{ℤ, pos, pos_part, ◌+ℤ◌, ◌<ℤ◌, leb_ℤ}

claim_expired-claim_keys :
    (now limit : ℤ) (partition claimant : Bytes) (leases : Leases)
    → pos 0 <ℤ limit
    → let r =
        claim_keys claimant now (pos_part limit) (expired_keys partition now leases) [] leases in
      claim_expired now partition limit claimant leases ≡ (ok r.0, r.1)
unfolding claim_expired
claim_expired-claim_keys now limit partition claimant leases positive = ground arith

claim_expired-claimed_keys :
    (now limit : ℤ) (partition claimant : Bytes) (leases : Leases) (key : Bytes)
    → IsSorted leases
    → pos 0 <ℤ limit
    → let keys = claimed_keys now partition (pos_part limit) leases in
      let r = claim_expired now partition limit claimant leases in
      (r.0 ≡ ok (claims_of claimant now keys leases))
      × (length keys ≤ pos_part limit)
      × (lookup key r.1 ≡ (
          if elem key keys then claimed_at claimant now (lookup key leases) else lookup key leases))
claim_expired-claimed_keys now limit partition claimant leases key s positive =
    let n = pos_part limit in
    let keys = expired_keys partition now leases in
    let present = expired_keys-Present claimant now n partition leases s in
    let whole : n - 0 ≡ n = omega arith in
    let claims = rw whole at (claim_keys-claims_of claimant now n keys [] leases present) in
    let looked = rw whole at (claim_keys-lookup claimant now n keys [] leases key present) in
    rw (claim_expired-claim_keys now limit partition claimant leases positive)
      (ap ok claims, length-take-le n keys, looked)

-- The keys of a partition whose leases have a deadline that is not after `now`, in key order.
abbrev pub due_keys : Bytes → ℤ → Leases → List Bytes
due_keys partition now leases =
    keys_where
      (λ key l.
        starts_with (partition ++ (unit_separator ∷ [])) key && leb_ℤ l.expires_at_epoch_millis now)
      leases

is_expired-due :
    (partition : Bytes) (now : ℤ) (key : Bytes) (l : Lease)
    → is_expired partition now key l ≡ (
        starts_with (partition ++ (unit_separator ∷ [])) key && leb_ℤ l.expires_at_epoch_millis now)
is_expired-due partition now key l = ground arith

expired_keys-due_keys :
    (partition : Bytes) (now : ℤ) (leases : Leases)
    → expired_keys partition now leases ≡ due_keys partition now leases
unfolding expired_keys
expired_keys-due_keys partition now leases =
    λ i. keys_where (λ key l. is_expired-due partition now key l i) leases

-- A call with a positive limit takes the first `limit` keys of its partition, in key order, whose
-- leases' deadlines have come. It returns those leases, each in the claimant's name and with a
-- deadline a minute from now, and writes just those back; every other entry of the map stays as it
-- was.
pub claim_expired-claims_of :
    (now limit : ℤ) (partition claimant : Bytes) (leases : Leases) (key : Bytes)
    → IsSorted leases
    → pos 0 <ℤ limit
    → let keys = take (pos_part limit) (due_keys partition now leases) in
      let r = claim_expired now partition limit claimant leases in
      (r.0 ≡ ok (claims_of claimant now keys leases))
      × (length keys ≤ pos_part limit)
      × (lookup key r.1 ≡ (
          if elem key keys then claimed_at claimant now (lookup key leases) else lookup key leases))
claim_expired-claims_of now limit partition claimant leases key s positive =
    rw (← expired_keys-due_keys partition now leases)
      (claim_expired-claimed_keys now limit partition claimant leases key s positive)

-- What has just been claimed has not run out.
expired-claimed_at :
    (now later : ℤ) (partition claimant key : Bytes)
    → later <ℤ now +ℤ pos 60000
    → (entry : Option Lease)
    → holds_at (is_expired partition later) key (claimed_at claimant now entry) ≡ false
expired-claimed_at now later partition claimant key soon none = refl
expired-claimed_at now later partition claimant key soon (some l) = ground arith

-- Two claims of one partition less than a minute apart, the second by any instance: no key that the
-- first claimed is expired for the second, so no lease is claimed twice.
pub claim_expired_disjoint :
    (now later limit : ℤ) (partition claimant : Bytes) (leases : Leases) (key : Bytes)
    → IsSorted leases
    → pos 0 <ℤ limit
    → later <ℤ now +ℤ pos 60000
    → elem key (claimed_keys now partition (pos_part limit) leases) ≡ true
    → elem key (expired_keys partition later (claim_expired now partition limit claimant leases).1)
      ≡ false
unfolding expired_keys
claim_expired_disjoint now later limit partition claimant leases key s positive soon claimed =
    let n = pos_part limit in
    let present = expired_keys-Present claimant now n partition leases s in
    let step = claim_expired-claim_keys now limit partition claimant leases positive in
    let looked =
      (claim_expired-claimed_keys now limit partition claimant leases key s positive).2 in
    let looked' = rw claimed at looked in
    let sorted =
      claim_keys-IsSorted claimant now n (expired_keys partition now leases) [] leases present s in
    let after = (claim_expired now partition limit claimant leases).1 in
    let sorted' : IsSorted after = rw step sorted in
    elem-keys_where (is_expired partition later) key after sorted'
    ∙ rw looked' (expired-claimed_at now later partition claimant key soon (lookup key leases))
