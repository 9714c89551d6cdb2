-- ===== src/Tests/Leases.antt =====
-- src/infra/location/memory/memory_lease_repository.cpp: one lease, two instances.
use fssvrcpp.Errors.{ok, err, is_ok, unavailable}
use fssvrcpp.Lease.{Lease, Leases, lease_key, acquire, release, claim_expired, expired_keys}
use fssvrcpp.Lease.ClaimLoop.{claimed_keys, claims_of, claimed_at}
use fssvrcpp.Lease.Claims.{due_keys, claim_expired-claims_of, claim_expired_disjoint}
use fssvrcpp.Lease.Exclusion.{acquire-acquire, acquire-release}
use fssvrcpp.Prelude.{
  ◌++◌, take, length, ◌≤◌, if◌then◌else◌, true, false, [], ◌∷◌, some, ◌≡◌, refl, arith,
}
use fssvrcpp.Prelude.Bytes.{Bytes, codes, bytes_eqb, starts_with}
use fssvrcpp.Prelude.Dict.{bytes_key, lookup, keys_where, elem}
use fssvrcpp.Prelude.Int.{pos, ◌+ℤ◌}

abbrev p : Bytes
p = codes "p"

abbrev file : Bytes
file = codes "f"

abbrev me : Bytes
me = codes "a"

abbrev you : Bytes
you = codes "b"

abbrev mine : Lease
mine = record {
  file_id = file;
  owner_instance_id = me;
  file_source = [];
  expires_at_epoch_millis = pos 150;
}

abbrev held : Leases
held = (p ++ (31 ∷ file), mine) ∷ []

granted : (acquire (pos 100) p file me (pos 50) []).0 ≡ ok mine
unfolding acquire lookup ◌+ℤ◌
granted = refl

acquire-acquire_example :
    let leases' = (acquire (pos 100) p file me (pos 50) []).1 in
    (acquire (pos 120) p file you (pos 50) leases' ≡ (err unavailable, leases'))
    × (mine.owner_instance_id ≡ me)
    × (lookup (lease_key p file) leases' ≡ some mine)
acquire-acquire_example =
    acquire-acquire (pos 100) (pos 120) (pos 50) (pos 50) p file me you [] granted
      (unfold ◌+ℤ◌ in omega arith)

found : lookup (lease_key p file) held ≡ some mine
unfolding lookup lease_key bytes_eqb
found = refl

acquire-release_example :
    let released = release p file me held in
    (released.0 ≡ ok tt) × (is_ok (acquire (pos 120) p file you (pos 10) released.1).0 ≡ true)
acquire-release_example = acquire-release (pos 120) (pos 10) p file me you held mine found refl

claimed_held : elem (lease_key p file) (claimed_keys (pos 200) p 3 held) ≡ true
unfolding elem expired_keys keys_where starts_with lease_key bytes_eqb
claimed_held = refl

claim_expired-claims_of_example :
    let keys = take 3 (due_keys p (pos 200) held) in
    let r = claim_expired (pos 200) p (pos 3) you held in
    (r.0 ≡ ok (claims_of you (pos 200) keys held))
    × (length keys ≤ 3)
    × (lookup (lease_key p file) r.1 ≡ (
        if elem (lease_key p file) keys
        then claimed_at you (pos 200) (lookup (lease_key p file) held)
        else lookup (lease_key p file) held))
claim_expired-claims_of_example =
    claim_expired-claims_of (pos 200) (pos 3) p you held (lease_key p file) (tt, tt) (omega arith)

claim_expired_disjoint_example :
    elem
      (lease_key p file)
      (expired_keys p (pos 300) (claim_expired (pos 200) p (pos 3) you held).1)
    ≡ false
claim_expired_disjoint_example =
    claim_expired_disjoint (pos 200) (pos 300) (pos 3) p you held (lease_key p file) (tt, tt)
      (omega arith) (unfold ◌+ℤ◌ in omega arith) claimed_held
