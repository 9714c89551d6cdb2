-- ===== src/Lease/Histories.antt =====
-- Any interleaving of calls on one lease repository.
use fssvrcpp.Lease.ClaimLoop.{claim_keys-IsSorted, expired_keys-Present}
use fssvrcpp.Lease.{Leases, lease_key, acquire, renew, release, claim_expired, expired_keys}
use fssvrcpp.Prelude.{List, [], ◌∷◌, arith, inl, inr, Option-cases}
use fssvrcpp.Prelude.Bytes.{Bytes}
use fssvrcpp.Prelude.Dict.{bytes_key, lookup, IsSorted, insert-IsSorted, remove-IsSorted}
use fssvrcpp.Prelude.Int.{ℤ, pos_part, ◌+ℤ◌}

-- A call by an instance, at a reading of the clock.
pub data Call : Type 0 where
  acquires : Bytes → Bytes → Bytes → ℤ → Call
  renews : Bytes → Bytes → Bytes → ℤ → Call
  releases : Bytes → Bytes → Bytes → Call
  claims : Bytes → ℤ → Bytes → Call

pub step : ℤ → Call → Leases → Leases
step now (acquires p f owner ttl) leases = (acquire now p f owner ttl leases).1
step now (renews p f owner ttl) leases = (renew now p f owner ttl leases).1
step now (releases p f owner) leases = (release p f owner leases).1
step now (claims p limit claimant) leases = (claim_expired now p limit claimant leases).1

pub run : List (ℤ × Call) → Leases → Leases
run [] leases = leases
run ((now, c) ∷ cs) leases = run cs (step now c leases)

step-IsSorted :
    (now : ℤ) (c : Call) (leases : Leases) → IsSorted leases → IsSorted (step now c leases)
unfolding step acquire renew release claim_expired
step-IsSorted now (acquires p f owner ttl) leases s = ground (
  arith,
  insert-IsSorted (lease_key p f)
      (record {
        file_id = f;
        owner_instance_id = owner;
        file_source = [];
        expires_at_epoch_millis = now +ℤ ttl;
      })
      leases s,
)
step-IsSorted now (renews p f owner ttl) leases s =
    elim (Option-cases (lookup (lease_key p f) leases)) [
      | inl e ↦ ground arith
      | inr (l, e) ↦ ground (
        arith,
        insert-IsSorted (lease_key p f) (record l { expires_at_epoch_millis = now +ℤ ttl }) leases
            s,
      )
    ]
step-IsSorted now (releases p f owner) leases s =
    ground (arith, remove-IsSorted (lease_key p f) leases s)
step-IsSorted now (claims p limit claimant) leases s =
    let n = pos_part limit in
    ground (
      arith,
      claim_keys-IsSorted claimant now n (expired_keys p now leases) [] leases
          (expired_keys-Present claimant now n p leases s) s,
    )

-- Whatever calls the instances make, in whatever order and at whatever times, the repository's map
-- stays sorted with one entry to a key, as a `std::map` is.
pub run-IsSorted :
    (cs : List (ℤ × Call)) (leases : Leases) → IsSorted leases → IsSorted (run cs leases)
unfolding run
run-IsSorted [] leases s = s
run-IsSorted ((now, c) ∷ cs) leases s =
    run-IsSorted cs (step now c leases) (step-IsSorted now c leases s)
