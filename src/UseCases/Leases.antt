-- ===== src/UseCases/Leases.antt =====
-- src/app/usecases/usecases.cpp: leases around an upload. What the use case is told to own, nobody
-- else can acquire before it runs out.
use fssvrcpp.Errors.{ok, err, unavailable, Result-cases}
use fssvrcpp.Lease.{Lease, Leases, lease_key, acquire, renew}
use fssvrcpp.Lease.Exclusion.{acquire-acquire, acquire-renew}
use fssvrcpp.Prelude.{true, some, ◌≡◌, ap, inl, inr, Bool-cases, Option-cases}
use fssvrcpp.Prelude.Bytes.{Bytes, bytes_eqb, bytes_eqb_iff}
use fssvrcpp.Prelude.Dict.{bytes_key, lookup}
use fssvrcpp.Prelude.Int.{ℤ, ◌+ℤ◌, ◌<ℤ◌}
use fssvrcpp.UseCases.Ports.{
  CallerContext, Ports, lease_enabled, lease_ttl_millis, ensure_lease_ownership, is_lapse,
  try_acquire,
}
use fssvrcpp.World.{World}

renew-ok :
    (now : ℤ) (p src owner : Bytes) (ttl : ℤ) (leases : Leases) (u : Unit {0})
    → (renew now p src owner ttl leases).0 ≡ ok u
    → (l : Lease) × (lookup (lease_key p src) leases ≡ some l) × (l.owner_instance_id ≡ owner)
unfolding renew
renew-ok now p src owner ttl leases u h = elim (Option-cases (lookup (lease_key p src) leases)) [
  | inl e ↦ absurd (let h' = rw (renew, e) at h in cc)
  | inr (l, e) ↦ elim (Bool-cases (bytes_eqb l.owner_instance_id owner)) [
    | inl own ↦ (l, e, (bytes_eqb_iff l.owner_instance_id owner).0 own)
    | inr other ↦ absurd (let h' = rw (renew, e, other) at h in cc)
  ]
]

module _ {R J : Type 0} where
  try_acquire-held :
      (ports : Ports R) (caller : CallerContext) (src other : Bytes) (w : World R J) (later ttl : ℤ)
      → (try_acquire ports caller src w).0 ≡ ok tt
      → later <ℤ ports.now_millis +ℤ lease_ttl_millis ports
      → (acquire later caller.partition src other ttl (try_acquire ports caller src w).1.leases).0
        ≡ err unavailable
  unfolding try_acquire
  try_acquire-held ports caller src other w later ttl h runs =
      let a =
        acquire ports.now_millis caller.partition src ports.instance_id (lease_ttl_millis ports)
          w.leases in
      elim (Result-cases a.0) [
        | inr (e, q) ↦ absurd (let h' = rw (try_acquire, q) at h in cc)
        | inl (l, e) ↦
            rw (try_acquire, e)
              (ap (λ r. r.0)
                (acquire-acquire ports.now_millis later (lease_ttl_millis ports) ttl
                  caller.partition src ports.instance_id other w.leases e runs).0)
      ]

  -- With leases switched on, after `ensure_lease_ownership` has succeeded for a file source, by a
  -- renewal or by an acquisition, every `acquire` of it, by any instance, fails with `unavailable`
  -- until the term of the lease is over.
  pub ensure_lease_ownership-held :
      (ports : Ports R) (caller : CallerContext) (src other : Bytes) (w : World R J) (later ttl : ℤ)
      → lease_enabled ports ≡ true
      → (ensure_lease_ownership ports caller src w).0 ≡ ok tt
      → later <ℤ ports.now_millis +ℤ lease_ttl_millis ports
      → (acquire later caller.partition src other ttl
          (ensure_lease_ownership ports caller src w).1.leases).0
        ≡ err unavailable
  unfolding ensure_lease_ownership
  ensure_lease_ownership-held ports caller src other w later ttl on h runs =
      let r =
        renew ports.now_millis caller.partition src ports.instance_id (lease_ttl_millis ports)
          w.leases in
      elim (Result-cases r.0) [
        | inl (u, e) ↦
            let (l, there, own) =
              renew-ok ports.now_millis caller.partition src ports.instance_id
                (lease_ttl_millis ports) w.leases u e in
            rw (ensure_lease_ownership, on, e)
              (ap (λ q. q.0)
                (acquire-renew ports.now_millis later (lease_ttl_millis ports) ttl caller.partition
                  src ports.instance_id other w.leases l there own runs).1)
        | inr (e, q) ↦ elim (Bool-cases (is_lapse e)) [
          | inr dead ↦ absurd (let h' = rw (ensure_lease_ownership, on, q, dead) at h in cc)
          | inl lapsed ↦
              let h' = rw (ensure_lease_ownership, on, q, lapsed) at h in
              rw (ensure_lease_ownership, on, q, lapsed)
                (try_acquire-held ports caller src other (record w { leases = r.1 }) later ttl h'
                  runs)
        ]
      ]
