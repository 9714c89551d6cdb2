-- ===== src/Lease/ClaimLoop.antt =====
-- The second loop of `ClaimExpired`: the map and the list that it leaves.
use mathlib.Core.List.{append-nil, append_assoc}
use fssvrcpp.Lease.{Lease, Leases, is_expired, expired_keys, claimed_lease, claim_keys}
use fssvrcpp.Prelude.{
  ℕ, suc, ◌-◌, true, false, List, [], ◌∷◌, ◌++◌, Option, none, some, if◌then◌else◌, leb, length,
  take, length-append, take-nil, take-cons_pos, ◌≡◌, refl, sym, arith, inl, inr, Option-cases,
  Bool-cases, has_value,
}
use fssvrcpp.Prelude.Bytes.{Bytes, bytes_eqb_iff}
use fssvrcpp.Prelude.Dict.{
  bytes_key, lookup, insert, lookup-insert, elem, elem-keys_where, IsSorted, insert-IsSorted,
}
use fssvrcpp.Prelude.Int.{ℤ, pos, ◌+ℤ◌}

-- The keys that one call claims.
abbrev pub claimed_keys : ℤ → Bytes → ℕ → Leases → List Bytes
claimed_keys now partition limit leases = take limit (expired_keys partition now leases)

-- A lease in an instance's name that runs for another minute.
abbrev pub for_a_minute : Bytes → ℤ → Lease → Lease
for_a_minute owner now l = record {
  file_id = l.file_id;
  owner_instance_id = owner;
  file_source = l.file_source;
  expires_at_epoch_millis = now +ℤ pos 60000;
}

abbrev pub claimed_at : Bytes → ℤ → Option Lease → Option Lease
claimed_at claimant now none = none
claimed_at claimant now (some l) = some (for_a_minute claimant now l)

-- The leases at some keys, as their claimant holds them.
pub claims_of : Bytes → ℤ → List Bytes → Leases → List Lease
claims_of claimant now [] leases = []
claims_of claimant now (k ∷ ks) leases =
    let rest = claims_of claimant now ks leases in
    elim (lookup k leases) [ none ↦ rest | some l ↦ for_a_minute claimant now l ∷ rest ]

abbrev pub Present : List Bytes → Leases → Type 0
Present keys leases = (k : Bytes) → elem k keys ≡ true → has_value (lookup k leases) ≡ true

module _ (claimant : Bytes) (now : ℤ) (limit : ℕ) where
  Present-insert :
      (k : Bytes) (l : Lease) (keys : List Bytes) (leases : Leases)
      → Present (k ∷ keys) leases
      → Present keys (insert k l leases)
  unfolding elem
  Present-insert k l keys leases p j e = ground (arith, lookup-insert k j l leases, p j)

  Present-tail :
      (k : Bytes) (keys : List Bytes) (leases : Leases)
      → Present (k ∷ keys) leases
      → Present keys leases
  unfolding elem
  Present-tail k keys leases p j e = ground (arith, p j)

  Present-head :
      (k : Bytes) (keys : List Bytes) (leases : Leases)
      → Present (k ∷ keys) leases
      → (l : Lease) × (lookup k leases ≡ some l)
  unfolding elem
  Present-head k keys leases p = elim (Option-cases (lookup k leases)) [
    | inl absent ↦ absurd (ground (arith, p k, bytes_eqb_iff k k))
    | inr found ↦ found
  ]

  claim_keys-full :
      (k : Bytes) (ks : List Bytes) (claimed : List Lease) (leases : Leases)
      → leb limit (length claimed) ≡ true
      → claim_keys claimant now limit (k ∷ ks) claimed leases ≡ (claimed, leases)
  unfolding claim_keys
  claim_keys-full k ks claimed leases full = ground arith

  claim_keys-more :
      (k : Bytes) (ks : List Bytes) (claimed : List Lease) (leases : Leases) (l : Lease)
      → leb limit (length claimed) ≡ false
      → lookup k leases ≡ some l
      → claim_keys claimant now limit (k ∷ ks) claimed leases
        ≡ claim_keys claimant now limit ks
            (claimed ++ (claimed_lease claimant now l ∷ []))
            (insert k (claimed_lease claimant now l) leases)
  unfolding claim_keys
  claim_keys-more k ks claimed leases l more found = ground arith

  room :
      (claimed : List Lease) (l : Lease)
      → leb limit (length claimed) ≡ false
      → limit - length claimed ≡ suc (limit - length (claimed ++ (l ∷ [])))
  room claimed l more = ground (arith, length-append claimed (l ∷ []))

  pub claim_keys-lookup :
      (keys : List Bytes) (claimed : List Lease) (leases : Leases) (j : Bytes)
      → Present keys leases
      → lookup j (claim_keys claimant now limit keys claimed leases).1 ≡ (
          if elem j (take (limit - length claimed) keys)
          then claimed_at claimant now (lookup j leases)
          else lookup j leases)
  claim_keys-lookup [] claimed leases j p =
      rw (take-nil {A = Bytes} (limit - length claimed)) (unfold claim_keys elem in refl)
  claim_keys-lookup (k ∷ ks) claimed leases j p = elim (Bool-cases (leb limit (length claimed))) [
    | inl full ↦
        let e : limit - length claimed ≡ 0 = ground arith in
        rw (e, claim_keys-full k ks claimed leases full) (unfold elem in refl)
    | inr more ↦
        let (l, found) = Present-head k ks leases p in
        let l' = claimed_lease claimant now l in
        let ih =
          claim_keys-lookup ks (claimed ++ (l' ∷ [])) (insert k l' leases) j
            (Present-insert k l' ks leases p) in
        rw
          (
            claim_keys-more k ks claimed leases l more found,
            take-cons_pos (limit - length claimed) _ k ks (room claimed l' more),
            ih,
          )
          (unfold elem in ground (arith, found, lookup-insert k j l' leases, bytes_eqb_iff j k))
  ]

  claims_of-insert :
      (k : Bytes) (l : Lease) (keys : List Bytes) (leases : Leases)
      → lookup k leases ≡ some l
      → claims_of claimant now keys (insert k (claimed_lease claimant now l) leases)
        ≡ claims_of claimant now keys leases
  unfolding claims_of
  claims_of-insert k l [] leases found = refl
  claims_of-insert k l (j ∷ ks) leases found = ground (
    arith,
    bytes_eqb_iff j k,
    lookup-insert k j (claimed_lease claimant now l) leases,
    claims_of-insert k l ks leases found,
  )

  pub claim_keys-IsSorted :
      (keys : List Bytes) (claimed : List Lease) (leases : Leases)
      → Present keys leases
      → IsSorted leases
      → IsSorted (claim_keys claimant now limit keys claimed leases).1
  claim_keys-IsSorted [] claimed leases p s = unfold claim_keys in s
  claim_keys-IsSorted (k ∷ ks) claimed leases p s = elim (Bool-cases (leb limit (length claimed))) [
    | inl full ↦ rw (claim_keys-full k ks claimed leases full) s
    | inr more ↦
        let (l, found) = Present-head k ks leases p in
        let l' = claimed_lease claimant now l in
        rw (claim_keys-more k ks claimed leases l more found) (
          claim_keys-IsSorted ks (claimed ++ (l' ∷ [])) (insert k l' leases)
            (Present-insert k l' ks leases p) (insert-IsSorted k l' leases s))
  ]

  pub claim_keys-claims_of :
      (keys : List Bytes) (claimed : List Lease) (leases : Leases)
      → Present keys leases
      → (claim_keys claimant now limit keys claimed leases).0
        ≡ claimed ++ claims_of claimant now (take (limit - length claimed) keys) leases
  claim_keys-claims_of [] claimed leases p =
      rw (take-nil {A = Bytes} (limit - length claimed))
        (unfold claim_keys claims_of in sym (append-nil claimed))
  claim_keys-claims_of (k ∷ ks) claimed leases p = elim (Bool-cases (leb limit (length claimed))) [
    | inl full ↦
        let e : limit - length claimed ≡ 0 = ground arith in
        rw (e, claim_keys-full k ks claimed leases full)
          (unfold claims_of in sym (append-nil claimed))
    | inr more ↦
        let (l, found) = Present-head k ks leases p in
        let l' = claimed_lease claimant now l in
        rw
          (
            claim_keys-more k ks claimed leases l more found,
            take-cons_pos (limit - length claimed) _ k ks (room claimed l' more),
            claim_keys-claims_of ks (claimed ++ (l' ∷ [])) (insert k l' leases)
                (Present-insert k l' ks leases p),
            claims_of-insert k l _ leases found,
            append_assoc claimed (l' ∷ []) _,
          )
          (unfold claims_of in rw (found, claims_of))
  ]

  pub expired_keys-Present :
      (partition : Bytes) (leases : Leases)
      → IsSorted leases
      → Present (expired_keys partition now leases) leases
  unfolding expired_keys
  expired_keys-Present partition leases s k e = elim (Option-cases (lookup k leases)) [
    | inl absent ↦
        let same = elem-keys_where (is_expired partition now) k leases s in cc (rw absent at same)
    | inr (l, found) ↦ rw found
  ]
