-- ===== src/Issuer/Refusals.antt =====
-- src/app/services/location_issuer.cpp: the times that a signed address runs, and a file id that is
-- asked for twice.
use fssvrcpp.BlobStore.Puts.{is_clear}
use fssvrcpp.BlobStore.Types.{BlobCapabilities}
use fssvrcpp.Domain.{staging, FileLocation}
use fssvrcpp.Errors.{ok, err, location_already_exists}
use fssvrcpp.Expiry
use fssvrcpp.Issuer.{Issuer, LocationResult, min_ℤ, apply_self_signed_ttl, is_given, choose_file_id}
use fssvrcpp.Issuer.Issuing.{issue_upload_location}
use fssvrcpp.Issuer.Issued.{issue_upload_location-IsIssued}
use fssvrcpp.Location.{find}
use fssvrcpp.Location.Indices.{Inv}
use fssvrcpp.ObjectKey.{is_valid_file_id}
use fssvrcpp.Prelude.{
  ◌⊎◌, true, false, [], ◌∷◌, Option, some, ◌≡◌, refl, ◌∙◌, arith, inl, inr, Bool-cases,
}
use fssvrcpp.Prelude.Bytes.{Bytes, is_empty}
use fssvrcpp.Prelude.Int.{ℤ, ltb_ℤ, ◌≤ℤ◌}
use fssvrcpp.Transfer.{Json}
use fssvrcpp.World.{World, Extra, store_of, proceed}

min_ℤ-le : (a b : ℤ) → (min_ℤ a b ≤ℤ a) × (min_ℤ a b ≤ℤ b) × ((min_ℤ a b ≡ a) ⊎ (min_ℤ a b ≡ b))
min_ℤ-le a b = elim (Bool-cases (ltb_ℤ b a)) [
  | inl less ↦ rw less (ground (arith, less), ground arith, inr refl)
  | inr more ↦ rw more (ground arith, ground (arith, more), inl refl)
]

≤ℤ-trans : (a b c : ℤ) → a ≤ℤ b → b ≤ℤ c → a ≤ℤ c
≤ℤ-trans a b c h k = omega arith

-- An address that the service answers itself, over a store that cannot presign, never runs longer
-- than was asked for, nor than the largest term for such addresses, nor, unless a term was given,
-- than the default one for them; its term is one of the three.
pub apply_self_signed_ttl_bounds :
    (i : Issuer) (ttl : ℤ) (caps : BlobCapabilities) (expiry : Option Bytes)
    → caps.native_presign ≡ false
    → let bounded = apply_self_signed_ttl i ttl caps (is_given expiry) in
      let options = i.self_signed_ttl in
      (bounded ≤ℤ ttl)
      × (bounded ≤ℤ options.max_seconds)
      × ((is_given expiry ≡ true) ⊎ (bounded ≤ℤ options.default_seconds))
      × ((bounded ≡ ttl) ⊎ ((bounded ≡ options.max_seconds) ⊎ (bounded ≡ options.default_seconds)))
unfolding apply_self_signed_ttl
apply_self_signed_ttl_bounds i ttl caps expiry self =
    let options = i.self_signed_ttl in
    let m = min_ℤ-le ttl options.max_seconds in
    let d = min_ℤ-le (min_ℤ ttl options.max_seconds) options.default_seconds in
    elim (Bool-cases (is_given expiry)) [
      | inl given ↦
          rw (apply_self_signed_ttl, self, given)
            (m.0, m.1, inl refl, elim m.2 [ inl e ↦ inl e | inr e ↦ inr (inl e) ])
      | inr free ↦
          rw (apply_self_signed_ttl, self, free)
            (
              ≤ℤ-trans _ _ ttl d.0 m.0,
              ≤ℤ-trans _ _ options.max_seconds d.0 m.1,
              inr d.1,
              elim d.2 [
                | inr e ↦ inr (inr e)
                | inl e ↦ elim m.2 [ inl e' ↦ inl (e ∙ e') | inr e' ↦ inr (inl (e ∙ e')) ]
              ],
            )
    ]

choose_file_id-taken :
    {R J : Type 0} (i : Issuer) (p id : Bytes) (l : FileLocation J) (w : World R J)
    → is_valid_file_id id ≡ true
    → find p id w.locations ≡ ok l
    → choose_file_id i p (some id) w ≡ err location_already_exists
unfolding choose_file_id is_valid_file_id
choose_file_id-taken i p [] l w valid there = absurd cc
choose_file_id-taken i p (c ∷ id) l w valid there = rw (choose_file_id, valid, there) refl

-- Once an address for an upload was handed out, nobody is handed out another one of that file id in
-- the partition, with any settings and for any user: the file id is refused as taken, and nothing
-- changes. It is taken that the id has the form that clients may ask for, and that the rest of the
-- request is well formed.
pub issue_upload_location-again :
    {P R J : Type 0} (json : Json P) ⦃x : Extra J⦄ (i i' : Issuer) (p user user' : Bytes)
    (requested expiry expiry' : Option Bytes) (w w' : World R J) (r : LocationResult) (ttl : ℤ)
    → Inv w.locations
    → is_clear (store_of staging w.stores) ≡ true
    → issue_upload_location json i p user requested expiry w ≡ (ok r, w')
    → is_empty p ≡ false
    → is_empty user' ≡ false
    → Expiry.parse expiry' i'.expiry ≡ ok ttl
    → is_valid_file_id r.file_id ≡ true
    → issue_upload_location json i' p user' (some r.file_id) expiry' w'
      ≡ (err location_already_exists, w')
unfolding issue_upload_location proceed
issue_upload_location-again json i i' p user user' requested expiry expiry' w w' r ttl v h e named
      known parsed valid =
    let (l, ref, t, issued, _) =
      issue_upload_location-IsIssued json i p user p r.file_id requested expiry w w' r v h e in
    rw
      (
        issue_upload_location,
        named,
        known,
        parsed,
        choose_file_id-taken i' p r.file_id l w' valid issued.registered,
      )
      refl
