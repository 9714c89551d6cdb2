-- ===== src/Transfer/Decoding.antt =====
-- src/infra/transfer/transfer_token.cpp: what a token that is accepted has, and that a token which
-- was signed is read back.
use mathlib.Core.Path.{subst}
use fssvrcpp.Crypto.{base64_url_decode}
use fssvrcpp.Crypto.Compare.{constant_time_equals-bytes_eqb}
use fssvrcpp.Decimal.{stoll}
use fssvrcpp.Domain.{StorageZone, staging, persistent, storage_zone_name, parse_storage_zone}
use fssvrcpp.Errors.{Result, ok, ok-injective}
use fssvrcpp.Prelude.{
  Bool, true, false, [], ◌∷◌, ◌||◌, Option, none, some, ◌⊎◌, ◌≡◌, ◌∙◌, ap, refl, arith, inl, inr,
  Bool-cases,
}
use fssvrcpp.Prelude.Bytes.{Bytes, codes, is_empty, bytes_eqb_iff}
use fssvrcpp.Prelude.Int.{ℤ, ◌<ℤ◌, eqb_ℤ_iff}
use fssvrcpp.Transfer.{
  TransferToken, Json, Codec, Signed, is_known_op, is_key, compute_signature, demand, require,
  as_integer, text_or_empty, text_at, decode_payload, decode,
}

demand-ok :
    {B : Type 0} (b : Bool) (next : Result B) {r : B}
    → demand b next ≡ ok r
    → (b ≡ true) × (next ≡ ok r)
unfolding demand
demand-ok true next h = (refl, h)
demand-ok false next h = cc

require-ok :
    {A B : Type 0} (o : Option A) (next : A → Result B) {r : B}
    → require o next ≡ ok r
    → (a : A) × (o ≡ some a) × (next a ≡ ok r)
unfolding require
require-ok none next h = cc
require-ok (some a) next h = (a, refl, h)

-- A text of the payload that may be missing, and is empty then.
abbrev pub IsTextOrEmpty : Option Bytes → Bytes → Type 0
IsTextOrEmpty o t = (o ≡ some t) ⊎ ((o ≡ none) × (t ≡ []))

-- What a token holds that was read from a payload: each of its fields, and what was asked of them.
pub record Holds {J : Type 0} (x : Json J) (c : Codec) (now : ℤ) (expires : Bytes) (j : J)
    (t : TransferToken) : Type 0 where
  pub partition : text_at x (codes "partition") j ≡ some t.partition
  pub file_id : IsTextOrEmpty (text_at x (codes "file_id") j) t.file_id
  pub container : text_at x (codes "container") j ≡ some t.container
  pub object_key : text_at x (codes "object_key") j ≡ some t.object_key
  pub zone : text_at x (codes "zone") j ≡ some (storage_zone_name t.zone)
  pub op : text_at x (codes "op") j ≡ some t.op
  pub known : (t.op ≡ codes "put") ⊎ (t.op ≡ codes "get")
  pub key_id : IsTextOrEmpty (text_at x (codes "key_id") j) t.key_id
  pub key : (c.key_id ≡ []) ⊎ (text_at x (codes "key_id") j ≡ some c.key_id)
  pub exp : as_integer (x.member (codes "exp") j) ≡ some t.expires_at_epoch_seconds
  pub query_exp : stoll expires ≡ some t.expires_at_epoch_seconds
  pub runs : now <ℤ t.expires_at_epoch_seconds

text_or_empty-IsTextOrEmpty : (o : Option Bytes) → IsTextOrEmpty o (text_or_empty o)
text_or_empty-IsTextOrEmpty none = inr (refl, refl)
text_or_empty-IsTextOrEmpty (some t) = inl refl

parse_storage_zone-name :
    (text : Bytes) (zone : StorageZone)
    → parse_storage_zone text ≡ some zone
    → text ≡ storage_zone_name zone
unfolding parse_storage_zone storage_zone_name
parse_storage_zone-name text staging h =
    (bytes_eqb_iff text (codes "STAGING")).0 (ground (arith, h))
parse_storage_zone-name text persistent h =
    (bytes_eqb_iff text (codes "PERSISTENT")).0 (ground (arith, h))

is_known_op-cases : (op : Bytes) → is_known_op op ≡ true → (op ≡ codes "put") ⊎ (op ≡ codes "get")
is_known_op-cases op h =
    ground (arith, h, bytes_eqb_iff op (codes "put"), bytes_eqb_iff op (codes "get"))

is_key-cases :
    (expected : Bytes) (o : Option Bytes)
    → is_key expected o ≡ true
    → (expected ≡ []) ⊎ (o ≡ some expected)
is_key-cases [] o h = inl refl
is_key-cases (k ∷ expected) none h = cc
is_key-cases (k ∷ expected) (some id) h = inr (ap some ((bytes_eqb_iff id (k ∷ expected)).0 h))

module _ {J : Type 0} (x : Json J) (c : Codec) (now : ℤ) where
  decode_payload-Holds :
      (expires : Bytes) (j : J) (t : TransferToken)
      → decode_payload x c now expires j ≡ ok t
      → Holds x c now expires j t
  unfolding decode_payload
  decode_payload-Holds expires j t h =
      let (partition, e1, h1) = require-ok _ _ h in
      let (container, e2, h2) = require-ok _ _ h1 in
      let (object_key, e3, h3) = require-ok _ _ h2 in
      let (op, e4, h4) = require-ok _ _ h3 in
      let (known, h5) = demand-ok _ _ h4 in
      let (key, h6) = demand-ok _ _ h5 in
      let (zone_name, e7, h7) = require-ok _ _ h6 in
      let (zone, e8, h8) = require-ok _ _ h7 in
      let (payload_exp, e9, h9) = require-ok _ _ h8 in
      let (query_exp, e10, h10) = require-ok _ _ h9 in
      let (same, h11) = demand-ok _ _ h10 in
      let (runs, h12) = demand-ok _ _ h11 in
      subst (Holds x c now expires j) (ok-injective h12) (record {
        partition = e1;
        file_id = text_or_empty-IsTextOrEmpty (text_at x (codes "file_id") j);
        container = e2;
        object_key = e3;
        zone = e7 ∙ ap some (parse_storage_zone-name zone_name zone e8);
        op = e4;
        known = is_known_op-cases op known;
        key_id = text_or_empty-IsTextOrEmpty (text_at x (codes "key_id") j);
        key = is_key-cases c.key_id (text_at x (codes "key_id") j) key;
        exp = e9;
        query_exp = e10 ∙ ap some ((eqb_ℤ_iff query_exp payload_exp).0 same);
        runs = ground (arith, runs);
      })

  -- A token is accepted only if a secret is configured, the signature is the one of the token and
  -- the text of its expiry under it, and the token is the encoding of a JSON object which has every
  -- field that is returned: partition, container, object key, zone and operation, the expiry, which
  -- the text of it gives as well, and the file id and the name of the key, each of which is empty
  -- where the object has no such text. The operation is `put` or `get`, the name of the key is the
  -- configured one, where there is one, and the expiry lies in the future.
  pub decode-Holds :
      (s : Signed) (t : TransferToken)
      → decode x c now s ≡ ok t
      → (is_empty c.secret ≡ false)
        × (s.signature ≡ compute_signature c s.token s.expires)
        × ((raw : Bytes) × (j : J) × (base64_url_decode s.token ≡ some raw)
            × (x.parse_object raw ≡ some j)
            × Holds x c now s.expires j t)
  unfolding decode
  decode-Holds s t h = elim (Bool-cases (is_empty c.secret)) [
    | inl bare ↦ absurd (ground (arith, h, bare))
    | inr kept ↦ elim (Bool-cases (is_empty s.token)) [
      | inl bare ↦ absurd (ground (arith, h, kept, bare))
      | inr filled ↦ elim (Bool-cases (is_empty s.expires || is_empty s.signature)) [
        | inl bare ↦ absurd (ground (arith, h, kept, filled, bare))
        | inr whole ↦
            let h' = rw (decode, kept, filled, whole) at h in
            let (equal, h1) = demand-ok _ _ h' in
            let (raw, e2, h2) = require-ok _ _ h1 in
            let (j, e3, h3) = require-ok _ _ h2 in
            let same =
              constant_time_equals-bytes_eqb (compute_signature c s.token s.expires) s.signature in
            let e = bytes_eqb_iff (compute_signature c s.token s.expires) s.signature in
            (
              kept,
              ground (arith, equal, same, e),
              (raw, j, e2, e3, decode_payload-Holds s.expires j t h3),
            )
      ]
    ]
  ]
