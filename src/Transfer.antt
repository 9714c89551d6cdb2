-- ===== src/Transfer.antt =====
-- src/infra/transfer/transfer_token.cpp: the signed tokens of the URLs that the service answers
-- itself. HMAC and JSON are the libraries'.
pub mod Decoding
pub mod RoundTrip
pub mod Endpoint
use fssvrcpp.Crypto.{to_hex, base64_url_encode, base64_url_decode, constant_time_equals, strip_back}
use fssvrcpp.Decimal.{to_string, stoll}
use fssvrcpp.Domain.{StorageZone, storage_zone_name, parse_storage_zone}
use fssvrcpp.Errors.{Result, ok, err, invalid_argument, unauthenticated}
use fssvrcpp.Prelude.{
  Bool, true, false, not, ◌||◌, [], ◌∷◌, ◌++◌, Option, none, some, if◌then◌else◌, ◌≡◌,
}
use fssvrcpp.Prelude.Bytes.{Bytes, codes, is_empty, bytes_eqb}
use fssvrcpp.Prelude.Int.{ℤ, pos_part, is_nonpos, ltb_ℤ, eqb_ℤ}

-- `TransferToken` of src/domain/ports/ports.h.
pub record TransferToken : Type 0 where
  pub partition : Bytes
  pub file_id : Bytes
  pub container : Bytes
  pub object_key : Bytes
  pub zone : StorageZone
  pub op : Bytes
  pub expires_at_epoch_seconds : ℤ
  pub key_id : Bytes

-- A member of a JSON object, as far as the codec looks.
pub data Member : Type 0 where
  text : Bytes → Member
  integer : ℤ → Member
  other : Member

-- The JSON objects of the vendored library: the empty one, the assignment of a member, the lookup,
-- the printed form and the parser of objects, which may fail.
pub record Json (J : Type 0) : Type 0 where
  pub object : J
  pub assign : Bytes → Member → J → J
  pub member : Bytes → J → Option Member
  pub dump : J → Bytes
  pub parse_object : Bytes → Option J
  pub member-object : (k : Bytes) → member k object ≡ none
  pub dump-ne-nil : (j : J) → is_empty (dump j) ≡ false
  pub member-assign :
      (k k' : Bytes) (v : Member) (j : J)
      → member k (assign k' v j) ≡ (if bytes_eqb k k' then some v else member k j)

-- `HmacTransferTokenCodec`, with the digest that it signs by, which is 32 bytes.
pub record Codec : Type 0 where
  pub secret : Bytes
  pub key_id : Bytes
  pub hmac_sha256 : Bytes → Bytes → Bytes
  pub hmac-ne-nil : (key message : Bytes) → is_empty (hmac_sha256 key message) ≡ false

abbrev pub is_known_op : Bytes → Bool
is_known_op op = bytes_eqb op (codes "put") || bytes_eqb op (codes "get")

unfoldable pub signing_key : Codec → Bytes
signing_key c = to_hex (c.hmac_sha256 c.secret (codes "fss-transfer-token-v1"))

unfoldable pub compute_signature : Codec → Bytes → Bytes → Bytes
unfolding signing_key
compute_signature c token expires =
    base64_url_encode (c.hmac_sha256 (signing_key c) (token ++ (b'.' ∷ expires)))

-- The parts of a signed URL.
pub record Signed : Type 0 where
  pub token : Bytes
  pub expires : Bytes
  pub signature : Bytes

-- The URL that `Encode` returns.
unfoldable pub url_of : Bytes → Signed → Bytes
url_of base_url s =
    strip_back b'/' base_url
    ++ (codes "/v1/transfer/"
        ++ (s.token ++ (codes "?exp=" ++ (s.expires ++ (codes "&sig=" ++ s.signature)))))

-- A check whose failure is `unauthenticated`, and one for a value that may be missing.
unfoldable pub demand : {B : Type 0} → Bool → Result B → Result B
demand true next = next
demand false next = err unauthenticated

unfoldable pub require : {A B : Type 0} → Option A → (A → Result B) → Result B
require none next = err unauthenticated
require (some a) next = next a

abbrev pub as_text : Option Member → Option Bytes
as_text (some (text t)) = some t
as_text (some (integer n)) = none
as_text (some other) = none
as_text none = none

abbrev pub as_integer : Option Member → Option ℤ
as_integer (some (integer n)) = some n
as_integer (some (text t)) = none
as_integer (some other) = none
as_integer none = none

abbrev pub text_or_empty : Option Bytes → Bytes
text_or_empty none = []
text_or_empty (some t) = t

-- The check of the key's name; one that is not configured is not checked.
abbrev pub is_key : Bytes → Option Bytes → Bool
is_key expected none = is_empty expected
is_key expected (some id) = is_empty expected || bytes_eqb id expected

module _ {J : Type 0} (x : Json J) where
  -- The signed members.
  unfoldable pub payload : Codec → Bytes → TransferToken → J
  payload c nonce t =
      let j = x.assign (codes "partition") (text t.partition) x.object in
      let j = x.assign (codes "file_id") (text t.file_id) j in
      let j = x.assign (codes "container") (text t.container) j in
      let j = x.assign (codes "object_key") (text t.object_key) j in
      let j = x.assign (codes "zone") (text (storage_zone_name t.zone)) j in
      let j = x.assign (codes "op") (text t.op) j in
      let j = x.assign (codes "exp") (integer t.expires_at_epoch_seconds) j in
      let j = if is_empty c.key_id then j else x.assign (codes "key_id") (text c.key_id) j in
      x.assign (codes "nonce") (text nonce) j

  unfoldable pub sign : Codec → Bytes → TransferToken → Signed
  unfolding payload compute_signature
  sign c nonce t =
      let token = base64_url_encode (x.dump (payload c nonce t)) in
      let expires = to_string (pos_part t.expires_at_epoch_seconds) in
      record { token = token; expires = expires; signature = compute_signature c token expires }

  -- `Encode`, whose nonce is drawn anew each time.
  unfoldable pub encode : Codec → Bytes → TransferToken → Bytes → Result Bytes
  unfolding sign url_of
  encode c nonce t base_url =
      if is_empty c.secret
      then err invalid_argument
      else if is_empty t.partition
      then err invalid_argument
      else if is_empty t.container
      then err invalid_argument
      else if is_empty t.object_key
      then err invalid_argument
      else if not (is_known_op t.op)
      then err invalid_argument
      else if is_nonpos t.expires_at_epoch_seconds
      then err invalid_argument
      else ok (url_of base_url (sign c nonce t))

  abbrev pub text_at : Bytes → J → Option Bytes
  text_at key j = as_text (x.member key j)

  -- `Decode` behind the parsed payload.
  unfoldable pub decode_payload : Codec → ℤ → Bytes → J → Result TransferToken
  decode_payload c now expires j = require (text_at (codes "partition") j) λ partition.
      require (text_at (codes "container") j) λ container.
        require (text_at (codes "object_key") j) λ object_key.
          require (text_at (codes "op") j) λ op. demand (is_known_op op) (
            let key_id = text_at (codes "key_id") j in
            demand (is_key c.key_id key_id) (
              require (text_at (codes "zone") j) λ zone_name.
                require (parse_storage_zone zone_name) λ zone.
                  require (as_integer (x.member (codes "exp") j)) λ payload_exp.
                    require (stoll expires) λ query_exp. demand (eqb_ℤ query_exp payload_exp) (
                      demand (ltb_ℤ now payload_exp) (
                        ok (record {
                          partition = partition;
                          file_id = text_or_empty (text_at (codes "file_id") j);
                          container = container;
                          object_key = object_key;
                          zone = zone;
                          op = op;
                          expires_at_epoch_seconds = payload_exp;
                          key_id = text_or_empty key_id;
                        })))))

  unfoldable pub decode : Codec → ℤ → Signed → Result TransferToken
  unfolding compute_signature decode_payload
  decode c now s =
      if is_empty c.secret
      then err invalid_argument
      else if is_empty s.token
      then err unauthenticated
      else if is_empty s.expires || is_empty s.signature
      then err unauthenticated
      else demand (constant_time_equals (compute_signature c s.token s.expires) s.signature) (
          require (base64_url_decode s.token)
            λ raw. require (x.parse_object raw) λ j. decode_payload c now s.expires j)
