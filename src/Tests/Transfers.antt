-- ===== src/Tests/Transfers.antt =====
-- src/infra/transfer: a codec over a small JSON library, which prints the members of an object with
-- their lengths.
use fssvrcpp.Crypto.{
  char_at, base64_url_encode, base64_encode, base64_url_decode, constant_time_equals,
}
use fssvrcpp.Crypto.Compare.{constant_time_equals-bytes_eqb}
use fssvrcpp.Crypto.RoundTrip.{base64_url_decode-encode}
use fssvrcpp.Decimal.{to_string, decimal_from}
use fssvrcpp.Domain.{staging, storage_zone_name}
use fssvrcpp.Errors.{ok}
use fssvrcpp.Prelude.{
  ℕ, zero, suc, ◌%◌, false, List, [], ◌∷◌, ◌++◌, Option, none, some, length, take, drop, ◌==◌,
  if◌then◌else◌, ◌≡◌, refl, arith,
}
use fssvrcpp.Prelude.Bytes.{Bytes, codes, bytes_eqb, is_empty}
use fssvrcpp.Prelude.Int.{pos, negsuc}
use fssvrcpp.Transfer.{
  TransferToken, Member, text, integer, other, Json, Codec, Signed, sign, url_of, encode, decode,
  compute_signature,
}
use fssvrcpp.Transfer.Decoding.{Holds, decode-Holds}
use fssvrcpp.Transfer.RoundTrip.{decode-encode}

abbrev pub Members : Type 0
Members = List (Bytes × Member)

abbrev pub member_of : Bytes → Members → Option Member
member_of k [] = none
member_of k ((j, v) ∷ m) = if bytes_eqb k j then some v else member_of k m

abbrev print_value : Member → Bytes
print_value (text t) = 1 ∷ length t ∷ t
print_value (integer (pos n)) = 2 ∷ length (to_string n) ∷ to_string n
print_value (integer (negsuc n)) = 3 ∷ length (to_string n) ∷ to_string n
print_value other = 4 ∷ 0 ∷ []

abbrev pub print : Members → Bytes
print [] = b'{' ∷ []
print ((k, v) ∷ m) = length k ∷ (k ++ (print_value v ++ print m))

abbrev value_of : ℕ → Bytes → Member
value_of tag t =
    if tag == 1
    then text t
    else if tag == 2
    then integer (pos (decimal_from 0 t))
    else if tag == 3
    then integer (negsuc (decimal_from 0 t))
    else other

-- What stands behind a key: the value, and the text behind it.
abbrev split_value : Bytes → Option (Member × Bytes)
split_value (tag ∷ n ∷ rest) = some (value_of tag (take n rest), drop n rest)
split_value (tag ∷ []) = none
split_value [] = none

abbrev pub read : ℕ → Bytes → Option Members
read zero cs = none
read (suc fuel) [] = none
read (suc fuel) (n ∷ []) = some []
read (suc fuel) (n ∷ c ∷ cs) = elim (split_value (drop n (c ∷ cs))) [
  | none ↦ none
  | some (v, rest) ↦ elim (read fuel rest) [
    | none ↦ none
    | some m ↦ some ((take n (c ∷ cs), v) ∷ m)
  ]
]

pub print-ne-nil : (m : Members) → is_empty (print m) ≡ false
print-ne-nil [] = refl
print-ne-nil ((k, v) ∷ m) = refl

abbrev pub json : Json Members
json = record {
  object = [];
  assign = λ k v m. (k, v) ∷ m;
  member = member_of;
  dump = print;
  parse_object = read 20;
  member-object = λ k. refl;
  dump-ne-nil = print-ne-nil;
  member-assign = λ k k' v m. refl;
}

abbrev pub codec : Codec
codec = record {
  secret = codes "s";
  key_id = codes "k1";
  hmac_sha256 = λ key message. length message % 256 ∷ 7 ∷ [];
  hmac-ne-nil = λ key message. refl;
}

abbrev token : TransferToken
token = record {
  partition = codes "p";
  file_id = codes "f";
  container = codes "c";
  object_key = codes "u/1";
  zone = staging;
  op = codes "put";
  expires_at_epoch_seconds = pos 90;
  key_id = [];
}

abbrev signed : Signed
unfolding sign
signed = sign json codec (codes "n") token

base64_url_decode-encode_example :
    (base64_url_decode (base64_url_encode (255 ∷ 0 ∷ 62 ∷ 1 ∷ [])) ≡ some (255 ∷ 0 ∷ 62 ∷ 1 ∷ []))
    × (base64_url_decode (base64_encode (255 ∷ 0 ∷ 62 ∷ 1 ∷ [])) ≡ some (255 ∷ 0 ∷ 62 ∷ 1 ∷ []))
base64_url_decode-encode_example = base64_url_decode-encode (255 ∷ 0 ∷ 62 ∷ 1 ∷ []) (omega arith)

base64_of : base64_url_encode (255 ∷ 0 ∷ 62 ∷ 1 ∷ []) ≡ codes "_wA-AQ"
unfolding base64_url_encode char_at
base64_of = refl

base64_padded : base64_encode (255 ∷ 0 ∷ 62 ∷ 1 ∷ []) ≡ codes "/wA+AQ=="
unfolding base64_encode char_at
base64_padded = refl

constant_time_equals-bytes_eqb_example :
    constant_time_equals (codes "abc") (codes "abd") ≡ bytes_eqb (codes "abc") (codes "abd")
constant_time_equals-bytes_eqb_example = constant_time_equals-bytes_eqb (codes "abc") (codes "abd")

decode-encode_example :
    (url_of (codes "http://h/") signed ≡ url_of (codes "http://h/") signed)
    × (decode json codec (pos 50) signed ≡ ok (record token { key_id = codes "k1" }))
unfolding sign encode url_of bytes_eqb storage_zone_name to_string decimal_from
decode-encode_example =
    decode-encode json codec (codes "n") token (codes "http://h/")
      (url_of (codes "http://h/") signed) (pos 50) refl (omega arith) refl (omega arith) refl

decode-Holds_example :
    (is_empty codec.secret ≡ false)
    × (signed.signature ≡ compute_signature codec signed.token signed.expires)
    × ((raw : Bytes) × (j : Members) × (base64_url_decode signed.token ≡ some raw)
        × (json.parse_object raw ≡ some j)
        × Holds json codec (pos 50) signed.expires j (record token { key_id = codes "k1" }))
unfolding sign encode url_of bytes_eqb storage_zone_name to_string decimal_from
decode-Holds_example =
    decode-Holds json codec (pos 50) signed (record token { key_id = codes "k1" })
      (decode-encode json codec (codes "n") token (codes "http://h/")
        (url_of (codes "http://h/") signed) (pos 50) refl (omega arith) refl (omega arith) refl).1
