-- ===== src/Transfer/RoundTrip.antt =====
-- src/infra/transfer/transfer_token.cpp: a token which was signed is read back.
use fssvrcpp.Crypto.{base64_url_encode, constant_time_equals}
use fssvrcpp.Crypto.Compare.{constant_time_equals-bytes_eqb}
use fssvrcpp.Crypto.RoundTrip.{AreBytes, base64_url_decode-encode}
use fssvrcpp.Decimal.{
  to_string, stoll, skip_spaces, digits_front, magnitude, is_digit, decimal_from,
}
use fssvrcpp.Decimal.RoundTrip.{all-to_string, to_string-ne-nil, decimal_from-to_string}
use fssvrcpp.Domain.{StorageZone, staging, persistent, storage_zone_name, parse_storage_zone}
use fssvrcpp.Errors.{ok}
use fssvrcpp.Prelude.{
  ℕ, ◌^◌, if◌then◌else◌, ap, sym, ◌∙◌, ◌++◌, ◌<◌, ◌≤◌, true, false, [], ◌∷◌, length, all, Option,
  none, some, ◌≡◌, refl, arith, inl, inr, Bool-cases,
}
use fssvrcpp.Prelude.Bytes.{Bytes, codes, is_empty, bytes_eqb, bytes_eqb_refl}
use fssvrcpp.Prelude.Int.{ℤ, pos, negsuc, pos_part, is_nonpos, ltb_ℤ, eqb_ℤ}
use fssvrcpp.Transfer.{
  TransferToken, Member, text, integer, Json, Codec, is_known_op, is_key, signing_key,
  compute_signature, demand, require, as_text, text_or_empty, payload, sign, encode, url_of,
  decode_payload, decode,
}

parse_storage_zone-name : (z : StorageZone) → parse_storage_zone (storage_zone_name z) ≡ some z
unfolding parse_storage_zone storage_zone_name bytes_eqb
parse_storage_zone-name staging = refl
parse_storage_zone-name persistent = refl

digits_front-all : (cs : Bytes) → all is_digit cs ≡ true → digits_front cs ≡ cs
unfolding digits_front
digits_front-all [] h = refl
digits_front-all (c ∷ cs) h = ground (arith, digits_front-all cs)

stoll-digits :
    (cs : Bytes)
    → 1 ≤ length cs
    → all is_digit cs ≡ true
    → decimal_from 0 cs < 2 ^ 63
    → stoll cs ≡ some (pos (decimal_from 0 cs))
unfolding stoll skip_spaces magnitude
stoll-digits [] l h b = absurd (omega arith)
stoll-digits (c ∷ cs) l h b = ground (arith, digits_front-all (c ∷ cs) h)

-- The number that a number's text stands for.
stoll-to_string : (n : ℕ) → n < 2 ^ 63 → stoll (to_string n) ≡ some (pos n)
stoll-to_string n h =
    let e = decimal_from-to_string n in
    ground (arith, e, stoll-digits (to_string n) (to_string-ne-nil n) (all-to_string n))

-- The name of a key in a payload, which has none for the empty one.
abbrev named : Bytes → Option Member
named key = if is_empty key then none else some (text key)

is_key-named : (key : Bytes) → is_key key (as_text (named key)) ≡ true
is_key-named [] = refl
is_key-named (k ∷ key) = bytes_eqb_refl (k ∷ key)

text-named : (key : Bytes) → text_or_empty (as_text (named key)) ≡ key
text-named [] = refl
text-named (k ∷ key) = refl

module _ {J : Type 0} (x : Json J) (c : Codec) (nonce : Bytes) (t : TransferToken) where
  members :
      (x.member (codes "partition") (payload x c nonce t) ≡ some (text t.partition))
      × (x.member (codes "file_id") (payload x c nonce t) ≡ some (text t.file_id))
      × (x.member (codes "container") (payload x c nonce t) ≡ some (text t.container))
      × (x.member (codes "object_key") (payload x c nonce t) ≡ some (text t.object_key))
      × (x.member (codes "zone") (payload x c nonce t) ≡ some (text (storage_zone_name t.zone)))
      × (x.member (codes "op") (payload x c nonce t) ≡ some (text t.op))
      × (x.member (codes "exp") (payload x c nonce t) ≡ some (integer t.expires_at_epoch_seconds))
  unfolding payload bytes_eqb
  members = elim (Bool-cases (is_empty c.key_id)) [
    | inl e ↦ simp (e, x.member-assign) (refl, refl, refl, refl, refl, refl, refl)
    | inr e ↦ simp (e, x.member-assign) (refl, refl, refl, refl, refl, refl, refl)
  ]

  -- The name of the key, which is left out if it is empty.
  key_member : x.member (codes "key_id") (payload x c nonce t) ≡ named c.key_id
  unfolding payload bytes_eqb
  key_member = elim (Bool-cases (is_empty c.key_id)) [
    | inl e ↦ simp (e, x.member-assign, x.member-object)
    | inr e ↦ simp (e, x.member-assign)
  ]

  decode_payload-payload :
      (now : ℤ) (n : ℕ)
      → t.expires_at_epoch_seconds ≡ pos n
      → n < 2 ^ 63
      → is_known_op t.op ≡ true
      → ltb_ℤ now (pos n) ≡ true
      → decode_payload x c now (to_string n) (payload x c nonce t)
        ≡ ok (record t { key_id = c.key_id; expires_at_epoch_seconds = pos n })
  unfolding decode_payload require demand
  decode_payload-payload now n at_n fits known runs =
      let (partition, file_id, container, object_key, zone, op, exp) = members in
      let key = ap as_text key_member in
      let same : eqb_ℤ (pos n) (pos n) ≡ true = ground arith in
      rw
        (
          decode_payload,
          partition,
          file_id,
          container,
          object_key,
          zone,
          op,
          exp,
          known,
          key,
          is_key-named c.key_id,
          text-named c.key_id,
          parse_storage_zone-name t.zone,
          at_n,
          stoll-to_string n fits,
          same,
          runs,
        )
        refl

base64_url_encode-ne-nil : (d : Bytes) → is_empty d ≡ false → is_empty (base64_url_encode d) ≡ false
unfolding base64_url_encode
base64_url_encode-ne-nil [] h = absurd cc
base64_url_encode-ne-nil (a ∷ []) h = refl
base64_url_encode-ne-nil (a ∷ b ∷ []) h = refl
base64_url_encode-ne-nil (a ∷ b ∷ d ∷ rest) h = refl

filled : (xs : Bytes) → 1 ≤ length xs → is_empty xs ≡ false
filled [] h = absurd (omega arith)
filled (x ∷ xs) h = refl

to_string-filled : (n : ℕ) → is_empty (to_string n) ≡ false
to_string-filled n = filled (to_string n) (to_string-ne-nil n)

pos_of : (z : ℤ) → is_nonpos z ≡ false → z ≡ pos (pos_part z)
pos_of (pos n) h = refl
pos_of (negsuc n) h = absurd (ground (arith, h))

-- What a token must be for `Encode` to sign it.
pub record IsSignable (c : Codec) (t : TransferToken) : Type 0 where
  pub secret : is_empty c.secret ≡ false
  pub partition : is_empty t.partition ≡ false
  pub container : is_empty t.container ≡ false
  pub object_key : is_empty t.object_key ≡ false
  pub known : is_known_op t.op ≡ true
  pub positive : is_nonpos t.expires_at_epoch_seconds ≡ false

module _ {J : Type 0} (x : Json J) (c : Codec) (nonce : Bytes) (t : TransferToken) where
  pub encode-IsSignable :
      (base_url url : Bytes)
      → encode x c nonce t base_url ≡ ok url
      → IsSignable c t × (url ≡ url_of base_url (sign x c nonce t))
  unfolding encode
  encode-IsSignable base_url url h = (
    record {
      secret = ground (arith, h);
      partition = ground (arith, h);
      container = ground (arith, h);
      object_key = ground (arith, h);
      known = ground (arith, h);
      positive = ground (arith, h);
    },
    ground (arith, h),
  )

  -- A token which `Encode` signs is read back by `Decode` as it was, with the codec's name of the
  -- key, as long as it has not run out and its expiry fits in 64 bits. Of the JSON library it is
  -- taken that it prints bytes, and that it reads back the payload that it printed.
  pub decode-encode :
      (base_url url : Bytes) (now : ℤ)
      → encode x c nonce t base_url ≡ ok url
      → pos_part t.expires_at_epoch_seconds < 2 ^ 63
      → ltb_ℤ now t.expires_at_epoch_seconds ≡ true
      → AreBytes (x.dump (payload x c nonce t))
      → x.parse_object (x.dump (payload x c nonce t)) ≡ some (payload x c nonce t)
      → (url ≡ url_of base_url (sign x c nonce t))
        × (decode x c now (sign x c nonce t) ≡ ok (record t { key_id = c.key_id }))
  unfolding decode sign require demand compute_signature
  decode-encode base_url url now h fits runs bytes back =
      let (ok_to, e) = encode-IsSignable base_url url h in
      let n : ℕ = pos_part t.expires_at_epoch_seconds in
      let at_n : t.expires_at_epoch_seconds ≡ pos n =
        pos_of t.expires_at_epoch_seconds ok_to.positive in
      let key = signing_key c in
      let token = base64_url_encode (x.dump (payload x c nonce t)) in
      let signature = compute_signature c token (to_string n) in
      let same : constant_time_equals signature signature ≡ true =
        constant_time_equals-bytes_eqb signature signature ∙ bytes_eqb_refl signature in
      let runs' : ltb_ℤ now (pos n) ≡ true = ap (ltb_ℤ now) (sym at_n) ∙ runs in
      let read = decode_payload-payload x c nonce t now n at_n fits ok_to.known runs' in
      (
        e,
        rw
            (
              decode,
              sign,
              ok_to.secret,
              base64_url_encode-ne-nil _ (x.dump-ne-nil (payload x c nonce t)),
              to_string-filled n,
              base64_url_encode-ne-nil _ (c.hmac-ne-nil key (token ++ (b'.' ∷ to_string n))),
              same,
              (base64_url_decode-encode _ bytes).0,
              back,
              read,
            )
            λ i. ok (record t { expires_at_epoch_seconds = sym at_n i; key_id = c.key_id }),
      )
