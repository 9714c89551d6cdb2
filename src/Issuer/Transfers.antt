-- ===== src/Issuer/Transfers.antt =====
-- src/app/services/location_issuer.cpp with src/infra/transfer: from the address for an upload to
-- that for a download. The bytes that were sent to the one come from the other.
use fssvrcpp.BlobStore.Calls.{ByteRange, part_of, max_object_bytes}
use fssvrcpp.BlobStore.Types.{capabilities}
use fssvrcpp.Crypto.RoundTrip.{AreBytes}
use fssvrcpp.Domain.{ObjectRef, FileLocation}
use fssvrcpp.Errors.{Result, ok}
use fssvrcpp.Expiry
use fssvrcpp.Issuer.{Issuer, LocationResult, apply_self_signed_ttl, is_given, token_for}
use fssvrcpp.Issuer.Issued.{IsIssued}
use fssvrcpp.Issuer.Issuing.{issue_download_location}
use fssvrcpp.Issuer.Uploads.{sign_and_shape-ok}
use fssvrcpp.Location.{find}
use fssvrcpp.Prelude.{
  ℕ, ◌^◌, ◌<◌, true, false, Option, some, ◌≡◌, refl, ap, ◌∙◌, inl, inr, Bool-cases,
}
use fssvrcpp.Prelude.Bytes.{Bytes, is_empty, bytes_eqb_refl}
use fssvrcpp.Prelude.Int.{ℤ, pos_part, ltb_ℤ}
use fssvrcpp.Transfer.{TransferToken, Json, Codec, payload, sign, url_of, encode}
use fssvrcpp.Transfer.Endpoint
use fssvrcpp.Transfer.Endpoint.{TransferRequest, check_token, resolve}
use fssvrcpp.Transfer.Endpoint.Bodies.{transfer_get-put}
use fssvrcpp.Transfer.RoundTrip.{encode-IsSignable, decode-encode}
use fssvrcpp.World.{World, Extra, object_ref_from_location, proceed}

module _ {P : Type 0} (json : Json P) (c : Codec) where
  -- What is taken of the JSON library: it prints the payload of the token as bytes, and reads it
  -- back. The token runs still, and its expiry fits in 64 bits.
  pub record IsRead (nonce : Bytes) (t : TransferToken) (now : ℤ) : Type 0 where
    pub bytes : AreBytes (json.dump (payload json c nonce t))
    pub back :
        json.parse_object (json.dump (payload json c nonce t)) ≡ some (payload json c nonce t)
    pub runs : ltb_ℤ now t.expires_at_epoch_seconds ≡ true
    pub fits : pos_part t.expires_at_epoch_seconds < 2 ^ 63

  -- The request that the client of a signed URL makes, under its partition.
  abbrev pub request_of : Bytes → TransferToken → TransferRequest
  request_of nonce t = record { signed = sign json c nonce t; partition = t.partition }

  resolve-sign :
      (nonce base_url url : Bytes) (t : TransferToken) (now : ℤ)
      → encode json c nonce t base_url ≡ ok url
      → IsRead nonce t now
      → resolve json c now (request_of nonce t) t.op ≡ ok (record t { key_id = c.key_id })
  unfolding resolve check_token
  resolve-sign nonce base_url url t now h known =
      let signable = (encode-IsSignable json c nonce t base_url url h).0 in
      let read =
        (decode-encode json c nonce t base_url url now h known.fits known.runs known.bytes
          known.back).1 in
      rw
        (
          resolve,
          read,
          bytes_eqb_refl t.op,
          bytes_eqb_refl t.partition,
          signable.partition,
          signable.container,
          signable.object_key,
        )
        refl

-- The tokens of the two addresses.
abbrev pub upload_token :
    {J : Type 0} → Issuer → ObjectRef → FileLocation J → Bytes → ℤ → Option Bytes → TransferToken
upload_token i ref l p ttl expiry =
    token_for i ref l p (apply_self_signed_ttl i ttl capabilities (is_given expiry)) true

abbrev pub download_token :
    {J : Type 0} → Issuer → ObjectRef → FileLocation J → Bytes → ℤ → Option Bytes → TransferToken
download_token i ref l p ttl expiry =
    token_for i ref l p (apply_self_signed_ttl i ttl capabilities (is_given expiry)) false

module _ {P R J : Type 0} (json : Json P) ⦃x : Extra J⦄ where
  issue_download_location-ok :
      (i : Issuer) (p id : Bytes) (expiry : Option Bytes) (l : FileLocation J) (ref : ObjectRef)
      (ttl : ℤ) (w w' : World R J) (r : LocationResult)
      → Expiry.parse expiry i.expiry ≡ ok ttl
      → find p id w.locations ≡ ok l
      → object_ref_from_location l ≡ ok ref
      → issue_download_location json i p id expiry w ≡ (ok r, w')
      → (w' ≡ w)
        × (encode json i.codec i.nonce
              (token_for i ref l p
                (apply_self_signed_ttl i ttl capabilities (is_given expiry))
                false)
              i.self_base_url
            ≡ ok r.signed_url)
  unfolding issue_download_location proceed
  issue_download_location-ok i p id expiry l ref ttl w w' r parsed there at h =
      elim (Bool-cases (is_empty p)) [
        | inl bare ↦ absurd (let h' = rw bare at h in cc)
        | inr named ↦ elim (Bool-cases (is_empty id)) [
          | inl bare ↦ absurd (let h' = rw (named, bare) at h in cc)
          | inr given ↦
              let (world, _, _, url) =
                sign_and_shape-ok json i ref l p
                  (apply_self_signed_ttl i ttl capabilities (is_given expiry)) false w w' r
                  (rw (named, given, parsed, there, at) at h) in
              (world, url)
        ]
      ]

  -- From the address for an upload to that for a download: the client sends a body to the first
  -- one while it runs, then an address for a download of the file id is handed out, and a client
  -- fetches from it while it runs. Then the put succeeds, both addresses are those that the requests
  -- are made from, and the client gets that body, in any range it asks for. It is taken that both
  -- addresses are signed by one codec, that no fault of the store is planned, and that the JSON
  -- library reads back the two payloads.
  pub upload-download :
      (i i' : Issuer) (p user : Bytes) (expiry expiry' : Option Bytes) (ref : ObjectRef)
      (l : FileLocation J) (ttl ttl' put_at get_at : ℤ) (r r' : LocationResult) (w w' : World R J)
      (sha256_hex : Bytes → Bytes) (body : ℕ → Result Bytes) (content : Bytes) (range : ByteRange)
      → IsIssued json i p user expiry ref l ttl r w
      → i'.codec ≡ i.codec
      → Expiry.parse expiry' i'.expiry ≡ ok ttl'
      → body max_object_bytes ≡ ok content
      → IsRead json i.codec i.nonce (upload_token i ref l p ttl expiry) put_at
      → IsRead json i.codec i'.nonce (download_token i' ref l p ttl' expiry') get_at
      → let c = i.codec in
        let up = request_of json c i.nonce (upload_token i ref l p ttl expiry) in
        let down = request_of json c i'.nonce (download_token i' ref l p ttl' expiry') in
        let sent = Endpoint.put json c put_at sha256_hex up body w.stores in
        issue_download_location json i' p r.file_id expiry' (record w { stores = sent.1 })
          ≡ (ok r', w')
        → (sent.0 ≡ ok tt)
          × (r.signed_url ≡ url_of i.self_base_url up.signed)
          × (r'.signed_url ≡ url_of i'.self_base_url down.signed)
          × ((Endpoint.get json c get_at down ok range w'.stores).0 ≡ part_of range content)
  unfolding token_for
  upload-download i i' p user expiry expiry' ref l ttl ttl' put_at get_at r r' w w' sha256_hex body
        content range known one parsed sends reads reads' handed =
      let c = i.codec in
      let t : TransferToken = upload_token i ref l p ttl expiry in
      let t' : TransferToken = download_token i' ref l p ttl' expiry' in
      let up = request_of json c i.nonce t in
      let down = request_of json c i'.nonce t' in
      let sent = Endpoint.put json c put_at sha256_hex up body w.stores in
      let (world, url) =
        issue_download_location-ok i' p r.file_id expiry' l ref ttl' (record w { stores = sent.1 })
          w' r' parsed known.registered known.located handed in
      let url' : encode json c i'.nonce t' i'.self_base_url ≡ ok r'.signed_url = rw (← one) url in
      let moved =
        transfer_get-put json c sha256_hex put_at get_at up down (record t { key_id = c.key_id })
          (record t' { key_id = c.key_id }) range body content w.stores
          (rw known.staged known.clear)
          (resolve-sign json c i.nonce i.self_base_url r.signed_url t put_at known.signed reads)
          (resolve-sign json c i'.nonce i'.self_base_url r'.signed_url t' get_at url' reads') refl
          sends in
      let same = rw (bytes_eqb_refl ref.container, bytes_eqb_refl ref.key) at (moved.1) in
      (
        moved.0,
        (encode-IsSignable json c i.nonce t i.self_base_url r.signed_url known.signed).1,
        (encode-IsSignable json c i'.nonce t' i'.self_base_url r'.signed_url url').1,
        ap (λ z. (Endpoint.get json c get_at down ok range z.stores).0) world ∙ same,
      )
