-- ===== src/Transfer/Endpoint/Bodies.antt =====
-- src/infra/transfer/transfer_endpoint.cpp: what is sent to a signed URL is what another one gives.
use fssvrcpp.BlobStore.Calls.{ByteRange, ensure_container, part_of, max_object_bytes}
use fssvrcpp.BlobStore.Ensured.{put-ensured}
use fssvrcpp.BlobStore.Puts.{is_clear}
use fssvrcpp.BlobStore.Types.{Blobs, is_bad_ref}
use fssvrcpp.Errors.{Result, ok, Result-cases}
use fssvrcpp.Prelude.{
  ℕ, ◌⊎◌, true, false, ◌&&◌, if◌then◌else◌, ◌≡◌, refl, arith, inl, inr, Bool-cases,
}
use fssvrcpp.Prelude.Bytes.{Bytes, codes, is_empty, bytes_eqb, bytes_eqb_iff}
use fssvrcpp.Prelude.Dict.{bytes_key}
use fssvrcpp.Prelude.Int.{ℤ}
use fssvrcpp.Transfer.{TransferToken, Json, Codec, decode}
use fssvrcpp.Transfer.Endpoint.{
  TransferRequest, object_ref_from_token, check_token, resolve, put, get,
}
use fssvrcpp.World.{Stores, store_of, set_store, on_zone, proceed, store_of-set_store}

check_token-ok :
    (request : TransferRequest) (op : Bytes) (t t' : TransferToken)
    → check_token request op t ≡ ok t'
    → (t ≡ t')
      × (t'.op ≡ op)
      × ((is_empty request.partition ≡ true) ⊎ (request.partition ≡ t'.partition))
      × (is_bad_ref (object_ref_from_token t') ≡ false)
unfolding check_token is_bad_ref object_ref_from_token
check_token-ok request op t t' h =
    let e : t ≡ t' = ground (arith, h) in
    let op_eq = bytes_eqb_iff t.op op in
    let same = bytes_eqb_iff request.partition t.partition in
    let bound : (is_empty request.partition ≡ true) ⊎ (request.partition ≡ t.partition) =
      elim (Bool-cases (is_empty request.partition)) [
        | inl bare ↦ inl bare
        | inr given ↦ inr (same.0 (ground (arith, h, given)))
      ] in
    (e, rw (← e) (op_eq.0 (ground (arith, h))), rw (← e) bound, rw (← e) (ground (arith, h)))

module _ {J : Type 0} (x : Json J) (c : Codec) where
  resolve-good :
      (now : ℤ) (request : TransferRequest) (op : Bytes) (t : TransferToken)
      → resolve x c now request op ≡ ok t
      → is_bad_ref (object_ref_from_token t) ≡ false
  unfolding resolve
  resolve-good now request op t h = elim (Result-cases (decode x c now request.signed)) [
    | inr (e, q) ↦ absurd (let h' = rw (resolve, q) at h in cc)
    | inl (u, q) ↦ (check_token-ok request op u t (rw (resolve, q) at h)).3
  ]

  -- In a store without planned faults: a request whose token is accepted for writing stores its
  -- body, and a request whose token is accepted for reading the same zone then gets that body, in
  -- any range, if it names the same object, and else what it got before.
  pub transfer_get-put :
      (sha256_hex : Bytes → Bytes) (now now' : ℤ) (request request' : TransferRequest)
      (t t' : TransferToken) (range : ByteRange) (body : ℕ → Result Bytes) (content : Bytes)
      (s : Stores)
      → is_clear (store_of t.zone s) ≡ true
      → resolve x c now request (codes "put") ≡ ok t
      → resolve x c now' request' (codes "get") ≡ ok t'
      → t'.zone ≡ t.zone
      → body max_object_bytes ≡ ok content
      → let r = put x c now sha256_hex request body s in
        let same = bytes_eqb t'.container t.container && bytes_eqb t'.object_key t.object_key in
        (r.0 ≡ ok tt)
        × ((get x c now' request' ok range r.1).0
            ≡ (if same then part_of range content else (get x c now' request' ok range s).0))
  unfolding put get on_zone proceed object_ref_from_token
  transfer_get-put sha256_hex now now' request request' t t' range body content s h w r z b =
      let ref = object_ref_from_token t in
      let p =
        put-ensured sha256_hex now ref body content (object_ref_from_token t') range
          (store_of t.zone s) h (resolve-good now request (codes "put") t w) b in
      let s1 : Blobs = (ensure_container ref.container (store_of t.zone s)).1 in
      let back : store_of t.zone (set_store t.zone s1 s) ≡ s1 = store_of-set_store t.zone s1 s in
      rw (put, get, w, r, z, p.0, back, p.1, store_of-set_store) (refl, p.3)
