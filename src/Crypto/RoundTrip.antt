-- ===== src/Crypto/RoundTrip.antt =====
-- src/common/crypto/crypto.cpp: decoding what was encoded.
use fssvrcpp.Crypto.{
  b64_std, b64_url, letter, base64, base64_url_encode, base64_encode, emit, decode_from, strip_back,
  base64_url_decode,
}
use fssvrcpp.Crypto.Groups.{
  IsAlphabet, b64_std-IsAlphabet, b64_url-IsAlphabet, decode-group, decode-pair, decode-single,
  decode-end,
}
use fssvrcpp.Prelude.{
  ℕ, ◌<◌, ◌^◌, ◌/◌, ◌%◌, Bool, true, false, [], ◌∷◌, some, All, ◌==◌, ◌≡◌, refl, ap, ◌∙◌, arith,
}
use fssvrcpp.Prelude.Bytes.{Bytes, codes}

-- Every element is a byte.
abbrev pub AreBytes : Bytes → Type 0
AreBytes = All (λ b. b < 256)

pub strip_back-keep :
    (last c : ℕ) (cs : Bytes)
    → (c == last) ≡ false
    → strip_back last (c ∷ cs) ≡ c ∷ strip_back last cs
unfolding strip_back
strip_back-keep last c cs h = ground (arith, h)

strip_back-padding :
    (strip_back b'=' [] ≡ [])
    × (strip_back b'=' (codes "=") ≡ [])
    × (strip_back b'=' (codes "==") ≡ [])
unfolding strip_back
strip_back-padding = (refl, refl, refl)

module _ (alphabet : Bytes) (a : IsAlphabet alphabet) where
  letter-differs : (v shift : ℕ) → (letter alphabet v shift == b'=') ≡ false
  letter-differs v shift = (a (v / 2 ^ shift % 64) (omega arith)).1

  strip_back-letter :
      (v shift : ℕ) (cs : Bytes)
      → strip_back b'=' (letter alphabet v shift ∷ cs)
        ≡ letter alphabet v shift ∷ strip_back b'=' cs
  strip_back-letter v shift cs =
      strip_back-keep b'=' (letter alphabet v shift) cs (letter-differs v shift)

  -- The text without its padding is the one that is encoded without.
  strip_back-base64 :
      (pad : Bool) (d : Bytes) → strip_back b'=' (base64 alphabet pad d) ≡ base64 alphabet false d
  unfolding base64
  strip_back-base64 pad [] = strip_back-padding.0
  strip_back-base64 true (x ∷ []) = simp (strip_back-letter, strip_back-padding.2)
  strip_back-base64 false (x ∷ []) = simp (strip_back-letter, strip_back-padding.0)
  strip_back-base64 true (x ∷ y ∷ []) = simp (strip_back-letter, strip_back-padding.1)
  strip_back-base64 false (x ∷ y ∷ []) = simp (strip_back-letter, strip_back-padding.0)
  strip_back-base64 pad (x ∷ y ∷ z ∷ d) = simp (strip_back-letter, strip_back-base64 pad d)

  decode-base64 :
      (acc : ℕ) (d : Bytes) → AreBytes d → decode_from acc 0 (base64 alphabet false d) ≡ some d
  unfolding base64
  decode-base64 acc [] h = decode-end acc 0 (omega arith)
  decode-base64 acc (x ∷ []) h = decode-single alphabet a acc x h.0
  decode-base64 acc (x ∷ y ∷ []) h = decode-pair alphabet a acc x y h.0 h.1.0
  decode-base64 acc (x ∷ y ∷ z ∷ d) h =
      let (acc', e) =
        decode-group alphabet a acc x y z (base64 alphabet false d) h.0 h.1.0 h.1.1.0 in
      e ∙ ap (λ o. emit x (emit y (emit z o))) (decode-base64 acc' d h.1.1.1)

-- The decoder gives back every list of bytes that either encoder was given: the one for URLs, which
-- does not pad, and the standard one, which does.
pub base64_url_decode-encode :
    (d : Bytes)
    → AreBytes d
    → (base64_url_decode (base64_url_encode d) ≡ some d)
      × (base64_url_decode (base64_encode d) ≡ some d)
unfolding base64_url_decode base64_url_encode base64_encode
base64_url_decode-encode d h = (
  ap (decode_from 0 0) (strip_back-base64 b64_url b64_url-IsAlphabet false d)
      ∙ decode-base64 b64_url b64_url-IsAlphabet 0 d h,
  ap (decode_from 0 0) (strip_back-base64 b64_std b64_std-IsAlphabet true d)
      ∙ decode-base64 b64_std b64_std-IsAlphabet 0 d h,
)
