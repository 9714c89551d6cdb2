-- ===== src/Crypto.antt =====
-- src/common/crypto/crypto.cpp: the encodings of bytes as text, and the comparison of digests. A
-- byte is a number below 256. The digests themselves are the library's.
pub mod Groups
pub mod RoundTrip
pub mod Compare
use Prim.Native.Nat.{bit_or, bit_xor}
use fssvrcpp.Prelude.{
  ℕ, zero, suc, ◌+◌, ◌-◌, ◌*◌, ◌/◌, ◌%◌, ◌^◌, Bool, true, false, ◌&&◌, ◌||◌, not, List, [], ◌∷◌,
  ◌++◌, Option, none, some, ltb, leb, ◌==◌, if◌then◌else◌, length,
}
use fssvrcpp.Prelude.Bytes.{Bytes, codes}

-- `kB64Std` and `kB64Url`
abbrev pub b64_std : Bytes
b64_std = codes "ABCDEFGHIJKLMNOPQRSTUVWXYZabcdefghijklmnopqrstuvwxyz0123456789+/"

abbrev pub b64_url : Bytes
b64_url = codes "ABCDEFGHIJKLMNOPQRSTUVWXYZabcdefghijklmnopqrstuvwxyz0123456789-_"

-- `alphabet[i]`, where `i` is in range.
unfoldable pub char_at : Bytes → ℕ → ℕ
char_at [] i = 0
char_at (c ∷ cs) zero = c
char_at (c ∷ cs) (suc i) = char_at cs i

-- The letter for the six bits of `v` above the lowest `shift` ones.
abbrev pub letter : Bytes → ℕ → ℕ → ℕ
letter alphabet v shift = char_at alphabet (v / 2 ^ shift % 64)

abbrev pub padding : Bool → Bytes → Bytes
padding pad text = if pad then text else []

-- `Base64Impl`
unfoldable pub base64 : Bytes → Bool → Bytes → Bytes
base64 alphabet pad [] = []
base64 alphabet pad (a ∷ []) =
    let v : ℕ = a * 2 ^ 16 in letter alphabet v 18 ∷ letter alphabet v 12 ∷ padding pad (codes "==")
base64 alphabet pad (a ∷ b ∷ []) =
    let v : ℕ = a * 2 ^ 16 + b * 2 ^ 8 in
    letter alphabet v 18 ∷ letter alphabet v 12 ∷ letter alphabet v 6 ∷ padding pad (codes "=")
base64 alphabet pad (a ∷ b ∷ c ∷ rest) =
    let v : ℕ = a * 2 ^ 16 + b * 2 ^ 8 + c in
    letter alphabet v 18
    ∷ letter alphabet v 12
    ∷ letter alphabet v 6
    ∷ letter alphabet v 0
    ∷ base64 alphabet pad rest

-- `Base64UrlEncode` and `Base64Encode`
unfoldable pub base64_url_encode : Bytes → Bytes
unfolding base64
base64_url_encode = base64 b64_url false

unfoldable pub base64_encode : Bytes → Bytes
unfolding base64
base64_encode = base64 b64_std true

-- `B64Value`; none for -1.
unfoldable pub b64_value : ℕ → Option ℕ
b64_value c =
    if leb b'A' c && leb c b'Z'
    then some (c - b'A')
    else if leb b'a' c && leb c b'z'
    then some (c - b'a' + 26)
    else if leb b'0' c && leb c b'9'
    then some (c - b'0' + 52)
    else if c == b'+' || c == b'-'
    then some 62
    else if c == b'/' || c == b'_'
    then some 63
    else none

-- `while (!text.empty() && text.back() == last) ...`
unfoldable pub strip_back : ℕ → Bytes → Bytes
strip_back last [] = []
strip_back last (c ∷ cs) = elim (strip_back last cs) [
  | [] ↦ if c == last then [] else c ∷ []
  | y ∷ ys ↦ c ∷ y ∷ ys
]

abbrev pub emit : ℕ → Option Bytes → Option Bytes
emit byte none = none
emit byte (some out) = some (byte ∷ out)

-- The loop of `Base64UrlDecode` with what follows it; `acc` has 32 bits.
unfoldable pub decode_from : ℕ → ℕ → Bytes → Option Bytes
decode_from acc bits [] = if ltb 0 bits && not (acc % 2 ^ bits == 0) then none else some []
decode_from acc bits (c ∷ cs) = elim (b64_value c) [
  | none ↦ none
  | some v ↦
      let acc' : ℕ = (acc * 64 + v) % 2 ^ 32 in
      let full = emit (acc' / 2 ^ (bits - 2) % 256) (decode_from acc' (bits - 2) cs) in
      let more = decode_from acc' (bits + 6) cs in if leb 8 (bits + 6) then full else more
]

unfoldable pub base64_url_decode : Bytes → Option Bytes
unfolding strip_back decode_from b64_value
base64_url_decode text = decode_from 0 0 (strip_back b'=' text)

-- `kHexDigits`
abbrev pub hex_digits : Bytes
hex_digits = codes "0123456789abcdef"

unfoldable pub to_hex : Bytes → Bytes
unfolding char_at
to_hex [] = []
to_hex (b ∷ bs) = char_at hex_digits (b / 16) ∷ char_at hex_digits (b % 16) ∷ to_hex bs

-- The loop of `ConstantTimeEquals`, which reads all bytes of two texts of one length.
unfoldable pub difference : ℕ → Bytes → Bytes → ℕ
difference diff [] b = diff
difference diff (x ∷ xs) [] = diff
difference diff (x ∷ xs) (y ∷ ys) = difference (bit_or diff (bit_xor x y)) xs ys

unfoldable pub constant_time_equals : Bytes → Bytes → Bool
unfolding difference
constant_time_equals a b = if not (length a == length b) then false else difference 0 a b == 0
