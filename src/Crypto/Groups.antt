-- ===== src/Crypto/Groups.antt =====
-- src/common/crypto/crypto.cpp: what the decoder makes of the letters of one group of bytes.
use fssvrcpp.Crypto.{b64_std, b64_url, char_at, letter, b64_value, emit, decode_from}
use fssvrcpp.Prelude.{
  ℕ, zero, suc, ◌+◌, ◌-◌, ◌*◌, ◌/◌, ◌%◌, ◌^◌, ◌<◌, Bool, true, false, ◌&&◌, not, [], ◌∷◌, Option,
  none, some, ◌==◌, ◌≡◌, refl, arith, ap, length, ◌∙◌, if◌then◌else◌, leb,
}
use fssvrcpp.Prelude.Bytes.{Bytes}

-- The letters of the alphabet are read back, and none is the padding.
abbrev pub IsAlphabet : Bytes → Type 0
IsAlphabet alphabet =
    (n : ℕ)
    → n < 64
    → (b64_value (char_at alphabet n) ≡ some n) × ((char_at alphabet n == b'=') ≡ false)

abbrev is_value : ℕ → Option ℕ → Bool
is_value n none = false
is_value n (some m) = m == n

-- The test of the letters behind the first `i` ones.
reads_back : ℕ → Bytes → Bool
reads_back i [] = true
reads_back i (c ∷ cs) = is_value i (b64_value c) && (not (c == b'=') && reads_back (i + 1) cs)

is_value-some : (n : ℕ) (o : Option ℕ) → is_value n o ≡ true → o ≡ some n
is_value-some n none h = cc
is_value-some n (some m) h = ground (arith, h)

reads_back-char_at :
    (i n : ℕ) (cs : Bytes)
    → reads_back i cs ≡ true
    → n < length cs
    → (b64_value (char_at cs n) ≡ some (i + n)) × ((char_at cs n == b'=') ≡ false)
unfolding reads_back char_at
reads_back-char_at i n [] read there = absurd (omega arith)
reads_back-char_at i zero (c ∷ cs) read there =
    let value : b64_value c ≡ some i = is_value-some i (b64_value c) (ground (arith, read)) in
    (value ∙ ap some (omega arith), ground (arith, read))
reads_back-char_at i (suc n) (c ∷ cs) read there =
    let (value, letter) =
      reads_back-char_at (i + 1) n cs (ground (arith, read)) (omega (arith, there)) in
    (value ∙ ap some (omega arith), letter)

read_back-IsAlphabet :
    (alphabet : Bytes) → reads_back 0 alphabet ≡ true → length alphabet ≡ 64 → IsAlphabet alphabet
read_back-IsAlphabet alphabet read full n below =
    let (value, letter) = reads_back-char_at 0 n alphabet read (omega (arith, below, full)) in
    (value ∙ ap some (omega arith), letter)

pub b64_std-IsAlphabet : IsAlphabet b64_std
unfolding reads_back b64_value
b64_std-IsAlphabet = read_back-IsAlphabet b64_std refl refl

pub b64_url-IsAlphabet : IsAlphabet b64_url
unfolding reads_back b64_value
b64_url-IsAlphabet = read_back-IsAlphabet b64_url refl refl

-- The accumulator behind one more letter.
abbrev shifted : ℕ → ℕ → ℕ → ℕ
shifted acc v shift = (acc * 64 + v / 2 ^ shift % 64) % 2 ^ 32

-- No bit is left over.
pub decode-end : (acc bits : ℕ) → acc % 2 ^ bits ≡ 0 → decode_from acc bits [] ≡ some []
unfolding decode_from
decode-end acc bits h = rw (decode_from, h) (ground arith)

module _ (alphabet : Bytes) (a : IsAlphabet alphabet) where
  decode-letter :
      (acc bits v shift : ℕ) (cs : Bytes)
      → decode_from acc bits (letter alphabet v shift ∷ cs) ≡ (
          if leb 8 (bits + 6)
          then emit
              (shifted acc v shift / 2 ^ (bits - 2) % 256)
              (decode_from (shifted acc v shift) (bits - 2) cs)
          else decode_from (shifted acc v shift) (bits + 6) cs)
  unfolding decode_from
  decode-letter acc bits v shift cs =
      rw (decode_from, (a (v / 2 ^ shift % 64) (omega arith)).0) refl

  -- Four letters give the three bytes of their group.
  pub decode-group :
      (acc x y z : ℕ) (cs : Bytes)
      → x < 256
      → y < 256
      → z < 256
      → let v : ℕ = x * 2 ^ 16 + y * 2 ^ 8 + z in
        (acc' : ℕ) × (decode_from acc 0 (
            letter alphabet v 18
            ∷ letter alphabet v 12
            ∷ letter alphabet v 6
            ∷ letter alphabet v 0
            ∷ cs)
          ≡ emit x (emit y (emit z (decode_from acc' 0 cs))))
  decode-group acc x y z cs hx hy hz =
      let v : ℕ = x * 2 ^ 16 + y * 2 ^ 8 + z in
      let p : ℕ = shifted acc v 18 in
      let q : ℕ = shifted p v 12 in
      let r : ℕ = shifted q v 6 in
      let s : ℕ = shifted r v 0 in
      let first : q / 2 ^ 4 % 256 ≡ x = omega arith in
      let second : r / 2 ^ 2 % 256 ≡ y = omega arith in
      let third : s / 2 ^ 0 % 256 ≡ z = omega arith in
      let last : decode_from r 2 (letter alphabet v 0 ∷ cs) ≡ emit z (decode_from s 0 cs) =
        decode-letter r 2 v 0 cs ∙ λ i. emit (third i) (decode_from s 0 cs) in
      let later : decode_from q 4 (letter alphabet v 6 ∷ letter alphabet v 0 ∷ cs)
          ≡ emit y (emit z (decode_from s 0 cs)) =
        decode-letter q 4 v 6 (letter alphabet v 0 ∷ cs) ∙ λ i. emit (second i) (last i) in
      (
        s,
        decode-letter acc 0 v 18 _
            ∙ (decode-letter p 6 v 12 (letter alphabet v 6 ∷ letter alphabet v 0 ∷ cs) ∙ λ i.
                emit (first i) (later i)),
      )

  -- The group of two bytes at the end.
  pub decode-pair :
      (acc x y : ℕ)
      → x < 256
      → y < 256
      → let v : ℕ = x * 2 ^ 16 + y * 2 ^ 8 in
        decode_from acc 0 (letter alphabet v 18 ∷ letter alphabet v 12 ∷ letter alphabet v 6 ∷ [])
        ≡ some (x ∷ y ∷ [])
  decode-pair acc x y hx hy =
      let v : ℕ = x * 2 ^ 16 + y * 2 ^ 8 in
      let p : ℕ = shifted acc v 18 in
      let q : ℕ = shifted p v 12 in
      let r : ℕ = shifted q v 6 in
      let first : q / 2 ^ 4 % 256 ≡ x = omega arith in
      let second : r / 2 ^ 2 % 256 ≡ y = omega arith in
      let rest : r % 2 ^ 2 ≡ 0 = omega arith in
      let later : decode_from q 4 (letter alphabet v 6 ∷ []) ≡ some (y ∷ []) =
        decode-letter q 4 v 6 [] ∙ λ i. emit (second i) (decode-end r 2 rest i) in
      decode-letter acc 0 v 18 _
      ∙ (decode-letter p 6 v 12 (letter alphabet v 6 ∷ []) ∙ λ i. emit (first i) (later i))

  -- The group of one byte at the end.
  pub decode-single :
      (acc x : ℕ)
      → x < 256
      → let v : ℕ = x * 2 ^ 16 in
        decode_from acc 0 (letter alphabet v 18 ∷ letter alphabet v 12 ∷ []) ≡ some (x ∷ [])
  decode-single acc x hx =
      let v : ℕ = x * 2 ^ 16 in
      let p : ℕ = shifted acc v 18 in
      let q : ℕ = shifted p v 12 in
      let first : q / 2 ^ 4 % 256 ≡ x = omega arith in
      let rest : q % 2 ^ 4 ≡ 0 = omega arith in
      decode-letter acc 0 v 18 _
      ∙ (decode-letter p 6 v 12 [] ∙ λ i. emit (first i) (decode-end q 4 rest i))
