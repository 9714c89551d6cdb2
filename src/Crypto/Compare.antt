-- ===== src/Crypto/Compare.antt =====
-- src/common/crypto/crypto.cpp: the comparison that reads every byte is equality.
use Prim.Native.Nat.{max, digits, differ, bit_or, bit_or-bitwise, bit_xor, bit_xor-bitwise}
use native.Mathlib.Nat.{le_refl}
use fssvrcpp.Crypto.{difference, constant_time_equals}
use fssvrcpp.Prelude.{
  ℕ, zero, suc, ◌+◌, ◌/◌, ◌%◌, ◌≤◌, Bool-cases, inl, inr, ap, true, [], ◌∷◌, ◌==◌, length, ◌≡◌,
  refl, sym, ◌∙◌, ◌↔◌, arith,
}
use fssvrcpp.Prelude.Bytes.{Bytes, bytes_eqb, bytes_eqb_iff}

-- Two numbers without a binary digit in either of them are both 0.
max-digits-zero : (n a b : ℕ) → a ≤ n → digits (λ d. d) max n a b ≡ 0 → a + b ≡ 0
max-digits-zero zero a b small e = omega (arith, small, e)
max-digits-zero (suc n) zero b small e = omega (arith, e)
max-digits-zero (suc n) (suc a) b small e =
    let rest = max-digits-zero n (suc a / 2) (b / 2) (omega arith) in ground (arith, rest, e)

bit_or-eq-zero : (a b : ℕ) → bit_or a b ≡ 0 → a + b ≡ 0
bit_or-eq-zero a b e = max-digits-zero a a b (le_refl a) (sym (bit_or-bitwise a b) ∙ e)

differ_iff : (c d : ℕ) → (differ c d ≡ 0) ↔ (c ≡ d)
differ_iff zero d = (λ e. sym e, λ e. sym e)
differ_iff (suc c) zero = (λ e. e, λ e. e)
differ_iff (suc c) (suc d) =
    let less = differ_iff c d in (λ e. ap suc (less.0 e), λ e. less.1 (omega (arith, e)))

-- The digits that differ are none exactly if the numbers are the same.
differ-digits-zero : (n a b : ℕ) → a ≤ n → (digits (λ d. d) differ n a b ≡ 0) ↔ (a ≡ b)
differ-digits-zero zero a b small =
    let no_more : a ≡ 0 = omega arith in (λ e. no_more ∙ sym e, λ e. sym e ∙ no_more)
differ-digits-zero (suc n) zero b small = (λ e. sym e, λ e. sym e)
differ-digits-zero (suc n) (suc a) b small =
    let front = differ-digits-zero n (suc a / 2) (b / 2) (omega arith) in
    let last = differ_iff (suc a % 2) (b % 2) in
    (
      λ e. let i = front.0 (omega (arith, e)) in let j = last.0 (omega (arith, e)) in omega arith,
      λ e. let i = front.1 (omega (arith, e)) in let j = last.1 (omega (arith, e)) in omega arith,
    )

bit_xor-eq-zero : (a b : ℕ) → (bit_xor a b ≡ 0) ↔ (a ≡ b)
bit_xor-eq-zero a b =
    let (same, none) = differ-digits-zero a a b (le_refl a) in
    (λ e. same (sym (bit_xor-bitwise a b) ∙ e), λ e. bit_xor-bitwise a b ∙ none e)

-- A difference that was found stays.
difference-ne-zero : (d : ℕ) (a b : Bytes) → difference d a b ≡ 0 → d ≡ 0
unfolding difference
difference-ne-zero d [] b e = e
difference-ne-zero d (x ∷ xs) [] e = e
difference-ne-zero d (x ∷ xs) (y ∷ ys) e =
    let neither =
      bit_or-eq-zero d (bit_xor x y) (difference-ne-zero (bit_or d (bit_xor x y)) xs ys e) in
    omega arith

difference-zero :
    (a b : Bytes) → length a ≡ length b → (difference 0 a b ≡ 0) ↔ (bytes_eqb a b ≡ true)
unfolding difference bytes_eqb
difference-zero [] [] l = (λ e. refl, λ e. refl)
difference-zero [] (y ∷ ys) l = absurd (omega arith)
difference-zero (x ∷ xs) [] l = absurd (omega arith)
difference-zero (x ∷ xs) (y ∷ ys) l =
    let xor : ℕ = bit_xor x y in
    let ih = difference-zero xs ys (omega arith) in
    let x_eq : (difference (bit_or 0 xor) xs ys ≡ 0) → bit_or 0 xor ≡ 0 =
      λ e. difference-ne-zero (bit_or 0 xor) xs ys e in
    (
      λ e.
          let z = x_eq e in
          let same = (bit_xor-eq-zero x y).0 (omega (arith, bit_or-eq-zero 0 xor z)) in
          ground (arith, same, ih.0 (sym (ap (λ d. difference d xs ys) z) ∙ e)),
      λ e.
          let same : x ≡ y = ground (arith, e) in
          let z : bit_or 0 xor ≡ 0 = ap (bit_or 0) ((bit_xor-eq-zero x y).1 same) in
          ap (λ d. difference d xs ys) z ∙ ih.1 (ground (arith, e)),
    )

-- The comparison in constant time answers as the comparison of the texts does.
pub constant_time_equals-bytes_eqb : (a b : Bytes) → constant_time_equals a b ≡ bytes_eqb a b
unfolding constant_time_equals
constant_time_equals-bytes_eqb a b = elim (Bool-cases (length a == length b)) [
  | inl same ↦ ground (arith, same, difference-zero a b (ground (arith, same)))
  | inr longer ↦ ground (arith, longer, bytes_eqb_iff a b, λ (e : a ≡ b). ap length e)
]
