-- ===== src/Expiry/Digits.antt =====
-- src/app/services/expiry_policy.cpp: the numbers that `ParseDigits` reads, stated without its
-- loop. With at most 18 digits its test for an overflow never fires.
use fssvrcpp.Decimal.{to_string, decimal_from, is_digit}
use fssvrcpp.Decimal.RoundTrip.{
  decimal_from-to_string, all-to_string, to_string-ne-nil, power, length-to_string,
}
use fssvrcpp.Expiry.{digits_from, parse_digits, split_last}
use fssvrcpp.Prelude.{
  ℕ, zero, suc, ◌+◌, ◌-◌, ◌*◌, ◌^◌, ◌<◌, ◌≤◌, Bool, ◌&&◌, [], ◌∷◌, ◌++◌, all, ◌≡◌, refl, arith,
  none, some, ltb, leb, if◌then◌else◌, Bool-cases, inl, inr, length,
}
use fssvrcpp.Prelude.Bytes.{Bytes}

-- A text of 1 to 18 digits.
abbrev pub is_number : Bytes → Bool
is_number cs = leb 1 (length cs) && (leb (length cs) 18 && all is_digit cs)

power-le : (j k : ℕ) → j + k ≡ 18 → power k ≤ 10 ^ 18
power-le zero k e = let at_end : k ≡ 18 = omega arith in rw at_end (omega arith)
power-le (suc j) k e = omega (arith, power-le j (suc k) (omega arith))

digits_from_lem :
    (k v : ℕ) (cs : Bytes)
    → k + length cs ≤ 18
    → v < power k
    → digits_from v cs ≡ (if all is_digit cs then some (decimal_from v cs) else none)
unfolding digits_from decimal_from
digits_from_lem k v [] h b = refl
digits_from_lem k v (c ∷ cs) h b = elim (Bool-cases (is_digit c)) [
  | inl digit ↦
      let small = power-le (17 - k) (suc k) (omega arith) in
      let next : v * 10 + (c - b'0') < power (suc k) = ground arith in
      let ih = digits_from_lem (suc k) (v * 10 + (c - b'0')) cs (omega arith) next in
      ground (arith, ih)
  | inr other ↦ ground arith
]

pub parse_digits_lem :
    (cs : Bytes) → parse_digits cs ≡ (if is_number cs then some (decimal_from 0 cs) else none)
unfolding parse_digits
parse_digits_lem [] = refl
parse_digits_lem (c ∷ cs) = elim (Bool-cases (ltb 18 (length (c ∷ cs)))) [
  | inl long ↦ ground arith
  | inr short ↦ ground (arith, digits_from_lem 0 0 (c ∷ cs) (ground arith) (omega arith))
]

pub split_last-append : (cs : Bytes) (c : ℕ) → split_last (cs ++ (c ∷ [])) ≡ some (cs, c)
unfolding split_last
split_last-append [] c = refl
split_last-append (x ∷ xs) c = rw (split_last, split_last-append xs c) refl

pub parse_digits-to_string : (n : ℕ) → n < power 18 → parse_digits (to_string n) ≡ some n
parse_digits-to_string n h =
    let count = length-to_string 17 n h in
    rw (parse_digits_lem (to_string n), all-to_string n, decimal_from-to_string n)
      (ground (arith, to_string-ne-nil n))
