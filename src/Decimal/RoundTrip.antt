-- ===== src/Decimal/RoundTrip.antt =====
-- What `to_string` prints denotes the number, and is made of digits.
use fssvrcpp.Decimal.{digits, to_string, decimal_from, is_digit}
use fssvrcpp.Prelude.{
  ℕ, zero, suc, ◌+◌, ◌-◌, ◌*◌, ◌/◌, ◌%◌, ◌<◌, Bool, true, [], ◌∷◌, ◌++◌, ltb, all, ◌≡◌, refl, arith,
  Bool-cases, inl, inr, length, length-append, ◌≤◌,
}
use fssvrcpp.Prelude.Bytes.{Bytes}

pub decimal_from-append :
    (v : ℕ) (xs ys : Bytes) → decimal_from v (xs ++ ys) ≡ decimal_from (decimal_from v xs) ys
unfolding decimal_from
decimal_from-append v [] ys = refl
decimal_from-append v (x ∷ xs) ys = decimal_from-append (v * 10 + (x - b'0')) xs ys

pub all-append :
    (p : ℕ → Bool) (xs ys : Bytes) → all p xs ≡ true → all p ys ≡ true → all p (xs ++ ys) ≡ true
all-append p [] ys h k = k
all-append p (x ∷ xs) ys h k = ground (arith, all-append p xs ys)

decimal_from-digits : (fuel n : ℕ) → n < fuel → decimal_from 0 (digits fuel n) ≡ n
unfolding digits decimal_from
decimal_from-digits zero n h = elim h [ ]
decimal_from-digits (suc fuel) n h = elim (Bool-cases (ltb n 10)) [
  | inl small ↦ rw small (omega arith)
  | inr large ↦
      let ih = decimal_from-digits fuel (n / 10) (ground arith) in
      rw (large, decimal_from-append 0 (digits fuel (n / 10)) ((b'0' + n % 10) ∷ []), ih)
        (omega arith)
]

all-digits : (fuel n : ℕ) → all is_digit (digits fuel n) ≡ true
unfolding digits
all-digits zero n = refl
all-digits (suc fuel) n = elim (Bool-cases (ltb n 10)) [
  | inl small ↦ rw small (ground arith)
  | inr large ↦
      rw large
        (all-append is_digit (digits fuel (n / 10)) _ (all-digits fuel (n / 10)) (ground arith))
]

-- A printed number is not empty.
digits-ne-nil : (fuel n : ℕ) → 1 ≤ length (digits (suc fuel) n)
unfolding digits
digits-ne-nil fuel n = ground (arith, length-append (digits fuel (n / 10)) ((b'0' + n % 10) ∷ []))

pub decimal_from-to_string : (n : ℕ) → decimal_from 0 (to_string n) ≡ n
decimal_from-to_string n = unfold to_string in decimal_from-digits (suc n) n (omega arith)

pub all-to_string : (n : ℕ) → all is_digit (to_string n) ≡ true
all-to_string n = unfold to_string in all-digits (suc n) n

pub to_string-ne-nil : (n : ℕ) → 1 ≤ length (to_string n)
to_string-ne-nil n = unfold to_string in digits-ne-nil n n

-- Powers of ten.
abbrev pub power : ℕ → ℕ
power zero = 1
power (suc k) = 10 * power k

length-digits : (k fuel n : ℕ) → n < power (suc k) → length (digits fuel n) ≤ suc k
unfolding digits
length-digits k zero n h = omega arith
length-digits zero (suc fuel) n h = ground arith
length-digits (suc k) (suc fuel) n h = ground (
  arith,
  length-digits k fuel (n / 10) (omega arith),
  length-append (digits fuel (n / 10)) ((b'0' + n % 10) ∷ []),
)

pub length-to_string : (k n : ℕ) → n < power (suc k) → length (to_string n) ≤ suc k
length-to_string k n h = unfold to_string in length-digits k (suc n) n h
