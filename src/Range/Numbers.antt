-- ===== src/Range/Numbers.antt =====
-- src/common/bytes/bytes.cpp: the numbers that `ParseUint64` reads, stated without its loop.
use fssvrcpp.Decimal.{decimal_from, is_digit}
use fssvrcpp.Prelude.{
  ℕ, ◌+◌, ◌-◌, ◌*◌, ◌/◌, ◌≤◌, ◌&&◌, [], ◌∷◌, all, ◌≡◌, refl, arith, Option, none, some, ltb, leb,
  if◌then◌else◌, Bool-cases, inl, inr,
}
use fssvrcpp.Prelude.Bytes.{Bytes, is_empty}
use fssvrcpp.Range.{uint64_from, parse_uint64, int64_max, uint64_max}

-- The number that a text denotes, where it is made of digits and at most `limit`.
abbrev pub bounded_number : ℕ → ℕ → Bytes → Option ℕ
bounded_number limit v cs =
    if all is_digit cs && leb (decimal_from v cs) limit then some (decimal_from v cs) else none

decimal_from-grows : (v : ℕ) (cs : Bytes) → v ≤ decimal_from v cs
unfolding decimal_from
decimal_from-grows v [] = omega arith
decimal_from-grows v (c ∷ cs) = let ih = decimal_from-grows (v * 10 + (c - b'0')) cs in omega arith

uint64_from_lem :
    (v : ℕ) (cs : Bytes) → v ≤ uint64_max → uint64_from v cs ≡ bounded_number uint64_max v cs
unfolding uint64_from decimal_from
uint64_from_lem v [] h = ground arith
uint64_from_lem v (c ∷ cs) h = elim (Bool-cases (is_digit c)) [
  | inl digit ↦ elim (Bool-cases (ltb ((uint64_max - (c - b'0')) / 10) v)) [
    | inl over ↦ let grows = decimal_from-grows (v * 10 + (c - b'0')) cs in ground arith
    | inr fits ↦
        let ih = uint64_from_lem (v * 10 + (c - b'0')) cs (ground arith) in ground (arith, ih)
  ]
  | inr other ↦ ground arith
]

-- `ParseUint64` accepts exactly the texts that are not empty, are made of decimal digits and
-- denote a number below 2^63, and it returns the number they denote.
pub parse_uint64_lem :
    (cs : Bytes) → parse_uint64 cs ≡ (if is_empty cs then none else bounded_number int64_max 0 cs)
unfolding parse_uint64
parse_uint64_lem [] = refl
parse_uint64_lem (c ∷ cs) =
    rw (parse_uint64, uint64_from_lem 0 (c ∷ cs) (omega arith)) (ground arith)
