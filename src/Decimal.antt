-- ===== src/Decimal.antt =====
-- `std::to_string` of a number that is not negative, and reading it back.
pub mod RoundTrip
use fssvrcpp.Prelude.{
  ℕ, zero, suc, ◌+◌, ◌-◌, ◌*◌, ◌/◌, ◌%◌, ◌^◌, Bool, true, false, ◌||◌, ◌&&◌, List, [], ◌∷◌, ◌++◌,
  ltb, leb, ◌==◌, Option, none, some, if◌then◌else◌,
}
use fssvrcpp.Prelude.Bytes.{Bytes, is_empty}
use fssvrcpp.Prelude.Int.{ℤ, pos, negsuc}

-- The digits of `n`, with fuel above `n`.
unfoldable pub digits : ℕ → ℕ → Bytes
digits zero n = []
digits (suc fuel) n =
    let front = digits fuel (n / 10) in
    if ltb n 10 then (b'0' + n) ∷ [] else front ++ ((b'0' + n % 10) ∷ [])

unfoldable pub to_string : ℕ → Bytes
unfolding digits
to_string n = digits (suc n) n

abbrev pub is_digit : ℕ → Bool
is_digit c = if ltb c b'0' then false else if ltb b'9' c then false else true

-- The number that digits denote, behind the digits read so far.
unfoldable pub decimal_from : ℕ → Bytes → ℕ
decimal_from v [] = v
decimal_from v (c ∷ cs) = decimal_from (v * 10 + (c - b'0')) cs

-- `std::stoll`: blanks, a sign and digits are read, what follows is not; none where it throws.
abbrev pub is_space : ℕ → Bool
is_space c = c == b' ' || (leb 9 c && leb c 13)

unfoldable pub skip_spaces : Bytes → Bytes
skip_spaces [] = []
skip_spaces (c ∷ cs) = let rest = skip_spaces cs in if is_space c then rest else c ∷ cs

unfoldable pub digits_front : Bytes → Bytes
digits_front [] = []
digits_front (c ∷ cs) = let rest = digits_front cs in if is_digit c then c ∷ rest else []

unfoldable pub magnitude : Bytes → Option ℕ
unfolding digits_front decimal_from
magnitude text =
    let front = digits_front text in if is_empty front then none else some (decimal_from 0 front)

abbrev pub with_sign : Bool → Option ℕ → Option ℤ
with_sign negative none = none
with_sign false (some n) = if ltb n (2 ^ 63) then some (pos n) else none
with_sign true (some zero) = some (pos zero)
with_sign true (some (suc n)) = if ltb n (2 ^ 63) then some (negsuc n) else none

abbrev pub signed : Bytes → Option ℤ
signed [] = none
signed (c ∷ cs) =
    if c == b'-'
    then with_sign true (magnitude cs)
    else if c == b'+'
    then with_sign false (magnitude cs)
    else with_sign false (magnitude (c ∷ cs))

unfoldable pub stoll : Bytes → Option ℤ
unfolding skip_spaces magnitude
stoll text = signed (skip_spaces text)
