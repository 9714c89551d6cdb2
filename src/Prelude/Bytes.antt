-- ===== src/Prelude/Bytes.antt =====
-- `std::string`: a list of bytes, with `operator==` and the bytewise order of `std::map` keys.
use Prim.Native.Nat.{ℕ}
use Prim.Native.Char.{code}
use Prim.Native.String.{String}
use mathlib.Core.Path.{◌≡◌, refl}
use mathlib.Core.Logic.{◌↔◌}
use mathlib.Core.Bool.{Bool, true, false, ◌&&◌}
use mathlib.Core.List.{List, [], ◌∷◌}
use native.Mathlib.Omega.{arith}
use fssvrcpp.Prelude.Tests.{ltb, ◌==◌, if◌then◌else◌}

abbrev pub Bytes : Type 0
Bytes = List ℕ

-- The bytes of an ASCII literal.
abbrev pub codes : String → Bytes
codes (String.◌∷◌ letter others) = code letter ∷ codes others
codes String.[] = []

abbrev pub is_empty : Bytes → Bool
is_empty [] = true
is_empty (c ∷ cs) = false

unfoldable pub bytes_eqb : Bytes → Bytes → Bool
bytes_eqb [] [] = true
bytes_eqb [] (y ∷ ys) = false
bytes_eqb (x ∷ xs) [] = false
bytes_eqb (x ∷ xs) (y ∷ ys) = x == y && bytes_eqb xs ys

unfoldable pub bytes_ltb : Bytes → Bytes → Bool
bytes_ltb [] [] = false
bytes_ltb [] (y ∷ ys) = true
bytes_ltb (x ∷ xs) [] = false
bytes_ltb (x ∷ xs) (y ∷ ys) = if x == y then bytes_ltb xs ys else ltb x y

pub bytes_eqb_refl : (a : Bytes) → bytes_eqb a a ≡ true
unfolding bytes_eqb
bytes_eqb_refl [] = refl
bytes_eqb_refl (x ∷ xs) = ground (arith, bytes_eqb_refl xs)

pub eq_of_bytes_eqb : (a b : Bytes) → bytes_eqb a b ≡ true → a ≡ b
unfolding bytes_eqb
eq_of_bytes_eqb [] [] h = refl
eq_of_bytes_eqb [] (y ∷ ys) h = cc
eq_of_bytes_eqb (x ∷ xs) [] h = cc
eq_of_bytes_eqb (x ∷ xs) (y ∷ ys) h = ground (arith, eq_of_bytes_eqb xs ys)

pub bytes_eqb_iff : (a b : Bytes) → (bytes_eqb a b ≡ true) ↔ (a ≡ b)
bytes_eqb_iff a b = (eq_of_bytes_eqb a b, λ e. cc (bytes_eqb_refl a))

pub bytes_ltb_irrefl : (a : Bytes) → bytes_ltb a a ≡ false
unfolding bytes_ltb
bytes_ltb_irrefl [] = refl
bytes_ltb_irrefl (x ∷ xs) = ground (arith, bytes_ltb_irrefl xs)

pub bytes_ltb_trans :
    (a b c : Bytes) → bytes_ltb a b ≡ true → bytes_ltb b c ≡ true → bytes_ltb a c ≡ true
unfolding bytes_ltb
bytes_ltb_trans [] [] c h k = cc
bytes_ltb_trans [] (y ∷ ys) [] h k = cc
bytes_ltb_trans [] (y ∷ ys) (z ∷ zs) h k = refl
bytes_ltb_trans (x ∷ xs) [] c h k = cc
bytes_ltb_trans (x ∷ xs) (y ∷ ys) [] h k = cc
bytes_ltb_trans (x ∷ xs) (y ∷ ys) (z ∷ zs) h k = ground (arith, bytes_ltb_trans xs ys zs)

pub bytes_ltb_connex :
    (a b : Bytes) → bytes_eqb a b ≡ false → bytes_ltb a b ≡ false → bytes_ltb b a ≡ true
unfolding bytes_ltb bytes_eqb
bytes_ltb_connex [] [] h k = cc
bytes_ltb_connex [] (y ∷ ys) h k = cc
bytes_ltb_connex (x ∷ xs) [] h k = refl
bytes_ltb_connex (x ∷ xs) (y ∷ ys) h k = ground (arith, bytes_ltb_connex xs ys)

-- `text.rfind(prefix, 0) == 0`
unfoldable pub starts_with : Bytes → Bytes → Bool
starts_with [] cs = true
starts_with (p ∷ ps) [] = false
starts_with (p ∷ ps) (c ∷ cs) = p == c && starts_with ps cs
