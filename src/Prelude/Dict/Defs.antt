-- ===== src/Prelude/Dict/Defs.antt =====
-- `std::map` as an association list sorted by key. The laws of `lookup` need no order; iteration,
-- and so every listing, runs in the order of the keys.
use mathlib.Core.Path.{◌≡◌, refl}
use mathlib.Core.Logic.{◌↔◌}
use mathlib.Core.Bool.{Bool, true, false}
use mathlib.Core.List.{List, [], ◌∷◌}
use mathlib.Core.Option.{Option, none, some}
use native.Mathlib.Omega.{arith}
use fssvrcpp.Prelude.Tests.{if◌then◌else◌}
use fssvrcpp.Prelude.Bytes.{
  Bytes, bytes_eqb, bytes_ltb, bytes_eqb_iff, bytes_ltb_irrefl, bytes_ltb_trans, bytes_ltb_connex,
}

pub record Key (K : Type 0) : Type 0 where
  pub eqb : K → K → Bool
  pub lt : K → K → Bool
  pub eqb_iff : (a b : K) → (eqb a b ≡ true) ↔ (a ≡ b)
  pub irrefl : (a : K) → lt a a ≡ false
  pub trans : (a b c : K) → lt a b ≡ true → lt b c ≡ true → lt a c ≡ true
  pub connex : (a b : K) → eqb a b ≡ false → lt a b ≡ false → lt b a ≡ true

instance abbrev pub bytes_key : Key Bytes
bytes_key = record {
  eqb = bytes_eqb;
  lt = bytes_ltb;
  eqb_iff = bytes_eqb_iff;
  irrefl = bytes_ltb_irrefl;
  trans = bytes_ltb_trans;
  connex = bytes_ltb_connex;
}

module _ {K V : Type 0} ⦃o : Key K⦄ where
  unfoldable pub lookup : K → List (K × V) → Option V
  lookup k [] = none
  lookup k ((j, w) ∷ m) = if o.eqb k j then some w else lookup k m

  unfoldable pub insert : K → V → List (K × V) → List (K × V)
  insert k v [] = (k, v) ∷ []
  insert k v ((j, w) ∷ m) =
      if o.eqb k j
      then (k, v) ∷ m
      else if o.lt k j
      then (k, v) ∷ (j, w) ∷ m
      else (j, w) ∷ insert k v m

  unfoldable pub remove : K → List (K × V) → List (K × V)
  remove k [] = []
  remove k ((j, w) ∷ m) = let rest = remove k m in if o.eqb k j then rest else (j, w) ∷ rest

  pub lookup-insert :
      (k j : K) (v : V) (m : List (K × V))
      → lookup j (insert k v m) ≡ (if o.eqb j k then some v else lookup j m)
  unfolding lookup insert
  lookup-insert k j v [] = refl
  lookup-insert k j v ((i, w) ∷ m) =
      ground (arith, o.eqb_iff k i, o.eqb_iff j k, o.eqb_iff j i, lookup-insert k j v m)

  pub lookup-remove :
      (k j : K) (m : List (K × V))
      → lookup j (remove k m) ≡ (if o.eqb j k then none else lookup j m)
  unfolding lookup remove
  lookup-remove k j [] = ground arith
  lookup-remove k j ((i, w) ∷ m) =
      ground (arith, o.eqb_iff k i, o.eqb_iff j k, o.eqb_iff j i, lookup-remove k j m)

  -- Every key of the dictionary is above `k`.
  abbrev pub Above : K → List (K × V) → Type 0
  Above k [] = Unit
  Above k ((j, w) ∷ m) = (o.lt k j ≡ true) × Above k m

  -- Keys rise strictly, as in a `std::map`.
  abbrev pub IsSorted : List (K × V) → Type 0
  IsSorted [] = Unit
  IsSorted ((j, w) ∷ m) = Above j m × IsSorted m

  Above-mono : (k j : K) (m : List (K × V)) → o.lt k j ≡ true → Above j m → Above k m
  Above-mono k j [] h a = tt
  Above-mono k j ((i, w) ∷ m) h a = (o.trans k j i h a.0, Above-mono k j m h a.1)

  Above-insert :
      (b k : K) (v : V) (m : List (K × V)) → o.lt b k ≡ true → Above b m → Above b (insert k v m)
  unfolding insert
  Above-insert b k v [] h a = (h, tt)
  Above-insert b k v ((i, w) ∷ m) h a = ground (arith, Above-insert b k v m h)

  Above-remove : (b k : K) (m : List (K × V)) → Above b m → Above b (remove k m)
  unfolding remove
  Above-remove b k [] a = tt
  Above-remove b k ((i, w) ∷ m) a = ground (arith, Above-remove b k m a.1)

  pub insert-IsSorted : (k : K) (v : V) (m : List (K × V)) → IsSorted m → IsSorted (insert k v m)
  unfolding insert
  insert-IsSorted k v [] s = (tt, tt)
  insert-IsSorted k v ((i, w) ∷ m) s = ground (
    arith,
    o.eqb_iff k i,
    o.connex k i,
    Above-mono k i m,
    Above-insert i k v m,
    insert-IsSorted k v m s.1,
  )

  pub remove-IsSorted : (k : K) (m : List (K × V)) → IsSorted m → IsSorted (remove k m)
  unfolding remove
  remove-IsSorted k [] s = tt
  remove-IsSorted k ((i, w) ∷ m) s = ground (arith, Above-remove i k m s.0, remove-IsSorted k m s.1)
