-- ===== src/Prelude/Dict/Iterate.antt =====
-- Iteration over a `std::map`: the keys and the values that pass a test, in key order.
use mathlib.Core.Path.{◌≡◌, refl}
use mathlib.Core.Bool.{Bool, true, false}
use mathlib.Core.List.{List, [], ◌∷◌}
use mathlib.Core.Option.{Option, none, some}
use native.Mathlib.Omega.{arith}
use fssvrcpp.Prelude.Tests.{if◌then◌else◌}
use fssvrcpp.Prelude.Dict.Defs.{Key, lookup, Above, IsSorted}

module _ {K : Type 0} ⦃o : Key K⦄ where
  unfoldable pub elem : K → List K → Bool
  elem k [] = false
  elem k (j ∷ ks) = if o.eqb k j then true else elem k ks

module _ {K V : Type 0} ⦃o : Key K⦄ where
  unfoldable pub keys_where : (K → V → Bool) → List (K × V) → List K
  keys_where p [] = []
  keys_where p ((k, v) ∷ m) = let rest = keys_where p m in if p k v then k ∷ rest else rest

  abbrev pub holds_at : (K → V → Bool) → K → Option V → Bool
  holds_at p k none = false
  holds_at p k (some v) = p k v

  unfoldable pub values_where : (K → V → Bool) → List (K × V) → List V
  values_where p [] = []
  values_where p ((k, v) ∷ m) = let rest = values_where p m in if p k v then v ∷ rest else rest

  lookup-Above : (k : K) (m : List (K × V)) → Above k m → lookup k m ≡ none
  unfolding lookup
  lookup-Above k [] a = refl
  lookup-Above k ((j, w) ∷ m) a = ground (arith, o.eqb_iff k j, o.irrefl k, lookup-Above k m a.1)

  -- In a map, a key is listed exactly if it is bound to a value that passes the test.
  pub elem-keys_where :
      (p : K → V → Bool) (k : K) (m : List (K × V))
      → IsSorted m
      → elem k (keys_where p m) ≡ holds_at p k (lookup k m)
  unfolding elem keys_where lookup
  elem-keys_where p k [] s = refl
  elem-keys_where p k ((j, w) ∷ m) s =
      ground (arith, o.eqb_iff k j, lookup-Above j m s.0, elem-keys_where p k m s.1)
