-- ===== src/Prelude/Dict/Nested.antt =====
-- `std::map<K, std::map<J, V>>`, and pairs as keys.
use mathlib.Core.Path.{◌≡◌}
use mathlib.Core.Logic.{◌↔◌}
use mathlib.Core.Bool.{Bool, true, false, ◌&&◌}
use mathlib.Core.List.{List, []}
use mathlib.Core.Option.{Option, none, some}
use native.Mathlib.Omega.{arith}
use fssvrcpp.Prelude.Tests.{if◌then◌else◌}
use fssvrcpp.Prelude.Dict.Defs.{Key, lookup, insert, remove, lookup-insert, lookup-remove}

module _ {K J : Type 0} ⦃o : Key K⦄ ⦃q : Key J⦄ where
  abbrev pair_eqb : K × J → K × J → Bool
  pair_eqb a b = o.eqb a.0 b.0 && q.eqb a.1 b.1

  abbrev pair_lt : K × J → K × J → Bool
  pair_lt a b = if o.eqb a.0 b.0 then q.lt a.1 b.1 else o.lt a.0 b.0

  pub pair_eqb_iff : (a b : K × J) → (pair_eqb a b ≡ true) ↔ (a ≡ b)
  pair_eqb_iff a b = ground (arith, o.eqb_iff a.0 b.0, q.eqb_iff a.1 b.1)

  pub pair_irrefl : (a : K × J) → pair_lt a a ≡ false
  pair_irrefl a = ground (arith, q.irrefl a.1, o.irrefl a.0)

  pub pair_trans : (a b c : K × J) → pair_lt a b ≡ true → pair_lt b c ≡ true → pair_lt a c ≡ true
  pair_trans a b c h k = ground (
    arith,
    o.eqb_iff a.0 b.0,
    o.eqb_iff b.0 c.0,
    o.eqb_iff a.0 c.0,
    o.trans a.0 b.0 c.0,
    q.trans a.1 b.1 c.1,
    o.trans b.0 c.0 b.0,
    o.irrefl b.0,
  )

  pub pair_connex : (a b : K × J) → pair_eqb a b ≡ false → pair_lt a b ≡ false → pair_lt b a ≡ true
  pair_connex a b h k =
      ground (arith, o.eqb_iff a.0 b.0, o.eqb_iff b.0 a.0, o.connex a.0 b.0, q.connex a.1 b.1)

  instance abbrev pub pair_key : Key (K × J)
  pair_key = record {
    eqb = pair_eqb;
    lt = pair_lt;
    eqb_iff = pair_eqb_iff;
    irrefl = pair_irrefl;
    trans = pair_trans;
    connex = pair_connex;
  }

module _ {K J V : Type 0} ⦃o : Key K⦄ ⦃q : Key J⦄ where
  -- The inner map of a key, empty where there is none.
  unfoldable pub bucket : K → List (K × List (J × V)) → List (J × V)
  bucket k m = elim (lookup k m) [ none ↦ [] | some b ↦ b ]

  unfoldable pub lookup_in : K → J → List (K × List (J × V)) → Option V
  unfolding bucket
  lookup_in k j m = lookup j (bucket k m)

  -- `m[k][j] = v`
  unfoldable pub insert_in : K → J → V → List (K × List (J × V)) → List (K × List (J × V))
  unfolding bucket
  insert_in k j v m = insert k (insert j v (bucket k m)) m

  -- `m[k].erase(j)`
  unfoldable pub remove_in : K → J → List (K × List (J × V)) → List (K × List (J × V))
  unfolding bucket
  remove_in k j m = insert k (remove j (bucket k m)) m

  -- `m[k];`, which creates an empty inner map where there is none.
  unfoldable pub touch : K → List (K × List (J × V)) → List (K × List (J × V))
  unfolding bucket
  touch k m = insert k (bucket k m) m

  pub lookup_in-insert_in :
      (k k' : K) (j j' : J) (v : V) (m : List (K × List (J × V)))
      → lookup_in k' j' (insert_in k j v m)
        ≡ (if o.eqb k' k && q.eqb j' j then some v else lookup_in k' j' m)
  unfolding lookup_in insert_in
  lookup_in-insert_in k k' j j' v m = ground (
    arith,
    o.eqb_iff k' k,
    lookup-insert k k' (insert j v (bucket k m)) m,
    lookup-insert j j' v (bucket k m),
  )

  pub lookup_in-remove_in :
      (k k' : K) (j j' : J) (m : List (K × List (J × V)))
      → lookup_in k' j' (remove_in k j m)
        ≡ (if o.eqb k' k && q.eqb j' j then none else lookup_in k' j' m)
  unfolding lookup_in remove_in
  lookup_in-remove_in k k' j j' m = ground (
    arith,
    o.eqb_iff k' k,
    lookup-insert k k' (remove j (bucket k m)) m,
    lookup-remove j j' (bucket k m),
  )

  pub lookup_in-touch :
      (k k' : K) (j' : J) (m : List (K × List (J × V)))
      → lookup_in k' j' (touch k m) ≡ lookup_in k' j' m
  unfolding lookup_in touch
  lookup_in-touch k k' j' m = ground (arith, o.eqb_iff k' k, lookup-insert k k' (bucket k m) m)
