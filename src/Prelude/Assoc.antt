-- ===== src/Prelude/Assoc.antt =====
-- A map as an association list, for `HashMap` and `BTreeMap`: the code never relies on the order.
use Prim.Native.Nat.{suc, ◌≤◌}
use mathlib.Core.Path.{◌≡◌, refl}
use mathlib.Core.Bool.{Bool, true}
use mathlib.Core.Option.{Option, none, some}
use mathlib.Core.List.{List, [], ◌∷◌}
use native.Mathlib.Omega.{arith}
use super_engine.Prelude.Tests.{if◌then◌else◌, is_some}
use super_engine.Prelude.Equality.{Eq, ◌==◌}
use super_engine.Prelude.Lists.{length}

module _ {ℓ} {K V : Type ℓ} ⦃e : Eq K⦄ where
  unfoldable pub lookup : K → List (K × V) → Option V
  lookup k [] = none
  lookup k ((j, v) ∷ table) = if j == k then some v else lookup k table

  unfoldable pub insert : K → V → List (K × V) → List (K × V)
  insert k v [] = (k, v) ∷ []
  insert k v ((j, old) ∷ table) = if j == k then (k, v) ∷ table else (j, old) ∷ insert k v table

  unfoldable pub remove : K → List (K × V) → List (K × V)
  remove k [] = []
  remove k ((j, old) ∷ table) =
      let rest = remove k table in if j == k then rest else (j, old) ∷ rest

  -- `HashMap::retain`.
  unfoldable pub retain : (V → Bool) → List (K × V) → List (K × V)
  retain p [] = []
  retain p ((j, old) ∷ table) = let rest = retain p table in if p old then (j, old) ∷ rest else rest

  abbrev pub contains_key : K → List (K × V) → Bool
  contains_key k table = is_some (lookup k table)

  pub lookup-insert :
      (k j : K) (v : V) (table : List (K × V))
      → lookup j (insert k v table) ≡ (if k == j then some v else lookup j table)
  unfolding lookup insert
  lookup-insert k j v [] = refl
  lookup-insert k j v ((i, old) ∷ table) =
      ground (arith, e.beq_iff k j, e.beq_iff i k, e.beq_iff i j, lookup-insert k j v table)

  pub lookup-remove :
      (k j : K) (table : List (K × V))
      → lookup j (remove k table) ≡ (if k == j then none else lookup j table)
  unfolding lookup remove
  lookup-remove k j [] = ground arith
  lookup-remove k j ((i, old) ∷ table) =
      ground (arith, e.beq_iff k j, e.beq_iff i k, e.beq_iff i j, lookup-remove k j table)

  pub length-insert :
      (k : K) (v : V) (table : List (K × V))
      → length (insert k v table)
        ≡ (if contains_key k table then length table else suc (length table))
  unfolding lookup insert
  length-insert k v [] = refl
  length-insert k v ((i, old) ∷ table) = ground (arith, length-insert k v table)

  pub length-remove-le : (k : K) (table : List (K × V)) → length (remove k table) ≤ length table
  unfolding remove
  length-remove-le k [] = omega arith
  length-remove-le k ((i, old) ∷ table) = ground (arith, length-remove-le k table)

  pub length-retain-le :
      (p : V → Bool) (table : List (K × V)) → length (retain p table) ≤ length table
  unfolding retain
  length-retain-le p [] = omega arith
  length-retain-le p ((i, old) ∷ table) = ground (arith, length-retain-le p table)

  pub lookup-retain :
      (p : V → Bool) (k : K) (v : V) (table : List (K × V))
      → lookup k table ≡ some v
      → p v ≡ true
      → lookup k (retain p table) ≡ some v
  unfolding lookup retain
  lookup-retain p k v [] h q = cc
  lookup-retain p k v ((i, old) ∷ table) h q = ground (arith, lookup-retain p k v table)

  pub ruleset map_laws = (lookup-insert, lookup-remove)
