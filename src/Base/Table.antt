-- ===== src/Base/Table.antt =====
-- `HashMap<K, V>` as an association list. Its order stands for the map's iteration order, which
-- Rust leaves open.
use mathlib.Core.Option.{Option, none, some}
use mathlib.Core.Bool.{Bool}
use mathlib.Core.Path.{◌≡◌, refl}
use mathlib.Core.Logic.{◌≢◌, ◌⊎◌, inl, inr}
use mathlib.Core.List.{List, [], ◌∷◌}
use native.Mathlib.Omega.{arith}
use kerosene_node.Base.Tests.{Eq, ◌==◌, if◌then◌else◌, is_some, Bool-cases}

abbrev pub Table : Type 0 → Type 0 → Type 0
Table K V = List (K × V)

-- What is left of a value by a filter.
abbrev pub if_kept : {V : Type 0} → (V → Bool) → Option V → Option V
if_kept p none = none
if_kept p (some v) = if p v then some v else none

module _ {K V : Type 0} ⦃e : Eq K⦄ where
  abbrev pub lookup : K → Table K V → Option V
  lookup k [] = none
  lookup k ((j, v) ∷ t) = if j == k then some v else lookup k t

  abbrev pub contains_key : K → Table K V → Bool
  contains_key k t = is_some (lookup k t)

  abbrev pub insert : K → V → Table K V → Table K V
  insert k v [] = (k, v) ∷ []
  insert k v ((j, w) ∷ t) = if j == k then (k, v) ∷ t else (j, w) ∷ insert k v t

  pub lookup-insert :
      (k j : K) (v : V) (t : Table K V)
      → lookup j (insert k v t) ≡ (if k == j then some v else lookup j t)
  lookup-insert k j v [] = refl
  lookup-insert k j v ((i, w) ∷ t) =
      ground (arith, e.beq_iff k j, e.beq_iff i k, e.beq_iff i j, lookup-insert k j v t)

  pub lookup-insert_self : (k : K) (v : V) (t : Table K V) → lookup k (insert k v t) ≡ some v
  lookup-insert_self k v t = ground (arith, lookup-insert k k v t, e.beq_iff k k)

  pub lookup-insert_ne :
      (k j : K) (v : V) (t : Table K V) → k ≢ j → lookup j (insert k v t) ≡ lookup j t
  lookup-insert_ne k j v t ne = ground (arith, lookup-insert k j v t, e.beq_iff k j)

  -- What a lookup finds after an insertion: the value inserted, or what was there.
  pub lookup-insert_some :
      (k j : K) (v w : V) (t : Table K V)
      → lookup j (insert k v t) ≡ some w
      → ((k ≡ j) × (v ≡ w)) ⊎ (lookup j t ≡ some w)
  lookup-insert_some k j v w t h = elim (Bool-cases (k == j)) [
    | inl same ↦ inl ((e.beq_iff k j).0 same, ground (arith, lookup-insert k j v t))
    | inr other ↦ inr (ground (arith, lookup-insert k j v t))
  ]

  -- A map holds a key at most once.
  abbrev pub HasDistinctKeys : Table K V → Type 0
  HasDistinctKeys [] = Unit
  HasDistinctKeys ((k, _) ∷ t) = (lookup k t ≡ none) × HasDistinctKeys t

  pub insert-HasDistinctKeys :
      (k : K) (v : V) (t : Table K V) → HasDistinctKeys t → HasDistinctKeys (insert k v t)
  insert-HasDistinctKeys k v [] h = (refl, tt)
  insert-HasDistinctKeys k v ((j, w) ∷ t) h =
      ground (
        arith,
        insert-HasDistinctKeys k v t h.1,
        lookup-insert k j v t,
        e.beq_iff j k,
        e.beq_iff k j,
      )

  -- `HashMap::remove` and `HashMap::retain`
  abbrev pub remove_key : K → Table K V → Table K V
  remove_key k [] = []
  remove_key k ((j, v) ∷ t) = if j == k then remove_key k t else (j, v) ∷ remove_key k t

  abbrev pub retain : (V → Bool) → Table K V → Table K V
  retain p [] = []
  retain p ((j, v) ∷ t) = if p v then (j, v) ∷ retain p t else retain p t

  pub lookup-remove_key :
      (k j : K) (t : Table K V) → lookup j (remove_key k t) ≡ (if k == j then none else lookup j t)
  lookup-remove_key k j [] = ground arith
  lookup-remove_key k j ((i, w) ∷ t) =
      ground (arith, e.beq_iff k j, e.beq_iff i k, e.beq_iff i j, lookup-remove_key k j t)

  lookup-retain_absent :
      (p : V → Bool) (k : K) (t : Table K V) → lookup k t ≡ none → lookup k (retain p t) ≡ none
  lookup-retain_absent p k [] h = refl
  lookup-retain_absent p k ((j, v) ∷ t) h =
      ground (arith, lookup-retain_absent p k t, e.beq_iff j k)

  pub lookup-retain :
      (p : V → Bool) (k : K) (t : Table K V)
      → HasDistinctKeys t
      → lookup k (retain p t) ≡ if_kept p (lookup k t)
  lookup-retain p k [] d = refl
  lookup-retain p k ((j, v) ∷ t) d =
      ground (arith, lookup-retain p k t d.1, lookup-retain_absent p j t d.0, e.beq_iff j k)

  pub retain-HasDistinctKeys :
      (p : V → Bool) (t : Table K V) → HasDistinctKeys t → HasDistinctKeys (retain p t)
  retain-HasDistinctKeys p [] d = tt
  retain-HasDistinctKeys p ((j, v) ∷ t) d =
      ground (arith, retain-HasDistinctKeys p t d.1, lookup-retain_absent p j t d.0)

  pub remove_key-HasDistinctKeys :
      (k : K) (t : Table K V) → HasDistinctKeys t → HasDistinctKeys (remove_key k t)
  remove_key-HasDistinctKeys k [] d = tt
  remove_key-HasDistinctKeys k ((j, v) ∷ t) d =
      ground (arith, remove_key-HasDistinctKeys k t d.1, lookup-remove_key k j t, d.0)
