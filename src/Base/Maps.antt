-- ===== src/Base/Maps.antt =====
-- Go's maps from strings: `none` is the nil map, and the pairs of a map stand in the order in which
-- a `range` loop meets them. A key stands once in a map that the operations built.
use Prim.Native.String.{String}
use mathlib.Core.Path.{◌≡◌, refl}
use mathlib.Core.Bool.{false}
use mathlib.Core.Option.{Option, none, some}
use mathlib.Core.List.{List, [], ◌∷◌}
use native.Mathlib.Omega.{arith}
use text.Mathlib.Text.{◌==◌}
use text.Mathlib.TextEquality.{eq_iff}
use text.Mathlib.TextPositions.{eq_refl}
use reloader_operator.Base.Tests.{if◌then◌else◌}

abbrev pub GoMap {ℓ} : Type ℓ → Type ℓ
GoMap V = Option (List (String × V))

abbrev pub StringMap : Type 0
StringMap = GoMap String

module _ {ℓ} {V : Type ℓ} where
  unfoldable pub lookup_pairs : String → List (String × V) → Option V
  lookup_pairs k [] = none
  lookup_pairs k ((j, v) ∷ m) = if j == k then some v else lookup_pairs k m

  unfoldable pub assign_pairs : String → V → List (String × V) → List (String × V)
  assign_pairs k v [] = (k, v) ∷ []
  assign_pairs k v ((j, w) ∷ m) = if j == k then (k, v) ∷ m else (j, w) ∷ assign_pairs k v m

  unfoldable pub delete_pairs : String → List (String × V) → List (String × V)
  delete_pairs k [] = []
  delete_pairs k ((j, w) ∷ m) =
      let rest = delete_pairs k m in if j == k then rest else (j, w) ∷ rest

  -- `v, ok := m[k]`
  abbrev pub lookup : String → GoMap V → Option V
  lookup k none = none
  lookup k (some m) = lookup_pairs k m

  -- `m[k] = v` behind `if m == nil { m = make(…) }`
  abbrev pub assign : String → V → GoMap V → GoMap V
  assign k v none = some ((k, v) ∷ [])
  assign k v (some m) = some (assign_pairs k v m)

  -- `delete(m, k)`, which does nothing to the nil map
  abbrev pub delete : String → GoMap V → GoMap V
  delete k none = none
  delete k (some m) = some (delete_pairs k m)

  lookup_pairs-assign :
      (k j : String) (v : V) (m : List (String × V))
      → lookup_pairs j (assign_pairs k v m) ≡ (if k == j then some v else lookup_pairs j m)
  unfolding lookup_pairs assign_pairs
  lookup_pairs-assign k j v [] = refl
  lookup_pairs-assign k j v ((i, w) ∷ m) =
      ground (arith, eq_iff k j, eq_iff i k, eq_iff i j, lookup_pairs-assign k j v m)

  lookup_pairs-delete :
      (k j : String) (m : List (String × V))
      → lookup_pairs j (delete_pairs k m) ≡ (if k == j then none else lookup_pairs j m)
  unfolding lookup_pairs delete_pairs
  lookup_pairs-delete k j [] = ground arith
  lookup_pairs-delete k j ((i, w) ∷ m) =
      ground (arith, eq_iff k j, eq_iff i k, eq_iff i j, lookup_pairs-delete k j m)

  pub lookup-assign :
      (k j : String) (v : V) (m : GoMap V)
      → lookup j (assign k v m) ≡ (if k == j then some v else lookup j m)
  unfolding lookup_pairs
  lookup-assign k j v none = refl
  lookup-assign k j v (some m) = lookup_pairs-assign k j v m

  pub lookup-delete :
      (k j : String) (m : GoMap V) → lookup j (delete k m) ≡ (if k == j then none else lookup j m)
  lookup-delete k j none = ground arith
  lookup-delete k j (some m) = lookup_pairs-delete k j m

  pub lookup-assign_self : (k : String) (v : V) (m : GoMap V) → lookup k (assign k v m) ≡ some v
  lookup-assign_self k v m = simp (lookup-assign, eq_refl)

  pub lookup-empty : (k : String) → lookup k (some []) ≡ none
  unfolding lookup_pairs
  lookup-empty k = refl

  pub lookup-cons :
      (k j : String) (v : V) (m : List (String × V))
      → lookup j (some ((k, v) ∷ m)) ≡ (if k == j then some v else lookup j (some m))
  unfolding lookup_pairs
  lookup-cons k j v m = refl

  pub lookup-head :
      (k : String) (v : V) (m : List (String × V)) → lookup k (some ((k, v) ∷ m)) ≡ some v
  unfolding lookup_pairs
  lookup-head k v m = rw (eq_refl k) refl

  pub lookup-skip :
      (j k : String) (v : V) (m : List (String × V))
      → (j == k) ≡ false
      → lookup k (some ((j, v) ∷ m)) ≡ lookup k (some m)
  unfolding lookup_pairs
  lookup-skip j k v m h = rw h refl

  -- A map that is made if it was nil reads like it.
  pub lookup-made :
      (k : String) (m : GoMap V)
      → lookup k (elim m as (λ x. GoMap V) [ none ↦ some [] | some t ↦ some t ]) ≡ lookup k m
  unfolding lookup_pairs
  lookup-made k none = refl
  lookup-made k (some t) = refl

-- Each key stands once at most.
abbrev pub Distinct {ℓ} : {V : Type ℓ} → List (String × V) → Type ℓ
Distinct [] = Unit
Distinct ((k, v) ∷ m) = (lookup_pairs k m ≡ none) × Distinct m

-- The same of a map.
abbrev pub DistinctKeys {ℓ} : {V : Type ℓ} → GoMap V → Type ℓ
DistinctKeys none = Unit
DistinctKeys (some m) = Distinct m

module _ {ℓ} {V : Type ℓ} where
  assign_pairs-Distinct :
      (k : String) (v : V) (m : List (String × V)) → Distinct m → Distinct (assign_pairs k v m)
  unfolding lookup_pairs assign_pairs
  assign_pairs-Distinct k v [] d = (refl, tt)
  assign_pairs-Distinct k v ((j, w) ∷ m) (new, d) =
      ground
        (arith, eq_iff j k, eq_iff k j, lookup_pairs-assign k j v m, assign_pairs-Distinct k v m d)

  delete_pairs-Distinct :
      (k : String) (m : List (String × V)) → Distinct m → Distinct (delete_pairs k m)
  unfolding lookup_pairs delete_pairs
  delete_pairs-Distinct k [] d = tt
  delete_pairs-Distinct k ((j, w) ∷ m) (new, d) =
      ground (arith, lookup_pairs-delete k j m, delete_pairs-Distinct k m d)

  pub assign-DistinctKeys :
      (k : String) (v : V) (m : GoMap V) → DistinctKeys m → DistinctKeys (assign k v m)
  unfolding lookup_pairs
  assign-DistinctKeys k v none d = (refl, tt)
  assign-DistinctKeys k v (some m) d = assign_pairs-Distinct k v m d

  pub delete-DistinctKeys : (k : String) (m : GoMap V) → DistinctKeys m → DistinctKeys (delete k m)
  delete-DistinctKeys k none d = tt
  delete-DistinctKeys k (some m) d = delete_pairs-Distinct k m d

  -- A map that is made if it was nil.
  pub made-DistinctKeys :
      (m : GoMap V)
      → DistinctKeys m
      → DistinctKeys (elim m as (λ x. GoMap V) [ none ↦ some [] | some t ↦ some t ])
  made-DistinctKeys none d = tt
  made-DistinctKeys (some m) d = d

-- `m[k]` at a map of strings: the empty string where the key is missing
abbrev or_empty : Option String → String
or_empty none = ""
or_empty (some v) = v

abbrev pub index : String → StringMap → String
index k m = or_empty (lookup k m)

pub index-assign_self : (k v : String) (m : StringMap) → index k (assign k v m) ≡ v
index-assign_self k v m = rw (lookup-assign_self k v m)

-- The pairs that a `range` loop meets: none in the nil map.
abbrev pub pairs {ℓ} : {V : Type ℓ} → GoMap V → List (String × V)
pairs none = []
pairs (some m) = m
