-- ===== src/Base/Assoc.antt =====
-- Go maps as association lists: an absent key reads as `none`, `insert` is `m[k] = v` and `delete`
-- is Go's `delete(m, k)`.
use mathlib.Core.Path.{◌≡◌, refl}
use mathlib.Core.Option.{Option, none, some}
use mathlib.Core.List.{List, [], ◌∷◌}
use native.Mathlib.Omega.{arith}
use arbiter_core.Base.Tests.{if◌then◌else◌}
use arbiter_core.Base.Order.{Eq, ◌≟◌, ≟_iff, ≟_refl}

abbrev pub Map {ℓ κ} : Type ℓ → Type κ → Type (ℓ ⊔ κ)
Map K V = List (K × V)

module _ {ℓ κ} {K : Type ℓ} {V : Type κ} where
  abbrev pub keys : Map K V → List K
  keys [] = []
  keys ((k, v) ∷ m) = k ∷ keys m

  abbrev pub values : Map K V → List V
  values [] = []
  values ((k, v) ∷ m) = v ∷ values m

module _ {ℓ κ} {K : Type ℓ} {V : Type κ} ⦃e : Eq K⦄ where
  unfoldable pub lookup : K → Map K V → Option V
  lookup k [] = none
  lookup k ((j, v) ∷ m) = if j ≟ k then some v else lookup k m

  unfoldable pub insert : K → V → Map K V → Map K V
  insert at x [] = (at, x) ∷ []
  insert at x ((key, y) ∷ rest) = if key ≟ at then (at, x) ∷ rest else (key, y) ∷ insert at x rest

  unfoldable pub delete : K → Map K V → Map K V
  delete k [] = []
  delete k ((j, w) ∷ m) = let rest = delete k m in if j ≟ k then rest else (j, w) ∷ rest

  -- The zero value that Go reads at a missing key.
  unfoldable pub get_or : V → K → Map K V → V
  get_or z k [] = z
  get_or z k ((j, v) ∷ m) = if j ≟ k then v else get_or z k m

  -- What a map reads at any key after one insertion.
  pub lookup-insert :
      (at read : K) (x : V) (entries : Map K V)
      → lookup read (insert at x entries) ≡ (if at ≟ read then some x else lookup read entries)
  unfolding insert lookup
  lookup-insert at read x [] = refl
  lookup-insert at read x ((key, y) ∷ rest) =
      ground (arith, lookup-insert at read x rest, ≟_iff key at, ≟_iff key read, ≟_iff at read)

  pub lookup-delete :
      (k j : K) (m : Map K V) → lookup j (delete k m) ≡ (if k ≟ j then none else lookup j m)
  unfolding lookup delete
  lookup-delete k j [] = ground arith
  lookup-delete k j ((i, w) ∷ m) =
      ground (arith, ≟_iff k j, ≟_iff i k, ≟_iff i j, lookup-delete k j m)

  pub get_or-insert :
      (z : V) (k j : K) (v : V) (m : Map K V)
      → get_or z j (insert k v m) ≡ (if k ≟ j then v else get_or z j m)
  unfolding get_or insert
  get_or-insert z k j v [] = refl
  get_or-insert z k j v ((i, w) ∷ m) =
      ground (arith, ≟_iff k j, ≟_iff i k, ≟_iff i j, get_or-insert z k j v m)

  pub get_or-delete_self : (z : V) (k : K) (m : Map K V) → get_or z k (delete k m) ≡ z
  unfolding get_or delete
  get_or-delete_self z k [] = refl
  get_or-delete_self z k ((j, w) ∷ m) = ground (arith, get_or-delete_self z k m)

  pub lookup-insert_self : (k : K) (v : V) (m : Map K V) → lookup k (insert k v m) ≡ some v
  lookup-insert_self k v m = ground (arith, lookup-insert k k v m, ≟_refl k)

  pub lookup-delete_self : (k : K) (m : Map K V) → lookup k (delete k m) ≡ none
  lookup-delete_self k m = ground (arith, lookup-delete k k m, ≟_refl k)

  pub delete_absent : (k : K) (m : Map K V) → lookup k m ≡ none → delete k m ≡ m
  unfolding lookup delete
  delete_absent k [] h = refl
  delete_absent k ((j, w) ∷ m) h = ground (arith, delete_absent k m)

  pub insert_same : (k : K) (v : V) (m : Map K V) → lookup k m ≡ some v → insert k v m ≡ m
  unfolding lookup insert
  insert_same k v [] h = cc
  insert_same k v ((j, w) ∷ m) h = ground (arith, ≟_iff j k, insert_same k v m)

pub ruleset map_laws = (lookup-insert, lookup-delete, get_or-insert)
