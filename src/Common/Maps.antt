-- ===== src/Common/Maps.antt =====
-- Go maps with text keys, as association lists; `insert` replaces the entry of its key.
use Prim.Native.String.{String}
use mathlib.Core.Path.{◌≡◌, refl}
use mathlib.Core.Logic.{◌≢◌, ◌⊎◌, inl, inr}
use mathlib.Core.Option.{Option, none, some}
use mathlib.Core.List.{List, [], ◌∷◌}
use native.Mathlib.Omega.{arith}
use text.Mathlib.TextEquality.{eq_iff}
use package.o2ul_portal.Common.Tests.{if◌then◌else◌, Bool-cases}
use package.o2ul_portal.Common.Text.{◌==◌}

abbrev pub Map {ℓ} : Type ℓ → Type ℓ
Map V = List (String × V)

module _ {ℓ} {V : Type ℓ} where
  -- `v, ok := m[key]`
  unfoldable pub lookup : String → Map V → Option V
  lookup key [] = none
  lookup key ((first, value) ∷ rest) = if first == key then some value else lookup key rest

  -- `m[key] = new`
  unfoldable pub insert : String → V → Map V → Map V
  insert key new [] = (key, new) ∷ []
  insert key new ((first, value) ∷ rest) =
      let later = insert key new rest in
      if first == key then (first, new) ∷ rest else (first, value) ∷ later

  -- `delete(m, k)`
  unfoldable pub erase : String → Map V → Map V
  erase k [] = []
  erase k ((j, w) ∷ m) = let rest = erase k m in if j == k then rest else (j, w) ∷ rest

  pub lookup-insert :
      (k j : String) (v : V) (m : Map V)
      → lookup j (insert k v m) ≡ (if k == j then some v else lookup j m)
  unfolding lookup insert
  lookup-insert k j v [] = refl
  lookup-insert k j v ((first, value) ∷ rest) =
      let later = lookup-insert k j v rest in
      ground (arith, eq_iff first k, eq_iff first j, eq_iff k j, later)

  pub lookup-insert_self : (k : String) (v : V) (m : Map V) → lookup k (insert k v m) ≡ some v
  lookup-insert_self k v m = ground (arith, lookup-insert k k v m, eq_iff k k)

  pub lookup-insert_ne :
      (k j : String) (v : V) (m : Map V) → k ≢ j → lookup j (insert k v m) ≡ lookup j m
  lookup-insert_ne k j v m h = ground (arith, lookup-insert k j v m, eq_iff k j)

  pub lookup-erase :
      (k j : String) (m : Map V) → lookup j (erase k m) ≡ (if k == j then none else lookup j m)
  unfolding lookup erase
  lookup-erase k j [] = ground arith
  lookup-erase k j ((first, value) ∷ rest) =
      let later = lookup-erase k j rest in
      ground (arith, eq_iff first k, eq_iff first j, eq_iff k j, later)

  -- A value that is found stands in the first entry or in the rest.
  pub lookup-cons :
      (k j : String) (v w : V) (m : Map V)
      → lookup k ((j, v) ∷ m) ≡ some w
      → ((j ≡ k) × (v ≡ w)) ⊎ (lookup k m ≡ some w)
  unfolding lookup
  lookup-cons k j v w m h = elim (Bool-cases (j == k)) [
    | inl e ↦ inl ((eq_iff j k).0 e, ground arith)
    | inr e ↦ inr (ground arith)
  ]

  pub lookup-nil : (k : String) (w : V) → lookup k [] ≡ some w → ⊥
  unfolding lookup
  lookup-nil k w h = cc
