-- ===== src/Base/Maps.antt =====
-- Go's `map[string]V` as an association list. A key stands once; a `range` over the map visits the
-- entries in the list's order, where Go leaves the order open.
use Prim.Native.String.{String}
use mathlib.Core.Path.{◌≡◌, refl, subst₂}
use mathlib.Core.Logic.{inl, inr}
use mathlib.Core.Option.{Option, none, some}
use mathlib.Core.List.{List, [], ◌∷◌}
use native.Mathlib.Omega.{arith}
use cova.Base.Tests.{if◌then◌else◌, map_option, Bool-cases}
use cova.Base.Text.{◌=s◌, =s_iff, =s_refl}

abbrev pub Dict {ℓ} : Type ℓ → Type ℓ
Dict V = List (String × V)

module _ {ℓ} {V : Type ℓ} where
  -- v, ok := m[k]
  unfoldable pub lookup : String → Dict V → Option V
  lookup k [] = none
  lookup k ((j, v) ∷ m) = if j =s k then some v else lookup k m

  -- m[k] = v
  unfoldable pub insert : String → V → Dict V → Dict V
  insert k v [] = (k, v) ∷ []
  insert k v ((j, w) ∷ m) = if j =s k then (j, v) ∷ m else (j, w) ∷ insert k v m

  -- delete(m, k)
  unfoldable pub delete : String → Dict V → Dict V
  delete k [] = []
  delete k ((j, w) ∷ m) = let rest = delete k m in if j =s k then rest else (j, w) ∷ rest

  pub lookup-insert :
      (k j : String) (v : V) (m : Dict V)
      → lookup j (insert k v m) ≡ (if k =s j then some v else lookup j m)
  unfolding lookup insert
  lookup-insert k j v [] = refl
  lookup-insert k j v ((i, w) ∷ m) =
      ground (arith, =s_iff k j, =s_iff i k, =s_iff i j, lookup-insert k j v m)

  pub lookup-delete :
      (k j : String) (m : Dict V) → lookup j (delete k m) ≡ (if k =s j then none else lookup j m)
  unfolding lookup delete
  lookup-delete k j [] = ground arith
  lookup-delete k j ((i, w) ∷ m) =
      ground (arith, =s_iff k j, =s_iff i k, =s_iff i j, lookup-delete k j m)

  pub lookup-insert_self : (k : String) (v : V) (m : Dict V) → lookup k (insert k v m) ≡ some v
  lookup-insert_self k v m = rw (lookup-insert k k v m, =s_refl k)

-- A map built by `range`: each entry's value goes through `f`.
unfoldable pub map_values {ℓ κ} : {V : Type ℓ} {W : Type κ} → (V → W) → Dict V → Dict W
map_values f [] = []
map_values f ((k, v) ∷ m) = (k, f v) ∷ map_values f m

pub lookup-map_values {ℓ κ} :
    {V : Type ℓ} {W : Type κ} (f : V → W) (k : String) (m : Dict V)
    → lookup k (map_values f m) ≡ map_option f (lookup k m)
unfolding lookup map_values
lookup-map_values f k [] = refl
lookup-map_values f k ((j, v) ∷ m) = elim (Bool-cases (j =s k)) [
  | inl e ↦ rw e
  | inr e ↦ rw e (lookup-map_values f k m)
]

-- A statement that holds of each entry.
abbrev pub Entries {ℓ κ} : {V : Type ℓ} → (String → V → Type κ) → Dict V → Type (ℓ ⊔ κ)
Entries {V} P m = (k : String) (v : V) → lookup k m ≡ some v → P k v

-- The key is present.
abbrev pub Has {ℓ} : {V : Type ℓ} → String → Dict V → Type ℓ
Has {V} k m = (v : V) × (lookup k m ≡ some v)

module _ {ℓ} {V : Type ℓ} where
  pub Entries-insert {κ} :
      (P : String → V → Type κ) (k : String) (v : V) (m : Dict V)
      → P k v
      → Entries P m
      → Entries P (insert k v m)
  Entries-insert P k v m p h i w e = elim (Bool-cases (k =s i)) [
    | inl t ↦
        let same : v ≡ w = ground (arith, lookup-insert k i v m) in
        subst₂ P ((=s_iff k i).0 t) same p
    | inr t ↦ h i w (ground (arith, lookup-insert k i v m))
  ]

  pub Entries-delete {κ} :
      (P : String → V → Type κ) (k : String) (m : Dict V) → Entries P m → Entries P (delete k m)
  Entries-delete P k m h i w e = h i w (ground (arith, lookup-delete k i m))

  pub Has-insert : (k i : String) (v : V) (m : Dict V) → Has i m → Has i (insert k v m)
  Has-insert k i v m (w, e) = elim (Bool-cases (k =s i)) [
    | inl t ↦ (v, ground (arith, lookup-insert k i v m))
    | inr t ↦ (w, ground (arith, lookup-insert k i v m))
  ]
