-- ===== src/Prelude/Maps.antt =====
-- `std::unordered_map` as an association list, read through `lookup`.
use mathlib.Core.Path.{◌≡◌, refl}
use mathlib.Core.Logic.{◌≢◌}
use mathlib.Core.List.{List, [], ◌∷◌}
use mathlib.Core.Option.{Option, none, some}
use native.Mathlib.Omega.{arith}
use multi_market_prices.Prelude.Keys.{Eq, ◌==◌, if◌then◌else◌, is_some}
use multi_market_prices.Prelude.Sets.{contains, IsDistinct}

abbrev pub Map {ℓ κ} : Type ℓ → Type κ → Type (ℓ ⊔ κ)
Map K V = List (K × V)

abbrev pub keys {ℓ κ} : {K : Type ℓ} {V : Type κ} → Map K V → List K
keys [] = []
keys ((k, v) ∷ m) = k ∷ keys m

module _ {ℓ κ} {K : Type ℓ} {V : Type κ} ⦃e : Eq K⦄ where
  -- `find`
  unfoldable pub lookup : K → Map K V → Option V
  lookup k [] = none
  lookup k ((j, v) ∷ m) = if j == k then some v else lookup k m

  -- `m[k] = v`
  unfoldable pub assign : K → V → Map K V → Map K V
  assign k v [] = (k, v) ∷ []
  assign k v ((j, w) ∷ m) = if j == k then (k, v) ∷ m else (j, w) ∷ assign k v m

  -- `erase(k)`
  unfoldable pub remove : K → Map K V → Map K V
  remove k [] = []
  remove k ((j, v) ∷ m) = if j == k then remove k m else (j, v) ∷ remove k m

  pub lookup-assign :
      (k j : K) (v : V) (m : Map K V)
      → lookup j (assign k v m) ≡ (if k == j then some v else lookup j m)
  unfolding lookup assign
  lookup-assign k j v [] = refl
  lookup-assign k j v ((i, w) ∷ m) = ground (arith, lookup-assign k j v m)

  pub lookup-remove :
      (k j : K) (m : Map K V) → lookup j (remove k m) ≡ (if k == j then none else lookup j m)
  unfolding lookup remove
  lookup-remove k j [] = ground arith
  lookup-remove k j ((i, w) ∷ m) = ground (arith, lookup-remove k j m)

  pub contains-keys : (k : K) (m : Map K V) → contains k (keys m) ≡ is_some (lookup k m)
  unfolding contains lookup
  contains-keys k [] = refl
  contains-keys k ((j, v) ∷ m) = ground (arith, contains-keys k m)

  pub assign-IsDistinct :
      (k : K) (v : V) (m : Map K V) → IsDistinct (keys m) → IsDistinct (keys (assign k v m))
  unfolding assign contains
  assign-IsDistinct k v [] d = (refl, tt)
  assign-IsDistinct k v ((j, w) ∷ m) d = ground (
    arith,
    assign-IsDistinct k v m d.1,
    contains-keys j (assign k v m),
    contains-keys j m,
    lookup-assign k j v m,
  )

  pub remove-IsDistinct :
      (k : K) (m : Map K V) → IsDistinct (keys m) → IsDistinct (keys (remove k m))
  unfolding remove contains
  remove-IsDistinct k [] d = tt
  remove-IsDistinct k ((j, w) ∷ m) d = ground (
    arith,
    remove-IsDistinct k m d.1,
    contains-keys j (remove k m),
    contains-keys j m,
    lookup-remove k j m,
  )

  pub assign-ne-nil : (k : K) (v : V) (m : Map K V) → assign k v m ≢ []
  unfolding assign
  assign-ne-nil k v [] = ground arith
  assign-ne-nil k v ((j, w) ∷ m) = ground arith
