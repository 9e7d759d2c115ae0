-- ===== src/Prelude/Maps.antt =====
-- `std::map` and `std::unordered_map` as association lists. The order of the list is the order in
-- which an iteration meets the entries.
use mathlib.Core.Path.{◌≡◌, refl}
use mathlib.Core.Bool.{false}
use mathlib.Core.Option.{Option, none, some}
use mathlib.Core.List.{List, [], ◌∷◌}
use mathlib.Core.Logic.{◌⊎◌, inl, inr}
use native.Mathlib.Omega.{arith}
use np_hw.Prelude.Tests.{if◌then◌else◌, Key, ◌==◌, Bool-cases}

abbrev pub Map {ℓ κ} : Type ℓ → Type κ → Type (ℓ ⊔ κ)
Map K V = List (K × V)

module _ {ℓ κ} {K : Type ℓ} {V : Type κ} ⦃key : Key K⦄ where
  -- `m.find(k)`
  unfoldable pub lookup : K → Map K V → Option V
  lookup k [] = none
  lookup k ((j, v) ∷ more) = if j == k then some v else lookup k more

  -- `m[k] = v`
  unfoldable pub insert : K → V → Map K V → Map K V
  insert k v [] = (k, v) ∷ []
  insert k v ((j, old) ∷ more) = if j == k then (k, v) ∷ more else (j, old) ∷ insert k v more

  -- `m.erase(k)`
  unfoldable pub remove : K → Map K V → Map K V
  remove k [] = []
  remove k ((j, v) ∷ m) = let rest = remove k m in if j == k then rest else (j, v) ∷ rest

  pub lookup-insert :
      (written read : K) (v : V) (m : Map K V)
      → lookup read (insert written v m) ≡ (if written == read then some v else lookup read m)
  unfolding lookup insert
  lookup-insert written read v [] = refl
  lookup-insert written read v ((i, old) ∷ more) = ground (
    arith,
    lookup-insert written read v more,
    key.same_iff i read,
    key.same_iff i written,
    key.same_iff written read,
  )

  pub lookup-remove :
      (k j : K) (m : Map K V) → lookup j (remove k m) ≡ (if k == j then none else lookup j m)
  unfolding lookup remove
  lookup-remove k j [] = ground arith
  lookup-remove k j ((i, w) ∷ m) =
      ground (arith, key.same_iff k j, key.same_iff i k, key.same_iff i j, lookup-remove k j m)

  -- What a map holds after an assignment.
  pub lookup-insert_inv :
      (k j : K) (v w : V) (m : Map K V)
      → lookup j (insert k v m) ≡ some w
      → ((k ≡ j) × (v ≡ w)) ⊎ (lookup j m ≡ some w)
  lookup-insert_inv k j v w m h = elim (Bool-cases (k == j)) [
    | inl e ↦ inl ((key.same_iff k j).0 e, ground (arith, lookup-insert k j v m))
    | inr e ↦ inr (rw (lookup-insert k j v m, e) at h)
  ]

  pub lookup-remove_inv :
      (k j : K) (w : V) (m : Map K V)
      → lookup j (remove k m) ≡ some w
      → ((k == j) ≡ false) × (lookup j m ≡ some w)
  lookup-remove_inv k j w m h = ground (arith, lookup-remove k j m)

pub ruleset map_laws = (lookup-insert, lookup-remove)
