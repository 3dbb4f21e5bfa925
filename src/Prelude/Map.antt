-- ===== src/Prelude/Map.antt =====
-- A map whose order the code does not read, over any keys with an equality: its entries, each key once.
pub mod Laws
pub mod Unique
use mathlib.Core.Path.{◌≡◌}
use mathlib.Core.Logic.{◌↔◌}
use mathlib.Core.Bool.{Bool, true, false}
use mathlib.Core.List.{List, [], ◌∷◌}
use mathlib.Core.Option.{Option, none, some}
use lfs_cloud.Prelude.Tests.{if◌then◌else◌}
use lfs_cloud.Prelude.Lists.{is_some}

pub record Eq {ℓ} (K : Type ℓ) : Type ℓ where
  pub beq : K → K → Bool
  pub beq_iff : (a b : K) → (beq a b ≡ true) ↔ (a ≡ b)

abbrev pub Map {ℓ κ} : Type ℓ → Type κ → Type (ℓ ⊔ κ)
Map K V = List (K × V)

module _ {ℓ κ} {K : Type ℓ} {V : Type κ} where
  -- Keeps the entries whose value passes the test.
  unfoldable pub retain : (V → Bool) → Map K V → Map K V
  retain p [] = []
  retain p ((k, v) ∷ m) = let rest = retain p m in if p v then (k, v) ∷ rest else rest

  abbrev pub values : Map K V → List V
  values [] = []
  values ((k, v) ∷ m) = v ∷ values m

  module _ ⦃e : Eq K⦄ where
    unfoldable pub get : K → Map K V → Option V
    get k [] = none
    get k ((j, v) ∷ m) = let rest = get k m in if e.beq k j then some v else rest

    unfoldable pub remove : K → Map K V → Map K V
    remove k [] = []
    remove k ((j, v) ∷ m) = let rest = remove k m in if e.beq k j then rest else (j, v) ∷ rest

    abbrev pub insert : K → V → Map K V → Map K V
    insert k v m = (k, v) ∷ remove k m

    abbrev pub contains_key : K → Map K V → Bool
    contains_key k m = is_some (get k m)
