-- ===== src/Prelude/Map/Unique.antt =====
-- A map with each key once, which every operation keeps.
use mathlib.Core.Path.{◌≡◌, refl}
use mathlib.Core.Bool.{Bool}
use mathlib.Core.List.{[], ◌∷◌}
use mathlib.Core.Option.{Option, none, some}
use native.Mathlib.Omega.{arith}
use mathlib.Core.Logic.{inl, inr}
use lfs_cloud.Prelude.Tests.{if◌then◌else◌, Bool-cases}
use lfs_cloud.Prelude.Map.{Eq, Map, retain, get, remove, insert}
use lfs_cloud.Prelude.Map.Laws.{get-remove}

module _ {κ} {V : Type κ} where
  abbrev pub filter : (V → Bool) → Option V → Option V
  filter p none = none
  filter p (some v) = if p v then some v else none

module _ {ℓ κ} {K : Type ℓ} {V : Type κ} ⦃e : Eq K⦄ where
  abbrev pub IsMap : Map K V → Type κ
  IsMap [] = Unit
  IsMap ((k, v) ∷ m) = (get k m ≡ none) × IsMap m

  get-retain-eq-none :
      (p : V → Bool) (k : K) (m : Map K V) → get k m ≡ none → get k (retain p m) ≡ none
  unfolding get retain
  get-retain-eq-none p k [] h = refl
  get-retain-eq-none p k ((j, v) ∷ m) h = ground (arith, get-retain-eq-none p k m)

  pub retain-IsMap : (p : V → Bool) (m : Map K V) → IsMap m → IsMap (retain p m)
  unfolding retain
  retain-IsMap p [] h = tt
  retain-IsMap p ((k, v) ∷ m) (h, u) = elim (Bool-cases (p v)) [
    | inl e ↦ rw e (get-retain-eq-none p k m h, retain-IsMap p m u)
    | inr e ↦ rw e (retain-IsMap p m u)
  ]

  pub get-retain :
      (p : V → Bool) (k : K) (m : Map K V) → IsMap m → get k (retain p m) ≡ filter p (get k m)
  unfolding get retain
  get-retain p k [] u = refl
  get-retain p k ((j, v) ∷ m) (h, u) = elim (Bool-cases (e.beq k j)) [
    | inl same ↦
        let at_j : get k (retain p m) ≡ none =
          rw ((e.beq_iff k j).0 same) (get-retain-eq-none p j m h) in
        ground (arith, at_j)
    | inr other ↦ ground (arith, get-retain p k m u)
  ]

  get-remove-eq-none : (k j : K) (m : Map K V) → get j m ≡ none → get j (remove k m) ≡ none
  get-remove-eq-none k j m h = ground (arith, get-remove k j m)

  pub remove-IsMap : (k : K) (m : Map K V) → IsMap m → IsMap (remove k m)
  unfolding remove
  remove-IsMap k [] u = tt
  remove-IsMap k ((j, v) ∷ m) (h, u) = elim (Bool-cases (e.beq k j)) [
    | inl same ↦ rw same (remove-IsMap k m u)
    | inr other ↦ rw other (get-remove-eq-none k j m h, remove-IsMap k m u)
  ]

  pub insert-IsMap : (k : K) (v : V) (m : Map K V) → IsMap m → IsMap (insert k v m)
  insert-IsMap k v m u =
      let absent : get k (remove k m) ≡ none =
        ground (arith, get-remove k k m, (e.beq_iff k k).1 refl) in
      (absent, remove-IsMap k m u)
