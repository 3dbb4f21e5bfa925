-- ===== src/Prelude/Map/Laws.antt =====
-- How many entries a map has after each operation, and what a key has.
use Prim.Native.Nat.{◌≤◌}
use mathlib.Core.Path.{◌≡◌, refl}
use mathlib.Core.Logic.{inl, inr}
use mathlib.Core.Bool.{Bool}
use mathlib.Core.List.{[], ◌∷◌}
use mathlib.Core.Option.{none, some}
use native.Mathlib.Omega.{arith}
use lfs_cloud.Prelude.Tests.{if◌then◌else◌, Bool-cases}
use lfs_cloud.Prelude.Lists.{length}
use lfs_cloud.Prelude.Map.{Eq, Map, retain, values, get, remove, insert}

module _ {ℓ κ} {K : Type ℓ} {V : Type κ} where
  pub length-values : (m : Map K V) → length (values m) ≡ length m
  length-values [] = refl
  length-values ((k, v) ∷ m) = omega (arith, length-values m)

  pub length-retain-retain-le :
      (p q : V → Bool) (m : Map K V) → length (retain p (retain q m)) ≤ length (retain p m)
  unfolding retain
  length-retain-retain-le p q [] = omega arith
  length-retain-retain-le p q ((k, v) ∷ m) = elim (Bool-cases (q v)) [
    | inl e ↦ rw e (ground (arith, length-retain-retain-le p q m))
    | inr e ↦ rw e (ground (arith, length-retain-retain-le p q m))
  ]

  pub length-retain-le : (q : V → Bool) (m : Map K V) → length (retain q m) ≤ length m
  unfolding retain
  length-retain-le q [] = omega arith
  length-retain-le q ((k, v) ∷ m) = ground (arith, length-retain-le q m)

  pub retain_comm : (p q : V → Bool) (m : Map K V) → retain p (retain q m) ≡ retain q (retain p m)
  unfolding retain
  retain_comm p q [] = refl
  retain_comm p q ((k, v) ∷ m) = elim (Bool-cases (p v)) [
    | inl a ↦ elim (Bool-cases (q v)) [
      | inl b ↦ rw (a, b, retain) (ground (arith, a, b, retain_comm p q m))
      | inr b ↦ rw (a, b, retain) (ground (arith, a, b, retain_comm p q m))
    ]
    | inr a ↦ elim (Bool-cases (q v)) [
      | inl b ↦ rw (a, b, retain) (ground (arith, a, b, retain_comm p q m))
      | inr b ↦ rw (a, b, retain) (ground (arith, a, b, retain_comm p q m))
    ]
  ]

  module _ ⦃e : Eq K⦄ where
    pub length-retain-remove-le :
        (p : V → Bool) (k : K) (m : Map K V) → length (retain p (remove k m)) ≤ length (retain p m)
    unfolding retain remove
    length-retain-remove-le p k [] = omega arith
    length-retain-remove-le p k ((j, v) ∷ m) = elim (Bool-cases (e.beq k j)) [
      | inl same ↦ rw same (ground (arith, length-retain-remove-le p k m))
      | inr other ↦ rw other (ground (arith, length-retain-remove-le p k m))
    ]

    pub length-remove-le : (k : K) (m : Map K V) → length (remove k m) ≤ length m
    unfolding remove
    length-remove-le k [] = omega arith
    length-remove-le k ((j, v) ∷ m) = ground (arith, length-remove-le k m)

    pub get-remove :
        (k j : K) (m : Map K V) → get j (remove k m) ≡ (if e.beq j k then none else get j m)
    unfolding get remove
    get-remove k j [] = ground arith
    get-remove k j ((i, v) ∷ m) =
        ground (arith, e.beq_iff k i, e.beq_iff j i, e.beq_iff j k, get-remove k j m)

    pub get-insert :
        (k j : K) (v : V) (m : Map K V)
        → get j (insert k v m) ≡ (if e.beq j k then some v else get j m)
    unfolding get
    get-insert k j v m = ground (arith, get-remove k j m)
