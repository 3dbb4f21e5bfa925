-- ===== src/Prelude/BTreeMap.antt =====
-- `BTreeMap<String, V>` of the standard library: its entries in the order of their keys.
use mathlib.Core.Bool.{true}
use mathlib.Core.Path.{◌≡◌, refl}
use mathlib.Core.List.{List, [], ◌∷◌, ◌++◌}
use mathlib.Core.Option.{Option, none, some}
use native.Mathlib.Omega.{arith}
use lfs_cloud.Prelude.Tests.{if◌then◌else◌}
use lfs_cloud.Prelude.Lists.{All}
use lfs_cloud.Prelude.Text.{Text, text_eq, text_ltb, text_eq_iff, text_ltb_asym}

abbrev pub BTreeMap {ℓ} : Type ℓ → Type ℓ
BTreeMap V = List (Text × V)

module _ {ℓ} {V : Type ℓ} where
  unfoldable pub get : Text → BTreeMap V → Option V
  unfolding text_eq
  get k [] = none
  get k ((j, v) ∷ m) = if text_eq k j then some v else get k m

  unfoldable pub insert : Text → V → BTreeMap V → BTreeMap V
  unfolding text_eq text_ltb
  insert k v [] = (k, v) ∷ []
  insert k v ((j, w) ∷ m) =
      if text_eq k j
      then (k, v) ∷ m
      else if text_ltb k j
      then (k, v) ∷ (j, w) ∷ m
      else (j, w) ∷ insert k v m

  pub get-insert :
      (k j : Text) (v : V) (m : BTreeMap V)
      → get j (insert k v m) ≡ (if text_eq j k then some v else get j m)
  unfolding get insert
  get-insert k j v [] = refl
  get-insert k j v ((i, w) ∷ m) =
      ground (arith, text_eq_iff k i, text_eq_iff j i, text_eq_iff j k, get-insert k j v m)

  -- The key is greater than every key of the map.
  abbrev pub Above : Text → BTreeMap V → Type 0
  Above k m = All (λ (e : Text × V). (text_ltb e.0 k ≡ true)) m

  -- A key greater than all the others goes to the end.
  pub insert-last :
      (k : Text) (v : V) (m : BTreeMap V) → Above k m → insert k v m ≡ m ++ (k, v) ∷ []
  unfolding insert
  insert-last k v [] h = refl
  insert-last k v ((j, w) ∷ m) h = ground (arith, text_ltb_asym j k, insert-last k v m)
