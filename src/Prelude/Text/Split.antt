-- ===== src/Prelude/Text/Split.antt =====
-- Prefixes and separators: what `strip_prefix` and `split_once` find in a text put together.
use Prim.Native.Nat.{ℕ}
use mathlib.Core.Path.{◌≡◌, refl}
use mathlib.Core.Bool.{Bool, true, not}
use mathlib.Core.List.{[], ◌∷◌, ◌++◌}
use mathlib.Core.Option.{some}
use native.Mathlib.Omega.{arith}
use lfs_cloud.Prelude.Tests.{◌==◌}
use lfs_cloud.Prelude.Lists.{all}
use lfs_cloud.Prelude.Text.{Text, strip_prefix, split_once}

-- No character of the text is `d`.
abbrev pub lacks : ℕ → Text → Bool
lacks d s = all (λ c. not (c == d)) s

pub strip_prefix-append : (p s : Text) → strip_prefix p (p ++ s) ≡ some s
unfolding strip_prefix
strip_prefix-append [] s = refl
strip_prefix-append (c ∷ p) s = ground (arith, strip_prefix-append p s)

-- What is found after a prefix stands behind it.
pub strip_prefix-eq-some : (p s t : Text) → strip_prefix p s ≡ some t → s ≡ p ++ t
unfolding strip_prefix
strip_prefix-eq-some [] s t h = ground arith
strip_prefix-eq-some (c ∷ p) [] t h = cc
strip_prefix-eq-some (c ∷ p) (d ∷ s) t h = ground (arith, strip_prefix-eq-some p s t)

-- The first separator is the one behind a text that lacks it.
pub split_once-append :
    (d : ℕ) (s t : Text) → lacks d s ≡ true → split_once d (s ++ d ∷ t) ≡ some (s, t)
unfolding split_once
split_once-append d [] t h = ground arith
split_once-append d (c ∷ s) t h = ground (arith, split_once-append d s t)

-- What stands before and behind the separator that was found.
pub split_once-eq-some :
    (d : ℕ) (s a b : Text) → split_once d s ≡ some (a, b) → (s ≡ a ++ d ∷ b) × (lacks d a ≡ true)
unfolding split_once
split_once-eq-some d [] a b h = cc
split_once-eq-some d (c ∷ s) [] b h = ground arith
split_once-eq-some d (c ∷ s) (x ∷ a) b h = ground (arith, split_once-eq-some d s a b)
