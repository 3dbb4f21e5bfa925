-- ===== src/Prelude/Text/Trim.antt =====
-- When `trim` leaves a text alone, and when its result is not empty.
use mathlib.Core.List.{reverse, reverse-cons, reverse-append, reverse-reverse}
use lfs_cloud.Prelude.Lists.{all, is_empty}
use Prim.Native.Nat.{ℕ, ◌≤◌}
use mathlib.Core.Path.{◌≡◌, refl, ap, sym, ◌∙◌}
use mathlib.Core.Bool.{Bool, true, false, not}
use mathlib.Core.List.{List, [], ◌∷◌, ◌++◌}
use native.Mathlib.Omega.{arith}
use lfs_cloud.Prelude.Text.{Text, is_whitespace, trim_start, trim}

abbrev pub solid : ℕ → Bool
solid c = not (is_whitespace c)

-- The visible characters of ASCII are no white space.
pub solid_visible : (c : ℕ) → 0x21 ≤ c → c ≤ 0x7e → solid c ≡ true
unfolding is_whitespace
solid_visible c h k = ground arith

module _ {ℓ} {A : Type ℓ} (p : A → Bool) where
  pub all-append : (xs ys : List A) → all p xs ≡ true → all p ys ≡ true → all p (xs ++ ys) ≡ true
  all-append [] ys h k = k
  all-append (x ∷ xs) ys h k = ground (arith, all-append xs ys)

  pub all-imp :
      (q : A → Bool) (xs : List A)
      → ((x : A) → p x ≡ true → q x ≡ true)
      → all p xs ≡ true
      → all q xs ≡ true
  all-imp q [] f h = refl
  all-imp q (x ∷ xs) f h = ground (arith, f x, all-imp q xs f)

  pub all-reverse : (xs : List A) → all p xs ≡ true → all p (reverse xs) ≡ true
  all-reverse [] h = refl
  all-reverse (x ∷ xs) h =
      rw reverse-cons
        (all-append (reverse xs) (x ∷ []) (all-reverse xs (ground arith)) (ground arith))

trim_start-solid : (s : Text) → all solid s ≡ true → trim_start s ≡ s
unfolding trim_start
trim_start-solid [] h = refl
trim_start-solid (c ∷ s) h = ground arith

-- A text with no white space is its own trim.
pub trim-solid : (s : Text) → all solid s ≡ true → trim s ≡ s
unfolding trim
trim-solid s h =
    rw (trim_start-solid s h, trim_start-solid (reverse s) (all-reverse solid s h), reverse-reverse)

trim_start-concat :
    (s : Text) (c : ℕ) → solid c ≡ true → is_empty (trim_start (s ++ c ∷ [])) ≡ false
unfolding trim_start
trim_start-concat [] c h = ground arith
trim_start-concat (d ∷ s) c h = ground (arith, trim_start-concat s c h)

is_empty-reverse : (s : Text) → is_empty s ≡ false → is_empty (reverse s) ≡ false
is_empty-reverse [] h = cc
is_empty-reverse (c ∷ s) h = rw reverse-cons (concat (reverse s))
  where
    concat : (t : Text) → is_empty (t ++ c ∷ []) ≡ false
    concat [] = refl
    concat (d ∷ t) = refl

trim_start-head : (s : Text) (c : ℕ) → solid c ≡ true → trim_start (c ∷ s) ≡ c ∷ s
unfolding trim_start
trim_start-head s c h = ground arith

-- A text that begins with no white space is not blank.
pub is_empty-trim_head : (c : ℕ) (s : Text) → solid c ≡ true → is_empty (trim (c ∷ s)) ≡ false
unfolding trim
is_empty-trim_head c s h =
    rw (trim_start-head s c h, reverse-cons)
      (is_empty-reverse _ (trim_start-concat (reverse s) c h))

trim_start-append :
    (s t : Text) → is_empty s ≡ false → all solid s ≡ true → trim_start (s ++ t) ≡ s ++ t
unfolding trim_start
trim_start-append [] t h k = cc
trim_start-append (c ∷ s) t h k = ground arith

-- A text that begins with no white space and ends in a solid part is its own trim.
pub trim-append :
    (c : ℕ) (s t : Text)
    → solid c ≡ true
    → is_empty t ≡ false
    → all solid t ≡ true
    → trim (c ∷ s ++ t) ≡ c ∷ s ++ t
unfolding trim
trim-append c s t h k a =
    ap (λ x. reverse (trim_start (reverse x))) (trim_start-head (s ++ t) c h)
    ∙ ap (λ x. reverse (trim_start x)) (reverse-append (c ∷ s) t)
    ∙ ap reverse (
        trim_start-append (reverse t) (reverse (c ∷ s)) (is_empty-reverse t k)
          (all-reverse solid t a)
        ∙ sym (reverse-append (c ∷ s) t))
    ∙ reverse-reverse (c ∷ s ++ t)

pub trim_start-space :
    (t : Text) → is_empty t ≡ false → all solid t ≡ true → trim_start (0x20 ∷ t) ≡ t
unfolding trim_start
trim_start-space [] h k = cc
trim_start-space (c ∷ t) h k = ground arith
