-- ===== src/Server/Routing/Slices.antt =====
-- `str::get(..n)` and `str::get(n..)`: a text split at a byte index that is a boundary of characters.
use lfs_cloud.Prelude.{
  ℕ, ◌+◌, ◌-◌, ◌≤◌, ◌≡◌, refl, subst, Option, none, some, [], ◌∷◌, ◌++◌, ◌==◌, leb, if◌then◌else◌,
  arith,
}
use lfs_cloud.Prelude.Text.{Text, len, len_utf8}

abbrev pub onto_prefix : ℕ → Option (Text × Text) → Option (Text × Text)
onto_prefix c none = none
onto_prefix c (some (s, t)) = some (c ∷ s, t)

unfoldable pub split_at_byte : ℕ → Text → Option (Text × Text)
split_at_byte n [] = if n == 0 then some ([], []) else none
split_at_byte n (c ∷ s) =
    let rest = split_at_byte (n - len_utf8 c) s in
    if n == 0 then some ([], c ∷ s) else if leb (len_utf8 c) n then onto_prefix c rest else none

len_utf8-pos : (c : ℕ) → 1 ≤ len_utf8 c
len_utf8-pos c = ground arith

drop_left : (a b : ℕ) → b ≡ a + b - a
drop_left a b = omega arith

pub split_at_byte-eq-some :
    (n : ℕ) (s t u : Text) → split_at_byte n s ≡ some (t, u) → (s ≡ t ++ u) × (len t ≡ n)
unfolding split_at_byte len
split_at_byte-eq-some n [] t u h = ground (arith)
split_at_byte-eq-some n (c ∷ s) [] u h = ground arith
split_at_byte-eq-some n (c ∷ s) (d ∷ t) u h =
    ground (arith, split_at_byte-eq-some (n - len_utf8 c) s t u)

pub split_at_byte-append : (s t : Text) → split_at_byte (len s) (s ++ t) ≡ some (s, t)
unfolding split_at_byte len
split_at_byte-append [] [] = refl
split_at_byte-append [] (c ∷ t) = refl
split_at_byte-append (c ∷ s) t =
    let rest : split_at_byte (len_utf8 c + len s - len_utf8 c) (s ++ t) ≡ some (s, t) =
      subst (λ n. split_at_byte n (s ++ t) ≡ some (s, t)) (drop_left (len_utf8 c) (len s))
        (split_at_byte-append s t) in
    rw rest (ground (arith, len_utf8-pos c))
