-- ===== src/Prelude/Results.antt =====
-- `Result<A, E>` of the source, with `?` as `do`.
use mathlib.Core.Bool.{Bool, true, false}
use mathlib.Core.Path.{◌≡◌, refl}
use mathlib.Core.Option.{Option, none, some}
use mathlib.Core.Logic.{◌⊎◌, inl, inr}

pub data Result {ℓ κ} (E : Type κ) (A : Type ℓ) : Type (ℓ ⊔ κ) where
  ok : A → Result E A
  err : E → Result E A

pub Result-cases {ℓ κ} :
    {E : Type κ} {A : Type ℓ} (m : Result E A) → ((a : A) × (m ≡ ok a)) ⊎ ((e : E) × (m ≡ err e))
Result-cases (ok a) = inl (a, refl)
Result-cases (err e) = inr (e, refl)

-- The operator `?`.
module _ {κ ℓ μ} {E : Type κ} {A : Type ℓ} {B : Type μ} where
  infixl 6 ◌>>=◌
  abbrev pub ◌>>=◌ : Result E A → (A → Result E B) → Result E B
  err failure >>= next = err failure
  ok value >>= next = next value

  -- Both steps of a chain that succeeds have succeeded.
  pub bind-eq-ok :
      (first : Result E A) (next : A → Result E B) {y : B}
      → first >>= next ≡ ok y
      → (x : A) × (first ≡ ok x) × (next x ≡ ok y)
  bind-eq-ok (err failure) next chain = cc
  bind-eq-ok (ok value) next chain = (value, refl, chain)

module _ {κ ℓ} {E : Type κ} {B : Type ℓ} where
  infixl 6 ◌>>◌
  abbrev pub ◌>>◌ : Result E (Unit {0}) → Result E B → Result E B
  first >> rest = first >>= λ _. rest

module _ {κ} {E : Type κ} where
  -- Goes on if the test holds, and fails with `e` if not.
  abbrev pub guard : Bool → E → Result E (Unit {0})
  guard true e = ok tt
  guard false e = err e

  pub guard-eq-ok : (b : Bool) (e : E) {u : Unit} → guard b e ≡ ok u → b ≡ true
  guard-eq-ok true e h = refl
  guard-eq-ok false e h = cc

module _ {ℓ κ} {E : Type κ} {A : Type ℓ} where
  abbrev pub ok_or : Option A → E → Result E A
  ok_or none e = err e
  ok_or (some a) e = ok a

  pub ok_or-eq-ok : (o : Option A) (e : E) {a : A} → ok_or o e ≡ ok a → o ≡ some a
  ok_or-eq-ok none e h = cc
  ok_or-eq-ok (some b) e h = cc

  pub ok-injective : {a b : A} → ◌≡◌ {A = Result E A} (ok a) (ok b) → a ≡ b
  ok-injective h = cc
