-- ===== src/Server/Staging/Slots.antt =====
-- What the user map of the staging coordinator keeps: one live semaphore to a principal, whose
-- permits and holders add up to the limit.
pub mod Moves
use lfs_cloud.Prelude.{
  ℕ, ◌+◌, ◌≤◌, ◌<◌, ◌≡◌, refl, subst, Bool, true, false, [], ◌∷◌, List, if◌then◌else◌, All, arith,
}
use lfs_cloud.Prelude.Text.{Text, text_eq, text_eq_iff, text_eq_refl}
use lfs_cloud.Server.Staging.Coordinator.{
  Semaphore, retain_alive, with_user, permits_of, upgrade, downgrade, take_permit, give_permit,
}

-- How many permits of the principal are held.
unfoldable pub strong_of : Text → List Semaphore → ℕ
strong_of p [] = 0
strong_of p (s ∷ slots) = if text_eq s.principal p then s.strong else strong_of p slots

abbrev pub one_if : Bool → ℕ
one_if b = if b then 1 else 0

-- No entry is the principal's.
abbrev pub IsFresh : Text → List Semaphore → Type 0
IsFresh p = All (λ (s : Semaphore). (text_eq s.principal p ≡ false))

abbrev pub IsUnique : List Semaphore → Type 0
IsUnique [] = Unit
IsUnique (s ∷ slots) = IsFresh s.principal slots × IsUnique slots

-- Permits that are free and permits that are held make up the limit.
abbrev pub IsBalanced : ℕ → List Semaphore → Type 0
IsBalanced limit = All (λ (s : Semaphore). (s.permits + s.strong ≡ limit))

pub strong_of-IsFresh :
    (p : Text) (slots : List Semaphore) → IsFresh p slots → strong_of p slots ≡ 0
unfolding strong_of
strong_of-IsFresh p [] h = refl
strong_of-IsFresh p (s ∷ slots) (h, hs) = rw h (strong_of-IsFresh p slots hs)

pub retain_alive-IsFresh :
    (p : Text) (slots : List Semaphore) → IsFresh p slots → IsFresh p (retain_alive slots)
unfolding retain_alive
retain_alive-IsFresh p [] h = tt
retain_alive-IsFresh p (s ∷ slots) (h, hs) = ground (arith, retain_alive-IsFresh p slots hs)

pub retain_alive-IsUnique :
    (slots : List Semaphore) → IsUnique slots → IsUnique (retain_alive slots)
unfolding retain_alive
retain_alive-IsUnique [] u = tt
retain_alive-IsUnique (s ∷ slots) (f, u) =
    ground (arith, retain_alive-IsUnique slots u, retain_alive-IsFresh s.principal slots f)

pub retain_alive-IsBalanced :
    (limit : ℕ) (slots : List Semaphore)
    → IsBalanced limit slots
    → IsBalanced limit (retain_alive slots)
unfolding retain_alive
retain_alive-IsBalanced limit [] b = tt
retain_alive-IsBalanced limit (s ∷ slots) (b, bs) =
    ground (arith, retain_alive-IsBalanced limit slots bs)

-- The purge of dead entries loses no held permit.
pub strong_of-retain_alive :
    (p : Text) (slots : List Semaphore)
    → IsUnique slots
    → strong_of p (retain_alive slots) ≡ strong_of p slots
unfolding retain_alive strong_of
strong_of-retain_alive p [] u = refl
strong_of-retain_alive p (s ∷ slots) (f, u) = ground (
  arith,
  strong_of-retain_alive p slots u,
  λ (e : text_eq s.principal p ≡ true).
      strong_of-IsFresh p slots (subst (λ x. IsFresh x slots) ((text_eq_iff s.principal p).0 e) f),
)

with_user-IsFresh :
    (limit : ℕ) (p q : Text) (slots : List Semaphore)
    → text_eq p q ≡ false
    → IsFresh q slots
    → IsFresh q (with_user limit p slots)
unfolding with_user
with_user-IsFresh limit p q [] ne h = (ne, tt)
with_user-IsFresh limit p q (s ∷ slots) ne (h, hs) =
    ground (arith, with_user-IsFresh limit p q slots ne hs)

pub with_user-IsUnique :
    (limit : ℕ) (p : Text) (slots : List Semaphore)
    → IsUnique slots
    → IsUnique (with_user limit p slots)
unfolding with_user
with_user-IsUnique limit p [] u = (tt, tt)
with_user-IsUnique limit p (s ∷ slots) (f, u) = ground (
  arith,
  with_user-IsUnique limit p slots u,
  λ (ne : text_eq p s.principal ≡ false). with_user-IsFresh limit p s.principal slots ne f,
  text_eq_iff s.principal p,
  text_eq_iff p s.principal,
)

pub with_user-IsBalanced :
    (limit : ℕ) (p : Text) (slots : List Semaphore)
    → IsBalanced limit slots
    → IsBalanced limit (with_user limit p slots)
unfolding with_user
with_user-IsBalanced limit p [] b = (omega arith, tt)
with_user-IsBalanced limit p (s ∷ slots) (b, bs) =
    ground (arith, with_user-IsBalanced limit p slots bs)

pub strong_of-with_user :
    (limit : ℕ) (p q : Text) (slots : List Semaphore)
    → strong_of q (with_user limit p slots) ≡ strong_of q slots
unfolding with_user strong_of
strong_of-with_user limit p q [] = ground arith
strong_of-with_user limit p q (s ∷ slots) = ground (arith, strong_of-with_user limit p q slots)

-- No principal holds more permits than its semaphore has.
pub strong_of-le :
    (limit : ℕ) (p : Text) (slots : List Semaphore)
    → IsBalanced limit slots
    → strong_of p slots ≤ limit
unfolding strong_of
strong_of-le limit p [] b = omega arith
strong_of-le limit p (s ∷ slots) (b, bs) = ground (arith, strong_of-le limit p slots bs)

-- The free permits of a principal are those that it does not hold.
pub permits_of-with_user :
    (limit : ℕ) (p : Text) (slots : List Semaphore)
    → IsBalanced limit slots
    → permits_of p (with_user limit p slots) + strong_of p slots ≡ limit
unfolding strong_of permits_of with_user
permits_of-with_user limit p [] b = ground (arith, text_eq_refl p)
permits_of-with_user limit p (s ∷ slots) (b, bs) =
    ground (arith, permits_of-with_user limit p slots bs)
