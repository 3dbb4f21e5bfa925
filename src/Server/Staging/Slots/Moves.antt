-- ===== src/Server/Staging/Slots/Moves.antt =====
-- What an attempt and a lease of src/server/staging.rs do to the user map: the permits of a principal
-- that are held, when one of them is taken or given back.
use lfs_cloud.Prelude.{ℕ, ◌+◌, ◌<◌, ◌≡◌, refl, [], ◌∷◌, List, arith}
use lfs_cloud.Prelude.Text.{Text, text_eq, text_eq_iff}
use lfs_cloud.Server.Staging.Coordinator.{
  Semaphore, permits_of, upgrade, downgrade, take_permit, give_permit,
}
use lfs_cloud.Server.Staging.Slots.{strong_of, one_if, IsFresh, IsUnique, IsBalanced}

upgrade-IsFresh :
    (p q : Text) (slots : List Semaphore) → IsFresh q slots → IsFresh q (upgrade p slots)
unfolding upgrade
upgrade-IsFresh p q [] h = tt
upgrade-IsFresh p q (s ∷ slots) (h, hs) = ground (arith, upgrade-IsFresh p q slots hs)

pub upgrade-IsUnique :
    (p : Text) (slots : List Semaphore) → IsUnique slots → IsUnique (upgrade p slots)
unfolding upgrade
upgrade-IsUnique p [] u = tt
upgrade-IsUnique p (s ∷ slots) (f, u) =
    ground (arith, upgrade-IsUnique p slots u, upgrade-IsFresh p s.principal slots f)

take_permit-IsFresh :
    (p q : Text) (slots : List Semaphore) → IsFresh q slots → IsFresh q (take_permit p slots)
unfolding take_permit
take_permit-IsFresh p q [] h = tt
take_permit-IsFresh p q (s ∷ slots) (h, hs) = ground (arith, take_permit-IsFresh p q slots hs)

pub take_permit-IsUnique :
    (p : Text) (slots : List Semaphore) → IsUnique slots → IsUnique (take_permit p slots)
unfolding take_permit
take_permit-IsUnique p [] u = tt
take_permit-IsUnique p (s ∷ slots) (f, u) =
    ground (arith, take_permit-IsUnique p slots u, take_permit-IsFresh p s.principal slots f)

-- A refused attempt leaves the map as it was after the look-up.
pub downgrade-upgrade : (p : Text) (slots : List Semaphore) → downgrade p (upgrade p slots) ≡ slots
unfolding downgrade upgrade
downgrade-upgrade p [] = refl
downgrade-upgrade p (s ∷ slots) = ground (arith, downgrade-upgrade p slots)

pub permits_of-upgrade :
    (p q : Text) (slots : List Semaphore) → permits_of q (upgrade p slots) ≡ permits_of q slots
unfolding permits_of upgrade
permits_of-upgrade p q [] = refl
permits_of-upgrade p q (s ∷ slots) = ground (arith, permits_of-upgrade p q slots)

-- A permit that is there to take is counted as held.
pub take_permit-IsBalanced :
    (limit : ℕ) (p : Text) (slots : List Semaphore)
    → 0 < permits_of p slots
    → IsBalanced limit slots
    → IsBalanced limit (take_permit p (upgrade p slots))
unfolding take_permit permits_of upgrade
take_permit-IsBalanced limit p [] h b = tt
take_permit-IsBalanced limit p (s ∷ slots) h (b, bs) =
    ground (arith, λ (g : 0 < permits_of p slots). take_permit-IsBalanced limit p slots g bs)

pub strong_of-take_permit :
    (p q : Text) (slots : List Semaphore) → strong_of q (take_permit p slots) ≡ strong_of q slots
unfolding take_permit strong_of
strong_of-take_permit p q [] = refl
strong_of-take_permit p q (s ∷ slots) = ground (arith, strong_of-take_permit p q slots)

pub strong_of-upgrade :
    (p q : Text) (slots : List Semaphore)
    → 0 < permits_of p slots
    → strong_of q (upgrade p slots) ≡ strong_of q slots + one_if (text_eq p q)
unfolding upgrade permits_of strong_of
strong_of-upgrade p q [] h = absurd (omega arith)
strong_of-upgrade p q (s ∷ slots) h = ground (
  arith,
  strong_of-upgrade p q slots,
  text_eq_iff s.principal p,
  text_eq_iff s.principal q,
  text_eq_iff p q,
)

give_permit-IsFresh :
    (p q : Text) (slots : List Semaphore) → IsFresh q slots → IsFresh q (give_permit p slots)
unfolding give_permit
give_permit-IsFresh p q [] h = tt
give_permit-IsFresh p q (s ∷ slots) (h, hs) = ground (arith, give_permit-IsFresh p q slots hs)

pub give_permit-IsUnique :
    (p : Text) (slots : List Semaphore) → IsUnique slots → IsUnique (give_permit p slots)
unfolding give_permit
give_permit-IsUnique p [] u = tt
give_permit-IsUnique p (s ∷ slots) (f, u) =
    ground (arith, give_permit-IsUnique p slots u, give_permit-IsFresh p s.principal slots f)

pub give_permit-IsBalanced :
    (limit : ℕ) (p : Text) (slots : List Semaphore)
    → 0 < strong_of p slots
    → IsBalanced limit slots
    → IsBalanced limit (give_permit p slots)
unfolding give_permit strong_of
give_permit-IsBalanced limit p [] h b = tt
give_permit-IsBalanced limit p (s ∷ slots) h (b, bs) =
    ground (arith, λ (g : 0 < strong_of p slots). give_permit-IsBalanced limit p slots g bs)

pub strong_of-give_permit :
    (p q : Text) (slots : List Semaphore)
    → 0 < strong_of p slots
    → strong_of q (give_permit p slots) + one_if (text_eq p q) ≡ strong_of q slots
unfolding give_permit strong_of
strong_of-give_permit p q [] h = absurd (omega arith)
strong_of-give_permit p q (s ∷ slots) h = ground (
  arith,
  strong_of-give_permit p q slots,
  text_eq_iff s.principal p,
  text_eq_iff s.principal q,
  text_eq_iff p q,
)
