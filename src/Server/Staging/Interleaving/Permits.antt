-- ===== src/Server/Staging/Interleaving/Permits.antt =====
-- What each atomic step of src/server/staging.rs does to the free permits and the holders of the
-- semaphore of a principal, when attempts may have looked it up that hold no permit yet.
use lfs_cloud.Prelude.{
  ℕ, ◌+◌, ◌<◌, ◌≡◌, refl, subst, true, [], ◌∷◌, List, ◌==◌, if◌then◌else◌, arith,
}
use lfs_cloud.Prelude.Text.{Text, text_eq, text_eq_iff, text_eq_refl}
use lfs_cloud.Server.Staging.Coordinator.{
  Semaphore, retain_alive, with_user, permits_of, upgrade, downgrade, take_permit, give_permit,
}
use lfs_cloud.Server.Staging.Slots.{
  strong_of, one_if, IsFresh, IsUnique, strong_of-IsFresh, retain_alive-IsFresh,
}

-- The permits that the principal can still take; without an entry, those of a new semaphore.
unfoldable pub free_of : ℕ → Text → List Semaphore → ℕ
free_of limit p [] = limit
free_of limit p (s ∷ slots) = if text_eq s.principal p then s.permits else free_of limit p slots

free_of-IsFresh :
    (limit : ℕ) (p : Text) (slots : List Semaphore)
    → IsFresh p slots
    → free_of limit p slots ≡ limit
unfolding free_of
free_of-IsFresh limit p [] h = refl
free_of-IsFresh limit p (s ∷ slots) (h, hs) = rw h (free_of-IsFresh limit p slots hs)

-- The purge forgets a semaphore that nobody holds.
pub free_of-retain_alive :
    (limit : ℕ) (p : Text) (slots : List Semaphore)
    → IsUnique slots
    → free_of limit p (retain_alive slots)
      ≡ (if strong_of p slots == 0 then limit else free_of limit p slots)
unfolding retain_alive strong_of free_of
free_of-retain_alive limit p [] u = refl
free_of-retain_alive limit p (s ∷ slots) (f, u) = ground (
  arith,
  free_of-retain_alive limit p slots u,
  (λ (e : text_eq s.principal p ≡ true). free_of-IsFresh limit p (retain_alive slots) (
      retain_alive-IsFresh p slots
        (subst (λ x. IsFresh x slots) ((text_eq_iff s.principal p).0 e) f))),
  λ (e : text_eq s.principal p ≡ true).
      strong_of-IsFresh p slots (subst (λ x. IsFresh x slots) ((text_eq_iff s.principal p).0 e) f),
)

pub free_of-looked_up :
    (limit : ℕ) (p q : Text) (slots : List Semaphore)
    → free_of limit q (upgrade p (with_user limit p slots)) ≡ free_of limit q slots
unfolding upgrade with_user free_of
free_of-looked_up limit p q [] = ground (arith, text_eq_refl p)
free_of-looked_up limit p q (s ∷ slots) = ground (arith, free_of-looked_up limit p q slots)

pub strong_of-looked_up :
    (limit : ℕ) (p q : Text) (slots : List Semaphore)
    → strong_of q (upgrade p (with_user limit p slots)) ≡ strong_of q slots + one_if (text_eq p q)
unfolding upgrade with_user strong_of
strong_of-looked_up limit p q [] = ground (arith, text_eq_refl p)
strong_of-looked_up limit p q (s ∷ slots) = ground (
  arith,
  strong_of-looked_up limit p q slots,
  text_eq_iff s.principal p,
  text_eq_iff s.principal q,
  text_eq_iff p q,
)

downgrade-IsFresh :
    (p q : Text) (slots : List Semaphore) → IsFresh q slots → IsFresh q (downgrade p slots)
unfolding downgrade
downgrade-IsFresh p q [] h = tt
downgrade-IsFresh p q (s ∷ slots) (h, hs) = ground (arith, downgrade-IsFresh p q slots hs)

pub downgrade-IsUnique :
    (p : Text) (slots : List Semaphore) → IsUnique slots → IsUnique (downgrade p slots)
unfolding downgrade
downgrade-IsUnique p [] u = tt
downgrade-IsUnique p (s ∷ slots) (f, u) =
    ground (arith, downgrade-IsUnique p slots u, downgrade-IsFresh p s.principal slots f)

pub free_of-downgrade :
    (limit : ℕ) (p q : Text) (slots : List Semaphore)
    → free_of limit q (downgrade p slots) ≡ free_of limit q slots
unfolding downgrade free_of
free_of-downgrade limit p q [] = refl
free_of-downgrade limit p q (s ∷ slots) = ground (arith, free_of-downgrade limit p q slots)

pub strong_of-downgrade :
    (p q : Text) (slots : List Semaphore)
    → 0 < strong_of p slots
    → strong_of q (downgrade p slots) + one_if (text_eq p q) ≡ strong_of q slots
unfolding downgrade strong_of
strong_of-downgrade p q [] h = absurd (omega arith)
strong_of-downgrade p q (s ∷ slots) h = ground (
  arith,
  strong_of-downgrade p q slots,
  text_eq_iff s.principal p,
  text_eq_iff s.principal q,
  text_eq_iff p q,
)

pub free_of-take_permit :
    (limit : ℕ) (p q : Text) (slots : List Semaphore)
    → 0 < permits_of p slots
    → free_of limit q (take_permit p slots) + one_if (text_eq p q) ≡ free_of limit q slots
unfolding take_permit permits_of free_of
free_of-take_permit limit p q [] h = absurd (omega arith)
free_of-take_permit limit p q (s ∷ slots) h = ground (
  arith,
  free_of-take_permit limit p q slots,
  text_eq_iff s.principal p,
  text_eq_iff s.principal q,
  text_eq_iff p q,
)

pub free_of-give_permit :
    (limit : ℕ) (p q : Text) (slots : List Semaphore)
    → 0 < strong_of p slots
    → free_of limit q (give_permit p slots) ≡ free_of limit q slots + one_if (text_eq p q)
unfolding give_permit strong_of free_of
free_of-give_permit limit p q [] h = absurd (omega arith)
free_of-give_permit limit p q (s ∷ slots) h = ground (
  arith,
  free_of-give_permit limit p q slots,
  text_eq_iff s.principal p,
  text_eq_iff s.principal q,
  text_eq_iff p q,
)

-- A semaphore that somebody holds is in the map.
pub permits_of-free :
    (limit : ℕ) (p : Text) (slots : List Semaphore)
    → 0 < strong_of p slots
    → permits_of p slots ≡ free_of limit p slots
unfolding permits_of strong_of free_of
permits_of-free limit p [] h = absurd (omega arith)
permits_of-free limit p (s ∷ slots) h = ground (arith, permits_of-free limit p slots)
