-- ===== src/Server/Staging/Acquiring.antt =====
-- `try_acquire` of src/server/staging.rs keeps the invariant.
use lfs_cloud.Prelude.{
  ℕ, ◌+◌, ◌-◌, ◌<◌, ◌≡◌, false, refl, none, ◌∷◌, List, ◌==◌, arith, Bool-cases, inl, inr,
}
use lfs_cloud.Prelude.Text.{Text}
use lfs_cloud.Server.Staging.Coordinator.{
  Semaphore, Reservations, Coordinator, Lease, new, try_acquire, permits_of, with_user,
  retain_alive, take_permit, upgrade, take_global, look_up_user, take_user, give_global,
}
use lfs_cloud.Server.Staging.Slots.{
  strong_of, retain_alive-IsUnique, retain_alive-IsBalanced, strong_of-retain_alive,
  with_user-IsUnique, with_user-IsBalanced, strong_of-with_user,
}
use lfs_cloud.Server.Staging.Slots.Moves.{
  take_permit-IsUnique, take_permit-IsBalanced, strong_of-take_permit, upgrade-IsUnique,
  strong_of-upgrade, permits_of-upgrade, downgrade-upgrade,
}
use lfs_cloud.Server.Staging.World.{
  World, step_acquire, start, count_of, total_bytes, count_reserved,
}
use lfs_cloud.Server.Staging.Invariant.{ReservationsOk, SlotsOk, IsConsistent}

module _ (gl pl min_free : ℕ) where
  pub IsConsistent-start : IsConsistent gl pl min_free (start gl pl)
  unfolding new count_of total_bytes strong_of
  IsConsistent-start = record {
    slots = record {
      permits = omega arith;
      limit = refl;
      unique = tt;
      balanced = tt;
      held = λ p. refl;
    };
    reservations = record { reserved = refl; snapshot = refl };
  }

  purged :
      (c : Coordinator) (leases : List Lease) (p : Text)
      → SlotsOk gl pl c leases
      → SlotsOk gl pl
          (record c {
            per_user_slots = with_user c.per_user_limit p (retain_alive c.per_user_slots);
          })
          leases
  purged c leases p s = record {
    permits = s.permits;
    limit = s.limit;
    unique =
        with_user-IsUnique c.per_user_limit p _ (retain_alive-IsUnique c.per_user_slots s.unique);
    balanced =
        rw (s.limit)
          (with_user-IsBalanced pl p _ (retain_alive-IsBalanced pl c.per_user_slots s.balanced));
    held = λ q.
        rw
          (
            strong_of-with_user c.per_user_limit p q (retain_alive c.per_user_slots),
            strong_of-retain_alive q c.per_user_slots s.unique,
          )
          (s.held q);
  }

  taken :
      (c : Coordinator) (leases : List Lease) (p : Text)
      → SlotsOk gl pl c leases
      → 0 < c.global_slots
      → 0 < permits_of p c.per_user_slots
      → SlotsOk gl pl
          (record c {
            global_slots = c.global_slots - 1;
            per_user_slots = take_permit p (upgrade p c.per_user_slots);
          })
          (record { principal = p; reservation = none } ∷ leases)
  unfolding count_of
  taken c leases p s g h = record {
    permits = omega (arith, s.permits);
    limit = s.limit;
    unique = take_permit-IsUnique p _ (upgrade-IsUnique p c.per_user_slots s.unique);
    balanced = take_permit-IsBalanced pl p c.per_user_slots h s.balanced;
    held = λ q. omega (
      arith,
      strong_of-take_permit p q (upgrade p c.per_user_slots),
      strong_of-upgrade p q c.per_user_slots h,
      s.held q,
    );
  }

  -- The global permit that a refused attempt gives back.
  regiven :
      (c : Coordinator) (slots : List Semaphore) (leases : List Lease)
      → (c.global_slots == 0) ≡ false
      → SlotsOk gl pl (record c { per_user_slots = slots }) leases
      → SlotsOk gl pl
          (record c { global_slots = c.global_slots - 1 + 1; per_user_slots = slots })
          leases
  regiven c slots leases room s = record {
    permits = ground (arith, s.permits);
    limit = s.limit;
    unique = s.unique;
    balanced = s.balanced;
    held = s.held;
  }

  unreserved :
      (r : Reservations) (leases : List Lease) (p : Text)
      → ReservationsOk min_free r leases
      → ReservationsOk min_free r (record { principal = p; reservation = none } ∷ leases)
  unfolding total_bytes count_reserved
  unreserved r leases p h = record {
    reserved = omega (arith, h.reserved);
    snapshot = ground (arith, h.snapshot);
  }

  pub step_acquire-IsConsistent :
      (w : World) (p : Text)
      → IsConsistent gl pl min_free w
      → IsConsistent gl pl min_free (step_acquire w p)
  unfolding try_acquire take_global look_up_user take_user give_global
  step_acquire-IsConsistent w p h =
      let c = w.coordinator in
      let slots = with_user c.per_user_limit p (retain_alive c.per_user_slots) in
      let looked_up = purged c w.leases p h.slots in
      let same = permits_of-upgrade p p slots in
      elim (Bool-cases (c.global_slots == 0)) [
        | inl full ↦ rw full h
        | inr room ↦ elim (Bool-cases (permits_of p slots == 0)) [
          | inl spent ↦
              rw (room, same, spent, downgrade-upgrade p slots)
                (record {
                  slots = regiven c slots w.leases room looked_up;
                  reservations = h.reservations;
                })
          | inr free ↦
              rw (room, same, free)
                (record {
                  slots = taken _ w.leases p looked_up (ground arith) (ground arith);
                  reservations = unreserved c.reservations w.leases p h.reservations;
                })
        ]
      ]
